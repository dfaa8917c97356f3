-- ===== src/Replay/Driven.antt =====
-- A run drives its exchange only by the exchange's calls.
use candlepilot.Prelude.{
  ◌<ℤ◌, pos, ℕ, String, Option, none, some, List, [], ◌∷◌, ◌≡◌, refl, if_branches, lookup, not,
}
use candlepilot.Prelude.Assoc.{Dict}
use candlepilot.Time.{Datetime}
use candlepilot.Outcome.{require, key_error}
use candlepilot.Outcome.Returns.{each-Returns, Returns, value-Returns, chain-Returns}
use candlepilot.Domain.{OrderPlan, TradeIntent, is_hold}
use candlepilot.Risk.{RiskEvaluation}
use candlepilot.Risk.Evaluate.{evaluate}
use candlepilot.Risk.Orders.{evaluate-quantity_pos}
use candlepilot.Backtest.{Candle, SimulatedExchange}
use candlepilot.Backtest.Exchange.{execute, activate_scheduled, settle_candle, has_pending}
use candlepilot.Backtest.Account.{portfolio_state, equity}
use candlepilot.Backtest.Steps.{executed, activated, settled, observed, Reachable, later}
use candlepilot.Replay.{BacktestRunner, RunState, BacktestDecision, ProviderResult}
use candlepilot.Replay.Settle.{
  settle_each, settle_candles, settle_until, settle_all, slice, first_open, count_closed, marks_at,
  next_candle,
}
use candlepilot.Replay.Report.{report, note_equity, live_time}
use candlepilot.Replay.Decide.{
  BatchItem, conclude, place, act_on, usable_candle, rules_for, trade, decide, decide_all, counted,
  with_exchange,
}

-- The exchange of the run, and the one that it would go back to.
pub record Driven (first : SimulatedExchange) (st : RunState) : Type 0 where
  pub now : Reachable first st.exchange
  pub kept : Reachable first st.last_success_exchange

module _ (first : SimulatedExchange) where
  abbrev pub DrivenExchange {ℓ} : {B : Type ℓ} → SimulatedExchange × B → Type 0
  DrivenExchange both = Reachable first both.0

  activate_scheduled-Driven :
      (e : SimulatedExchange) (symbol : String) (through : Datetime)
      → Reachable first e
      → Returns (Reachable first) (activate_scheduled e symbol through)
  activate_scheduled-Driven e symbol through h =
      each-Returns (Reachable first) (activate_scheduled e symbol through)
        (λ after run. later e after h (activated symbol through run))

  settle_each-Driven :
      (candles : List Candle) (e : SimulatedExchange) (symbol : String)
      → Reachable first e
      → Returns (Reachable first) (settle_each e symbol candles)
  unfolding settle_each
  settle_each-Driven [] e symbol h = h
  settle_each-Driven (c ∷ cs) e symbol h =
      chain-Returns (Reachable first) (Reachable first) (activate_scheduled e symbol c.timestamp) _
        (activate_scheduled-Driven e symbol c.timestamp h)
        (λ active k. value-Returns (Reachable first) (settle_candle active symbol c) _ (λ after run.
          settle_each-Driven cs after symbol (later active after k (settled symbol c run))))

  settle_candles-Driven :
      (candles : List Candle) (start : Datetime) (e : SimulatedExchange) (symbol : String)
      (through : Datetime) (settled_next : Dict ℕ)
      → Reachable first e
      → Returns DrivenExchange (settle_candles candles start e symbol through settled_next)
  unfolding settle_candles
  settle_candles-Driven candles start e symbol through settled_next h =
      let due =
        slice (first_open (lookup symbol settled_next) candles start) (count_closed candles through)
          candles in
      chain-Returns DrivenExchange (Reachable first) (settle_each e symbol due) _
        (settle_each-Driven due e symbol h)
        (λ after k.
          chain-Returns DrivenExchange (Reachable first) (activate_scheduled after symbol through) _
            (activate_scheduled-Driven after symbol through k) (λ active g. g))

  module _ (r : BacktestRunner) where
    settle_until-Driven :
        (e : SimulatedExchange) (symbol : String) (through : Datetime) (settled_next : Dict ℕ)
        → Reachable first e
        → Returns DrivenExchange (settle_until r e symbol through settled_next)
    unfolding settle_until
    settle_until-Driven e symbol through settled_next h =
        value-Returns DrivenExchange (require (lookup symbol r.series) (key_error symbol)) _
          (λ candles _. settle_candles-Driven candles r.spec.start e symbol through settled_next h)

    pub settle_all-Driven :
        (symbols : List String) (e : SimulatedExchange) (through : Datetime) (settled_next : Dict ℕ)
        → Reachable first e
        → Returns DrivenExchange (settle_all r symbols e through settled_next)
    unfolding settle_all
    settle_all-Driven [] e through settled_next h = h
    settle_all-Driven (symbol ∷ symbols) e through settled_next h =
        chain-Returns DrivenExchange DrivenExchange (settle_until r e symbol through settled_next) _
          (settle_until-Driven e symbol through settled_next h)
          (λ both k. settle_all-Driven symbols both.0 through both.1 k)

    pub report-Driven :
        (st : RunState) (entry : BacktestDecision)
        → Driven first st
        → Returns (Driven first) (report r st entry)
    unfolding report
    report-Driven st entry h =
        let live_at = live_time r st.progress entry in
        value-Returns (Driven first)
          (portfolio_state st.exchange (marks_at r live_at) (some live_at)) _
          (λ both run. record {
            now =
                later st.exchange both.0 h.now
                  (observed (marks_at r live_at) (some live_at) both.1 run);
            kept = h.kept;
          })

    conclude-Driven :
        (st : RunState) (now : Datetime) (entry : BacktestDecision)
        → Driven first st
        → Returns (Driven first) (conclude r st now entry)
    unfolding conclude note_equity
    conclude-Driven st now entry h =
        chain-Returns (Driven first) (Driven first) (note_equity r st now) _
          (value-Returns (Driven first) (equity st.exchange (marks_at r now)) _
            (λ worth _. record { now = h.now; kept = h.kept }))
          (λ noted k. report-Driven noted entry k)

    place-Driven :
        (candle : Option Candle) (st : RunState) (now : Datetime) (entry : BacktestDecision)
        (order : OrderPlan) (leverage : ℕ)
        → pos 0 <ℤ order.quantity
        → Driven first st
        → Returns (Driven first) (place candle r st now entry order leverage)
    place-Driven none st now entry order leverage size h = report-Driven st _ h
    place-Driven (some candle) st now entry order leverage size h =
        value-Returns (Driven first) (execute st.exchange order candle leverage (some now)) _
          (λ both run. conclude-Driven (with_exchange st both.0) now _ (record {
            now =
                later st.exchange both.0 h.now
                  (executed order candle leverage (some now) both.1 size run);
            kept = h.kept;
          }))

    act_on-Driven :
        (planned : Option OrderPlan) (ev : RiskEvaluation) (st : RunState) (now : Datetime)
        (symbol : String) (entry : BacktestDecision) (leverage : ℕ)
        → ((o : OrderPlan) → planned ≡ some o → pos 0 <ℤ o.quantity)
        → Driven first st
        → Returns (Driven first) (act_on planned ev r st now symbol entry leverage)
    act_on-Driven none ev st now symbol entry leverage sizes h = conclude-Driven st now _ h
    act_on-Driven (some order) ev st now symbol entry leverage sizes h =
        if_branches (Returns (Driven first)) (not ev.decision.accepted)
          (λ _. conclude-Driven st now _ h)
          (λ _.
            value-Returns (Driven first) (require (lookup symbol r.series) (key_error symbol)) _
              (λ candles _.
                place-Driven (usable_candle (next_candle candles now) r.spec.end) st now entry order
                  leverage (sizes order refl) h))

    trade-Driven :
        (st : RunState) (now : Datetime) (item : BatchItem) (entry : BacktestDecision)
        (intent : TradeIntent)
        → Driven first st
        → Returns (Driven first) (trade r st now item entry intent)
    unfolding trade
    trade-Driven st now item entry intent h =
        let id = r.fresh_id st.progress.decisions_done in
        value-Returns (Driven first) (portfolio_state st.exchange (marks_at r now) (some now)) _
          (λ both run.
            value-Returns (Driven first) (rules_for item.input r item.snapshot.symbol) _ (λ rules _.
              value-Returns (Driven first)
                (evaluate r.risk id intent item.snapshot both.1 rules now) _
                (λ ev judged.
                  act_on-Driven ev.order ev (with_exchange st both.0) now item.snapshot.symbol entry
                    intent.leverage
                    (λ o at.
                      evaluate-quantity_pos r.risk id intent item.snapshot both.1 rules now ev o
                        judged at)
                    (record {
                      now =
                          later st.exchange both.0 h.now
                            (observed (marks_at r now) (some now) both.1 run);
                      kept = h.kept;
                    }))))

    decide-Driven :
        (st : RunState) (now : Datetime) (item : BatchItem) (result : ProviderResult)
        → Driven first st
        → Returns (Driven first) (decide r st now item result)
    unfolding decide
    decide-Driven st now item result h =
        let k : Driven first (counted st now result) = record { now = h.now; kept = h.kept } in
        if_branches (Returns (Driven first)) (is_hold result.intent.action)
          (λ _. conclude-Driven (counted st now result) now _ k)
          (λ _.
            if_branches (Returns (Driven first)) (has_pending st.exchange item.snapshot.symbol)
              (λ _. conclude-Driven (counted st now result) now _ k)
              (λ _. trade-Driven (counted st now result) now item _ result.intent k))

    pub decide_all-Driven :
        (st : RunState) (now : Datetime) (items : List BatchItem) (results : List ProviderResult)
        → Driven first st
        → Returns (Driven first) (decide_all r st now items results)
    unfolding decide_all
    decide_all-Driven st now [] [] h = h
    decide_all-Driven st now (item ∷ items) (result ∷ results) h =
        chain-Returns (Driven first) (Driven first) (decide r st now item result) _
          (decide-Driven st now item result h)
          (λ after k. decide_all-Driven after now items results k)
    decide_all-Driven st now [] (result ∷ results) h = tt
    decide_all-Driven st now (item ∷ items) [] h = tt
