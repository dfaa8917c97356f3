-- ===== src/Replay/Ended.antt =====
-- What a whole run leaves of its exchange.
use candlepilot.Prelude.{
  ap, pos, ◌++◌, ℕ, Bool, true, false, none, some, List, [], ◌∷◌, ◌≡◌, refl, if_branches, length,
}
use candlepilot.Prelude.Assoc.{Dict, AllItems, Distinct}
use candlepilot.Time.{Datetime}
use candlepilot.Outcome.{Result, ok, err, assertion_error}
use candlepilot.Outcome.Returns.{both-Returns, Returns, value-Returns, chain-Returns}
use candlepilot.Domain.{MarketSnapshot, PortfolioState}
use candlepilot.Decimal.{Decimal, max, dec, add}
use candlepilot.Backtest.Window.{last}
use candlepilot.Trailing.Manager.{sorted_items}
use candlepilot.Backtest.{Position, SimulatedExchange}
use candlepilot.Backtest.Exchange.{close_all, symbols_of}
use candlepilot.Backtest.Account.{
  portfolio_of, Marked, valid_portfolio, mark_positions, start, portfolio_state, equity,
}
use candlepilot.Backtest.Summary.{BacktestResult, summarize}
use candlepilot.Backtest.Sound.{Sound}
use mathlib.Core.Path.{subst⁻¹}
use candlepilot.Backtest.Observed.{valid_portfolio-same}
use candlepilot.Backtest.Settled.{close_all-Sound}
use candlepilot.Backtest.Close.{Flat, close_all-Flat}
use candlepilot.Backtest.Steps.{
  Reachable, initial, later, observed, reachable-Sound, inherited_positions, inherited_cooldowns,
  PositiveQuantity,
}
use candlepilot.Replay.{Decimal, Detail, unavailable, BacktestRunner, RunState, ProviderResult}
use candlepilot.Replay.Report.{report}
use candlepilot.Replay.Settle.{marks_at, settle_all}
use candlepilot.Replay.Decide.{BatchItem, decide_all}
use candlepilot.Replay.Schedule.{Slot, schedule}
use candlepilot.Replay.Batch.{
  take_in, collect, snapshot_for, recorded, is_value_error, settle_answer, report_failed, give_up,
  max_attempts, infer, infer_some, attempt, with_attempts, with_calls,
}
use candlepilot.Replay.Run.{
  run, run_batch, run_batches, finish, settle_rest, settle_new_time, time_of, is_new_time,
  unless_broken, first_state, start_time, effective_end,
}
use candlepilot.Replay.Driven.{
  Driven, DrivenExchange, settle_all-Driven, report-Driven, decide_all-Driven,
}

module _ (first : SimulatedExchange) (r : BacktestRunner) where
  abbrev DrivenState {ℓ} : {B : Type ℓ} → RunState × B → Type 0
  DrivenState both = Driven first both.0

  take_in-Driven :
      (snapshot : Result MarketSnapshot) (st : RunState) (slot : Slot) (items : List BatchItem)
      → Driven first st
      → Returns DrivenState (take_in snapshot r st slot items)
  take_in-Driven (ok snapshot) st slot items h = h
  take_in-Driven (err problem) st slot items h =
      if_branches (Returns DrivenState) (is_value_error problem)
        (λ _.
          chain-Returns DrivenState (Driven first) _ _
            (report-Driven first r _ _ (record { now = h.now; kept = h.kept })) (λ after k. k))
        (λ _. tt)

  collect-Driven :
      (slots : List Slot) (st : RunState) (items : List BatchItem)
      → Driven first st
      → Returns DrivenState (collect r st slots items)
  unfolding collect
  collect-Driven [] st items h = h
  collect-Driven (slot ∷ slots) st items h =
      chain-Returns DrivenState DrivenState
        (take_in (snapshot_for (recorded slot r.replay_snapshots) r slot) r st slot items) _
        (take_in-Driven (snapshot_for (recorded slot r.replay_snapshots) r slot) st slot items h)
        (λ both k. collect-Driven slots both.0 both.1 k)

  report_failed-Driven :
      (items : List BatchItem) (st : RunState) (detail : Detail)
      → Driven first st
      → Returns (Driven first) (report_failed r st detail items)
  unfolding report_failed
  report_failed-Driven [] st detail h = h
  report_failed-Driven (i ∷ items) st detail h =
      chain-Returns (Driven first) (Driven first) (report r st _) _ (report-Driven first r st _ h)
        (λ after k. report_failed-Driven items after detail k)

  settle_answer-Driven :
      (answer : Result (List ProviderResult)) (st : RunState) (now : Datetime)
      (items : List BatchItem)
      → Driven first st
      → Returns DrivenState (settle_answer answer r st now items)
  settle_answer-Driven (ok results) st now items h =
      chain-Returns DrivenState (Driven first) (decide_all r st now items results) _
        (decide_all-Driven first r st now items results h)
        (λ after k. record { now = k.now; kept = k.now })
  settle_answer-Driven (err problem) st now items h =
      let detail = unavailable (max_attempts r) problem in
      chain-Returns DrivenState (Driven first)
        (report_failed r (give_up st (length items) detail) detail items) _
        (report_failed-Driven items (give_up st (length items) detail) detail
          (record { now = h.kept; kept = h.kept }))
        (λ after k. k)

  infer_some-Driven :
      (items : List BatchItem) (st : RunState) (now : Datetime)
      → Driven first st
      → Returns DrivenState (infer_some items r st now)
  unfolding infer
  infer_some-Driven [] st now h = h
  infer_some-Driven (i ∷ items) st now h =
      value-Returns DrivenState (portfolio_state st.exchange (marks_at r now) (some now)) _
        (λ both seen.
          let tried = attempt (max_attempts r) r (i ∷ items) both.1 st.calls 0 assertion_error in
          settle_answer-Driven tried.answer (with_calls st both.0 tried.calls) now
            (with_attempts tried.made (i ∷ items))
            (record {
              now =
                  later st.exchange both.0 h.now (observed (marks_at r now) (some now) both.1 seen);
              kept = h.kept;
            }))

  settle_new_time-Driven :
      (st : RunState) (now : Datetime)
      → Driven first st
      → Returns (Driven first) (settle_new_time r st now)
  unfolding settle_new_time
  settle_new_time-Driven st now h =
      let symbols = symbols_of (sorted_items r.series) in
      if_branches (Returns (Driven first)) (is_new_time st.settled_through now)
        (λ _.
          chain-Returns (Driven first) (DrivenExchange first)
            (settle_all r symbols st.exchange now st.settled_next) _
            (settle_all-Driven first r symbols st.exchange now st.settled_next h.now)
            (λ both k. record { now = k; kept = h.kept }))
        (λ _. h)

  run_batch-Driven :
      (st : RunState) (slots : List Slot)
      → Driven first st
      → Returns DrivenState (run_batch r st slots)
  unfolding run_batch
  run_batch-Driven st slots h = value-Returns DrivenState (time_of slots) _ (λ now _.
      chain-Returns DrivenState (Driven first) (settle_new_time r st now) _
        (settle_new_time-Driven st now h)
        (λ after k.
          chain-Returns DrivenState DrivenState (collect r after slots []) _
            (collect-Driven slots after [] k) (λ both g. infer_some-Driven both.1 both.0 now g)))

  unless_broken-Driven :
      (goes_on : Bool) (onward : Result RunState) (st : RunState)
      → Returns (Driven first) onward
      → Driven first st
      → Returns (Driven first) (unless_broken goes_on onward st)
  unless_broken-Driven true onward st k h = k
  unless_broken-Driven false onward st k h = h

  run_batches-Driven :
      (batches : List (List Slot)) (st : RunState)
      → Driven first st
      → Returns (Driven first) (run_batches r st batches)
  unfolding run_batches
  run_batches-Driven [] st h = h
  run_batches-Driven (b ∷ batches) st h =
      chain-Returns (Driven first) DrivenState (run_batch r st b) _ (run_batch-Driven st b h)
        (λ both k.
          unless_broken-Driven both.1 (run_batches r both.0 batches) both.0
            (run_batches-Driven batches both.0 k) k)

  settle_rest-Driven :
      (st : RunState) (end : Datetime)
      → Driven first st
      → Returns (Reachable first) (settle_rest r st end)
  unfolding settle_rest
  settle_rest-Driven st end h =
      if_branches (Returns (Reachable first)) st.progress.provider_failed (λ _. h.now)
        (λ _.
          chain-Returns (Reachable first) (DrivenExchange first)
            (settle_all r r.spec.symbols st.exchange end st.settled_next) _
            (settle_all-Driven first r r.spec.symbols st.exchange end st.settled_next h.now)
            (λ both k. k))

-- The end of a run.
pub record Finished (inherited : Dict Datetime) (r : BacktestRunner)
    (both : RunState × BacktestResult) : Type 0 where
  pub sound : Sound inherited both.0.exchange
  pub flat : Flat both.0.exchange
  pub its_trades : both.1.trades ≡ both.0.exchange.trades
  pub its_curve : both.1.equity_curve ≡ both.0.curve
  pub all_cash : both.1.final_equity ≡ max (dec 1 8) (add both.0.exchange.cash (pos 0))

marks_nothing :
    (d : Dict Position) (m n : Marked)
    → d ≡ []
    → mark_positions [] d m ≡ ok n
    → n.unrealized ≡ m.unrealized
unfolding mark_positions
marks_nothing [] m n e run = cc
marks_nothing (x ∷ d) m n e run = absurd (cc)

-- The equity of a flat exchange.
abbrev CashOnly : SimulatedExchange → Decimal → Type 0
CashOnly e worth = worth ≡ max (dec 1 8) (add e.cash (pos 0))

flat_equity : (e : SimulatedExchange) → e.positions ≡ [] → Returns (CashOnly e) (equity e [])
unfolding equity portfolio_state
flat_equity e none_held =
    let zero_marks : Marked = record { unrealized = pos 0; margin_used = pos 0; states = [] } in
    let Goal = λ (both : SimulatedExchange × PortfolioState). CashOnly e both.1.equity in
    chain-Returns (CashOnly e) Goal (portfolio_state e [] none) _
      (value-Returns Goal (mark_positions [] e.positions zero_marks) _ (λ m run.
        let no_gain : m.unrealized ≡ pos 0 = marks_nothing e.positions zero_marks m none_held run in
        chain-Returns Goal
          (λ (q : PortfolioState).
            q ≡ portfolio_of e none m (add e.cash m.unrealized) e.equity_window)
          (valid_portfolio (portfolio_of e none m (add e.cash m.unrealized) e.equity_window)) _
          (valid_portfolio-same (portfolio_of e none m (add e.cash m.unrealized) e.equity_window))
          (λ p same.
            subst⁻¹ (λ (q : PortfolioState). CashOnly e q.equity) same
              (ap (λ (gain : Decimal). max (dec 1 8) (add e.cash gain)) no_gain))))
      (λ both h. h)

last_appended : {A : Type 0} (xs : List A) (x : A) → last (xs ++ x ∷ []) ≡ some x
last_appended [] x = refl
last_appended (y ∷ []) x = refl
last_appended (y ∷ z ∷ xs) x = last_appended (z ∷ xs) x

module _ (r : BacktestRunner) (inherited : Dict Datetime) (first : SimulatedExchange) where
  finish-Finished :
      (st : RunState)
      → Driven first st
      → ((e : SimulatedExchange) → Reachable first e → Sound inherited e)
      → Returns (Finished inherited r) (finish r st)
  unfolding finish summarize
  finish-Finished st driven sound =
      let end = effective_end r st.progress in
      let Closed = λ (both : SimulatedExchange × ℕ). Sound inherited both.0 × Flat both.0 in
      chain-Returns (Finished inherited r) (Reachable first) (settle_rest r st end) _
        (settle_rest-Driven first r st end driven)
        (λ e path.
          chain-Returns (Finished inherited r) Closed (close_all e (marks_at r end) end) _
            (both-Returns (λ (both : SimulatedExchange × ℕ). Sound inherited both.0)
              (λ (both : SimulatedExchange × ℕ). Flat both.0) (close_all e (marks_at r end) end)
              (close_all-Sound inherited e (marks_at r end) end (sound e path))
              (close_all-Flat (marks_at r end) end inherited e (sound e path)))
            (λ both h.
              chain-Returns (Finished inherited r) (CashOnly both.0) (equity both.0 []) _
                (flat_equity both.0 h.1.0)
                (λ worth same. record {
                  sound = h.0;
                  flat = h.1;
                  its_trades = refl;
                  its_curve = refl;
                  all_cash =
                      rw (last_appended st.curve (record { timestamp = end; equity = worth })) same;
                })))

-- Whatever the provider answers and the snapshots are, a run that returns ends with an exchange
-- that has the invariant of all reachable ones (the initial portfolio, if any, holding positive
-- quantities under different symbols): no position is held and no order rests or waits, the result
-- has its trades and the run's curve, and the final equity is its cash, but at least 10^-8.
pub run-Finished :
    (r : BacktestRunner)
    → AllItems PositiveQuantity (inherited_positions r.initial_portfolio)
    → Distinct (inherited_positions r.initial_portfolio)
    → Returns (Finished (inherited_cooldowns r.initial_portfolio) r) (run r)
unfolding run
run-Finished r sizes distinct =
    let inherited = inherited_cooldowns r.initial_portfolio in
    let now = start_time r.initial_portfolio r.spec.start in
    value-Returns (Finished inherited r) (start r.spec.config r.initial_portfolio now) _
      (λ first started.
        chain-Returns (Finished inherited r) (Driven first)
          (run_batches r (first_state r first) (schedule r)) _
          (run_batches-Driven first r (schedule r) (first_state r first)
            (record { now = initial; kept = initial }))
          (λ st driven. finish-Finished r inherited first st driven (λ e path.
            reachable-Sound r.spec.config r.initial_portfolio now first e sizes distinct started
              path)))
