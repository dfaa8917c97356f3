-- ===== src/Replay/Batch.antt =====
-- One batch of `run`: its snapshots, the provider's answer and the decisions.
use candlepilot.Prelude.{
  ℕ, zero, suc, ◌+◌, ◌==◌, Bool, true, false, Option, none, some, List, [], ◌∷◌, ◌++◌,
  if◌then◌else◌, not, ◌&&◌, lookup, length, str_eq,
}
use candlepilot.Time.{Datetime, same_instant}
use candlepilot.Outcome.{
  Error, Result, ok, err, value_error, key_error, validation_error, assertion_error, runtime_error,
  require, ◌>>=◌,
}
use candlepilot.Domain.{MarketSnapshot, PortfolioState, same_cadence}
use candlepilot.Backtest.{SimulatedExchange}
use candlepilot.Backtest.Account.{portfolio_state}
use candlepilot.Replay.{
  BacktestRunner, RunState, BacktestDecision, ReplayInput, ProviderResult, Detail, hold,
  no_snapshot, call_failed, snapshot_failed, unavailable,
}
use candlepilot.Replay.Settle.{marks_at}
use candlepilot.Replay.Report.{report}
use candlepilot.Replay.Decide.{BatchItem, with_outcome, decide_all}
use candlepilot.Replay.Schedule.{Slot}

-- `self._replay_snapshots.get((symbol, cadence, when))`
unfoldable pub recorded : Slot → List ReplayInput → Option ReplayInput
recorded slot [] = none
recorded slot (i ∷ inputs) =
    let rest = recorded slot inputs in
    if str_eq i.symbol slot.symbol
      && same_cadence i.cadence slot.cadence
      && same_instant i.decided_at slot.decided_at
    then some i
    else rest

abbrev pub new_decision : Slot → BacktestDecision
new_decision slot = record {
  decided_at = slot.decided_at;
  symbol = slot.symbol;
  cadence = slot.cadence;
  outcome = hold;
  action = none;
  detail = none;
  fill = none;
  attempts = 0;
}

abbrev pub snapshot_for : Option ReplayInput → BacktestRunner → Slot → Result MarketSnapshot
snapshot_for none r slot =
    require (lookup slot.symbol r.series) (key_error slot.symbol) >>= λ candles.
    r.build slot.symbol slot.cadence slot.decided_at
snapshot_for (some input) r slot = ok input.snapshot

-- `except ValueError`, of which pydantic's error is one.
abbrev pub is_value_error : Error → Bool
is_value_error (value_error text) = true
is_value_error validation_error = true
is_value_error _ = false

abbrev pub count_done : RunState → ℕ → RunState
count_done st n = record st {
  progress = record st.progress { decisions_done = st.progress.decisions_done + n };
}

-- A slot with its snapshot joins the batch; one without is reported.
abbrev pub take_in :
    Result MarketSnapshot
    → BacktestRunner
    → RunState
    → Slot
    → List BatchItem
    → Result (RunState × List BatchItem)
take_in (ok snapshot) r st slot items = ok (
  st,
  items
      ++ record {
        entry = new_decision slot;
        snapshot = snapshot;
        input = recorded slot r.replay_snapshots;
      }
        ∷ [],
)
take_in (err problem) r st slot items =
    if is_value_error problem
    then (report r (count_done st 1)
          (with_outcome (new_decision slot) no_snapshot (some (snapshot_failed problem)))
        >>= λ after. ok (after, items))
    else err problem

unfoldable pub collect :
    BacktestRunner → RunState → List Slot → List BatchItem → Result (RunState × List BatchItem)
collect r st [] items = ok (st, items)
collect r st (slot ∷ slots) items =
    take_in (snapshot_for (recorded slot r.replay_snapshots) r slot) r st slot items >>= λ both.
    collect r both.0 slots both.1

-- The answer to a call is used only if it holds the intents of the items, in their order.
abbrev pub matches : List BatchItem → List ProviderResult → Bool
matches [] [] = true
matches (i ∷ items) (x ∷ results) =
    str_eq x.intent.symbol i.snapshot.symbol
    && same_cadence x.intent.cadence i.snapshot.cadence
    && matches items results
matches _ _ = false

unfoldable pub check_answer : List BatchItem → List ProviderResult → Result (List ProviderResult)
check_answer items results =
    if not (length results == length items)
    then err (runtime_error "provider returned the wrong number of batch intents")
    else if not (matches items results)
    then err (runtime_error "provider batch intents do not match input order")
    else ok results

abbrev pub snapshots_of : List BatchItem → List MarketSnapshot
snapshots_of [] = []
snapshots_of (i ∷ items) = i.snapshot ∷ snapshots_of items

-- What the attempts came to, and how many calls there were until then.
pub record Attempts : Type 0 where
  pub answer : Result (List ProviderResult)
  pub calls : ℕ
  pub made : ℕ

-- The loop over the attempts, `calls` being the number of calls before and `problem` the last error.
unfoldable pub attempt :
    ℕ → BacktestRunner → List BatchItem → PortfolioState → ℕ → ℕ → Error → Attempts
attempt zero r items portfolio calls made problem = record {
  answer = err problem;
  calls = calls;
  made = made;
}
attempt (suc n) r items portfolio calls made problem =
    elim (r.generate calls (snapshots_of items) portfolio >>= check_answer items) [
      | ok results ↦ record { answer = ok results; calls = suc calls; made = suc made }
      | err again ↦ attempt n r items portfolio (suc calls) (suc made) again
    ]

-- `DECISION_PROVIDER_MAX_ATTEMPTS`
abbrev pub decision_provider_max_attempts : ℕ
decision_provider_max_attempts = 3

abbrev pub max_attempts : BacktestRunner → ℕ
max_attempts r = if r.is_retryable then decision_provider_max_attempts else 1

abbrev pub with_attempts : ℕ → List BatchItem → List BatchItem
with_attempts made [] = []
with_attempts made (i ∷ items) =
    record i { entry = record i.entry { attempts = made } } ∷ with_attempts made items

unfoldable pub report_failed : BacktestRunner → RunState → Detail → List BatchItem → Result RunState
report_failed r st detail [] = ok st
report_failed r st detail (i ∷ items) =
    report r st (with_outcome i.entry call_failed (some detail)) >>= λ after.
    report_failed r after detail items

-- The provider is given up: the exchange goes back to where the last whole batch left it.
abbrev pub give_up : RunState → ℕ → Detail → RunState
give_up st n detail = record st {
  exchange = st.last_success_exchange;
  progress = record st.progress {
    calls_failed = st.progress.calls_failed + n;
    decisions_done = st.progress.decisions_done + n;
    error = some detail;
    provider_failed = true;
  };
}

abbrev pub kept_success : RunState → RunState
kept_success st = record st { last_success_exchange = st.exchange }

-- What follows the attempts; the Boolean says whether the loop goes on.
abbrev pub settle_answer :
    Result (List ProviderResult)
    → BacktestRunner
    → RunState
    → Datetime
    → List BatchItem
    → Result (RunState × Bool)
settle_answer (ok results) r st now items =
    decide_all r st now items results >>= λ after. ok (kept_success after, true)
settle_answer (err problem) r st now items =
    let detail = unavailable (max_attempts r) problem in
    report_failed r (give_up st (length items) detail) detail items >>= λ after. ok (after, false)

abbrev pub with_calls : RunState → SimulatedExchange → ℕ → RunState
with_calls st e calls = record st { exchange = e; calls = calls }

-- The items of a batch that has some.
unfoldable pub infer :
    BacktestRunner → RunState → Datetime → List BatchItem → Result (RunState × Bool)
infer r st now items = portfolio_state st.exchange (marks_at r now) (some now) >>= λ both.
    let tried = attempt (max_attempts r) r items both.1 st.calls 0 assertion_error in
    settle_answer tried.answer r (with_calls st both.0 tried.calls) now
      (with_attempts tried.made items)

abbrev pub infer_some :
    List BatchItem → BacktestRunner → RunState → Datetime → Result (RunState × Bool)
infer_some [] r st now = ok (st, true)
infer_some (i ∷ items) r st now = infer r st now (i ∷ items)
