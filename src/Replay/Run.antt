-- ===== src/Replay/Run.antt =====
-- `BacktestRunner.run`: the loop over the batches, and the end of the run.
use candlepilot.Prelude.{
  ℕ, Bool, true, false, Option, none, some, List, [], ◌∷◌, ◌++◌, if◌then◌else◌, not, ◌&&◌,
}
use candlepilot.Prelude.Assoc.{Dict}
use candlepilot.Time.{Datetime, same_instant}
use candlepilot.Outcome.{Result, ok, err, value_error, ◌>>=◌}
use candlepilot.Domain.{PortfolioState}
use candlepilot.Trailing.Manager.{sorted_items}
use candlepilot.Backtest.{SimulatedExchange}
use candlepilot.Backtest.Book.{or_kept}
use candlepilot.Backtest.Exchange.{close_all, symbols_of}
use candlepilot.Backtest.Account.{start, equity}
use candlepilot.Backtest.Summary.{BacktestResult, summarize}
use candlepilot.Replay.{Decimal, BacktestRunner, RunState, ModelRun}
use candlepilot.Replay.Progress.{new_run}
use candlepilot.Replay.Settle.{marks_at, settle_all}
use candlepilot.Replay.Schedule.{Slot, schedule, count_slots}
use candlepilot.Replay.Batch.{collect, infer_some}

-- The one time of a batch.
abbrev pub all_at : Datetime → List Slot → Bool
all_at now [] = true
all_at now (s ∷ slots) = same_instant s.decided_at now && all_at now slots

abbrev pub time_of : List Slot → Result Datetime
time_of [] = err (value_error "one recorded provider batch spans multiple timestamps")
time_of (s ∷ slots) =
    if all_at s.decided_at slots
    then ok s.decided_at
    else err (value_error "one recorded provider batch spans multiple timestamps")

-- `when != settled_through`
abbrev pub is_new_time : Option Datetime → Datetime → Bool
is_new_time none now = true
is_new_time (some t) now = not (same_instant t now)

abbrev pub with_settled : RunState → Datetime → SimulatedExchange × Dict ℕ → RunState
with_settled st now both = record st {
  exchange = both.0;
  settled_next = both.1;
  settled_through = some now;
}

-- Every symbol is settled through a time before its first decision.
unfoldable pub settle_new_time : BacktestRunner → RunState → Datetime → Result RunState
settle_new_time r st now =
    if is_new_time st.settled_through now
    then (settle_all r (symbols_of (sorted_items r.series)) st.exchange now st.settled_next
        >>= λ both. ok (with_settled st now both))
    else ok st

unfoldable pub run_batch : BacktestRunner → RunState → List Slot → Result (RunState × Bool)
run_batch r st slots = time_of slots >>= λ now. settle_new_time r st now >>= λ settled.
    collect r settled slots [] >>= λ both. infer_some both.1 r both.0 now

-- `break` leaves the loop.
abbrev pub unless_broken : Bool → Result RunState → RunState → Result RunState
unless_broken true onward st = onward
unless_broken false onward st = ok st

unfoldable pub run_batches : BacktestRunner → RunState → List (List Slot) → Result RunState
run_batches r st [] = ok st
run_batches r st (b ∷ batches) =
    run_batch r st b >>= λ both. unless_broken both.1 (run_batches r both.0 batches) both.0

abbrev pub first_state : BacktestRunner → SimulatedExchange → RunState
first_state r e = record {
  exchange = e;
  last_success_exchange = e;
  settled_next = [];
  settled_through = none;
  curve = [];
  progress = record new_run { decisions_total = count_slots (schedule r) };
  calls = 0;
  reported = [];
}

abbrev pub start_time : Option PortfolioState → Datetime → Option Datetime
start_time none now = none
start_time (some p) now = some now

abbrev pub effective_end : BacktestRunner → ModelRun → Datetime
effective_end r run =
    if run.provider_failed then or_kept run.last_successful_at r.spec.start else r.spec.end

-- The last settlement, which a run that was given up does not have.
unfoldable pub settle_rest : BacktestRunner → RunState → Datetime → Result SimulatedExchange
settle_rest r st end =
    if st.progress.provider_failed
    then ok st.exchange
    else (settle_all r r.spec.symbols st.exchange end st.settled_next >>= λ both. ok both.0)

abbrev pub with_end : RunState → SimulatedExchange → Datetime → Decimal → RunState
with_end st e end worth = record st {
  exchange = e;
  curve = st.curve ++ record { timestamp = end; equity = worth } ∷ [];
}

unfoldable pub finish : BacktestRunner → RunState → Result (RunState × BacktestResult)
finish r st =
    let end = effective_end r st.progress in
    settle_rest r st end >>= λ e. close_all e (marks_at r end) end >>= λ both.
    equity both.0 [] >>= λ worth.
    let last_state = with_end st both.0 end worth in
    ok (last_state, summarize r.spec.config both.0.trades last_state.curve both.1)

unfoldable pub run : BacktestRunner → Result (RunState × BacktestResult)
run r =
    start r.spec.config r.initial_portfolio (start_time r.initial_portfolio r.spec.start) >>= λ e.
    run_batches r (first_state r e) (schedule r) >>= λ st. finish r st
