-- ===== src/Lib.antt =====
-- CandlePilot, a futures trading program that asks language models for trade intents: the models
-- and theorems of the parts that stand between such an intent and the venue.
--
-- The program. `src/candlepilot/application/engine.py` and `scheduler.py` beside it take a market
-- snapshot, ask a provider for a `TradeIntent`, give it to `AggressiveRiskPolicy.evaluate`, and
-- send the `OrderPlan` that it accepts to the broker. After that the `TrailingStopManager` watches
-- the open positions and tightens their stops through the broker. `src/candlepilot/backtest/`
-- replays a window of candles: the same policy decides, and a simulated exchange takes the place
-- of the broker. `src/candlepilot/analysis/` looks, later, at what the candles made of an analysis
-- or of a decision that the policy rejected.
--
-- The files, and the code that they are about (paths from the root of the repository):
--   Prelude, Prelude/*: shared names, integers over the native numbers, Python dicts as
--     association lists.
--   Decimal, Decimal/*: Python's `decimal.Decimal` at 28 digits, ties to even, as an integer
--     number of units of 10^-60, with the lemmas on signs and order that rounding keeps.
--   Time: aware datetimes in microseconds.
--   Outcome, Flow: exceptions as results; a method with early returns as a flow that goes on,
--     returns or raises.
--   Domain, Domain/Validate: src/candlepilot/domain/models.py, the records, their texts
--     (Domain/Words) and their validators.
--   Risk: src/candlepilot/risk/engine.py. `SymbolRules`, the price and quantity grids and the
--     policy's parameters. Risk/Permission, Risk/Structure, Risk/Assess: the tests of `evaluate`
--     before any price, and `_breakout_rejection`, `_assess_structure`, `_structure_reference`.
--     Risk/Levels: entry, stop and target. Risk/Pricing: the `_effective_*` methods,
--     `_portfolio_stop_risk` and the ratio. Risk/Sizing: budgets, margin and quantity. Risk/Exit:
--     `_close_order`. Risk/Evaluate: `evaluate`. The others are proofs: Risk/Refusals, Risk/Exits,
--     Risk/Trace, Risk/Facts, Risk/Gate and Risk/Settled follow a run, Risk/Opened collects what
--     an opening run went through; Risk/Entry, Risk/Protection and Risk/Verdict are what it
--     guarantees, and Risk/Inputs, Risk/Scenarios and Risk/Tests run it.
--   Trailing: src/candlepilot/risk/trailing.py. Trailing/Profile is `_maintain_profile`,
--     Trailing/Position `_maintain_position`, Trailing/Manager `maintain`, Trailing/Store `_load`
--     and `_save`. Trailing/Replace is `replace_stop_loss` of
--     src/candlepilot/broker/binance_testnet.py, with the signed requests as parameters over a
--     state of the venue; Trailing/Venue makes of it the broker that the manager asks. The proofs:
--     Trailing/Ratchet and Trailing/Advance on one step, Trailing/Requests on what is asked of the
--     broker, Trailing/Shadow, Trailing/Measure, Trailing/Upkeep and Trailing/Critical on whole
--     runs, Trailing/Persist on a load of the store, and Trailing/Tests at a run.
--   Partial: src/candlepilot/risk/partial_take_profit.py. Partial/Profile is `_maintain_profile`,
--     Partial/Position `_maintain_position`, Partial/Manager `_load` and `_save`, Partial/Upkeep
--     `maintain`. Partial/Phase, Partial/Sound and Partial/Kept are the proofs, Partial/Tests a
--     run.
--   Stream: `MarketEventSequencer` and the loop of `events` in src/candlepilot/market/stream.py;
--     Stream/Order and Stream/Pairwise are the proofs, Stream/Tests a run.
--   Outcome/Returns: what holds of the value of a call that may raise.
--   Backtest: src/candlepilot/backtest/engine.py. Backtest/Book is `_slipped`, `_fill`,
--     `_open_or_add`, `_reduce` and `_book`; Backtest/Exchange `execute`, `activate_scheduled`,
--     `settle_candle`, `_touched` and `close_all`; Backtest/Window and Backtest/Account
--     `__init__`, `portfolio_state` and `equity`; Backtest/Summary `summarize`. The proofs:
--     Backtest/Sound, Backtest/Kept and Backtest/Settled take an invariant through the calls, and
--     Backtest/Steps through all sequences of them; Backtest/Orders is about reports,
--     Backtest/History and Backtest/Exits about the trades of a candle, Backtest/Frame about other
--     symbols, Backtest/Close about the end, Backtest/Windowed and Backtest/Observed about the
--     portfolio, Backtest/Partition about the summary; Backtest/Tests is a run.
--   Replay: src/candlepilot/backtest/runner.py. Replay/Spec is `decision_times`, `estimate` and
--     `validate`, Replay/Progress `record_usage`, Replay/Settle `_marks`, `_next_candle` and
--     `_settle_until`; Replay/Report, Replay/Decide, Replay/Schedule, Replay/Batch and Replay/Run
--     are the parts of `run`. It asks `evaluate` (Risk) with the portfolio of the exchange
--     (Backtest) and gives the accepted order back to the exchange. The proofs: Replay/Driven and
--     Replay/Ended follow the exchange through a run (with Risk/Orders, the quantities of the
--     policy's orders), Replay/Attempts is about the calls of the provider, Replay/Times about the
--     schedule; Replay/Tests is a run.
--   Outcomes: src/candlepilot/analysis/outcomes.py. Outcomes/Clock has the starts and windows,
--     Outcomes/Evaluate `_evaluate_bar` and `evaluate_outcome`, Outcomes/Refine
--     `parse_closed_rows` and `evaluate_outcome_from_market`. The proofs: Outcomes/Start is about
--     the starts, Outcomes/Every about what all outcomes share, Outcomes/Fair about the bar that
--     decides, Outcomes/Placed, Outcomes/Windows and Outcomes/Ended about the loop over ambiguous
--     windows; Outcomes/Tests is a plan and its candles.
--   Rejected: src/candlepilot/analysis/rejected_outcomes.py. Rejected has the plan and its
--     `__post_init__`, Rejected/Evaluate `evaluate_rejected_decision`, Rejected/Market
--     `evaluate_rejected_decision_from_market`; candles are those of Outcomes. The proofs:
--     Rejected/Sure says what an outcome claims, Rejected/Bars and Rejected/Whole that it is so,
--     Rejected/Ended that the loop ends; Rejected/Tests is a plan and its candles.
--
-- State and errors. A method that changes an object takes and returns the object's record; a
-- method that may raise returns a result. Where Python changes a shared object before it raises,
-- the model returns the changed object with the exception: so a profile that was activated stays
-- so when the broker then fails. An exception of the simulated exchange ends the replay, and the
-- exchange is not read after it: there the model returns the exception alone. Coroutines are run
-- one at a time, as the manager's caller does.
--
-- Bounds. Loops are structural recursion on lists. `Decimal.ulp` has fuel, the number itself,
-- which is at least its count of digits. `times_from` has as much fuel as there are bars up to the
-- end, and `refine` and `refine_rejected` one more than there are candles, as a window is refined
-- once. A decimal that needs more than 60 places after the point rounds at the 60th, and there is
-- no NaN, infinity or negative zero.
--
-- Not modelled: message texts that are built from values (they are constructors with these
-- values), the times that records stamp, the spelling of the numbers in the stored JSON texts (the
-- store holds what `json.loads` gives of them, a number for its text), the coercion of numbers and
-- JSON that runs before the validators, floating-point indicators (a feature is the decimal that
-- `Decimal(str(x))` gives), the clock, the durations and the costs of a replay (floats), the
-- builder of its snapshots and its provider (parameters), `compare`, HTTP, SQL, configuration, and
-- the user interface.
pub mod Prelude
pub mod Decimal
pub mod Outcome
pub mod Time
pub mod Domain
pub mod Flow
pub mod Risk
pub mod Trailing
pub mod Partial
pub mod Backtest
pub mod Replay
pub mod Outcomes
pub mod Rejected
pub mod Stream
