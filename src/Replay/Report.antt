-- ===== src/Replay/Report.antt =====
-- `report`, and the equity that `run` notes beside it.
use candlepilot.Prelude.{
  Bool, false, Option, none, some, List, [], ◌∷◌, ◌++◌, ◌&&◌, eqb_ℤ, if◌then◌else◌, pos,
}
use candlepilot.Time.{Datetime, same_instant}
use candlepilot.Outcome.{Result, ok, ◌>>=◌}
use candlepilot.Domain.{PortfolioState}
use candlepilot.Backtest.{EquityPoint, SimulatedExchange}
use candlepilot.Backtest.Book.{or_kept}
use candlepilot.Backtest.Window.{last}
use candlepilot.Backtest.Account.{portfolio_state, equity, carried}
use candlepilot.Backtest.Summary.{BacktestResult, summarize}
use candlepilot.Replay.{BacktestRunner, RunState, ModelRun, BacktestDecision, BacktestLiveStats}
use candlepilot.Replay.Settle.{marks_at}

-- The time of a report.
abbrev pub live_time : BacktestRunner → ModelRun → BacktestDecision → Datetime
live_time r run entry =
    if run.provider_failed then or_kept run.last_successful_at r.spec.start else entry.decided_at

abbrev pub is_last : Option EquityPoint → EquityPoint → Bool
is_last none point = false
is_last (some p) point = same_instant p.timestamp point.timestamp && eqb_ℤ p.equity point.equity

abbrev pub add_point : EquityPoint → List EquityPoint → List EquityPoint
add_point point curve = if is_last (last curve) point then curve else curve ++ point ∷ []

abbrev pub live_stats : PortfolioState → BacktestResult → BacktestLiveStats
live_stats portfolio summary = record {
  equity = portfolio.equity;
  unrealized_pnl = carried (pos 0) portfolio.positions;
  total_return = summary.total_return;
  max_drawdown = summary.max_drawdown;
  win_rate = summary.win_rate;
  trade_count = summary.trade_count;
}

abbrev pub with_report :
    BacktestRunner → RunState → BacktestDecision → SimulatedExchange → PortfolioState → RunState
with_report r st entry e portfolio =
    let curve =
      add_point (record { timestamp = live_time r st.progress entry; equity = portfolio.equity })
        st.curve in
    record st {
      exchange = e;
      curve = curve;
      progress = record st.progress {
        live_result = some (live_stats portfolio (summarize r.spec.config e.trades curve 0));
      };
      reported = st.reported ++ entry ∷ [];
    }

unfoldable pub report : BacktestRunner → RunState → BacktestDecision → Result RunState
report r st entry =
    let live_at = live_time r st.progress entry in
    portfolio_state st.exchange (marks_at r live_at) (some live_at) >>= λ both.
    ok (with_report r st entry both.0 both.1)

-- `curve.append(EquityPoint(when, exchange.equity(self._marks(when))))`
unfoldable pub note_equity : BacktestRunner → RunState → Datetime → Result RunState
note_equity r st now = equity st.exchange (marks_at r now) >>= λ worth.
    ok (record st { curve = st.curve ++ record { timestamp = now; equity = worth } ∷ [] })
