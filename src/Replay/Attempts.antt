-- ===== src/Replay/Attempts.antt =====
-- How often the provider is asked about one batch.
use candlepilot.Prelude.{ℕ, zero, suc, ◌+◌, ◌<◌, ◌≡◌, refl, List, inl, inr, arith}
use candlepilot.Outcome.{Error, Result, ok, err, ◌>>=◌}
use candlepilot.Outcome.Returns.{Result-cases}
use candlepilot.Domain.{PortfolioState}
use candlepilot.Replay.{BacktestRunner, ProviderResult}
use candlepilot.Replay.Decide.{BatchItem}
use candlepilot.Replay.Batch.{attempt, check_answer, snapshots_of, Attempts}

module _ (r : BacktestRunner) (items : List BatchItem) (portfolio : PortfolioState) where
  -- The answer to a call, once it is checked.
  abbrev pub answer_to : ℕ → Result (List ProviderResult)
  answer_to call = r.generate call (snapshots_of items) portfolio >>= check_answer items

  -- The `n` calls from `first` on were answered by errors, or with the wrong intents.
  abbrev pub AllFail : ℕ → ℕ → Type 0
  AllFail zero first = Unit
  AllFail (suc n) first = ((e : Error) × (answer_to first ≡ err e)) × AllFail n (suc first)

  -- Either a call was answered, all before it having failed, or as many as were allowed failed.
  pub data Asked (allowed first made : ℕ) (a : Attempts) : Type 0 where
    answered :
        (failed call : ℕ) (results : List ProviderResult)
        → failed < allowed
        → AllFail failed first
        → call ≡ first + failed
        → answer_to call ≡ ok results
        → a.answer ≡ ok results
        → a.calls ≡ suc call
        → a.made ≡ made + failed + 1
        → Asked allowed first made a
    exhausted :
        (e : Error)
        → AllFail allowed first
        → a.answer ≡ err e
        → a.calls ≡ first + allowed
        → a.made ≡ made + allowed
        → Asked allowed first made a

  again-Asked :
      (n first made : ℕ) (e : Error) (a : Attempts)
      → answer_to first ≡ err e
      → Asked n (suc first) (suc made) a
      → Asked (suc n) first made a
  again-Asked n first made e a failed_first
        (answered failed call results less fails place good answer calls total) =
      answered (suc failed) call results (omega arith) ((e, failed_first), fails) (omega arith) good
        answer calls (omega arith)
  again-Asked n first made e a failed_first (exhausted problem fails answer calls total) =
      exhausted problem ((e, failed_first), fails) answer (omega arith) (omega arith)

  -- `allowed` attempts are made in the order of the calls until one is answered with the intents of
  -- the items in their order; only if all of them fail is the answer an error.
  pub attempt-Asked :
      (allowed first made : ℕ) (problem : Error)
      → Asked allowed first made (attempt allowed r items portfolio first made problem)
  unfolding attempt
  attempt-Asked zero first made problem = exhausted problem tt refl (omega arith) (omega arith)
  attempt-Asked (suc n) first made problem = elim (Result-cases (answer_to first)) [
    | inl (results, good) ↦
        rw (attempt, good)
          (answered 0 first results (omega arith) tt (omega arith) good refl refl (omega arith))
    | inr (e, bad) ↦
        rw (attempt, bad)
          (again-Asked n first made e _ bad (attempt-Asked n (suc first) (suc made) e))
  ]
