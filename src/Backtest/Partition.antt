-- ===== src/Backtest/Partition.antt =====
-- The results by symbol share out the trades of the run.
use Prim.Native.String.{compare}
use Prim.Native.Nat.{Ordering}
use candlepilot.Prelude.{
  inr, inl, Bool-cases, ℕ, ◌+◌, String, Bool, true, false, List, [], ◌∷◌, ◌≡◌, refl, ◌∙◌, ap, All,
  arith, length, str_eq, eq_iff,
}
use candlepilot.Prelude.Text.{compare_trans, compare_flip}
use candlepilot.Prelude.Assoc.{str_refl}
use text.Mathlib.TextEquality.{path_by_compare}
use candlepilot.Backtest.{BacktestConfig, BacktestTrade, EquityPoint}
use candlepilot.Backtest.Summary.{
  symbol_results_of, BacktestSymbolResult, summarize, symbol_result, symbols_in, insert_symbol,
  select, is_of,
}

-- In ascending order, each once.
abbrev pub Strict : List String → Type 0
Strict [] = Unit
Strict (x ∷ []) = Unit
Strict (x ∷ y ∷ xs) = (compare x y ≡ Ordering.lt) × Strict (y ∷ xs)

-- The first of the symbols comes after x.
abbrev Below : String → List String → Type 0
Below x [] = Unit
Below x (y ∷ ys) = compare x y ≡ Ordering.lt

abbrev count_true : Bool → ℕ
count_true true = 1
count_true false = 0

-- How often a symbol stands in a list.
hits : String → List String → ℕ
hits x [] = 0
hits x (y ∷ ys) = count_true (str_eq x y) + hits x ys

cons-Strict : (x : String) (ys : List String) → Below x ys → Strict ys → Strict (x ∷ ys)
cons-Strict x [] b s = tt
cons-Strict x (y ∷ ys) b s = (b, s)

tail-Strict : (x : String) (ys : List String) → Strict (x ∷ ys) → Strict ys × Below x ys
tail-Strict x [] s = (tt, tt)
tail-Strict x (y ∷ ys) s = (s.1, s.0)

hits-Below : (x : String) (ys : List String) → Below x ys → Strict ys → hits x ys ≡ 0
unfolding hits
hits-Below x [] b s = refl
hits-Below x (y ∷ []) b s = ground (arith, b)
hits-Below x (y ∷ z ∷ ys) b s =
    let rest = hits-Below x (z ∷ ys) (compare_trans x y z b s.0) s.1 in ground (arith, b, rest)

data Compared (s t : String) : Type 0 where
  less : compare s t ≡ Ordering.lt → Compared s t
  same : compare s t ≡ Ordering.eq → Compared s t
  more : compare s t ≡ Ordering.gt → Compared s t

compared : (s t : String) → Compared s t
compared s t = of_order (compare s t) refl
  where
    of_order : (o : Ordering) → compare s t ≡ o → Compared s t
    of_order Ordering.lt e = less e
    of_order Ordering.eq e = same e
    of_order Ordering.gt e = more e

insert_symbol-Below :
    (y x : String) (ys : List String)
    → compare y x ≡ Ordering.lt
    → Below y ys
    → Below y (insert_symbol x ys)
unfolding insert_symbol
insert_symbol-Below y x [] h b = h
insert_symbol-Below y x (z ∷ ys) h b = elim (compared x z) [
  | less e ↦ rw (insert_symbol, e) h
  | same e ↦ rw (insert_symbol, e) b
  | more e ↦ rw (insert_symbol, e) b
]

insert_symbol-Strict : (x : String) (ys : List String) → Strict ys → Strict (insert_symbol x ys)
unfolding insert_symbol
insert_symbol-Strict x [] s = tt
insert_symbol-Strict x (y ∷ ys) s = elim (compared x y) [
  | less e ↦ rw (insert_symbol, e) (e, s)
  | same e ↦ rw (insert_symbol, e) s
  | more e ↦
      let (tail, below) = tail-Strict y ys s in
      rw (insert_symbol, e)
        (cons-Strict y (insert_symbol x ys) (insert_symbol-Below y x ys (compare_flip x y e) below)
          (insert_symbol-Strict x ys tail))
]

-- An inserted symbol stands there once, and the others as often as before.
inserted_hits : (x : String) (ys : List String) → Strict ys → hits x (insert_symbol x ys) ≡ 1
unfolding insert_symbol hits
inserted_hits x [] s = ground (arith, str_refl x)
inserted_hits x (y ∷ ys) s = elim (compared x y) [
  | less e ↦ rw (insert_symbol, e) (ground (arith, str_refl x, hits-Below x (y ∷ ys) e s))
  | same e ↦
      let is_same : x ≡ y = path_by_compare x y e in
      let (tail, below) = tail-Strict y ys s in
      rw (insert_symbol, e, is_same) (ground (arith, str_refl y, hits-Below y ys below tail))
  | more e ↦
      let (tail, below) = tail-Strict y ys s in
      rw (insert_symbol, e) (ground (arith, e, inserted_hits x ys tail))
]

other_hits :
    (x z : String) (ys : List String) → str_eq z x ≡ false → hits z (insert_symbol x ys) ≡ hits z ys
unfolding insert_symbol hits
other_hits x z [] h = ground (arith, h)
other_hits x z (y ∷ ys) h = elim (compared x y) [
  | less e ↦ rw (insert_symbol, e, h) (omega arith)
  | same e ↦ rw (insert_symbol, e) refl
  | more e ↦ rw (insert_symbol, e, other_hits x z ys h) refl
]

-- Each trade's symbol stands once in the list.
abbrev Once : List String → BacktestTrade → Type 0
Once symbols t = hits t.symbol symbols ≡ 1

insert_symbol-Once :
    (x : String) (ys : List String) (ts : List BacktestTrade)
    → Strict ys
    → All (Once ys) ts
    → All (Once (insert_symbol x ys)) ts
insert_symbol-Once x ys [] s all = tt
insert_symbol-Once x ys (t ∷ ts) s all = (
  elim (Bool-cases (str_eq t.symbol x)) [
    | inl equal ↦
        let is_same : t.symbol ≡ x = (eq_iff t.symbol x).0 equal in
        rw is_same (inserted_hits x ys s)
    | inr differs ↦ other_hits x t.symbol ys differs ∙ all.0
  ],
  insert_symbol-Once x ys ts s all.1,
)

symbols_in-Strict : (ts : List BacktestTrade) → Strict (symbols_in ts)
unfolding symbols_in
symbols_in-Strict [] = tt
symbols_in-Strict (t ∷ ts) = insert_symbol-Strict t.symbol (symbols_in ts) (symbols_in-Strict ts)

symbols_in-Once : (ts : List BacktestTrade) → All (Once (symbols_in ts)) ts
unfolding symbols_in
symbols_in-Once [] = tt
symbols_in-Once (t ∷ ts) =
    let s = symbols_in-Strict ts in
    (
      inserted_hits t.symbol (symbols_in ts) s,
      insert_symbol-Once t.symbol (symbols_in ts) ts s (symbols_in-Once ts),
    )

-- The trades of the symbols, counted symbol by symbol.
count_by : List String → List BacktestTrade → ℕ
count_by [] ts = 0
count_by (s ∷ symbols) ts = length (select (is_of s) ts) + count_by symbols ts

count_by_cons :
    (symbols : List String) (t : BacktestTrade) (ts : List BacktestTrade)
    → count_by symbols (t ∷ ts) ≡ hits t.symbol symbols + count_by symbols ts
unfolding count_by hits select
count_by_cons [] t ts = omega arith
count_by_cons (s ∷ symbols) t ts = ground (arith, count_by_cons symbols t ts)

count_by_none : (symbols : List String) → count_by symbols [] ≡ 0
unfolding count_by select
count_by_none [] = refl
count_by_none (s ∷ symbols) = omega (arith, count_by_none symbols)

count_by-length :
    (symbols : List String) (ts : List BacktestTrade)
    → All (Once symbols) ts
    → count_by symbols ts ≡ length ts
count_by-length symbols [] all = count_by_none symbols
count_by-length symbols (t ∷ ts) all =
    omega (arith, count_by_cons symbols t ts, count_by-length symbols ts all.1, all.0)

-- The sum of the counts of the results by symbol.
abbrev pub counts_of : List BacktestSymbolResult → ℕ
counts_of [] = 0
counts_of (r ∷ results) = r.trade_count + counts_of results

abbrev pub symbols_of_results : List BacktestSymbolResult → List String
symbols_of_results [] = []
symbols_of_results (r ∷ results) = r.symbol ∷ symbols_of_results results

counts_of-count_by :
    (config : BacktestConfig) (ts : List BacktestTrade) (symbols : List String)
    → counts_of (symbol_results_of config ts symbols) ≡ count_by symbols ts
unfolding symbol_results_of symbol_result count_by
counts_of-count_by config ts [] = refl
counts_of-count_by config ts (s ∷ symbols) = omega (arith, counts_of-count_by config ts symbols)

symbols_of_map :
    (config : BacktestConfig) (ts : List BacktestTrade) (symbols : List String)
    → symbols_of_results (symbol_results_of config ts symbols) ≡ symbols
unfolding symbol_results_of symbol_result
symbols_of_map config ts [] = refl
symbols_of_map config ts (s ∷ symbols) =
    ap (λ (x : List String). s ∷ x) (symbols_of_map config ts symbols)

-- The results by symbol stand in ascending order of their symbols, each once, and their trade
-- counts add up to the trades of the run.
pub summarize-Partition :
    (config : BacktestConfig) (ts : List BacktestTrade) (curve : List EquityPoint) (cancelled : ℕ)
    → let result = summarize config ts curve cancelled in
      Strict (symbols_of_results result.symbol_results)
      × (counts_of result.symbol_results ≡ result.trade_count)
unfolding summarize
summarize-Partition config ts curve cancelled = (
  rw (symbols_of_map config ts (symbols_in ts)) (symbols_in-Strict ts),
  counts_of-count_by config ts (symbols_in ts)
      ∙ count_by-length (symbols_in ts) ts (symbols_in-Once ts),
)
