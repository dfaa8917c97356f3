-- ===== src/Prelude/Assoc.antt =====
-- A Python `dict` with string keys, as an association list in insertion order.
use Prim.Native.String.{String}
use mathlib.Core.Path.{◌≡◌, refl, subst}
use mathlib.Core.Bool.{Bool, true, false}
use mathlib.Core.Option.{Option, none, some}
use mathlib.Core.List.{List, [], ◌∷◌}
use native.Mathlib.Omega.{arith}
use text.Mathlib.Text.{◌==◌ as str_eq}
use text.Mathlib.TextEquality.{eq_iff}
use candlepilot.Prelude.Tests.{if◌then◌else◌, if_branches}

abbrev pub Dict {ℓ} : Type ℓ → Type ℓ
Dict V = List (String × V)

module _ {ℓ} {V : Type ℓ} where
  -- `d.get(k)`
  unfoldable pub lookup : String → Dict V → Option V
  lookup k [] = none
  lookup k ((j, v) ∷ d) = if str_eq j k then some v else lookup k d

  -- `k in d`
  unfoldable pub contains : String → Dict V → Bool
  unfolding lookup
  contains k d = elim (lookup k d) [ none ↦ false | some _ ↦ true ]

  -- `d[k] = v`
  unfoldable pub insert : String → V → Dict V → Dict V
  insert k v [] = (k, v) ∷ []
  insert k v ((j, w) ∷ d) = if str_eq j k then (j, v) ∷ d else (j, w) ∷ insert k v d

  -- `d.pop(k, None)`, `del d[k]`; a key stands in a dict once, and all its entries go.
  unfoldable pub erase : String → Dict V → Dict V
  erase k [] = []
  erase k ((j, v) ∷ d) = let rest = erase k d in if str_eq j k then rest else (j, v) ∷ rest

  pub lookup-insert :
      (k j : String) (v : V) (d : Dict V)
      → lookup j (insert k v d) ≡ (if str_eq k j then some v else lookup j d)
  unfolding lookup insert
  lookup-insert k j v [] = refl
  lookup-insert k j v ((i, w) ∷ d) =
      ground (arith, eq_iff k j, eq_iff i k, eq_iff i j, lookup-insert k j v d)

  pub lookup-erase :
      (k j : String) (d : Dict V) → lookup j (erase k d) ≡ (if str_eq k j then none else lookup j d)
  unfolding lookup erase
  lookup-erase k j [] = ground arith
  lookup-erase k j ((i, w) ∷ d) =
      ground (arith, eq_iff k j, eq_iff i k, eq_iff i j, lookup-erase k j d)

pub str_refl : (k : String) → str_eq k k ≡ true
str_refl k = ground (arith, eq_iff k k)

-- P holds of every value.
abbrev pub AllValues {ℓ κ} : {V : Type ℓ} → (V → Type κ) → Dict V → Type κ
AllValues P [] = Unit
AllValues P ((k, v) ∷ d) = P v × AllValues P d

module _ {ℓ κ} {V : Type ℓ} (P : V → Type κ) where
  pub insert-AllValues :
      (k : String) (v : V) (d : Dict V) → P v → AllValues P d → AllValues P (insert k v d)
  unfolding insert
  insert-AllValues k v [] p all = (p, tt)
  insert-AllValues k v ((j, w) ∷ d) p all =
      if_branches (AllValues P) (str_eq j k) (λ _. (p, all.1))
        (λ _. (all.0, insert-AllValues k v d p all.1))

  pub lookup-AllValues :
      (k : String) (v : V) (d : Dict V) → AllValues P d → lookup k d ≡ some v → P v
  unfolding lookup
  lookup-AllValues k v [] all e = absurd (cc)
  lookup-AllValues k v ((j, w) ∷ d) all e =
      if_branches (λ (o : Option V). o ≡ some v → P v) (str_eq j k)
        (λ _ e2. let same : w ≡ v = cc in subst P same all.0)
        (λ _ e2. lookup-AllValues k v d all.1 e2) e

-- P holds of every key and its value.
abbrev pub AllItems {ℓ κ} : {V : Type ℓ} → (String → V → Type κ) → Dict V → Type κ
AllItems P [] = Unit
AllItems P ((k, v) ∷ d) = P k v × AllItems P d

module _ {ℓ κ} {V : Type ℓ} (P : String → V → Type κ) where
  pub insert-AllItems :
      (k : String) (v : V) (d : Dict V) → P k v → AllItems P d → AllItems P (insert k v d)
  unfolding insert
  insert-AllItems k v [] p all = (p, tt)
  insert-AllItems k v ((j, w) ∷ d) p all =
      if_branches (AllItems P) (str_eq j k)
        (λ e.
          let same : k ≡ j = ground (arith, eq_iff j k) in
          (subst (λ (x : String). P x v) same p, all.1))
        (λ _. (all.0, insert-AllItems k v d p all.1))

  pub erase-AllItems : (k : String) (d : Dict V) → AllItems P d → AllItems P (erase k d)
  unfolding erase
  erase-AllItems k [] all = tt
  erase-AllItems k ((j, w) ∷ d) all =
      if_branches (AllItems P) (str_eq j k) (λ _. erase-AllItems k d all.1)
        (λ _. (all.0, erase-AllItems k d all.1))

  pub lookup-AllItems :
      (k : String) (v : V) (d : Dict V) → AllItems P d → lookup k d ≡ some v → P k v
  unfolding lookup
  lookup-AllItems k v [] all e = absurd (cc)
  lookup-AllItems k v ((j, w) ∷ d) all e =
      if_branches (λ (o : Option V). o ≡ some v → P k v) (str_eq j k)
        (λ found e2.
          let same : w ≡ v = cc in
          let same_key : j ≡ k = ground (arith, eq_iff j k) in
          subst (λ (x : String). P x v) same_key (subst (P j) same all.0))
        (λ _ e2. lookup-AllItems k v d all.1 e2) e

pub map-AllItems {ℓ κ μ} :
    {V : Type ℓ} (P : String → V → Type κ) (Q : String → V → Type μ) (d : Dict V)
    → ((k : String) (v : V) → P k v → Q k v)
    → AllItems P d
    → AllItems Q d
map-AllItems P Q [] f all = tt
map-AllItems P Q ((k, v) ∷ d) f all = (f k v all.0, map-AllItems P Q d f all.1)

-- Every key stands once.
abbrev pub Distinct {ℓ} : {V : Type ℓ} → Dict V → Type ℓ
Distinct [] = Unit
Distinct ((k, v) ∷ d) = (lookup k d ≡ none) × Distinct d

module _ {ℓ} {V : Type ℓ} where
  insert_absent :
      (k j : String) (v : V) (d : Dict V)
      → str_eq k j ≡ false
      → lookup j d ≡ none
      → lookup j (insert k v d) ≡ none
  insert_absent k j v d differs missing = rw (lookup-insert k j v d, differs, missing) refl

  pub erase-Absent : (k j : String) (d : Dict V) → lookup j d ≡ none → lookup j (erase k d) ≡ none
  erase-Absent k j d missing = grind (arith, lookup-erase k j d)

  pub insert-Distinct : (k : String) (v : V) (d : Dict V) → Distinct d → Distinct (insert k v d)
  unfolding insert lookup
  insert-Distinct k v [] h = (refl, tt)
  insert-Distinct k v ((j, w) ∷ d) h =
      if_branches Distinct (str_eq j k) (λ _. h)
        (λ e. (
          insert_absent k j v d (ground (arith, eq_iff j k, eq_iff k j)) h.0,
          insert-Distinct k v d h.1,
        ))

  pub erase-Distinct : (k : String) (d : Dict V) → Distinct d → Distinct (erase k d)
  unfolding erase
  erase-Distinct k [] h = tt
  erase-Distinct k ((j, w) ∷ d) h =
      if_branches Distinct (str_eq j k) (λ _. erase-Distinct k d h.1)
        (λ _. (erase-Absent k j d h.0, erase-Distinct k d h.1))

  pub erase_missing : (k : String) (d : Dict V) → lookup k d ≡ none → erase k d ≡ d
  unfolding lookup erase
  erase_missing k [] missing = refl
  erase_missing k ((j, w) ∷ d) missing = ground (arith, erase_missing k d)
