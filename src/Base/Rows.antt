-- ===== src/Base/Rows.antt =====
-- The rows of a table with a primary key, and the statements that name it.
use byok_business_autopilot.Base.Tests.{Eq, ◌==◌, if◌then◌else◌}
use byok_business_autopilot.Base.Dict.{Dict, lookup}
use mathlib.Core.Path.{◌≡◌, refl, ◌∙◌}
use mathlib.Core.Bool.{Bool, true, false, ◌&&◌}
use mathlib.Core.Option.{Option, none, some}
use mathlib.Core.List.{[], ◌∷◌}
use native.Mathlib.Omega.{arith}

-- `where key = $1 and …`
abbrev pub keep_if {ℓ} : {V : Type ℓ} → (V → Bool) → Option V → Option V
keep_if p none = none
keep_if p (some v) = if p v then some v else none

abbrev pub change_if {ℓ} : {V : Type ℓ} → (V → Bool) → (V → V) → Option V → Option V
change_if p f none = none
change_if p f (some v) = some (if p v then f v else v)

change_if-none {ℓ} :
    {V : Type ℓ} (p : V → Bool) (f : V → V) (test : Bool) (o : Option V)
    → o ≡ none
    → (if test then change_if p f o else o) ≡ none
change_if-none p f true none h = refl
change_if-none p f true (some v) h = cc
change_if-none p f false o h = h

module _ {ℓ κ} {K : Type ℓ} {V : Type κ} ⦃e : Eq K⦄ where
  unfoldable pub select_row : (V → Bool) → K → Dict K V → Option V
  select_row p k [] = none
  select_row p k ((j, v) ∷ rows) = if (j == k) && p v then some v else select_row p k rows

  unfoldable pub update_rows : (V → Bool) → (V → V) → K → Dict K V → Dict K V
  update_rows p f k [] = []
  update_rows p f k ((j, v) ∷ rows) =
      let rest = update_rows p f k rows in
      if (j == k) && p v then (j, f v) ∷ rest else (j, v) ∷ rest

  -- The key is primary.
  abbrev pub Unique : Dict K V → Type κ
  Unique [] = Unit
  Unique ((j, v) ∷ rows) = (lookup j rows ≡ none) × Unique rows

  select_row-absent :
      (p : V → Bool) (k : K) (rows : Dict K V) → lookup k rows ≡ none → select_row p k rows ≡ none
  unfolding select_row lookup
  select_row-absent p k [] h = refl
  select_row-absent p k ((j, v) ∷ rows) h =
      ground (arith, h, λ (r : lookup k rows ≡ none). select_row-absent p k rows r)

  pub select_row-lookup :
      (p : V → Bool) (k : K) (rows : Dict K V)
      → Unique rows
      → select_row p k rows ≡ keep_if p (lookup k rows)
  unfolding select_row lookup
  select_row-lookup p k [] u = refl
  select_row-lookup p k ((j, v) ∷ rows) u = ground (
    arith,
    u.0,
    select_row-lookup p k rows u.1,
    λ (r : lookup k rows ≡ none). select_row-absent p k rows r,
  )

  pub lookup-update_rows :
      (p : V → Bool) (f : V → V) (k j : K) (rows : Dict K V)
      → lookup j (update_rows p f k rows)
        ≡ (if k == j then change_if p f (lookup j rows) else lookup j rows)
  unfolding update_rows lookup
  lookup-update_rows p f k j [] = ground arith
  lookup-update_rows p f k j ((i, v) ∷ rows) = ground (arith, lookup-update_rows p f k j rows)

  pub Unique-update_rows :
      (p : V → Bool) (f : V → V) (k : K) (rows : Dict K V)
      → Unique rows
      → Unique (update_rows p f k rows)
  unfolding update_rows
  Unique-update_rows p f k [] u = tt
  Unique-update_rows p f k ((j, v) ∷ rows) u =
      either ((j == k) && p v)
        (lookup-update_rows p f k j rows ∙ change_if-none p f (k == j) (lookup j rows) u.0)
        (Unique-update_rows p f k rows u.1)
    where
      either :
          (b : Bool)
          → lookup j (update_rows p f k rows) ≡ none
          → Unique (update_rows p f k rows)
          → Unique
              (if b then (j, f v) ∷ update_rows p f k rows else (j, v) ∷ update_rows p f k rows)
      either true a b = (a, b)
      either false a b = (a, b)
