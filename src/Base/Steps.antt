-- ===== src/Base/Steps.antt =====
-- Stateful code that can throw: what it did to the state before it threw stays done.
use byok_business_autopilot.Base.Tests.{Result, ok, err}
use mathlib.Core.Path.{◌≡◌, ap}
use mathlib.Core.Bool.{Bool, true, false}

abbrev pub Step {ℓ κ μ} : Type ℓ → Type κ → Type μ → Type (ℓ ⊔ κ ⊔ μ)
Step S E A = S → Result E A × S

-- What a step returns, if it returns, has the property.
abbrev pub Returned {κ μ π} : {E : Type κ} {A : Type μ} → (A → Type π) → Result E A → Type π
Returned Q (ok a) = Q a
Returned Q (err thrown) = Unit

module _ {ℓ κ} {S : Type ℓ} {E : Type κ} where
  abbrev pub after {μ ν} :
      {A : Type μ} {B : Type ν} → Result E A × S → (A → Step S E B) → Result E B × S
  after (err thrown, s) k = (err thrown, s)
  after (ok a, s) k = k a s

  infixl 5 ◌>>=◌ ◌>>◌
  abbrev pub ◌>>=◌ {μ ν} : {A : Type μ} {B : Type ν} → Step S E A → (A → Step S E B) → Step S E B
  (m >>= k) s = after (m s) k

  abbrev pub ◌>>◌ {μ ν} : {A : Type μ} {B : Type ν} → Step S E A → Step S E B → Step S E B
  (m >> n) s = after (m s) λ _. n

  abbrev pub return {μ} : {A : Type μ} → A → Step S E A
  return a s = (ok a, s)

  abbrev pub throw {μ} : {A : Type μ} → E → Step S E A
  throw e s = (err e, s)

  -- `const x = f(state)`
  abbrev pub gets {μ} : {A : Type μ} → (S → A) → Step S E A
  gets f s = (ok (f s), s)

  abbrev pub modify : (S → S) → Step S E (Unit {0})
  modify f s = (ok tt, f s)

  -- `if (!test) throw e`
  abbrev pub require : Bool → E → Step S E (Unit {0})
  require true e s = (ok tt, s)
  require false e s = (err e, s)

  -- Whatever the step returns or throws, the property is kept.
  abbrev pub Keeps {μ π} : {A : Type μ} → (S → Type π) → Step S E A → Type (ℓ ⊔ π)
  Keeps P m = (s : S) → P s → P (m s).1

  pub after-Keeps {μ ν π} :
      {A : Type μ} {B : Type ν} (P : S → Type π) (r : Result E A × S) (k : A → Step S E B)
      → P r.1
      → ((a : A) → Keeps P (k a))
      → P (after r k).1
  after-Keeps P (err thrown, s) k h keeps = h
  after-Keeps P (ok a, s) k h keeps = keeps a s h

  pub Keeps->>= {μ ν π} :
      {A : Type μ} {B : Type ν} (P : S → Type π) (m : Step S E A) (k : A → Step S E B)
      → Keeps P m
      → ((a : A) → Keeps P (k a))
      → Keeps P (m >>= k)
  Keeps->>= P m k first rest s h = after-Keeps P (m s) k (first s h) rest

  abbrev pub Yields {μ π} : {A : Type μ} → (A → Type π) → Step S E A → Type (ℓ ⊔ π)
  Yields Q m = (s : S) → Returned Q (m s).0

  pub after-Yields {μ ν π ρ} :
      {A : Type μ} {B : Type ν} (P : S → Type π) (Q : A → Type ρ) (r : Result E A × S)
      (k : A → Step S E B)
      → P r.1
      → Returned Q r.0
      → ((a : A) → Q a → Keeps P (k a))
      → P (after r k).1
  after-Yields P Q (err thrown, s) k h q keeps = h
  after-Yields P Q (ok a, s) k h q keeps = keeps a q s h

  pub Keeps-Yields {μ ν π ρ} :
      {A : Type μ} {B : Type ν} (P : S → Type π) (Q : A → Type ρ) (m : Step S E A)
      (k : A → Step S E B)
      → Keeps P m
      → Yields Q m
      → ((a : A) → Q a → Keeps P (k a))
      → Keeps P (m >>= k)
  Keeps-Yields P Q m k first q rest s h = after-Yields P Q (m s) k (first s h) (q s) rest

  pub Keeps-require {π} : (P : S → Type π) (test : Bool) (e : E) → Keeps P (require test e)
  Keeps-require P true e s h = h
  Keeps-require P false e s h = h

  pub after-ok {μ ν} :
      {A : Type μ} {B : Type ν} (r : Result E A × S) (k : A → Step S E B) {a : A} {s : S}
      → r ≡ (ok a, s)
      → after r k ≡ k a s
  after-ok r k h = ap (λ r. after r k) h

  pub after-err {μ ν} :
      {A : Type μ} {B : Type ν} (r : Result E A × S) (k : A → Step S E B) {e : E} {s : S}
      → r ≡ (err e, s)
      → after r k ≡ (err e, s)
  after-err r k h = ap (λ r. after r k) h
