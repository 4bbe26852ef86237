-- ===== src/CostGate/Store/Accounts.antt =====
-- The counters of the reservation store as sums over its reservations.
use byok_business_autopilot.Base.{
  ℕ, ◌≡◌, refl, Option, some, List, [], ◌∷◌, map, inl, inr, nat_eq, ◌==◌, if◌then◌else◌, arith,
  Option-cases,
}
use byok_business_autopilot.Base.Int.{ℤ, pos, ◌+ℤ◌, int_laws}
use byok_business_autopilot.Base.Dict.{Dict, lookup, insert, lookup-insert, lookup-insert_self}
use byok_business_autopilot.CostGate.Ledger.{status_eq}
use byok_business_autopilot.CostGate.Store.Keys.{CounterKey, key_eq}
use byok_business_autopilot.CostGate.Store.{
  Counter, LevelEntry, entry_key, total_at, add_counter, add_all, adjust_one, adjust,
}

-- An amount that is booked once under each key of a list, as seen at one key.
unfoldable pub spread : List CounterKey → ℤ → CounterKey → ℤ
spread [] amount k = pos 0
spread (j ∷ js) amount k = (if j == k then amount else pos 0) +ℤ spread js amount k

pub spread-+ℤ :
    (js : List CounterKey) (a b : ℤ) (k : CounterKey)
    → spread js (a +ℤ b) k ≡ spread js a k +ℤ spread js b k
unfolding spread
spread-+ℤ [] a b k = omega int_laws
spread-+ℤ (j ∷ js) a b k = grind (int_laws, spread-+ℤ js a b k)

pub spread-zero : (js : List CounterKey) (k : CounterKey) → spread js (pos 0) k ≡ pos 0
unfolding spread
spread-zero [] k = refl
spread-zero (j ∷ js) k = grind (int_laws, spread-zero js k)

-- At one key.
total_at-insert :
    (j k : CounterKey) (c : Counter) (cs : Dict CounterKey Counter)
    → total_at k (insert j c cs) ≡ (if j == k then c.total else total_at k cs)
total_at-insert j k c cs = ground (arith, lookup-insert j k c cs)

total_at-add_counter :
    (j k : CounterKey) (ceiling : Option ℤ) (a : ℤ) (cs : Dict CounterKey Counter)
    → total_at k (add_counter j ceiling a cs) ≡ total_at k cs +ℤ (if j == k then a else pos 0)
total_at-add_counter j k ceiling a cs = rw total_at-insert (grind int_laws)

-- Adding to each level books the amount under each key.
pub total_at-add_all :
    (t : ℕ) (a : ℤ) (es : List LevelEntry) (cs : Dict CounterKey Counter) (k : CounterKey)
    → total_at k (add_all t a es cs) ≡ total_at k cs +ℤ spread (map (entry_key t) es) a k
unfolding add_all spread
total_at-add_all t a [] cs k = omega int_laws
total_at-add_all t a (e ∷ es) cs k =
    rw
      (
        total_at-add_all t a es (add_counter (entry_key t e) e.ceiling a cs) k,
        total_at-add_counter (entry_key t e) k e.ceiling a cs,
      )
      (omega int_laws)

-- Every key of the list has a counter.
abbrev pub Present : List CounterKey → Dict CounterKey Counter → Type 0
Present [] cs = Unit
Present (k ∷ ks) cs = ((c : Counter) × (lookup k cs ≡ some c)) × Present ks cs

pub insert-Present :
    (ks : List CounterKey) (j : CounterKey) (c : Counter) (cs : Dict CounterKey Counter)
    → Present ks cs
    → Present ks (insert j c cs)
insert-Present [] j c cs h = tt
insert-Present (k ∷ ks) j c cs ((old, e), h) = (here, insert-Present ks j c cs h)
  where
    here : (d : Counter) × (lookup k (insert j c cs) ≡ some d)
    here = ((if j == k then c else old), rw lookup-insert (ground arith))

pub add_all-Present :
    (ks : List CounterKey) (t : ℕ) (a : ℤ) (es : List LevelEntry) (cs : Dict CounterKey Counter)
    → Present ks cs
    → Present ks (add_all t a es cs)
unfolding add_all
add_all-Present ks t a [] cs h = h
add_all-Present ks t a (e ∷ es) cs h = add_all-Present ks t a es _ (insert-Present ks _ _ cs h)

adjust_one-Present :
    (ks : List CounterKey) (j : CounterKey) (d : ℤ) (cs : Dict CounterKey Counter)
    → Present ks cs
    → Present ks (adjust_one j d cs)
adjust_one-Present ks j d cs h = elim (Option-cases (lookup j cs)) [
  | inl e ↦ rw (e, adjust_one) h
  | inr (c, e) ↦ rw (e, adjust_one) (insert-Present ks j _ cs h)
]

pub adjust-Present :
    (ks js : List CounterKey) (d : ℤ) (cs : Dict CounterKey Counter)
    → Present ks cs
    → Present ks (adjust js d cs)
unfolding adjust
adjust-Present ks [] d cs h = h
adjust-Present ks (j ∷ js) d cs h = adjust-Present ks js d _ (adjust_one-Present ks j d cs h)

-- What `reserve` adds is there afterwards.
pub add_all-Present_self :
    (t : ℕ) (a : ℤ) (es : List LevelEntry) (cs : Dict CounterKey Counter)
    → Present (map (entry_key t) es) (add_all t a es cs)
unfolding add_all
add_all-Present_self t a [] cs = tt
add_all-Present_self t a (e ∷ es) cs = (
  (add_all-Present (entry_key t e ∷ []) t a es _ ((_, lookup-insert_self _ _ cs), tt)).0,
  add_all-Present_self t a es _,
)

total_at-adjust_one :
    (j k : CounterKey) (d : ℤ) (c : Counter) (cs : Dict CounterKey Counter)
    → lookup j cs ≡ some c
    → total_at k (adjust_one j d cs) ≡ total_at k cs +ℤ (if j == k then d else pos 0)
total_at-adjust_one j k d c cs e = rw (e, adjust_one) (rw total_at-insert (grind int_laws))

-- An adjustment books the difference under each key, if all have counters.
pub total_at-adjust :
    (js : List CounterKey) (d : ℤ) (cs : Dict CounterKey Counter) (k : CounterKey)
    → Present js cs
    → total_at k (adjust js d cs) ≡ total_at k cs +ℤ spread js d k
unfolding adjust spread
total_at-adjust [] d cs k h = omega int_laws
total_at-adjust (j ∷ js) d cs k ((c, e), h) =
    rw
      (
        total_at-adjust js d (adjust_one j d cs) k (adjust_one-Present js j d cs h),
        total_at-adjust_one j k d c cs e,
      )
      (omega int_laws)
