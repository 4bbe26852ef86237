-- ===== src/CostGate/Store/Cap.antt =====
-- packages/cost-gate/src/durable/reservationStore.ts: no counter passes its ceiling while the ceilings
-- stay and no task costs more than was reserved for it.
use byok_business_autopilot.Base.{
  ℕ, ◌≡◌, refl, sym, ◌∙◌, ap, subst, false, Option, none, some, List, [], ◌∷◌, map, ok, ◌⊎◌, inl,
  inr, ◌≢◌, nat_eq, arith, Option-cases,
}
use byok_business_autopilot.Base.Int.{ℤ, pos, ◌+ℤ◌, ◌-ℤ◌, ◌≤ℤ◌, int_laws}
use byok_business_autopilot.Base.Dict.{Dict, lookup}
use mathlib.Core.Option.{some-injective}
use byok_business_autopilot.CostGate.Ceilings.{
  is_over, CeilingConfig, CeilingLevel, company, role, task_type, task_type_day,
}
use byok_business_autopilot.CostGate.Ledger.{ReservationStatus, settled, released, status_eq}
use byok_business_autopilot.CostGate.Store.Keys.{
  Day, CounterKey, CounterKey-discrete, key_eq, ScopeKey, of_month, of_id, of_day,
}
use byok_business_autopilot.CostGate.Store.Accounts.{spread, total_at-add_all, total_at-adjust}
use byok_business_autopilot.CostGate.Store.Invariant.{
  commit-Balances, Balances, All-insert, get_reserved-ok, settle-ok, release-ok, settle-Balances,
  release-Balances,
}
use byok_business_autopilot.CostGate.Store.{
  Store, StoredReservation, Counter, LevelEntry, ReserveInput, entry_key, total_at,
  reservation_keys, new_reservation, levels_for, first_exceeded, commit, reserve_atomic, settle,
  release, resolve_as, or_else, day_ceiling,
}

-- The ceiling that a configuration sets for a counter.
abbrev pub ceiling_under : CeilingConfig → CeilingLevel → ScopeKey → Option ℤ
ceiling_under c company (of_month m) = some c.company_monthly
ceiling_under c role (of_id i) = lookup i c.per_role
ceiling_under c task_type (of_id i) = lookup i c.per_task_type
ceiling_under c task_type_day (of_day i d) =
    or_else (day_ceiling i c.per_task_type_per_day) c.per_task_type_per_day_default
ceiling_under c _ _ = none

unfoldable pub ceiling_for : CeilingConfig → CounterKey → Option ℤ
ceiling_for c k = ceiling_under c k.level k.scope_key

-- The key stands in the list.
abbrev pub Holds : CounterKey → List CounterKey → Type 0
Holds k [] = ⊥
Holds k (j ∷ js) = (j ≡ k) ⊎ Holds k js

abbrev pub OtherLevels : CeilingLevel → List CounterKey → Type 0
OtherLevels l [] = Unit
OtherLevels l (j ∷ js) = (j.level ≢ l) × OtherLevels l js

abbrev pub LevelsDiffer : List CounterKey → Type 0
LevelsDiffer [] = Unit
LevelsDiffer (j ∷ js) = OtherLevels j.level js × LevelsDiffer js

spread_other :
    (js : List CounterKey) (a : ℤ) (k : CounterKey) → OtherLevels k.level js → spread js a k ≡ pos 0
unfolding spread
spread_other [] a k h = refl
spread_other (j ∷ js) a k (n, h) = elim (CounterKey-discrete j k) [
  | yes p ↦ absurd (n (ap (λ x. x.level) p))
  | no p ↦ grind (int_laws, spread_other js a k h)
]

-- An amount is booked at most once under each key.
spread_once :
    (js : List CounterKey) (a : ℤ) (k : CounterKey)
    → LevelsDiffer js
    → (spread js a k ≡ pos 0) ⊎ (Holds k js × (spread js a k ≡ a))
unfolding spread
spread_once [] a k h = inl refl
spread_once (j ∷ js) a k (n, h) = elim (CounterKey-discrete j k) [
  | yes p ↦ inr (
    inl p,
    grind (int_laws, spread_other js a k (subst (λ l. OtherLevels l js) (ap (λ x. x.level) p) n)),
  )
  | no p ↦ elim (spread_once js a k h) [
    | inl e ↦ inl (grind int_laws)
    | inr (m, e) ↦ inr (inr m, grind int_laws)
  ]
]

pub levels_for-LevelsDiffer :
    (input : ReserveInput) (c : CeilingConfig) (day : Day)
    → LevelsDiffer (map (entry_key input.tenant_id) (levels_for input c day))
unfolding levels_for
levels_for-LevelsDiffer input c day = ground arith

abbrev pub Under : CeilingConfig → ℕ → List LevelEntry → Type 0
Under c t [] = Unit
Under c t (e ∷ es) = (e.ceiling ≡ ceiling_for c (entry_key t e)) × Under c t es

pub levels_for-Under :
    (input : ReserveInput) (c : CeilingConfig) (day : Day)
    → Under c input.tenant_id (levels_for input c day)
unfolding levels_for ceiling_for
levels_for-Under input c day = (refl, (refl, (refl, (refl, tt))))

pub not_over : (o : Option ℤ) (x m : ℤ) → is_over o x ≡ false → o ≡ some m → x ≤ℤ m
not_over none x m h e = cc
not_over (some n) x m h e = ground arith

pub passed :
    (t : ℕ) (a : ℤ) (cs : Dict CounterKey Counter) (x : LevelEntry) (es : List LevelEntry)
    → first_exceeded t a cs (x ∷ es) ≡ none
    → (is_over x.ceiling (total_at (entry_key t x) cs +ℤ a) ≡ false)
      × (first_exceeded t a cs es ≡ none)
unfolding first_exceeded
passed t a cs x es h = ground arith

-- A level that the first loop passes has room for the amount.
pub room_at :
    (c : CeilingConfig) (t : ℕ) (a m : ℤ) (cs : Dict CounterKey Counter) (es : List LevelEntry)
    (k : CounterKey)
    → first_exceeded t a cs es ≡ none
    → Under c t es
    → Holds k (map (entry_key t) es)
    → ceiling_for c k ≡ some m
    → total_at k cs +ℤ a ≤ℤ m
room_at c t a m cs [] k e u holds e' = absurd holds
room_at c t a m cs (x ∷ es) k e (u, us) (inl p) e' =
    subst (λ j. total_at j cs +ℤ a ≤ℤ m) p
      (not_over x.ceiling _ m (passed t a cs x es e).0 (u ∙ ap (ceiling_for c) p ∙ e'))
room_at c t a m cs (x ∷ es) k e (u, us) (inr holds) e' =
    room_at c t a m cs es k (passed t a cs x es e).1 us holds e'

-- The books balance, no counter is above its ceiling, and no amount is negative.
pub record IsWithin (c : CeilingConfig) (s : Store) : Type 0 where
  pub books : Balances s
  pub capped : (k : CounterKey) (m : ℤ) → ceiling_for c k ≡ some m → total_at k s.counters ≤ℤ m
  pub nonneg :
      (id : ℕ) (r : StoredReservation) → lookup id s.reservations ≡ some r → pos 0 ≤ℤ r.amount

commit-IsWithin :
    (id : ℕ) (day : Day) (input : ReserveInput) (c : CeilingConfig) (s : Store)
    → lookup id s.reservations ≡ none
    → pos 0 ≤ℤ input.amount
    → first_exceeded input.tenant_id input.amount s.counters (levels_for input c day) ≡ none
    → IsWithin c s
    → IsWithin c (commit id day input c s)
unfolding commit
commit-IsWithin id day input c s fresh p room h = record {
  books = commit-Balances id day input c s fresh h.books;
  capped = λ k m e.
      rw (total_at-add_all input.tenant_id input.amount levels s.counters k)
        (elim (spread_once (map (entry_key input.tenant_id) levels) input.amount k
          (levels_for-LevelsDiffer input c day)) [
            | inl z ↦ rw z (omega (int_laws, h.capped k m e))
            | inr (holds, z) ↦ rw z (
                room_at c input.tenant_id input.amount m s.counters levels k room
                  (levels_for-Under input c day) holds e)
          ]);
  nonneg =
      All-insert (λ r. pos 0 ≤ℤ r.amount) id (new_reservation input day) s.reservations p h.nonneg;
}
  where
    levels : List LevelEntry
    levels = levels_for input c day

pub reserve_atomic-IsWithin :
    (id : ℕ) (day : Day) (input : ReserveInput) (c : CeilingConfig) (s : Store)
    → lookup id s.reservations ≡ none
    → pos 0 ≤ℤ input.amount
    → IsWithin c s
    → IsWithin c (reserve_atomic id day input c s).1
unfolding reserve_atomic
reserve_atomic-IsWithin id day input c s fresh p h =
    elim (Option-cases
      (first_exceeded input.tenant_id input.amount s.counters (levels_for input c day))) [
        | inl e ↦ rw (e, reserve_atomic) (commit-IsWithin id day input c s fresh p e h)
        | inr (l, e) ↦ rw (e, reserve_atomic) h
      ]

-- A difference that is not positive raises no counter.
spread_le : (js : List CounterKey) (d : ℤ) (k : CounterKey) → d ≤ℤ pos 0 → spread js d k ≤ℤ pos 0
unfolding spread
spread_le [] d k h = omega arith
spread_le (j ∷ js) d k h = grind (int_laws, spread_le js d k h)

resolve_as-IsWithin :
    (status : ReservationStatus) (amount delta : ℤ) (id : ℕ) (r : StoredReservation)
    (c : CeilingConfig) (s : Store)
    → lookup id s.reservations ≡ some r
    → pos 0 ≤ℤ amount
    → delta ≤ℤ pos 0
    → Balances (resolve_as status amount delta id r s)
    → IsWithin c s
    → IsWithin c (resolve_as status amount delta id r s)
resolve_as-IsWithin status amount delta id r c s found p d books h = record {
  books = books;
  capped = λ k m e.
      rw (total_at-adjust (reservation_keys r) delta s.counters k (h.books.present id r found))
        (omega (int_laws, h.capped k m e, spread_le (reservation_keys r) delta k d));
  nonneg = All-insert (λ q. pos 0 ≤ℤ q.amount) id _ s.reservations p h.nonneg;
}

-- The calls of the store under one configuration, with amounts that are not negative, and where no
-- task costs more than was reserved for it.
pub data Step (c : CeilingConfig) (s : Store) : Store → Type 0 where
  reserves :
      (id : ℕ) (day : Day) (input : ReserveInput)
      → lookup id s.reservations ≡ none
      → pos 0 ≤ℤ input.amount
      → Step c s (reserve_atomic id day input c s).1
  settles :
      {s' : Store} (t id : ℕ) (actual : ℤ) (r : StoredReservation)
      → lookup id s.reservations ≡ some r
      → pos 0 ≤ℤ actual
      → actual ≤ℤ r.amount
      → settle t id actual s ≡ ok s'
      → Step c s s'
  releases : {s' : Store} (t id : ℕ) → release t id s ≡ ok s' → Step c s s'

pub data Reach (c : CeilingConfig) (s : Store) : Store → Type 0 where
  here : Reach c s s
  next : {s' s'' : Store} → Reach c s s' → Step c s' s'' → Reach c s s''

Step-IsWithin : {c : CeilingConfig} {s s' : Store} → Step c s s' → IsWithin c s → IsWithin c s'
Step-IsWithin {c} {s} (reserves id day input fresh p) h =
    reserve_atomic-IsWithin id day input c s fresh p h
Step-IsWithin {c} {s} {s'} (settles t id actual r found p le e) h =
    let (q, got, done) = settle-ok t id actual s s' e in
    let at = (get_reserved-ok t id s q got).0 in
    let same : r ≡ q = some-injective r q (sym found ∙ at) in
    subst (IsWithin c) done (
      resolve_as-IsWithin settled actual _ id q c s at p
        (subst (λ x. actual -ℤ x.amount ≤ℤ pos 0) same (omega int_laws))
        (subst Balances (sym done) (settle-Balances t id actual s s' e h.books)) h)
Step-IsWithin {c} {s} {s'} (releases t id e) h =
    let (q, got, done) = release-ok t id s s' e in
    let at = (get_reserved-ok t id s q got).0 in
    subst (IsWithin c) done (
      resolve_as-IsWithin released q.amount _ id q c s at (h.nonneg id q at)
        (omega (int_laws, h.nonneg id q at))
        (subst Balances (sym done) (release-Balances t id s s' e h.books)) h)

-- From a store whose books balance and whose counters are within their ceilings, any calls of any
-- tenants, on any days and in any order, leave every counter within its ceiling, as long as the
-- ceilings stay, no amount is negative and no task costs more than was reserved for it.
pub Reach-IsWithin :
    (c : CeilingConfig) (s s' : Store) → Reach c s s' → IsWithin c s → IsWithin c s'
Reach-IsWithin c s s' here h = h
Reach-IsWithin c s s' (next r st) h = Step-IsWithin st (Reach-IsWithin c s _ r h)
