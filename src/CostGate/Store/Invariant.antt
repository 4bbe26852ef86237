-- ===== src/CostGate/Store/Invariant.antt =====
-- packages/cost-gate/src/durable/reservationStore.ts: the books balance. Calls of any tenants, on any
-- days and under any ceilings, in any order.
use byok_business_autopilot.Base.{
  ℕ_discrete, subst, ℕ, ◌≡◌, refl, sym, ◌∙◌, ap, none, some, List, [], ◌∷◌, map, ok, inl, inr,
  nat_eq, arith, Option-cases, >>=-eq-ok, ok-injective,
}
use byok_business_autopilot.Base.Int.{ℤ, pos, pos_part, neg_part, ◌+ℤ◌, ◌-ℤ◌, int_laws}
use byok_business_autopilot.Base.Dict.{
  Dict, lookup, insert, lookup-nil, lookup-insert_self, lookup-insert_ne,
}
use byok_business_autopilot.CostGate.Ceilings.{CeilingConfig}
use byok_business_autopilot.CostGate.Ledger.{
  ReservationStatus, reserved, settled, released, status_eq,
}
use byok_business_autopilot.CostGate.Store.Keys.{Day, CounterKey, key_eq, keys_of}
use byok_business_autopilot.CostGate.Store.Accounts.{
  spread, spread-+ℤ, total_at-add_all, Present, add_all-Present, add_all-Present_self,
  adjust-Present, total_at-adjust,
}
use byok_business_autopilot.CostGate.Store.{
  Store, StoredReservation, Counter, LevelEntry, ReserveInput, entry_key, total_at,
  reservation_keys, new_reservation, levels_for, first_exceeded, commit, reserve_atomic, settle,
  release, get_reserved, resolve_as, add_all, adjust,
}

-- What a reservation counts for: its amount (the actual cost once it is settled), or nothing.
abbrev pub charge : ReservationStatus → ℤ → ℤ
charge reserved amount = amount
charge settled amount = amount
charge released amount = pos 0

unfoldable pub contribution : StoredReservation → CounterKey → ℤ
contribution r k = spread (reservation_keys r) (charge r.status r.amount) k

abbrev pub charged : Dict ℕ StoredReservation → CounterKey → ℤ
charged [] k = pos 0
charged ((_, r) ∷ rs) k = contribution r k +ℤ charged rs k

charged-insert_new :
    (id : ℕ) (r : StoredReservation) (rs : Dict ℕ StoredReservation) (k : CounterKey)
    → lookup id rs ≡ none
    → charged (insert id r rs) k ≡ charged rs k +ℤ contribution r k
unfolding lookup insert
charged-insert_new id r [] k e = omega int_laws
charged-insert_new id r (x ∷ rs) k e = grind (int_laws, charged-insert_new id r rs k)

charged-insert :
    (id : ℕ) (r old : StoredReservation) (rs : Dict ℕ StoredReservation) (k : CounterKey)
    → lookup id rs ≡ some old
    → charged (insert id r rs) k +ℤ contribution old k ≡ charged rs k +ℤ contribution r k
unfolding lookup insert
charged-insert id r old [] k e = cc
charged-insert id r old (x ∷ rs) k e = grind (int_laws, charged-insert id r old rs k)

-- Each counter holds the sum of what the reservations under its key count for, and each
-- reservation's counters exist.
pub record Balances (s : Store) : Type 0 where
  pub totals : (k : CounterKey) → total_at k s.counters ≡ charged s.reservations k
  pub present :
      (id : ℕ) (r : StoredReservation)
      → lookup id s.reservations ≡ some r
      → Present (reservation_keys r) s.counters

pub levels_for-keys :
    (input : ReserveInput) (c : CeilingConfig) (day : Day)
    → map (entry_key input.tenant_id) (levels_for input c day)
      ≡ reservation_keys (new_reservation input day)
unfolding levels_for keys_of
levels_for-keys input c day = refl

-- A property of all reservations survives an insertion of one that has it.
pub All-insert {ℓ} :
    (P : StoredReservation → Type ℓ) (id : ℕ) (new : StoredReservation)
    (rs : Dict ℕ StoredReservation)
    → P new
    → ((i : ℕ) (r : StoredReservation) → lookup i rs ≡ some r → P r)
    → (i : ℕ) (r : StoredReservation) → lookup i (insert id new rs) ≡ some r
    → P r
All-insert P id new rs p all i r e = elim (ℕ_discrete id i) [
  | yes same ↦ subst P (cc (lookup-insert_self id new rs)) p
  | no other ↦ all i r (sym (lookup-insert_ne id i new rs other) ∙ e)
]

pub commit-Balances :
    (id : ℕ) (day : Day) (input : ReserveInput) (c : CeilingConfig) (s : Store)
    → lookup id s.reservations ≡ none
    → Balances s
    → Balances (commit id day input c s)
unfolding commit contribution
commit-Balances id day input c s fresh h = record {
  totals = λ k. rw (
    total_at-add_all input.tenant_id input.amount (levels_for input c day) s.counters k,
    levels_for-keys input c day,
    charged-insert_new id (new_reservation input day) s.reservations k fresh,
    h.totals k,
  );
  present =
      All-insert (λ r. Present (reservation_keys r) counters) id (new_reservation input day)
        s.reservations
        (subst (λ ks. Present ks counters) (levels_for-keys input c day)
          (add_all-Present_self input.tenant_id input.amount levels s.counters))
        (λ i r e.
          add_all-Present (reservation_keys r) input.tenant_id input.amount levels s.counters
            (h.present i r e));
}
  where
    levels : List LevelEntry
    levels = levels_for input c day

    counters : Dict CounterKey Counter
    counters = add_all input.tenant_id input.amount levels s.counters

pub reserve_atomic-Balances :
    (id : ℕ) (day : Day) (input : ReserveInput) (c : CeilingConfig) (s : Store)
    → lookup id s.reservations ≡ none
    → Balances s
    → Balances (reserve_atomic id day input c s).1
unfolding reserve_atomic
reserve_atomic-Balances id day input c s fresh h =
    elim (Option-cases
      (first_exceeded input.tenant_id input.amount s.counters (levels_for input c day))) [
        | inl e ↦ rw (e, reserve_atomic) (commit-Balances id day input c s fresh h)
        | inr (l, e) ↦ rw (e, reserve_atomic) h
      ]

-- `get_reserved` gives a reservation of that tenant that is still in flight.
pub get_reserved-ok :
    (t id : ℕ) (s : Store) (r : StoredReservation)
    → get_reserved t id s ≡ ok r
    → (lookup id s.reservations ≡ some r) × (r.tenant_id ≡ t) × (r.status ≡ reserved)
unfolding get_reserved
get_reserved-ok t id s r e = ground arith

-- What resolving changes in the account of the reservation.
resolved_contribution :
    (status : ReservationStatus) (amount delta : ℤ) (r : StoredReservation) (k : CounterKey)
    → r.status ≡ reserved
    → r.amount +ℤ delta ≡ charge status amount
    → contribution (record r { status = status; amount = amount }) k
      ≡ contribution r k +ℤ spread (reservation_keys r) delta k
unfolding contribution
resolved_contribution status amount delta r k in_flight e =
    ap (λ a. spread (reservation_keys r) a k) (sym e)
    ∙ spread-+ℤ (reservation_keys r) r.amount delta k
    ∙ ap
        (λ st.
          spread (reservation_keys r) (charge st r.amount) k +ℤ spread (reservation_keys r) delta k)
        (sym in_flight)

cancel_left : (a b c d : ℤ) → a +ℤ c ≡ b +ℤ (c +ℤ d) → a ≡ b +ℤ d
cancel_left a b c d h = omega (int_laws, ap pos_part h, ap neg_part h)

resolve_as-Balances :
    (status : ReservationStatus) (amount delta : ℤ) (id : ℕ) (r : StoredReservation) (s : Store)
    → lookup id s.reservations ≡ some r
    → r.status ≡ reserved
    → r.amount +ℤ delta ≡ charge status amount
    → Balances s
    → Balances (resolve_as status amount delta id r s)
resolve_as-Balances status amount delta id r s found in_flight e h = record {
  totals = λ k.
      rw (total_at-adjust keys delta s.counters k (h.present id r found), h.totals k)
        (sym (
          cancel_left _ _ (contribution r k) _ (
            charged-insert id _ r s.reservations k found
            ∙ ap (λ x. charged s.reservations k +ℤ x)
                (resolved_contribution status amount delta r k in_flight e))));
  present =
      All-insert (λ q. Present (reservation_keys q) counters) id _ s.reservations
        (adjust-Present keys keys delta s.counters (h.present id r found))
        (λ i q f. adjust-Present (reservation_keys q) keys delta s.counters (h.present i q f));
}
  where
    keys : List CounterKey
    keys = reservation_keys r

    counters : Dict CounterKey Counter
    counters = adjust keys delta s.counters

-- What a successful `settle` and `release` do.
pub settle-ok :
    (t id : ℕ) (actual : ℤ) (s s' : Store)
    → settle t id actual s ≡ ok s'
    → (r : StoredReservation) × (get_reserved t id s ≡ ok r)
      × (resolve_as settled actual (actual -ℤ r.amount) id r s ≡ s')
unfolding settle
settle-ok t id actual s s' e =
    let (r, found, done) = >>=-eq-ok (get_reserved t id s) _ e in (r, found, ok-injective done)

pub release-ok :
    (t id : ℕ) (s s' : Store)
    → release t id s ≡ ok s'
    → (r : StoredReservation) × (get_reserved t id s ≡ ok r)
      × (resolve_as released r.amount (pos 0 -ℤ r.amount) id r s ≡ s')
unfolding release
release-ok t id s s' e =
    let (r, found, done) = >>=-eq-ok (get_reserved t id s) _ e in (r, found, ok-injective done)

pub settle-Balances :
    (t id : ℕ) (actual : ℤ) (s s' : Store) → settle t id actual s ≡ ok s' → Balances s → Balances s'
settle-Balances t id actual s s' e h =
    let (r, got, done) = settle-ok t id actual s s' e in
    let (found, _, in_flight) = get_reserved-ok t id s r got in
    subst Balances done
      (resolve_as-Balances settled actual _ id r s found in_flight (omega int_laws) h)

pub release-Balances : (t id : ℕ) (s s' : Store) → release t id s ≡ ok s' → Balances s → Balances s'
release-Balances t id s s' e h =
    let (r, got, done) = release-ok t id s s' e in
    let (found, _, in_flight) = get_reserved-ok t id s r got in
    subst Balances done
      (resolve_as-Balances released r.amount _ id r s found in_flight (omega int_laws) h)

-- One call of the store that returns; `randomUUID` draws an id that is not taken.
pub data Step (s : Store) : Store → Type 0 where
  reserves :
      (id : ℕ) (day : Day) (input : ReserveInput) (c : CeilingConfig)
      → lookup id s.reservations ≡ none
      → Step s (reserve_atomic id day input c s).1
  settles : {s' : Store} (t id : ℕ) (actual : ℤ) → settle t id actual s ≡ ok s' → Step s s'
  releases : {s' : Store} (t id : ℕ) → release t id s ≡ ok s' → Step s s'

pub data Reach (s : Store) : Store → Type 0 where
  here : Reach s s
  next : {s' s'' : Store} → Reach s s' → Step s' s'' → Reach s s''

Step-Balances : {s s' : Store} → Step s s' → Balances s → Balances s'
Step-Balances {s} (reserves id day input c fresh) h =
    reserve_atomic-Balances id day input c s fresh h
Step-Balances {s} {s'} (settles t id actual e) h = settle-Balances t id actual s s' e h
Step-Balances {s} {s'} (releases t id e) h = release-Balances t id s s' e h

abbrev pub empty_store : Store
empty_store = record { reservations = []; counters = [] }

pub empty_store-Balances : Balances empty_store
empty_store-Balances = record {
  totals = λ k. rw lookup-nil;
  present = λ id r e. absurd (cc (lookup-nil {V = StoredReservation} id));
}

Reach-Balances_from : {s s' : Store} → Reach s s' → Balances s → Balances s'
Reach-Balances_from here h = h
Reach-Balances_from (next r st) h = Step-Balances st (Reach-Balances_from r h)

-- From an empty store, after any calls of any tenants on any days, under ceilings that may change from
-- call to call, each counter holds the sum of the amounts in flight and the actual costs of the
-- settled reservations under its key, and each reservation has its counters.
pub Reach-Balances : (s : Store) → Reach empty_store s → Balances s
Reach-Balances s r = Reach-Balances_from r empty_store-Balances
