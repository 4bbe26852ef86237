-- ===== src/CostGate/Store/Postgres/Agreement.antt =====
-- packages/cost-gate/src/durable/reservationStore.ts: where the transactions agree with the in-memory
-- store.
use byok_business_autopilot.Base.{
  ℕ, ◌≡◌, refl, sym, ◌∙◌, ap, subst, Option, none, some, List, [], ◌∷◌, map, Result, ok, err, inl,
  inr, nat_eq, if◌then◌else◌, arith, Option-cases, Bool-cases,
}
use mathlib.Core.Option.{some-injective}
use byok_business_autopilot.Base.Int.{ℤ, ◌+ℤ◌}
use byok_business_autopilot.Base.Dict.{
  Dict, lookup, insert, lookup-insert_self, lookup-insert_ne, insert-insert,
}
use byok_business_autopilot.CostGate.Ceilings.{is_over, CeilingConfig, CeilingLevel}
use byok_business_autopilot.CostGate.Ledger.{status_eq}
use byok_business_autopilot.CostGate.Store.Keys.{Day, CounterKey, CounterKey-discrete, key_eq}
use byok_business_autopilot.CostGate.Store.Cap.{
  ceiling_for, OtherLevels, LevelsDiffer, levels_for-LevelsDiffer, Under, levels_for-Under,
}
use byok_business_autopilot.CostGate.Store.{
  Store, Counter, LevelEntry, ReserveInput, entry_key, total_at, levels_for, first_exceeded, commit,
  reserve_atomic, add_all, add_counter, or_else, adjust, ceiling_of, settle, release, get_reserved,
}
use byok_business_autopilot.CostGate.Store.Postgres.{
  adjust_rows, charge_levels, charge_row, check_row, locked_row, release_transaction,
  reserve_transaction, row_after_insert, settle_transaction,
}

-- The rows carry the ceilings of the configuration.
abbrev pub Current : CeilingConfig → Dict CounterKey Counter → Type 0
Current c cs =
    (k : CounterKey) (row : Counter) → lookup k cs ≡ some row → row.ceiling ≡ ceiling_for c k

-- What an addition to one counter leaves alone.
first_exceeded-insert :
    (t : ℕ) (a : ℤ) (k : CounterKey) (row : Counter) (cs : Dict CounterKey Counter)
    (es : List LevelEntry)
    → OtherLevels k.level (map (entry_key t) es)
    → first_exceeded t a (insert k row cs) es ≡ first_exceeded t a cs es
unfolding first_exceeded
first_exceeded-insert t a k row cs [] h = refl
first_exceeded-insert t a k row cs (e ∷ es) (n, h) = rw (
  lookup-insert_ne k (entry_key t e) row cs (λ p. n (ap (λ x. x.level) (sym p))),
  first_exceeded-insert t a k row cs es h,
)

insert-Current :
    (c : CeilingConfig) (k : CounterKey) (row : Counter) (cs : Dict CounterKey Counter)
    → Current c cs
    → row.ceiling ≡ ceiling_for c k
    → Current c (insert k row cs)
insert-Current c k row cs h e j r found = elim (CounterKey-discrete k j) [
  | yes p ↦
      let same : row ≡ r = some-injective row r (
        sym (lookup-insert_self k row cs)
        ∙ subst (λ i. lookup i (insert k row cs) ≡ some r) (sym p) found) in
      subst (λ r. r.ceiling ≡ ceiling_for c j) same (e ∙ ap (ceiling_for c) p)
  | no n ↦ h j r (sym (lookup-insert_ne k j row cs n) ∙ found)
]

abbrev outcome :
    Option CeilingLevel → Dict CounterKey Counter → Result CeilingLevel (Dict CounterKey Counter)
outcome none cs = ok cs
outcome (some level) cs = err level

or_else_same {ℓ} : {A : Type ℓ} (o : Option A) → or_else o o ≡ o
or_else_same none = refl
or_else_same (some a) = refl

-- At a row with the current ceiling a round does what the two loops of the in-memory store do.
charge_row_current :
    (k : CounterKey) (level : CeilingLevel) (a : ℤ) (ceiling : Option ℤ)
    (cs : Dict CounterKey Counter)
    → ((row : Counter) → lookup k cs ≡ some row → row.ceiling ≡ ceiling)
    → let row = row_after_insert (lookup k cs) ceiling in
      charge_row k level a row (insert k row cs) ≡ (
        if is_over ceiling (total_at k cs +ℤ a) then err level else ok (add_counter k ceiling a cs))
charge_row_current k level a ceiling cs h = elim (Option-cases (lookup k cs)) [
  | inl f ↦ rw (f, insert-insert)
  | inr (row, f) ↦
      subst
        (λ o.
          let r = row_after_insert (lookup k cs) o in
          charge_row k level a r (insert k r cs)
          ≡ (if is_over o (total_at k cs +ℤ a) then err level else ok (add_counter k o a cs)))
        (h row f) (rw (f, insert-insert, or_else_same row.ceiling))
]

ceiling_of_current :
    (k : CounterKey) (ceiling : Option ℤ) (cs : Dict CounterKey Counter)
    → ((row : Counter) → lookup k cs ≡ some row → row.ceiling ≡ ceiling)
    → ceiling_of (lookup k cs) ceiling ≡ ceiling
ceiling_of_current k ceiling cs h = elim (Option-cases (lookup k cs)) [
  | inl f ↦ rw f
  | inr (row, f) ↦
      rw f (subst (λ o. or_else row.ceiling o ≡ o) (h row f) (or_else_same row.ceiling))
]

charge_levels-agrees :
    (c : CeilingConfig) (t : ℕ) (a : ℤ) (es : List LevelEntry) (cs : Dict CounterKey Counter)
    → LevelsDiffer (map (entry_key t) es)
    → Under c t es
    → Current c cs
    → charge_levels t a es cs ≡ outcome (first_exceeded t a cs es) (add_all t a es cs)
unfolding charge_levels first_exceeded add_all
charge_levels-agrees c t a [] cs d u h = refl
charge_levels-agrees c t a (e ∷ es) cs (n, d) (u, us) h =
    rw
      (charge_row_current (entry_key t e) e.level a e.ceiling cs
        (λ row f. h (entry_key t e) row f ∙ sym u))
      (elim (Bool-cases (is_over e.ceiling (total_at (entry_key t e) cs +ℤ a))) [
        | inl over ↦ rw over
        | inr room ↦ rw room (
            charge_levels-agrees c t a es _ d us (
              insert-Current c (entry_key t e) _ cs h (
                ceiling_of_current (entry_key t e) e.ceiling cs
                  (λ row f. h (entry_key t e) row f ∙ sym u)
                ∙ u))
            ∙ ap (λ o. outcome o (add_all t a es (add_counter (entry_key t e) e.ceiling a cs)))
                (first_exceeded-insert t a (entry_key t e) _ cs es n))
      ])

-- Where each counter's row carries the ceiling of the configuration, and the row is dated by the day
-- that the counters are charged on, the transaction gives the verdict and leaves the tables of the
-- in-memory store.
pub reserve_transaction-agrees :
    (id : ℕ) (day : Day) (input : ReserveInput) (c : CeilingConfig) (s : Store)
    → Current c s.counters
    → reserve_transaction id day day input c s ≡ reserve_atomic id day input c s
unfolding reserve_transaction reserve_atomic commit
reserve_transaction-agrees id day input c s h =
    rw
      (
        charge_levels-agrees c input.tenant_id input.amount (levels_for input c day) s.counters
            (levels_for-LevelsDiffer input c day) (levels_for-Under input c day) h,
        reserve_transaction,
      )
      (elim (Option-cases
        (first_exceeded input.tenant_id input.amount s.counters (levels_for input c day))) [
          | inl e ↦ rw (e, reserve_atomic)
          | inr (l, e) ↦ rw (e, reserve_atomic)
        ])

adjust_rows-eq :
    (ks : List CounterKey) (d : ℤ) (rows : Dict CounterKey Counter)
    → adjust_rows ks d rows ≡ adjust ks d rows
unfolding adjust_rows adjust
adjust_rows-eq [] d rows = refl
adjust_rows-eq (k ∷ ks) d rows = adjust_rows-eq ks d _

check_row-eq : (t id : ℕ) (s : Store) → check_row (locked_row t id s) ≡ get_reserved t id s
unfolding get_reserved
check_row-eq t id s = ground arith

-- The two transactions that resolve a reservation do what the in-memory methods do, errors included.
pub resolve_transactions-agree :
    (t id : ℕ) (actual : ℤ) (s : Store)
    → (settle_transaction t id actual s ≡ settle t id actual s)
      × (release_transaction t id s ≡ release t id s)
unfolding settle_transaction release_transaction settle release
resolve_transactions-agree t id actual s = (
  rw (settle_transaction, check_row-eq t id s) (simp adjust_rows-eq),
  rw (release_transaction, check_row-eq t id s) (simp adjust_rows-eq),
)
