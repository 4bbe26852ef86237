-- ===== src/CostGate/Store/Postgres.antt =====
-- packages/cost-gate/src/durable/reservationStore.ts: `PostgresReservationStore`. Tables are
-- dictionaries by their unique keys; a transaction runs on a copy, which an exception drops. The
-- statements are read as SQL documents them: `ON CONFLICT DO NOTHING` keeps a row that is there, and an
-- `UPDATE` changes the rows that its `WHERE` holds of. Amounts are exact: the rounding of
-- NUMERIC(14,6) is left out.
pub mod Agreement
pub mod Frozen
use byok_business_autopilot.Base.{
  ℕ, ◌≡◌, refl, sym, ◌∙◌, ap, subst, Bool, true, false, Option, none, some, List, [], ◌∷◌, map,
  Result, ok, err, ◌>>=◌, or_throw, ◌⊎◌, inl, inr, ◌≢◌, nat_eq, ◌==◌, if◌then◌else◌, arith,
  Option-cases, Bool-cases, not,
}
use mathlib.Core.Option.{some-injective}
use byok_business_autopilot.Base.Int.{ℤ, pos, ◌+ℤ◌, ◌-ℤ◌}
use byok_business_autopilot.Base.Dict.{
  Dict, lookup, insert, lookup-nil, lookup-insert, lookup-insert_self, lookup-insert_ne,
  insert-insert,
}
use byok_business_autopilot.CostGate.Ceilings.{is_over, CeilingConfig, CeilingLevel}
use byok_business_autopilot.CostGate.Ledger.{
  ReservationStatus, reserved, settled, released, status_eq,
}
use byok_business_autopilot.CostGate.Store.Keys.{
  Day, CounterKey, CounterKey-discrete, key_eq, keys_of, ScopeKey,
}
use byok_business_autopilot.CostGate.Store.Accounts.{Present, insert-Present}
use byok_business_autopilot.CostGate.Store.Invariant.{levels_for-keys}
use byok_business_autopilot.CostGate.Store.Cap.{
  ceiling_for, OtherLevels, LevelsDiffer, levels_for-LevelsDiffer, Under, levels_for-Under,
}
use byok_business_autopilot.CostGate.Store.{
  Store, StoredReservation, Counter, LevelEntry, ReserveInput, ReserveResult, accepted, refused,
  entry_key, total_at, total_of, new_reservation, levels_for, first_exceeded, commit,
  reserve_atomic, add_all, add_counter, or_else, StoreError, unknown_or_resolved, reservation_keys,
  adjust, adjust_one, ceiling_of, settle, release, get_reserved,
}

-- `INSERT … ON CONFLICT DO NOTHING` gives the row that is there afterwards.
abbrev pub row_after_insert : Option Counter → Option ℤ → Counter
row_after_insert none ceiling = record { total = pos 0; ceiling = ceiling }
row_after_insert (some row) ceiling = row

-- One round of the loop over the levels; an exception carries the level.
abbrev pub charge_row :
    CounterKey
    → CeilingLevel
    → ℤ
    → Counter
    → Dict CounterKey Counter
    → Result CeilingLevel (Dict CounterKey Counter)
charge_row k level amount row counters =
    if is_over row.ceiling (row.total +ℤ amount)
    then err level
    else ok (insert k (record row { total = row.total +ℤ amount }) counters)

unfoldable pub charge_levels :
    ℕ
    → ℤ
    → List LevelEntry
    → Dict CounterKey Counter
    → Result CeilingLevel (Dict CounterKey Counter)
charge_levels t amount [] counters = ok counters
charge_levels t amount (e ∷ es) counters = do
  let row = row_after_insert (lookup (entry_key t e) counters) e.ceiling
  charged ← charge_row (entry_key t e) e.level amount row (insert (entry_key t e) row counters)
  charge_levels t amount es charged

-- `day` is the day of the process, and `created_on` that of the `created_at` which the database sets.
unfoldable pub reserve_transaction :
    ℕ → Day → Day → ReserveInput → CeilingConfig → Store → ReserveResult × Store
reserve_transaction id day created_on input ceilings s =
    elim (charge_levels input.tenant_id input.amount (levels_for input ceilings day) s.counters) [
      | err level ↦ (refused level, s)
      | ok counters ↦ (
        accepted id,
        record {
          reservations = insert id (new_reservation input created_on) s.reservations;
          counters = counters;
        },
      )
    ]

-- `SELECT … FOR UPDATE` by id and tenant, and the check of the row.
abbrev pub locked_row : ℕ → ℕ → Store → Option StoredReservation
locked_row t id s = elim (lookup id s.reservations) [
  | none ↦ none
  | some r ↦ if r.tenant_id == t then some r else none
]

abbrev pub check_row : Option StoredReservation → Result StoreError StoredReservation
check_row none = err unknown_or_resolved
check_row (some r) = if r.status == reserved then ok r else err unknown_or_resolved

-- `UPDATE cost_ledger_counters SET total_usd = total_usd + $1`, for the four keys.
unfoldable pub adjust_rows : List CounterKey → ℤ → Dict CounterKey Counter → Dict CounterKey Counter
adjust_rows [] delta rows = rows
adjust_rows (k ∷ ks) delta rows = adjust_rows ks delta (adjust_one k delta rows)

unfoldable pub settle_transaction : ℕ → ℕ → ℤ → Store → Result StoreError Store
settle_transaction t id actual s = do
  r ← check_row (locked_row t id s)
  ok (record {
    reservations = insert id (record r { status = settled; amount = actual }) s.reservations;
    counters = adjust_rows (reservation_keys r) (actual -ℤ r.amount) s.counters;
  })

unfoldable pub release_transaction : ℕ → ℕ → Store → Result StoreError Store
release_transaction t id s = do
  r ← check_row (locked_row t id s)
  ok (record {
    reservations = insert id (record r { status = released }) s.reservations;
    counters = adjust_rows (reservation_keys r) (pos 0 -ℤ r.amount) s.counters;
  })
