-- ===== src/CostGate/Store.antt =====
-- packages/cost-gate/src/durable/reservationStore.ts: `InMemoryDurableReservationStore`. The UTC
-- day and the id that `randomUUID` draws are arguments; each method runs to its end undisturbed.
pub mod Keys
pub mod Accounts
pub mod Invariant
pub mod Cap
pub mod Postgres
pub mod Outcomes
use byok_business_autopilot.Base.{
  ℕ, Bool, true, false, Option, none, some, List, [], ◌∷◌, map, Result, ok, err, ◌>>=◌, or_throw,
  Eq, nat_eq, ◌==◌, ◌&&◌, ◌||◌, not, if◌then◌else◌,
}
use byok_business_autopilot.Base.Int.{ℤ, pos, ◌+ℤ◌, ◌-ℤ◌}
use byok_business_autopilot.Base.Dict.{Dict, lookup, insert}
use byok_business_autopilot.CostGate.Ceilings.{
  CeilingConfig, CeilingLevel, company, role, task_type, task_type_day, is_over,
}
use byok_business_autopilot.CostGate.Ledger.{
  ReservationStatus, reserved, settled, released, status_eq,
}
use byok_business_autopilot.CostGate.Store.Keys.{
  Day, CounterKey, key_eq, ScopeKey, of_month, of_id, of_day, keys_of,
}

pub record ReserveInput : Type 0 where
  pub tenant_id : ℕ
  pub task_id : ℕ
  pub role_id : ℕ
  pub type_id : ℕ
  pub amount : ℤ

pub data ReserveResult : Type 0 where
  accepted : ℕ → ReserveResult
  refused : CeilingLevel → ReserveResult

pub record LevelEntry : Type 0 where
  pub level : CeilingLevel
  pub scope_key : ScopeKey
  pub ceiling : Option ℤ

pub record StoredReservation : Type 0 where
  pub tenant_id : ℕ
  pub role_id : ℕ
  pub type_id : ℕ
  pub amount : ℤ
  pub day : Day
  pub status : ReservationStatus

pub record Counter : Type 0 where
  pub total : ℤ
  pub ceiling : Option ℤ

pub record Store : Type 0 where
  pub reservations : Dict ℕ StoredReservation
  pub counters : Dict CounterKey Counter

-- `UnknownOrResolvedReservationError`
pub data StoreError : Type 0 where
  unknown_or_resolved : StoreError

-- `a ?? b`
abbrev pub or_else {ℓ} : {A : Type ℓ} → Option A → Option A → Option A
or_else none b = b
or_else (some a) b = some a

abbrev pub day_ceiling : ℕ → Option (Dict ℕ ℤ) → Option ℤ
day_ceiling type_id none = none
day_ceiling type_id (some per_day) = lookup type_id per_day

unfoldable pub levels_for : ReserveInput → CeilingConfig → Day → List LevelEntry
levels_for input ceilings day =
    record {
      level = company;
      scope_key = of_month day.month;
      ceiling = some ceilings.company_monthly;
    }
    ∷ record {
      level = role;
      scope_key = of_id input.role_id;
      ceiling = lookup input.role_id ceilings.per_role;
    }
    ∷ record {
      level = task_type;
      scope_key = of_id input.type_id;
      ceiling = lookup input.type_id ceilings.per_task_type;
    }
    ∷ record {
      level = task_type_day;
      scope_key = of_day input.type_id day;
      ceiling =
          or_else (day_ceiling input.type_id ceilings.per_task_type_per_day)
            ceilings.per_task_type_per_day_default;
    }
    ∷ []

abbrev pub entry_key : ℕ → LevelEntry → CounterKey
entry_key tenant_id entry = record {
  tenant_id = tenant_id;
  level = entry.level;
  scope_key = entry.scope_key;
}

-- `?.totalUsd ?? 0`
abbrev pub total_of : Option Counter → ℤ
total_of none = pos 0
total_of (some counter) = counter.total

-- `existing?.ceilingUsd ?? ceilingUsd`
abbrev pub ceiling_of : Option Counter → Option ℤ → Option ℤ
ceiling_of none ceiling = ceiling
ceiling_of (some counter) ceiling = or_else counter.ceiling ceiling

abbrev pub total_at : CounterKey → Dict CounterKey Counter → ℤ
total_at k counters = total_of (lookup k counters)

-- The first loop: a level that has no room.
unfoldable pub first_exceeded :
    ℕ → ℤ → Dict CounterKey Counter → List LevelEntry → Option CeilingLevel
first_exceeded tenant_id amount counters [] = none
first_exceeded tenant_id amount counters (entry ∷ rest) =
    if is_over entry.ceiling (total_at (entry_key tenant_id entry) counters +ℤ amount)
    then some entry.level
    else first_exceeded tenant_id amount counters rest

abbrev pub add_counter :
    CounterKey → Option ℤ → ℤ → Dict CounterKey Counter → Dict CounterKey Counter
add_counter k ceiling amount counters =
    insert k
      (record {
        total = total_at k counters +ℤ amount;
        ceiling = ceiling_of (lookup k counters) ceiling;
      })
      counters

-- The second loop.
unfoldable pub add_all : ℕ → ℤ → List LevelEntry → Dict CounterKey Counter → Dict CounterKey Counter
add_all tenant_id amount [] counters = counters
add_all tenant_id amount (entry ∷ rest) counters =
    add_all tenant_id amount rest
      (add_counter (entry_key tenant_id entry) entry.ceiling amount counters)

abbrev pub new_reservation : ReserveInput → Day → StoredReservation
new_reservation input day = record {
  tenant_id = input.tenant_id;
  role_id = input.role_id;
  type_id = input.type_id;
  amount = input.amount;
  day = day;
  status = reserved;
}

unfoldable pub commit : ℕ → Day → ReserveInput → CeilingConfig → Store → Store
commit id day input ceilings s = record {
  reservations = insert id (new_reservation input day) s.reservations;
  counters = add_all input.tenant_id input.amount (levels_for input ceilings day) s.counters;
}

unfoldable pub reserve_atomic :
    ℕ → Day → ReserveInput → CeilingConfig → Store → ReserveResult × Store
unfolding commit
reserve_atomic id day input ceilings s =
    elim (first_exceeded input.tenant_id input.amount s.counters (levels_for input ceilings day)) [
      | some level ↦ (refused level, s)
      | none ↦ (accepted id, commit id day input ceilings s)
    ]

abbrev pub check_open : ℕ → StoredReservation → Result StoreError StoredReservation
check_open tenant_id r =
    if not (r.tenant_id == tenant_id) || not (r.status == reserved)
    then err unknown_or_resolved
    else ok r

unfoldable pub get_reserved : ℕ → ℕ → Store → Result StoreError StoredReservation
get_reserved tenant_id id s = do
  r ← or_throw (lookup id s.reservations) unknown_or_resolved
  check_open tenant_id r

-- Only counters that exist are adjusted.
abbrev pub adjust_one : CounterKey → ℤ → Dict CounterKey Counter → Dict CounterKey Counter
adjust_one k delta counters = elim (lookup k counters) [
  | none ↦ counters
  | some counter ↦ insert k (record counter { total = counter.total +ℤ delta }) counters
]

unfoldable pub adjust : List CounterKey → ℤ → Dict CounterKey Counter → Dict CounterKey Counter
adjust [] delta counters = counters
adjust (k ∷ ks) delta counters = adjust ks delta (adjust_one k delta counters)

abbrev pub reservation_keys : StoredReservation → List CounterKey
reservation_keys r = keys_of r.tenant_id r.role_id r.type_id r.day

abbrev pub resolve_as : ReservationStatus → ℤ → ℤ → ℕ → StoredReservation → Store → Store
resolve_as status amount delta id r s = record {
  reservations = insert id (record r { status = status; amount = amount }) s.reservations;
  counters = adjust (reservation_keys r) delta s.counters;
}

unfoldable pub settle : ℕ → ℕ → ℤ → Store → Result StoreError Store
unfolding get_reserved
settle tenant_id id actual s = do
  r ← get_reserved tenant_id id s
  ok (resolve_as settled actual (actual -ℤ r.amount) id r s)

unfoldable pub release : ℕ → ℕ → Store → Result StoreError Store
unfolding get_reserved
release tenant_id id s = do
  r ← get_reserved tenant_id id s
  ok (resolve_as released r.amount (pos 0 -ℤ r.amount) id r s)

-- Total and ceiling of one counter, and 0 and no ceiling where it has no row.
unfoldable pub totals : CounterKey → Store → ℤ × Option ℤ
totals k s = (total_at k s.counters, ceiling_of (lookup k s.counters) none)
