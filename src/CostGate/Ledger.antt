-- ===== src/CostGate/Ledger.antt =====
-- packages/cost-gate/src/reservations.ts: the reservations of one process. The id that
-- `randomUUID` draws and the time are arguments.
use byok_business_autopilot.Base.{
  ℕ, Bool, true, none, some, List, [], ◌∷◌, Result, ok, err, ◌>>=◌, or_throw, Eq, nat_eq, ◌==◌,
  ◌&&◌, if◌then◌else◌,
}
use byok_business_autopilot.Base.Int.{ℤ, pos, ◌+ℤ◌}
use byok_business_autopilot.Base.Dict.{Dict, lookup, insert, values}

pub data ReservationStatus : Type 0 where
  reserved settled released : ReservationStatus

pub ReservationStatus-discrete : Discrete ReservationStatus
ReservationStatus-discrete = hlevel

instance abbrev pub status_eq : Eq ReservationStatus
status_eq = record { dec = ReservationStatus-discrete }

pub record Reservation : Type 0 where
  pub id : ℕ
  pub role_id : ℕ
  pub task_type : ℕ
  pub amount : ℤ
  pub created_at : ℕ
  pub status : ReservationStatus

pub data ReservationError : Type 0 where
  unknown_reservation : ReservationError
  already_resolved : ReservationStatus → ReservationError

pub record Ledger : Type 0 where
  pub reservations : Dict ℕ Reservation
  pub settled_company : ℤ
  pub settled_by_role : Dict ℕ ℤ
  pub settled_by_task_type : Dict ℕ ℤ

abbrev pub new_ledger : Ledger
new_ledger = record {
  reservations = [];
  settled_company = pos 0;
  settled_by_role = [];
  settled_by_task_type = [];
}

-- `m.get(k) ?? 0`
abbrev pub amount_at : ℕ → Dict ℕ ℤ → ℤ
amount_at k m = elim (lookup k m) [ none ↦ pos 0 | some v ↦ v ]

unfoldable pub reserve : Ledger → ℕ → ℕ → ℕ → ℕ → ℤ → Reservation × Ledger
reserve ledger id at role_id task_type amount =
    let made : Reservation = record {
      id = id;
      role_id = role_id;
      task_type = task_type;
      amount = amount;
      created_at = at;
      status = reserved;
    } in
    (made, record ledger { reservations = insert id made ledger.reservations })

abbrev pub check_reserved : Reservation → ReservationStatus → Result ReservationError Reservation
check_reserved r reserved = ok r
check_reserved r settled = err (already_resolved settled)
check_reserved r released = err (already_resolved released)

unfoldable pub get_reserved : Ledger → ℕ → Result ReservationError Reservation
get_reserved ledger id = do
  r ← or_throw (lookup id ledger.reservations) unknown_reservation
  check_reserved r r.status

unfoldable pub settle : Ledger → ℕ → ℤ → Result ReservationError Ledger
unfolding get_reserved
settle ledger id actual = do
  r ← get_reserved ledger id
  ok (record {
    reservations = insert id (record r { status = settled }) ledger.reservations;
    settled_company = ledger.settled_company +ℤ actual;
    settled_by_role =
        insert r.role_id (amount_at r.role_id ledger.settled_by_role +ℤ actual)
          ledger.settled_by_role;
    settled_by_task_type =
        insert r.task_type (amount_at r.task_type ledger.settled_by_task_type +ℤ actual)
          ledger.settled_by_task_type;
  })

unfoldable pub release : Ledger → ℕ → Result ReservationError Ledger
unfolding get_reserved
release ledger id = do
  r ← get_reserved ledger id
  ok (record ledger {
    reservations = insert id (record r { status = released }) ledger.reservations;
  })

unfoldable pub sum_reserved : (Reservation → Bool) → List Reservation → ℤ
sum_reserved test [] = pos 0
sum_reserved test (r ∷ rs) =
    if r.status == reserved && test r
    then r.amount +ℤ sum_reserved test rs
    else sum_reserved test rs

abbrev pub reserved_company : Ledger → ℤ
reserved_company ledger = sum_reserved (λ r. true) (values ledger.reservations)

abbrev pub reserved_role : Ledger → ℕ → ℤ
reserved_role ledger role_id = sum_reserved (λ r. r.role_id == role_id) (values ledger.reservations)

abbrev pub reserved_task_type : Ledger → ℕ → ℤ
reserved_task_type ledger task_type =
    sum_reserved (λ r. r.task_type == task_type) (values ledger.reservations)

abbrev pub settled_role_total : Ledger → ℕ → ℤ
settled_role_total ledger role_id = amount_at role_id ledger.settled_by_role

abbrev pub settled_task_type_total : Ledger → ℕ → ℤ
settled_task_type_total ledger task_type = amount_at task_type ledger.settled_by_task_type
