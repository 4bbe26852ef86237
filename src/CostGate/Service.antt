-- ===== src/CostGate/Service.antt =====
-- packages/cost-gate/src/costGate.ts: the gate with its state. Over the in-memory durable store; a call
-- runs from its pre-check to its audit entry undisturbed. The ids that `randomUUID` draws, the UTC day
-- and the time are arguments.
pub mod Reservations
pub mod Contract
use byok_business_autopilot.Base.{
  ℕ, Bool, true, false, Option, none, some, List, [], ◌∷◌, ◌++◌, Result, ok, err, ◌>>=◌, ◌>>◌,
  or_throw, nat_eq, if◌then◌else◌,
}
use byok_business_autopilot.Base.Int.{ℤ}
use byok_business_autopilot.Base.Dict.{Dict, lookup, insert, erase}
use byok_business_autopilot.CostGate.Pricing.{PricingTable}
use byok_business_autopilot.CostGate.Estimator.{CostEstimate}
use byok_business_autopilot.CostGate.TierRouter.{TierModelMap}
use byok_business_autopilot.CostGate.Ceilings.{CeilingConfig, CeilingLevel}
use byok_business_autopilot.CostGate.Ledger.{Ledger, new_ledger, Reservation, reserved}
use byok_business_autopilot.CostGate.Ledger
use byok_business_autopilot.CostGate.Gate.{
  GateInput, GateDeps, GateVerdict, VerdictKind, proceed, downgrade, queue, skip, Reason,
  over_durable, over_durable_not_batchable, evaluate_gate_verdict,
}
use byok_business_autopilot.CostGate.Store.Keys.{Day}
use byok_business_autopilot.CostGate.Store.{
  Store, ReserveInput, ReserveResult, accepted, refused, reserve_atomic,
}
use byok_business_autopilot.CostGate.Store

pub record GateEvent : Type 0 where
  pub task_id : ℕ
  pub role_id : ℕ
  pub task_type : ℕ
  pub reason : Reason
  pub at : ℕ

-- The entry of one evaluation in the durable audit log.
pub record AuditEntry : Type 0 where
  pub tenant_id : ℕ
  pub kind : VerdictKind
  pub ref_id : ℕ
  pub role_id : ℕ
  pub task_type : ℕ
  pub reason : Reason
  pub model : ℕ
  pub downgraded_to : Option ℕ
  pub estimated_upper_bound : Option ℤ

pub record LocalRef : Type 0 where
  pub tenant_id : ℕ
  pub local_id : ℕ

pub record CostGate : Type 0 where
  pub table : PricingTable
  pub ceiling_config : ℕ → CeilingConfig
  pub model_maps : Dict ℕ TierModelMap
  pub tenant_ledgers : Dict ℕ Ledger
  pub reservation_meta : Dict ℕ LocalRef
  pub store : Store
  pub audit : List AuditEntry
  pub events : List GateEvent

-- The ids and the clock of one call.
pub record Call : Type 0 where
  pub durable_id : ℕ
  pub local_id : ℕ
  pub day : Day
  pub now : ℕ

-- A verdict to run with no estimate would break on `estimate!`.
pub data GateError : Type 0 where
  missing_estimate unknown_reservation : GateError
  local_error : Ledger.ReservationError → GateError
  store_error : Store.StoreError → GateError

pub record GateResult : Type 0 where
  pub verdict : GateVerdict
  pub reservation : Option Reservation

abbrev pub ledger_or_new : Option Ledger → Ledger
ledger_or_new none = new_ledger
ledger_or_new (some ledger) = ledger

abbrev pub ledger_for : CostGate → ℕ → Ledger
ledger_for g tenant_id = ledger_or_new (lookup tenant_id g.tenant_ledgers)

abbrev pub deps_for : CostGate → ℕ → ℕ → GateDeps
deps_for g tenant_id now = record {
  table = g.table;
  ceilings = g.ceiling_config tenant_id;
  ledger = ledger_for g tenant_id;
  model_maps = g.model_maps;
  now = now;
}

-- The durable store disagrees with the pre-check.
abbrev pub durable_refusal : GateInput → GateVerdict → CeilingLevel → GateVerdict
durable_refusal input pre level =
    if input.batchable
    then record {
      kind = queue;
      reason = over_durable level;
      model = input.model;
      estimate = pre.estimate;
    }
    else record {
      kind = skip;
      reason = over_durable_not_batchable level;
      model = input.model;
      estimate = pre.estimate;
    }

abbrev pub reserve_input : ℕ → GateInput → ℤ → ReserveInput
reserve_input tenant_id input amount = record {
  tenant_id = tenant_id;
  task_id = input.task_id;
  role_id = input.role_id;
  type_id = input.task_type;
  amount = amount;
}

-- The mirror of a durable reservation in the tenant's ledger.
abbrev pub mirror : ℕ → Call → GateInput → ℤ → ℕ → CostGate → CostGate
mirror tenant_id call input amount id g = record g {
  tenant_ledgers =
      insert tenant_id
        (Ledger.reserve (ledger_for g tenant_id) call.local_id call.now input.role_id
          input.task_type amount).1
        g.tenant_ledgers;
  reservation_meta =
      insert id (record { tenant_id = tenant_id; local_id = call.local_id }) g.reservation_meta;
}

abbrev pub handle_for : Call → GateInput → ℤ → ℕ → Reservation
handle_for call input amount id = record {
  id = id;
  role_id = input.role_id;
  task_type = input.task_type;
  amount = amount;
  created_at = call.now;
  status = reserved;
}

abbrev pub after_attempt :
    ℕ
    → Call
    → GateInput
    → GateVerdict
    → ℤ
    → ReserveResult × Store
    → CostGate
    → GateResult × CostGate
after_attempt tenant_id call input pre amount (accepted id, store) g = (
  record { verdict = pre; reservation = some (handle_for call input amount id) },
  mirror tenant_id call input amount id (record g { store = store }),
)
after_attempt tenant_id call input pre amount (refused level, store) g = (
  record { verdict = durable_refusal input pre level; reservation = none },
  record g { store = store },
)

abbrev pub attempt :
    ℕ
    → Call
    → GateInput
    → GateVerdict
    → Option CostEstimate
    → CostGate
    → Result GateError (GateResult × CostGate)
attempt tenant_id call input pre none g = err missing_estimate
attempt tenant_id call input pre (some estimate) g = ok (
    after_attempt tenant_id call input pre estimate.cost_upper_bound
      (reserve_atomic call.durable_id call.day
        (reserve_input tenant_id input estimate.cost_upper_bound) (g.ceiling_config tenant_id)
        g.store)
      g)

abbrev pub reserve_if_runs :
    ℕ
    → Call
    → GateInput
    → GateVerdict
    → VerdictKind
    → CostGate
    → Result GateError (GateResult × CostGate)
reserve_if_runs tenant_id call input pre proceed g = attempt tenant_id call input pre pre.estimate g
reserve_if_runs tenant_id call input pre downgrade g =
    attempt tenant_id call input pre pre.estimate g
reserve_if_runs tenant_id call input pre queue g =
    ok (record { verdict = pre; reservation = none }, g)
reserve_if_runs tenant_id call input pre skip g =
    ok (record { verdict = pre; reservation = none }, g)

abbrev pub upper_bound : Option CostEstimate → Option ℤ
upper_bound none = none
upper_bound (some estimate) = some estimate.cost_upper_bound

abbrev pub downgraded_to : VerdictKind → ℕ → Option ℕ
downgraded_to downgrade model = some model
downgraded_to _ model = none

abbrev pub audit_entry : ℕ → GateInput → GateVerdict → AuditEntry
audit_entry tenant_id input v = record {
  tenant_id = tenant_id;
  kind = v.kind;
  ref_id = input.task_id;
  role_id = input.role_id;
  task_type = input.task_type;
  reason = v.reason;
  model = v.model;
  downgraded_to = downgraded_to v.kind v.model;
  estimated_upper_bound = upper_bound v.estimate;
}

abbrev pub skip_events : VerdictKind → GateInput → Reason → ℕ → List GateEvent
skip_events skip input reason now =
    record {
      task_id = input.task_id;
      role_id = input.role_id;
      task_type = input.task_type;
      reason = reason;
      at = now;
    }
    ∷ []
skip_events _ input reason now = []

-- The audit entry of every verdict and the event of a skip.
abbrev pub record_verdict : ℕ → Call → GateInput → GateResult × CostGate → GateResult × CostGate
record_verdict tenant_id call input (result, g) = (
  result,
  record g {
    audit = g.audit ++ audit_entry tenant_id input result.verdict ∷ [];
    events = g.events ++ skip_events result.verdict.kind input result.verdict.reason call.now;
  },
)

unfoldable pub evaluate_and_reserve :
    ℕ → Call → GateInput → CostGate → Result GateError (GateResult × CostGate)
evaluate_and_reserve tenant_id call input g = do
  let pre = evaluate_gate_verdict input (deps_for g tenant_id call.now)
  done ← reserve_if_runs tenant_id call input pre pre.kind g
  ok (record_verdict tenant_id call input done)

-- The ledger's part and the end of `settle` and `release`; what the store did stays done.
abbrev pub finish :
    ℕ
    → LocalRef
    → Result Ledger.ReservationError Ledger
    → CostGate
    → Result GateError (Unit {0}) × CostGate
finish id meta (ok ledger) g = (
  ok tt,
  record g {
    tenant_ledgers = insert meta.tenant_id ledger g.tenant_ledgers;
    reservation_meta = erase id g.reservation_meta;
  },
)
finish id meta (err e) g = (err (local_error e), g)

abbrev pub settle_ref : ℕ → ℤ → Option LocalRef → CostGate → Result GateError (Unit {0}) × CostGate
settle_ref id actual none g = (err unknown_reservation, g)
settle_ref id actual (some meta) g = elim (Store.settle meta.tenant_id id actual g.store) [
  | err e ↦ (err (store_error e), g)
  | ok store ↦
      finish id meta (Ledger.settle (ledger_for g meta.tenant_id) meta.local_id actual)
        (record g { store = store })
]

unfoldable pub settle : ℕ → ℤ → CostGate → Result GateError (Unit {0}) × CostGate
settle id actual g = settle_ref id actual (lookup id g.reservation_meta) g

abbrev pub release_ref : ℕ → Option LocalRef → CostGate → Result GateError (Unit {0}) × CostGate
release_ref id none g = (err unknown_reservation, g)
release_ref id (some meta) g = elim (Store.release meta.tenant_id id g.store) [
  | err e ↦ (err (store_error e), g)
  | ok store ↦
      finish id meta (Ledger.release (ledger_for g meta.tenant_id) meta.local_id)
        (record g { store = store })
]

unfoldable pub release : ℕ → CostGate → Result GateError (Unit {0}) × CostGate
release id g = release_ref id (lookup id g.reservation_meta) g
