-- ===== src/CostGate/Ceilings.antt =====
-- packages/cost-gate/src/ceilings.ts. The texts of the messages are left out.
pub mod Room
use byok_business_autopilot.Base.{ℕ, Bool, false, Option, none, some, nat_eq, if◌then◌else◌}
use byok_business_autopilot.Base.Int.{ℤ, ◌+ℤ◌, ltb_ℤ}
use byok_business_autopilot.Base.Dict.{Dict, lookup}
use byok_business_autopilot.CostGate.Ledger.{
  Ledger, reserved_company, reserved_role, reserved_task_type, settled_role_total,
  settled_task_type_total,
}

pub record CeilingConfig : Type 0 where
  pub company_monthly : ℤ
  pub per_role : Dict ℕ ℤ
  pub per_task_type : Dict ℕ ℤ
  pub per_task_type_per_day : Option (Dict ℕ ℤ)
  pub per_task_type_per_day_default : Option ℤ

pub data CeilingLevel : Type 0 where
  company role task_type task_type_day : CeilingLevel

pub data CeilingCheck : Type 0 where
  within : CeilingCheck
  exceeded : CeilingLevel → CeilingCheck

-- `undefined` is no ceiling.
abbrev pub is_over : Option ℤ → ℤ → Bool
is_over none projected = false
is_over (some ceiling) projected = ltb_ℤ ceiling projected

unfoldable pub check_ceilings : ℤ → ℕ → ℕ → CeilingConfig → Ledger → CeilingCheck
check_ceilings additional role_id type_id config ledger =
    if ltb_ℤ config.company_monthly
      (ledger.settled_company +ℤ reserved_company ledger +ℤ additional)
    then exceeded company
    else if is_over (lookup role_id config.per_role)
        (settled_role_total ledger role_id +ℤ reserved_role ledger role_id +ℤ additional)
    then exceeded role
    else if is_over (lookup type_id config.per_task_type)
        (settled_task_type_total ledger type_id +ℤ reserved_task_type ledger type_id +ℤ additional)
    then exceeded task_type
    else within
