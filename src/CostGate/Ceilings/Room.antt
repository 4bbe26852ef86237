-- ===== src/CostGate/Ceilings/Room.antt =====
-- packages/cost-gate/src/ceilings.ts: the check against an independent statement of it.
use byok_business_autopilot.Base.{ℕ, ◌≡◌, ◌↔◌, Option, none, some, nat_eq, arith, false}
use byok_business_autopilot.Base.Int.{ℤ, ◌+ℤ◌, ◌≤ℤ◌}
use byok_business_autopilot.Base.Dict.{lookup}
use byok_business_autopilot.CostGate.Ledger.{
  Ledger, reserved_company, reserved_role, reserved_task_type, settled_role_total,
  settled_task_type_total,
}
use byok_business_autopilot.CostGate.Ceilings.{
  CeilingConfig, CeilingLevel, company, role, task_type, task_type_day, within, exceeded,
  check_ceilings, is_over,
}

-- A ceiling, if there is one, has room.
abbrev pub HasRoom : Option ℤ → ℤ → Type 0
HasRoom none projected = Unit
HasRoom (some ceiling) projected = projected ≤ℤ ceiling

-- What is settled, in flight and asked for fits under the ceilings of the company, role and task type.
pub record Fits (additional : ℤ) (role_id type_id : ℕ) (c : CeilingConfig) (l : Ledger)
    : Type 0 where
  pub company_fits : l.settled_company +ℤ reserved_company l +ℤ additional ≤ℤ c.company_monthly
  pub role_fits :
      HasRoom
        (lookup role_id c.per_role)
        (settled_role_total l role_id +ℤ reserved_role l role_id +ℤ additional)
  pub task_type_fits :
      HasRoom
        (lookup type_id c.per_task_type)
        (settled_task_type_total l type_id +ℤ reserved_task_type l type_id +ℤ additional)

HasRoom-iff : (o : Option ℤ) (x : ℤ) → (is_over o x ≡ false) ↔ HasRoom o x
HasRoom-iff none x = ground arith
HasRoom-iff (some m) x = ground arith

-- The check passes exactly where all three ceilings that are configured have room.
pub check_ceilings_iff :
    (additional : ℤ) (role_id type_id : ℕ) (c : CeilingConfig) (l : Ledger)
    → (check_ceilings additional role_id type_id c l ≡ within) ↔ Fits additional role_id type_id c l
unfolding check_ceilings
check_ceilings_iff additional role_id type_id c l = ground (
  arith,
  HasRoom-iff (lookup role_id c.per_role)
      (settled_role_total l role_id +ℤ reserved_role l role_id +ℤ additional),
  HasRoom-iff (lookup type_id c.per_task_type)
      (settled_task_type_total l type_id +ℤ reserved_task_type l type_id +ℤ additional),
)

-- The first of the three ceilings, in this order, that has no room.
abbrev pub LacksRoom : ℤ → ℕ → ℕ → CeilingConfig → Ledger → CeilingLevel → Type 0
LacksRoom additional role_id type_id c l company =
    ¬ (l.settled_company +ℤ reserved_company l +ℤ additional ≤ℤ c.company_monthly)
LacksRoom additional role_id type_id c l role =
    (l.settled_company +ℤ reserved_company l +ℤ additional ≤ℤ c.company_monthly)
    × (¬ HasRoom (lookup role_id c.per_role)
        (settled_role_total l role_id +ℤ reserved_role l role_id +ℤ additional))
LacksRoom additional role_id type_id c l task_type =
    (l.settled_company +ℤ reserved_company l +ℤ additional ≤ℤ c.company_monthly)
    × HasRoom (lookup role_id c.per_role)
        (settled_role_total l role_id +ℤ reserved_role l role_id +ℤ additional)
    × (¬ HasRoom (lookup type_id c.per_task_type)
        (settled_task_type_total l type_id +ℤ reserved_task_type l type_id +ℤ additional))
LacksRoom additional role_id type_id c l task_type_day = ⊥

-- The level that the check names is that ceiling's.
pub check_ceilings-LacksRoom :
    (additional : ℤ) (role_id type_id : ℕ) (c : CeilingConfig) (l : Ledger) (level : CeilingLevel)
    → check_ceilings additional role_id type_id c l ≡ exceeded level
    → LacksRoom additional role_id type_id c l level
unfolding check_ceilings
check_ceilings-LacksRoom additional role_id type_id c l company h = ground (arith, h)
check_ceilings-LacksRoom additional role_id type_id c l role h = ground (
  arith,
  h,
  HasRoom-iff (lookup role_id c.per_role)
      (settled_role_total l role_id +ℤ reserved_role l role_id +ℤ additional),
)
check_ceilings-LacksRoom additional role_id type_id c l task_type h = ground (
  arith,
  h,
  HasRoom-iff (lookup role_id c.per_role)
      (settled_role_total l role_id +ℤ reserved_role l role_id +ℤ additional),
  HasRoom-iff (lookup type_id c.per_task_type)
      (settled_task_type_total l type_id +ℤ reserved_task_type l type_id +ℤ additional),
)
check_ceilings-LacksRoom additional role_id type_id c l task_type_day h = ground (arith, h)
