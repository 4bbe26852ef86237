-- ===== src/CostGate/Store/Keys.antt =====
-- The keys of the counters in packages/cost-gate/src/durable/reservationStore.ts. A counter stands
-- under its tenant, level and scope; the scope's text keeps its parts: `company:<month>`, an id, or
-- `<task type>:<day>`.
use byok_business_autopilot.Base.{ℕ, List, [], ◌∷◌, Eq, ℕ_discrete}
use byok_business_autopilot.CostGate.Ceilings.{
  CeilingLevel, company, role, task_type, task_type_day,
}

-- `YYYY-MM-DD`; `month` stands for the first seven characters.
pub record Day : Type 0 where
  pub month : ℕ
  pub day_of_month : ℕ

pub data ScopeKey : Type 0 where
  of_month : ℕ → ScopeKey
  of_id : ℕ → ScopeKey
  of_day : ℕ → Day → ScopeKey

pub record CounterKey : Type 0 where
  pub tenant_id : ℕ
  pub level : CeilingLevel
  pub scope_key : ScopeKey

pub CounterKey-discrete : Discrete CounterKey
CounterKey-discrete = hlevel ℕ_discrete

instance abbrev pub key_eq : Eq CounterKey
key_eq = record { dec = CounterKey-discrete }

-- The four counters that a reservation made on that day counts in.
unfoldable pub keys_of : ℕ → ℕ → ℕ → Day → List CounterKey
keys_of tenant_id role_id type_id day =
    record { tenant_id = tenant_id; level = company; scope_key = of_month day.month }
    ∷ record { tenant_id = tenant_id; level = role; scope_key = of_id role_id }
    ∷ record { tenant_id = tenant_id; level = task_type; scope_key = of_id type_id }
    ∷ record { tenant_id = tenant_id; level = task_type_day; scope_key = of_day type_id day }
    ∷ []
