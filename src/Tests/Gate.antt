-- ===== src/Tests/Gate.antt =====
-- packages/cost-gate: runs at concrete prices, ceilings and tasks.
use byok_business_autopilot.Base.{
  ℕ, ◌≡◌, refl, sym, subst, true, none, some, [], ◌∷◌, ok, err, nat_eq, ℕ_discrete, arith, ◌⊎◌, inl,
}
use byok_business_autopilot.Base.Int.{ℤ, pos, ◌+ℤ◌, ◌≤ℤ◌, int_laws}
use byok_business_autopilot.Base.Dict.{lookup, insert, lookup-nil}
use byok_business_autopilot.CostGate.Pricing.{
  PricingTable, PricingEntry, price_for, assert_fresh, t2, t3,
}
use byok_business_autopilot.CostGate.Estimator.{
  CostEstimate, estimate_cost, estimate_with, estimate_input_tokens, short_structured,
}
use byok_business_autopilot.CostGate.TierRouter.{TierModelMap, tier_one_step_down, select_model}
use byok_business_autopilot.CostGate.Ceilings.{CeilingConfig, CeilingLevel, check_ceilings}
use byok_business_autopilot.CostGate.Ceilings.Room.{Fits}
use byok_business_autopilot.CostGate.Ledger.{settled, sum_reserved}
use byok_business_autopilot.CostGate.Gate.{
  GateInput, GateDeps, GateVerdict, evaluate_gate_verdict, try_downgrade, proceed, queue,
  within_all, estimate_at,
}
use byok_business_autopilot.CostGate.Gate.Verdicts.{Runs, Runs-within_ceilings}
use byok_business_autopilot.CostGate.Store.Keys.{Day, CounterKey, key_eq, keys_of}
use byok_business_autopilot.CostGate.Store.{
  Store, Counter, StoredReservation, ReserveInput, accepted, refused, total_at, reserve_atomic,
  settle, get_reserved, adjust, commit, first_exceeded, levels_for, new_reservation,
}
use byok_business_autopilot.CostGate.Store.Accounts.{spread, Present, add_all-Present_self}
use byok_business_autopilot.CostGate.Store.Invariant.{
  Balances, empty_store, empty_store-Balances, Reach-Balances,
}
use byok_business_autopilot.CostGate.Store.Invariant
use byok_business_autopilot.CostGate.Store.Cap.{IsWithin, Reach-IsWithin, ceiling_for}
use byok_business_autopilot.CostGate.Store.Cap
use byok_business_autopilot.CostGate.Store.Outcomes.{
  keys_for, HasRoom, Lacks, reserve_atomic_outcome,
}
use byok_business_autopilot.CostGate.Store.Postgres.{reserve_transaction}
use byok_business_autopilot.CostGate.Store.Postgres.Agreement.{Current, reserve_transaction-agrees}
use byok_business_autopilot.CostGate.Store.Postgres.Frozen.{reserve_transaction_ignores_ceilings}
use byok_business_autopilot.CostGate.Service.{
  CostGate, Call, GateResult, evaluate_and_reserve, deps_for, handle_for, record_verdict, mirror,
  reserve_input, unknown_reservation,
}
use byok_business_autopilot.CostGate.Service
use byok_business_autopilot.CostGate.Service.Reservations.{reserve_then_resolve}

abbrev large : PricingEntry
large = record { provider = 1; tier = t3; input_per_m_tok = 3000000; output_per_m_tok = 15000000 }

abbrev small : PricingEntry
small = record { provider = 1; tier = t2; input_per_m_tok = 1000000; output_per_m_tok = 5000000 }

abbrev table : PricingTable
table = record {
  last_verified = some 0;
  prices = (7, large) ∷ (5, small) ∷ [];
  stale_after_days = 45;
}

abbrev maps : TierModelMap
maps = record { t1_model = 5; t2_model = 5; t3_model = 7 }

abbrev config_of : ℕ → CeilingConfig
config_of monthly = record {
  company_monthly = pos monthly;
  per_role = [];
  per_task_type = [];
  per_task_type_per_day = none;
  per_task_type_per_day_default = none;
}

abbrev config : CeilingConfig
config = config_of 100000000000

abbrev raised : CeilingConfig
raised = config_of 200000000000

abbrev day : Day
day = record { month = 1; day_of_month = 2 }

abbrev task : ReserveInput
task = record { tenant_id = 1; task_id = 2; role_id = 3; type_id = 4; amount = pos 5 }

abbrev held : Store
held = (reserve_atomic 9 day task config empty_store).1

monthly_is_positive : (k : CounterKey) (m : ℤ) → ceiling_for config k ≡ some m → pos 0 ≤ℤ m
unfolding ceiling_for lookup
monthly_is_positive k m h = ground arith

empty_store-IsWithin : IsWithin config empty_store
empty_store-IsWithin = record {
  books = empty_store-Balances;
  capped = λ k m h.
      subst (λ x. x ≤ℤ m) {x = pos 0} (sym (rw lookup-nil refl)) (monthly_is_positive k m h);
  nonneg = λ id r e. ground (arith, e, lookup-nil {V = StoredReservation} id);
}

Reach-IsWithin_example : IsWithin config held
Reach-IsWithin_example =
    Reach-IsWithin config empty_store held
      (Cap.next Cap.here (Cap.reserves 9 day task (lookup-nil 9) (omega int_laws)))
      empty_store-IsWithin

Reach-Balances_example : Balances held
Reach-Balances_example =
    Reach-Balances held
      (Invariant.next Invariant.here (Invariant.reserves 9 day task config (lookup-nil 9)))

reserve_atomic_outcome_example :
    let (result, s') = reserve_atomic 9 day task config empty_store in
    ((result ≡ accepted 9)
      × HasRoom config task day empty_store
      × ((k : CounterKey)
          → total_at k s'.counters ≡ total_at k [] +ℤ spread (keys_for task day) (pos 5) k))
    ⊎ ((l : CeilingLevel) × (result ≡ refused l)
        × (s' ≡ empty_store)
        × Lacks config task day empty_store l)
reserve_atomic_outcome_example = reserve_atomic_outcome 9 day task config empty_store

abbrev row : StoredReservation
row = new_reservation task day

abbrev books : Store
books = record { reservations = (9, row) ∷ []; counters = [] }

abbrev books_after : Store
books_after = record {
  reservations = (9, record row { status = settled; amount = pos 3 }) ∷ [];
  counters = [];
}

settled_once : settle 1 9 (pos 3) books ≡ ok books_after
unfolding settle get_reserved lookup insert adjust keys_of ℕ_discrete
settled_once = ground arith

row_there : lookup 9 books.reservations ≡ some row
unfolding lookup ℕ_discrete
row_there = refl

empty-Current : Current config []
empty-Current k c h = ground (arith, h, lookup-nil {V = Counter} k)

reserve_transaction-agrees_example :
    reserve_transaction 9 day day task config empty_store
    ≡ reserve_atomic 9 day task config empty_store
reserve_transaction-agrees_example =
    reserve_transaction-agrees 9 day task config empty_store empty-Current

held-Present : Present (keys_of 1 3 4 day) held.counters
unfolding reserve_atomic commit first_exceeded lookup ◌+ℤ◌ levels_for keys_of
held-Present = add_all-Present_self 1 (pos 5) (levels_for task config day) []

reserve_transaction_ignores_ceilings_example :
    reserve_transaction 10 day day task config held
    ≡ reserve_transaction 10 day day task raised held
reserve_transaction_ignores_ceilings_example =
    reserve_transaction_ignores_ceilings 10 day day task config raised held held-Present

abbrev pub input : GateInput
input = record {
  task_id = 2;
  role_id = 3;
  task_type = 4;
  payload = 80 ∷ 81 ∷ [];
  model = 7;
  output_class = short_structured;
  batchable = true;
}

abbrev pub gate_of : ℕ → CostGate
gate_of monthly = record {
  table = table;
  ceiling_config = λ tenant_id. config_of monthly;
  model_maps = (1, maps) ∷ [];
  tenant_ledgers = [];
  reservation_meta = [];
  store = empty_store;
  audit = [];
  events = [];
}

abbrev pub call : Call
call = record { durable_id = 20; local_id = 21; day = day; now = 1000 }

abbrev deps : GateDeps
deps = deps_for (gate_of 100000000000) 1 1000

proceeds : (evaluate_gate_verdict input deps).kind ≡ proceed
unfolding evaluate_gate_verdict estimate_cost estimate_with estimate_input_tokens price_for
    assert_fresh lookup check_ceilings sum_reserved ℕ_discrete ◌+ℤ◌
proceeds = refl

Runs-within_ceilings_example :
    let v = evaluate_gate_verdict input deps in
    (e : CostEstimate) × (v.estimate ≡ some e)
    × (estimate_at input deps v.model ≡ ok e)
    × Fits e.cost_upper_bound 3 4 config deps.ledger
Runs-within_ceilings_example = Runs-within_ceilings input deps (inl proceeds)

abbrev upper : ℤ
upper = pos 54036000000

abbrev verdict : GateVerdict
verdict = record {
  kind = proceed;
  reason = within_all;
  model = 7;
  estimate = some (record {
    model = 7;
    input_tokens_estimate = 1;
    output_tokens_estimate = 300;
    margin = 2;
    cost_lower_bound = pos 36024000000;
    cost_upper_bound = upper;
  });
}

abbrev pub result : GateResult
result = record { verdict = verdict; reservation = some (handle_for call input upper 20) }

abbrev pub spent : CostGate
spent =
    (record_verdict 1 call input (
      result,
      mirror 1 call input upper 20 (record (gate_of 100000000000) {
        store = commit 20 day (reserve_input 1 input upper) config empty_store;
      }),
    )).1

pub reserved_here : evaluate_and_reserve 1 call input (gate_of 100000000000) ≡ ok (result, spent)
unfolding evaluate_and_reserve evaluate_gate_verdict estimate_cost estimate_with
    estimate_input_tokens price_for assert_fresh lookup check_ceilings sum_reserved ℕ_discrete ◌+ℤ◌
    reserve_atomic first_exceeded levels_for
reserved_here = refl

reserve_then_resolve_example :
    let (outcome, done) = Service.settle 20 (pos 40000000000) spent in
    (outcome ≡ ok tt)
    × ((Service.release 20 spent).0 ≡ ok tt)
    × (Service.settle 20 (pos 1) done ≡ (err unknown_reservation, done))
    × (Service.release 20 done ≡ (err unknown_reservation, done))
reserve_then_resolve_example =
    reserve_then_resolve 1 call input (gate_of 100000000000) spent result
      (handle_for call input upper 20) (pos 40000000000) (pos 1) reserved_here refl

abbrev tight : GateDeps
tight = deps_for (gate_of 10) 1 1000

queues : (evaluate_gate_verdict input tight).kind ≡ queue
unfolding evaluate_gate_verdict try_downgrade tier_one_step_down select_model estimate_cost
    estimate_with estimate_input_tokens price_for assert_fresh lookup check_ceilings sum_reserved
    ℕ_discrete ◌+ℤ◌
queues = refl

queues_not_Runs : ¬ Runs (evaluate_gate_verdict input tight).kind
queues_not_Runs = subst (λ k. ¬ Runs k) (sym queues) (λ r. ground arith)

abbrev short_estimate : CostEstimate
short_estimate = estimate_with large (80 ∷ []) 7 short_structured

abbrev long_estimate : CostEstimate
long_estimate = estimate_with large (80 ∷ 81 ∷ 82 ∷ 83 ∷ 84 ∷ []) 7 short_structured

short_estimated : estimate_cost (80 ∷ []) 7 short_structured table 1000 ≡ ok short_estimate
unfolding estimate_cost price_for assert_fresh lookup ℕ_discrete
short_estimated = refl

long_estimated :
    estimate_cost (80 ∷ 81 ∷ 82 ∷ 83 ∷ 84 ∷ []) 7 short_structured table 1000 ≡ ok long_estimate
unfolding estimate_cost price_for assert_fresh lookup ℕ_discrete
long_estimated = refl
