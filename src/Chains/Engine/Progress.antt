-- ===== src/Chains/Engine/Progress.antt =====
-- packages/chains/src/chainEngine.ts: a chain that is driven by `nextRunnableStep` ends.
use byok_business_autopilot.Base.{
  ℕ, suc, ◌+◌, ◌-◌, ◌*◌, ◌≤◌, ◌<◌, ◌≡◌, refl, Bool, true, false, some, ok, nat_eq, arith, subst,
  if◌then◌else◌,
}
use byok_business_autopilot.Base.Lists.{length}
use byok_business_autopilot.Chains.Types.{
  Chain, ChainStep, ChainStatus, ChainStepStatus, running, awaiting_approval, chain_status_eq,
}
use byok_business_autopilot.Chains.Engine.{
  StepOutcome, GateInput, advance_chain, resolve_approval_gate, after_success, after_failure,
  next_runnable_step,
}
use byok_business_autopilot.Chains.Engine.Invariant.{
  IsWellFormed, advance_chain-ok, advance_chain-IsWellFormed, resolve_approval_gate-IsWellFormed,
  length-with_step,
}

-- A transition that a driver makes: it runs the step that `nextRunnableStep` names, or hands on a
-- verdict.
pub data Drive (c : Chain) : Chain → Type 0 where
  runs :
      {c' : Chain} (step : ChainStep) (o : StepOutcome)
      → next_runnable_step c ≡ some step
      → o.step_id ≡ step.id
      → advance_chain c o ≡ ok c'
      → Drive c c'
  decides : {c' : Chain} (i : GateInput) → resolve_approval_gate c i ≡ ok c' → Drive c c'

pub data Driven (c : Chain) : ℕ → Chain → Type 0 where
  start : Driven c 0 c
  more : {n : ℕ} {c' c'' : Chain} → Driven c n c' → Drive c' c'' → Driven c (suc n) c''

-- Two transitions for each step that is left, and one more to the end.
abbrev rest : ChainStatus → ℕ → ℕ
rest running n = 2 * n + 1
rest awaiting_approval n = 2 * n
rest _ n = 0

abbrev pub measure : Chain → ℕ
measure c = rest c.status (length c.steps - c.current_step_index)

runnable_status :
    (c : Chain) (step : ChainStep) → next_runnable_step c ≡ some step → c.status ≡ running
unfolding next_runnable_step
runnable_status c step h = ground arith

after_success-measure :
    (c : Chain) (step : ChainStep) (o : StepOutcome)
    → c.status ≡ running
    → c.current_step_index < length c.steps
    → measure (after_success c step o) < measure c
after_success-measure c step o e h =
    ground (arith, length-with_step c.steps o.step_id ChainStepStatus.completed o.result_summary)

after_failure-measure :
    (c : Chain) (o : StepOutcome) → c.status ≡ running → measure (after_failure c o) < measure c
after_failure-measure c o e = ground arith

running_at :
    (c : Chain) → c.status ≡ running → IsWellFormed c → c.current_step_index < length c.steps
running_at c e h = ground arith

advance_chain-measure :
    (c c' : Chain) (o : StepOutcome)
    → c.status ≡ running
    → advance_chain c o ≡ ok c'
    → IsWellFormed c
    → measure c' < measure c
advance_chain-measure c c' o e is h =
    let (t, step, _, to) = advance_chain-ok c c' o is in
    subst (λ x. measure x < measure c) to (by_outcome step o.success refl)
  where
    by_outcome :
        (step : ChainStep) (s : Bool)
        → o.success ≡ s
        → measure (if s then after_success c step o else after_failure c o) < measure c
    by_outcome step true _ = after_success-measure c step o e (running_at c e h)
    by_outcome step false _ = after_failure-measure c o e

resolve_approval_gate-measure :
    (c c' : Chain) (i : GateInput)
    → resolve_approval_gate c i ≡ ok c'
    → IsWellFormed c
    → measure c' < measure c
unfolding resolve_approval_gate
resolve_approval_gate-measure c c' i is h = ground arith

Drive-measure : {c c' : Chain} → Drive c c' → IsWellFormed c → measure c' < measure c
Drive-measure {c} {c'} (runs step o next _ is) h =
    advance_chain-measure c c' o (runnable_status c step next) is h
Drive-measure {c} {c'} (decides i is) h = resolve_approval_gate-measure c c' i is h

Drive-IsWellFormed : {c c' : Chain} → Drive c c' → IsWellFormed c → IsWellFormed c'
Drive-IsWellFormed {c} {c'} (runs step o _ _ is) h = advance_chain-IsWellFormed c c' o is h
Drive-IsWellFormed {c} {c'} (decides i is) h = resolve_approval_gate-IsWellFormed c c' i is h

Driven-bound :
    {c c' : Chain} {n : ℕ}
    → Driven c n c'
    → IsWellFormed c
    → IsWellFormed c' × (n + measure c' ≤ measure c)
Driven-bound start h = (h, omega arith)
Driven-bound (more r d) h =
    let (w, b) = Driven-bound r h in (Drive-IsWellFormed d w, omega (arith, b, Drive-measure d w))

-- A chain that a driver runs by `nextRunnableStep` and by verdicts ends: from a well-formed chain
-- there are at most twice as many transitions as steps, and one more.
pub Driven-terminates :
    (c c' : Chain) (n : ℕ) → Driven c n c' → IsWellFormed c → n ≤ 2 * length c.steps + 1
Driven-terminates c c' n r h = let (_, b) = Driven-bound r h in omega (arith, b, measure_le c)
  where
    measure_le : (d : Chain) → measure d ≤ 2 * length d.steps + 1
    measure_le d = ground arith
