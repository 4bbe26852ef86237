-- ===== src/Chains/Engine/Invariant.antt =====
-- packages/chains/src/chainEngine.ts: what every transition keeps.
use byok_business_autopilot.Base.{
  ℕ, suc, ◌≢◌, if◌then◌else◌, ◌<◌, ◌≡◌, ◌⊎◌, inl, inr, refl, ap, true, false, Option, none, List,
  [], ◌∷◌, ok, err, nat_eq, arith, Bool-cases, subst, >>=-eq-ok, ok-injective,
}
use byok_business_autopilot.Base.Lists.{length}
use byok_business_autopilot.Chains.Types.{
  Chain, ChainStep, ChainStepStatus, completed, chain_not_runnable, chain_status_eq,
}
use byok_business_autopilot.Chains.Engine.{
  StepOutcome, GateInput, advance_chain, resolve_approval_gate, expire_chain, is_terminal,
  find_step, with_step, after_success, after_failure, next_runnable_step,
}

-- A chain at work points at one of its steps, and one that is completed points past the last.
abbrev pub IsWellFormed : Chain → Type 0
IsWellFormed c =
    ((c.status ≡ completed) × (c.current_step_index ≡ length c.steps))
    ⊎ ((c.status ≢ completed) × (c.current_step_index < length c.steps))

pub length-with_step :
    (steps : List ChainStep) (id : ℕ) (status : ChainStepStatus) (summary : Option ℕ)
    → length (with_step steps id status summary) ≡ length steps
unfolding with_step
length-with_step [] id status summary = refl
length-with_step (s ∷ ss) id status summary = ap suc (length-with_step ss id status summary)

-- What a successful `advance_chain` has checked and done.
pub advance_chain-ok :
    (c c' : Chain) (o : StepOutcome)
    → advance_chain c o ≡ ok c'
    → (is_terminal c ≡ false)
      × (step : ChainStep) × (find_step c o.step_id ≡ ok step)
      × ((if o.success then after_success c step o else after_failure c o) ≡ c')
unfolding advance_chain
advance_chain-ok c c' o h = elim (Bool-cases (is_terminal c)) [
  | inl e ↦ absurd (cc (rw (e, advance_chain) at h))
  | inr e ↦
      let (step, found, is) = >>=-eq-ok (find_step c o.step_id) _ (rw (e, advance_chain) at h) in
      (e, step, found, ok-injective is)
]

after_success-IsWellFormed :
    (c : Chain) (step : ChainStep) (o : StepOutcome)
    → is_terminal c ≡ false
    → IsWellFormed c
    → IsWellFormed (after_success c step o)
after_success-IsWellFormed c step o t h =
    ground (arith, length-with_step c.steps o.step_id ChainStepStatus.completed o.result_summary)

after_failure-IsWellFormed :
    (c : Chain) (o : StepOutcome)
    → is_terminal c ≡ false
    → IsWellFormed c
    → IsWellFormed (after_failure c o)
after_failure-IsWellFormed c o t h =
    ground (arith, length-with_step c.steps o.step_id ChainStepStatus.failed o.result_summary)

pub advance_chain-IsWellFormed :
    (c c' : Chain) (o : StepOutcome) → advance_chain c o ≡ ok c' → IsWellFormed c → IsWellFormed c'
advance_chain-IsWellFormed c c' o e h =
    let (t, step, _, is) = advance_chain-ok c c' o e in
    subst IsWellFormed is (elim (Bool-cases o.success) [
      | inl s ↦ rw s (after_success-IsWellFormed c step o t h)
      | inr s ↦ rw s (after_failure-IsWellFormed c o t h)
    ])

pub resolve_approval_gate-IsWellFormed :
    (c c' : Chain) (i : GateInput)
    → resolve_approval_gate c i ≡ ok c'
    → IsWellFormed c
    → IsWellFormed c'
unfolding resolve_approval_gate
resolve_approval_gate-IsWellFormed c c' i e h = ground arith

expire_chain-IsWellFormed :
    (c : Chain) (now : ℕ) → IsWellFormed c → IsWellFormed (expire_chain c now)
unfolding expire_chain
expire_chain-IsWellFormed c now h = ground arith

-- One call of the engine that returns.
pub data Step (c : Chain) : Chain → Type 0 where
  advances : {c' : Chain} (o : StepOutcome) → advance_chain c o ≡ ok c' → Step c c'
  resolves : {c' : Chain} (i : GateInput) → resolve_approval_gate c i ≡ ok c' → Step c c'
  expires : (now : ℕ) → Step c (expire_chain c now)

pub data Reach (c : Chain) : Chain → Type 0 where
  here : Reach c c
  next : {c' c'' : Chain} → Reach c c' → Step c' c'' → Reach c c''

Step-IsWellFormed : {c c' : Chain} → Step c c' → IsWellFormed c → IsWellFormed c'
Step-IsWellFormed {c} {c'} (advances o e) h = advance_chain-IsWellFormed c c' o e h
Step-IsWellFormed {c} {c'} (resolves i e) h = resolve_approval_gate-IsWellFormed c c' i e h
Step-IsWellFormed {c} (expires now) h = expire_chain-IsWellFormed c now h

-- From a chain that points at one of its steps, or is completed and points past the last, any calls of
-- the engine lead to such a chain again.
pub Reach-IsWellFormed : (c c' : Chain) → Reach c c' → IsWellFormed c → IsWellFormed c'
Reach-IsWellFormed c c' here h = h
Reach-IsWellFormed c c' (next r st) h = Step-IsWellFormed st (Reach-IsWellFormed c _ r h)

-- A chain that has ended stays as it is: advancing it and resolving its gate are errors that name its
-- status, expiring it changes nothing, and it has no step to run.
pub terminal_absorbs :
    (c : Chain) (o : StepOutcome) (i : GateInput) (now : ℕ)
    → is_terminal c ≡ true
    → (advance_chain c o ≡ err (chain_not_runnable c.status))
      × (resolve_approval_gate c i ≡ err (chain_not_runnable c.status))
      × (expire_chain c now ≡ c)
      × (next_runnable_step c ≡ none)
unfolding advance_chain resolve_approval_gate expire_chain next_runnable_step
terminal_absorbs c o i now h = (ground arith, ground arith, ground arith, ground arith)
