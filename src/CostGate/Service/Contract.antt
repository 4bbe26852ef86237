-- ===== src/CostGate/Service/Contract.antt =====
-- packages/cost-gate/src/costGate.ts: what one evaluation does.
use byok_business_autopilot.Base.{
  ℕ, ◌≡◌, ◌⊎◌, inl, inr, refl, sym, subst, ap, none, some, [], ◌∷◌, ◌++◌, Result, ok, nat_eq, arith,
  Option-cases,
}
use byok_business_autopilot.Base.Int.{ℤ}
use byok_business_autopilot.Base.Dict.{lookup, lookup-insert_self}
use byok_business_autopilot.CostGate.Estimator.{CostEstimate}
use byok_business_autopilot.CostGate.Store.Keys.{Day}
use byok_business_autopilot.CostGate.Ceilings.{CeilingConfig, CeilingLevel}
use byok_business_autopilot.CostGate.Gate.{
  GateInput, GateDeps, GateVerdict, VerdictKind, proceed, downgrade, queue, skip,
  evaluate_gate_verdict,
}
use byok_business_autopilot.CostGate.Gate.Verdicts.{
  Runs, Decides, unpriced, affordable, steps_down, waits, gives_up, evaluate_gate_verdict-Decides,
}
use byok_business_autopilot.CostGate.Store.{
  ReserveInput, Store, new_reservation, accepted, refused, reserve_atomic, first_exceeded,
  levels_for, commit,
}
use byok_business_autopilot.CostGate.Ledger
use byok_business_autopilot.CostGate.Service.{
  CostGate, Call, GateResult, deps_for, reserve_input, handle_for, audit_entry, skip_events,
  evaluate_and_reserve, ledger_for, mirror, attempt, reserve_if_runs, record_verdict, GateError,
}

-- The reservation of a call is open in the durable store and mirrored in the tenant's ledger.
abbrev pub InFlight : ℕ → Call → GateInput → ℤ → CostGate → Type 0
InFlight tenant_id call input amount g =
    (lookup call.durable_id g.store.reservations
      ≡ some (new_reservation (reserve_input tenant_id input amount) call.day))
    × (lookup call.durable_id g.reservation_meta
        ≡ some (record { tenant_id = tenant_id; local_id = call.local_id }))
    × (lookup call.local_id (ledger_for g tenant_id).reservations
        ≡ some (handle_for call input amount call.local_id))

-- A reservation is made exactly for a verdict to run: it is in flight in the durable store, under the
-- call's id, at the upper bound of the verdict's estimate. Any other verdict leaves the store alone.
abbrev pub Books : ℕ → Call → GateInput → CostGate → GateResult → CostGate → Type 0
Books tenant_id call input g result g' =
    (Runs result.verdict.kind
      × ((e : CostEstimate) × (result.verdict.estimate ≡ some e)
          × (result.reservation ≡ some (handle_for call input e.cost_upper_bound call.durable_id))
          × InFlight tenant_id call input e.cost_upper_bound g'))
    ⊎ ((¬ Runs result.verdict.kind) × (result.reservation ≡ none) × (g'.store ≡ g.store))

-- What comes before the audit entry.
abbrev Attempted :
    ℕ → Call → GateInput → CostGate → Result GateError (GateResult × CostGate) → Type 0
Attempted tenant_id call input g r =
    (result : GateResult) × (g' : CostGate) × (r ≡ ok (result, g'))
    × (g'.audit ≡ g.audit)
    × (g'.events ≡ g.events)
    × Books tenant_id call input g result g'

reserve_atomic-cases :
    (id : ℕ) (day : Day) (input : ReserveInput) (c : CeilingConfig) (s : Store)
    → ((reserve_atomic id day input c s ≡ (accepted id, commit id day input c s)))
      ⊎ ((l : CeilingLevel) × (reserve_atomic id day input c s ≡ (refused l, s)))
unfolding reserve_atomic
reserve_atomic-cases id day input c s =
    elim (Option-cases
      (first_exceeded input.tenant_id input.amount s.counters (levels_for input c day))) [
        | inl e ↦ inl (rw (e, reserve_atomic))
        | inr (l, e) ↦ inr (l, rw (e, reserve_atomic))
      ]

mirrored :
    (tenant_id : ℕ) (call : Call) (input : GateInput) (amount : ℤ) (g : CostGate)
    → lookup call.local_id
        (ledger_for (mirror tenant_id call input amount call.durable_id g) tenant_id).reservations
      ≡ some (handle_for call input amount call.local_id)
unfolding Ledger.reserve
mirrored tenant_id call input amount g =
    rw (lookup-insert_self {V = Ledger.Ledger} tenant_id _ g.tenant_ledgers)
      (lookup-insert_self call.local_id _ (ledger_for g tenant_id).reservations)

after_attempt-Attempted :
    (tenant_id : ℕ) (call : Call) (input : GateInput) (pre : GateVerdict) (e : CostEstimate)
    (g : CostGate)
    → Runs pre.kind
    → pre.estimate ≡ some e
    → Attempted tenant_id call input g (attempt tenant_id call input pre (some e) g)
unfolding commit
after_attempt-Attempted tenant_id call input pre e g r has =
    elim (reserve_atomic-cases call.durable_id call.day
      (reserve_input tenant_id input e.cost_upper_bound) (g.ceiling_config tenant_id) g.store) [
        | inl f ↦
            rw (f, attempt)
              (
                _,
                _,
                refl,
                refl,
                refl,
                inl (
                  r,
                  (
                    e,
                    has,
                    refl,
                    (
                      lookup-insert_self _ _ _,
                      lookup-insert_self _ _ _,
                      mirrored tenant_id call input e.cost_upper_bound (record g {
                        store =
                            commit call.durable_id call.day
                              (reserve_input tenant_id input e.cost_upper_bound)
                              (g.ceiling_config tenant_id) g.store;
                      }),
                    ),
                  ),
                ),
              )
        | inr (l, f) ↦
            rw (f, attempt) (_, _, refl, refl, refl, inr ((λ q. ground arith), refl, refl))
      ]

has_estimate :
    (input : GateInput) (deps : GateDeps) (v : GateVerdict)
    → Decides input deps v
    → Runs v.kind
    → (e : CostEstimate) × (v.estimate ≡ some e)
has_estimate input deps v (unpriced e est is) r = absurd (ground arith)
has_estimate input deps v (affordable e est fits is) r = (e, ground arith)
has_estimate input deps v (steps_down e d l model est over cheaper is) r = (d, ground arith)
has_estimate input deps v (waits e l est over none_down b is) r = absurd (ground arith)
has_estimate input deps v (gives_up e l est over none_down b is) r = absurd (ground arith)

attempt-Attempted :
    (tenant_id : ℕ) (call : Call) (input : GateInput) (pre : GateVerdict) (g : CostGate)
    → Runs pre.kind
    → (e : CostEstimate) × (pre.estimate ≡ some e)
    → Attempted tenant_id call input g (attempt tenant_id call input pre pre.estimate g)
attempt-Attempted tenant_id call input pre g r (e, has) =
    subst (λ o. Attempted tenant_id call input g (attempt tenant_id call input pre o g)) (sym has)
      (after_attempt-Attempted tenant_id call input pre e g r has)

reserve_if_runs-Attempted :
    (tenant_id : ℕ) (call : Call) (input : GateInput) (pre : GateVerdict) (k : VerdictKind)
    (g : CostGate)
    → pre.kind ≡ k
    → (Runs pre.kind → (e : CostEstimate) × (pre.estimate ≡ some e))
    → Attempted tenant_id call input g (reserve_if_runs tenant_id call input pre k g)
reserve_if_runs-Attempted tenant_id call input pre proceed g is h =
    attempt-Attempted tenant_id call input pre g (inl is) (h (inl is))
reserve_if_runs-Attempted tenant_id call input pre downgrade g is h =
    attempt-Attempted tenant_id call input pre g (inr is) (h (inr is))
reserve_if_runs-Attempted tenant_id call input pre queue g is h =
    (_, _, refl, refl, refl, inr ((λ q. ground arith), refl, refl))
reserve_if_runs-Attempted tenant_id call input pre skip g is h =
    (_, _, refl, refl, refl, inr ((λ q. ground arith), refl, refl))

pub evaluate_and_reserve_outcome :
    (tenant_id : ℕ) (call : Call) (input : GateInput) (g : CostGate)
    → (result : GateResult) × (g' : CostGate) × (evaluate_and_reserve tenant_id call input g
        ≡ ok (result, g'))
      × (g'.audit ≡ g.audit ++ audit_entry tenant_id input result.verdict ∷ [])
      × (g'.events
          ≡ g.events ++ skip_events result.verdict.kind input result.verdict.reason call.now)
      × Books tenant_id call input g result g'
unfolding evaluate_and_reserve
evaluate_and_reserve_outcome tenant_id call input g =
    let deps = deps_for g tenant_id call.now in
    let pre = evaluate_gate_verdict input deps in
    let (result, g', is, audit, events, books) =
      reserve_if_runs-Attempted tenant_id call input pre pre.kind g refl
        (has_estimate input deps pre (evaluate_gate_verdict-Decides input deps)) in
    (
      result,
      (record_verdict tenant_id call input (result, g')).1,
      rw (is, evaluate_and_reserve),
      ap (λ x. x ++ audit_entry tenant_id input result.verdict ∷ []) audit,
      ap (λ x. x ++ skip_events result.verdict.kind input result.verdict.reason call.now) events,
      books,
    )
