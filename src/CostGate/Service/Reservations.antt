-- ===== src/CostGate/Service/Reservations.antt =====
-- packages/cost-gate/src/costGate.ts: a reservation that an evaluation hands out can be resolved, once.
use byok_business_autopilot.Base.{
  ℕ, ◌≡◌, inl, inr, sym, ◌∙◌, none, some, ok, err, nat_eq, arith, subst, ok-injective,
}
use byok_business_autopilot.Base.Int.{ℤ}
use byok_business_autopilot.Base.Dict.{lookup, lookup-erase}
use byok_business_autopilot.CostGate.Ledger.{Reservation}
use byok_business_autopilot.CostGate.Ledger
use byok_business_autopilot.CostGate.Store
use byok_business_autopilot.CostGate.Gate.{GateInput}
use byok_business_autopilot.CostGate.Service.{
  CostGate, Call, GateResult, evaluate_and_reserve, settle, release, unknown_reservation,
}
use byok_business_autopilot.CostGate.Service.Contract.{
  InFlight, Books, evaluate_and_reserve_outcome,
}

module _ (tenant_id : ℕ) (call : Call) (input : GateInput) (amount : ℤ) (g : CostGate)
    (open_ : InFlight tenant_id call input amount g) where
  settle-InFlight : (actual : ℤ) → (settle call.durable_id actual g).0 ≡ ok tt
  unfolding settle Store.settle Store.get_reserved Ledger.settle Ledger.get_reserved
  settle-InFlight actual = ground arith

  release-InFlight : (release call.durable_id g).0 ≡ ok tt
  unfolding release Store.release Store.get_reserved Ledger.release Ledger.get_reserved
  release-InFlight = ground arith

settle_forgets :
    (id : ℕ) (actual : ℤ) (g : CostGate)
    → (settle id actual g).0 ≡ ok tt
    → lookup id (settle id actual g).1.reservation_meta ≡ none
unfolding settle
settle_forgets id actual g h = ground (arith, lookup-erase id id g.reservation_meta)

unknown_refuses :
    (id : ℕ) (again : ℤ) (g : CostGate)
    → lookup id g.reservation_meta ≡ none
    → (settle id again g ≡ (err unknown_reservation, g))
      × (release id g ≡ (err unknown_reservation, g))
unfolding settle release
unknown_refuses id again g e = (rw (e, settle), rw (e, release))

-- What an evaluation hands out is in flight under the call's id.
handed_out :
    (tenant_id : ℕ) (call : Call) (input : GateInput) (g g' : CostGate) (result : GateResult)
    (r : Reservation)
    → evaluate_and_reserve tenant_id call input g ≡ ok (result, g')
    → result.reservation ≡ some r
    → (r.id ≡ call.durable_id) × (amount : ℤ) × InFlight tenant_id call input amount g'
handed_out tenant_id call input g g' result r is has =
    let (again, h, same, _, _, books) = evaluate_and_reserve_outcome tenant_id call input g in
    let eq = ok-injective (sym same ∙ is) in
    subst
      (λ x.
        x.0.reservation ≡ some r
        → (r.id ≡ call.durable_id) × (amount : ℤ) × InFlight tenant_id call input amount x.1)
      eq (λ has'. from_books again h books has') has
  where
    from_books :
        (again : GateResult) (h : CostGate)
        → Books tenant_id call input g again h
        → again.reservation ≡ some r
        → (r.id ≡ call.durable_id) × (amount : ℤ) × InFlight tenant_id call input amount h
    from_books again h (inl (_, (e, _, q, open_))) e' = (cc, e.cost_upper_bound, open_)
    from_books again h (inr (_, q, _)) e' = cc

-- A reservation that an evaluation hands out can be settled at any cost, and can be released. Once it
-- is settled, the gate knows it no longer: settling or releasing it again is an error that changes
-- nothing.
pub reserve_then_resolve :
    (tenant_id : ℕ) (call : Call) (input : GateInput) (g g' : CostGate) (result : GateResult)
    (r : Reservation) (actual again : ℤ)
    → evaluate_and_reserve tenant_id call input g ≡ ok (result, g')
    → result.reservation ≡ some r
    → let (outcome, done) = settle r.id actual g' in
      (outcome ≡ ok tt)
      × ((release r.id g').0 ≡ ok tt)
      × (settle r.id again done ≡ (err unknown_reservation, done))
      × (release r.id done ≡ (err unknown_reservation, done))
reserve_then_resolve tenant_id call input g g' result r actual again is has =
    let (same_id, amount, open_) = handed_out tenant_id call input g g' result r is has in
    let settled : (settle r.id actual g').0 ≡ ok tt =
      subst (λ i. (settle i actual g').0 ≡ ok tt) (sym same_id)
        (settle-InFlight tenant_id call input amount g' open_ actual) in
    let released : (release r.id g').0 ≡ ok tt =
      subst (λ i. (release i g').0 ≡ ok tt) (sym same_id)
        (release-InFlight tenant_id call input amount g' open_) in
    let (a, b) = unknown_refuses r.id again _ (settle_forgets r.id actual g' settled) in
    (settled, released, a, b)
