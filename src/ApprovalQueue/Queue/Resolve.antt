-- ===== src/ApprovalQueue/Queue/Resolve.antt =====
-- packages/approval-queue/src/queue.ts, resolve: which calls of the executor a verdict makes.
use byok_business_autopilot.Base.{
  ℕ, ◌≡◌, refl, sym, ap, ◌∙◌, false, Option, none, some, List, [], ◌∷◌, ◌++◌, Result, ok, err,
  nat_eq, arith, Result-cases, inl, inr, ◌⊎◌,
}
use byok_business_autopilot.Base.Lists.{append-nil}
use byok_business_autopilot.ApprovalQueue.Types.{
  EffectDescriptor, ProposedAction, Verdict, approve, reject, modify, QueueError, unknown_action,
}
use byok_business_autopilot.ApprovalQueue.Autonomy.{AutonomyConfig}
use byok_business_autopilot.ApprovalQueue.Store.{
  proposed_action, pending, resolved, StoredItem, ResolveOutcome, Items, resolve_item,
}
use byok_business_autopilot.ApprovalQueue.Store.Laws.{
  pending_action_of-some, resolve_item-ok, resolve_item-err,
}
use byok_business_autopilot.Base.Dict.{lookup, insert}
use byok_business_autopilot.ApprovalQueue.Queue.{
  rejected, final_action, approved, dispatch, concluded, accepted, with_verdict, resolve,
}
use byok_business_autopilot.ApprovalQueue.Trail.{
  EffectResult, EffectExecutor, Queue, VerdictKind, kind_of,
}

abbrev pub made :
    Option EffectDescriptor → ProposedAction → List (EffectDescriptor × ProposedAction)
made none a = []
made (some e) a = (e, a) ∷ []

-- The executor's calls for a verdict on an action.
abbrev pub calls : Verdict → ProposedAction → List (EffectDescriptor × ProposedAction)
calls (reject text) a = []
calls approve a = made a.effect a
calls (modify edited) a = made a.effect (record a { draft = edited })

rejected-fields :
    (now action_id text : ℕ) (o : ResolveOutcome) (q : Queue)
    → let (r, q') = rejected now action_id text o q in
      (q'.items ≡ q.items) × (q'.executed ≡ q.executed) × (r.dispatched ≡ false)
rejected-fields now action_id text o q = ground arith

approved-items :
    (config : AutonomyConfig) (now action_id : ℕ) (kind : VerdictKind) (a : ProposedAction)
    (q : Queue)
    → Queue.items (approved config now action_id kind a q) ≡ q.items
approved-items config now action_id kind a q = ground arith

approved-executed :
    (config : AutonomyConfig) (now action_id : ℕ) (kind : VerdictKind) (a : ProposedAction)
    (q : Queue)
    → Queue.executed (approved config now action_id kind a q) ≡ q.executed
approved-executed config now action_id kind a q = ground arith

concluded-fields :
    (config : AutonomyConfig) (now action_id : ℕ) (v : Verdict) (a : ProposedAction)
    (p : Result QueueError (Option EffectResult) × Queue)
    → let q' = (concluded config now action_id v a p).1 in
      (q'.items ≡ Queue.items p.1) × (q'.executed ≡ Queue.executed p.1)
concluded-fields config now action_id v a (err e, q) = (refl, refl)
concluded-fields config now action_id v a (ok r, q) = (
  approved-items config now action_id (kind_of v) a q,
  approved-executed config now action_id (kind_of v) a q,
)

dispatch-fields :
    (execute : EffectExecutor) (f : Option EffectDescriptor) (a : ProposedAction) (q : Queue)
    → let q' = (dispatch execute f a q).1 in
      (q'.items ≡ q.items) × (q'.executed ≡ q.executed ++ made f a)
dispatch-fields execute none a q = (refl, sym (append-nil q.executed))
dispatch-fields execute (some e) a q = (refl, refl)

accepted-fields :
    (config : AutonomyConfig) (execute : EffectExecutor) (now action_id : ℕ) (v : Verdict)
    (o : ResolveOutcome) (q : Queue)
    → let q' = (accepted config execute now action_id v o q).1 in
      let final = final_action v o.action in
      (q'.items ≡ q.items) × (q'.executed ≡ q.executed ++ made final.effect final)
accepted-fields config execute now action_id v o q =
    let final = final_action v o.action in
    let (i, x) =
      concluded-fields config now action_id v o.action (dispatch execute final.effect final q) in
    let (i', x') = dispatch-fields execute final.effect final q in (i ∙ i', x ∙ x')

with_verdict-fields :
    (config : AutonomyConfig) (execute : EffectExecutor) (now action_id : ℕ) (v : Verdict)
    (o : ResolveOutcome) (q : Queue)
    → let q' = (with_verdict config execute now action_id v o q).1 in
      (q'.items ≡ q.items) × (q'.executed ≡ q.executed ++ calls v o.action)
with_verdict-fields config execute now action_id (reject text) o q =
    let (i, x, _) = rejected-fields now action_id text o q in (i, x ∙ sym (append-nil q.executed))
with_verdict-fields config execute now action_id approve o q =
    accepted-fields config execute now action_id approve o q
with_verdict-fields config execute now action_id (modify edited) o q =
    accepted-fields config execute now action_id (modify edited) o q

-- `resolve` follows the store's answer.
resolve_by_item :
    (config : AutonomyConfig) (execute : EffectExecutor) (now tenant_id action_id : ℕ) (v : Verdict)
    (q : Queue)
    → let (answer, q') = resolve config execute now tenant_id action_id v q in
      ((e : QueueError) × (resolve_item tenant_id action_id v q.items ≡ err e)
        × (answer ≡ err e)
        × (q' ≡ q))
      ⊎ ((o : ResolveOutcome) × (items : Items) × (resolve_item tenant_id action_id v q.items
            ≡ ok (o, items))
          × (q'.items ≡ items)
          × (q'.executed ≡ q.executed ++ calls v o.action))
unfolding resolve
resolve_by_item config execute now tenant_id action_id v q =
    elim (Result-cases (resolve_item tenant_id action_id v q.items)) [
      | inl (e, h) ↦ inl (e, h, rw (h, resolve) refl, rw (h, resolve) refl)
      | inr ((o, items), h) ↦
          let (i, x) =
            with_verdict-fields config execute now action_id v o (record q { items = items }) in
          inr (o, items, h, rw (h, resolve) i, rw (h, resolve) x)
    ]

-- The store holds a pending action of the tenant under the id.
pub record IsPendingAction (tenant_id id : ℕ) (items : Items) (item : StoredItem)
    (a : ProposedAction) : Type 0 where
  pub found : lookup id items ≡ some item
  pub is_action : item.payload ≡ proposed_action a
  pub waits : item.status ≡ pending
  pub own : a.tenant_id ≡ tenant_id

-- A verdict on an id that is not a pending action of the tenant is refused and changes nothing.
-- Otherwise, whatever the executor answers, the item under the id is resolved with that verdict and no
-- other item changes, and the executor is called exactly once if the verdict approves or modifies an
-- action that carries an effect, and then with that effect and the approved or edited draft; on any other
-- verdict or action it is not called.
pub resolve_outcome :
    (config : AutonomyConfig) (execute : EffectExecutor) (now tenant_id action_id : ℕ) (v : Verdict)
    (q : Queue)
    → let (answer, q') = resolve config execute now tenant_id action_id v q in
      ((answer ≡ err unknown_action)
        × (q' ≡ q)
        × (¬ (
            (item : StoredItem) × (a : ProposedAction) × IsPendingAction tenant_id action_id q.items
              item a)))
      ⊎ ((item : StoredItem) × (a : ProposedAction) × IsPendingAction tenant_id action_id q.items
            item a
          × (q'.items
              ≡ insert action_id (record item { status = resolved; verdict = some v }) q.items)
          × (q'.executed ≡ q.executed ++ calls v a))
resolve_outcome config execute now t id v q = elim (resolve_by_item config execute now t id v q) [
  | inl (e, h, refused, same) ↦
      let (is, n) = resolve_item-err t id v q.items e h in
      inl (refused ∙ ap err is, same, λ (item, a, p). n item a p.found p.is_action p.waits p.own)
  | inr (o, items, h, i, x) ↦
      let (item, found, is, _, j) = resolve_item-ok t id v q.items items o h in
      let (payload, waits, own) = pending_action_of-some t item is in
      inr (
        item,
        o.action,
        record { found = found; is_action = payload; waits = waits; own = own },
        i ∙ j,
        x,
      )
]
