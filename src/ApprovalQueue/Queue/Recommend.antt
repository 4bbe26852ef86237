-- ===== src/ApprovalQueue/Queue/Recommend.antt =====
-- packages/approval-queue/src/queue.ts: recommendations, and the calls on earned autonomy.
use byok_business_autopilot.Base.{
  ℕ, ◌≡◌, refl, sym, ap, Option, none, some, List, [], ◌∷◌, ◌++◌, Result, ok, err, nat_eq,
  >>=-eq-ok, false, ok-injective, Option-cases, Result-cases, inl, inr, ◌⊎◌,
}
use byok_business_autopilot.Base.Dict.{lookup, insert}
use byok_business_autopilot.ApprovalQueue.Types.{
  EffectDescriptor, RecommendationItem, Verdict, QueueError, effect_on_recommendation,
}
use byok_business_autopilot.ApprovalQueue.Autonomy.{TaskKey, accept_offer, revoke}
use byok_business_autopilot.ApprovalQueue.Store.{
  recommendation, pending, resolved, StoredItem, store_recommendation, resolve_recommendation_item,
}
use byok_business_autopilot.ApprovalQueue.Queue.{
  submit_recommendation, resolve_recommendation, emit_revoked, revoke_autonomy,
  accept_autonomy_offer, recommended, guided,
}
use byok_business_autopilot.ApprovalQueue.Trail.{Queue, AuditEvent}
use byok_business_autopilot.ApprovalQueue.Queue.Account.{resolve_recommendation_item-ok}

-- `submitRecommendation`, as a function of the effect on the object.
abbrev verdict_on :
    ℕ → RecommendationItem → Queue → Option (Option EffectDescriptor) → Result QueueError Queue
verdict_on now item q smuggled = elim smuggled [
  | some e ↦ err effect_on_recommendation
  | none ↦ ok (recommended now item q)
]

-- A recommendation with a key `effect` is refused. Any other is stored, under one audit entry; no event is
-- emitted, the executor is not called, and no task type's autonomy changes.
pub submit_recommendation_outcome :
    (now : ℕ) (item : RecommendationItem) (q : Queue)
    → ((e : Option EffectDescriptor) × (item.smuggled ≡ some e)
        × (submit_recommendation now item q ≡ err effect_on_recommendation))
      ⊎ ((q' : Queue) × (a : AuditEvent) × (item.smuggled ≡ none)
          × (submit_recommendation now item q ≡ ok q')
          × (q'.items ≡ store_recommendation item q.items)
          × (q'.audit ≡ q.audit ++ (a ∷ []))
          × (q'.events ≡ q.events)
          × (q'.executed ≡ q.executed)
          × (q'.autonomy ≡ q.autonomy))
unfolding submit_recommendation
submit_recommendation_outcome now item q = elim (Option-cases item.smuggled) [
  | inl e ↦
      inr (recommended now item q, _, e, ap (verdict_on now item q) e, refl, refl, refl, refl, refl)
  | inr (f, e) ↦ inl (f, e, ap (verdict_on now item q) e)
]

-- Whatever the verdict, resolving a recommendation calls no executor and changes no task type's autonomy.
-- It fails exactly as the store does; where it succeeds the item was a pending recommendation, and it is
-- marked as resolved.
pub resolve_recommendation_outcome :
    (now tenant_id id : ℕ) (v : Verdict) (q : Queue)
    → ((e : QueueError) × (resolve_recommendation_item tenant_id id q.items ≡ err e)
        × (resolve_recommendation now tenant_id id v q ≡ err e))
      ⊎ ((q' : Queue) × (r : RecommendationItem) × (item : StoredItem) × (resolve_recommendation now
              tenant_id id v q
            ≡ ok q')
          × (lookup id q.items ≡ some item)
          × (item.payload ≡ recommendation r)
          × (item.status ≡ pending)
          × (q'.items ≡ insert id (record item { status = resolved }) q.items)
          × (q'.executed ≡ q.executed)
          × (q'.autonomy ≡ q.autonomy))
unfolding resolve_recommendation
resolve_recommendation_outcome now t id v q =
    elim (Result-cases (resolve_recommendation_item t id q.items)) [
      | inl (e, h) ↦ inl (e, h, rw (h, resolve_recommendation) refl)
      | inr ((r, items), h) ↦
          let (item, found, payload, waits, i) =
            resolve_recommendation_item-ok t id q.items items r h in
          inr (
            guided now id v r (record q { items = items }),
            r,
            item,
            rw (h, resolve_recommendation) refl,
            found,
            payload,
            waits,
            i,
            refl,
            refl,
          )
    ]

abbrev stored_item : RecommendationItem → StoredItem
stored_item item = record {
  payload = recommendation item;
  status = pending;
  spot_check = false;
  verdict = none;
}

emit_revoked-fields :
    (t now : ℕ) (types : List ℕ) (q : Queue)
    → let q' = emit_revoked t now types q in (q'.items ≡ q.items) × (q'.executed ≡ q.executed)
emit_revoked-fields t now [] q = (refl, refl)
emit_revoked-fields t now (type ∷ types) q = emit_revoked-fields t now types _

pub revoke_autonomy-fields :
    (now t : ℕ) (type : Option ℕ) (q : Queue)
    → let q' = revoke_autonomy now t type q in (q'.items ≡ q.items) × (q'.executed ≡ q.executed)
unfolding revoke_autonomy
revoke_autonomy-fields now t type q =
    let (types, autonomy) = revoke t type q.autonomy in
    emit_revoked-fields t now types (record q { autonomy = autonomy })

pub accept_autonomy_offer-fields :
    (k : TaskKey) (q q' : Queue)
    → accept_autonomy_offer k q ≡ ok q'
    → (q'.items ≡ q.items) × (q'.executed ≡ q.executed)
unfolding accept_autonomy_offer
accept_autonomy_offer-fields k q q' h =
    let (a, _, e) = >>=-eq-ok (accept_offer k q.autonomy) _ h in
    (ap (λ p. p.items) (sym (ok-injective e)), ap (λ p. p.executed) (sym (ok-injective e)))
