-- ===== src/ApprovalQueue/Queue/Account.antt =====
-- packages/approval-queue/src/queue.ts: the calls of the executor, counted against the stored verdicts.
use byok_business_autopilot.Base.{
  ℕ, ◌+◌, ◌≤◌, ◌≡◌, sym, ◌∙◌, ap, Option, none, some, List, [], ◌∷◌, ◌++◌, ok, ◌==◌, if◌then◌else◌,
  nat_eq, or_throw, >>=-eq-ok, ok-injective, arith,
}
use byok_business_autopilot.Base.Dict.{lookup, insert, lookup-insert}
use byok_business_autopilot.ApprovalQueue.Types.{
  EffectDescriptor, ProposedAction, RecommendationItem, Verdict, approve, reject, modify,
  unknown_recommendation,
}
use byok_business_autopilot.ApprovalQueue.Store.{
  proposed_action, recommendation, pending, resolved, is_pending, StoredItem, Items,
  pending_recommendation_of, resolve_recommendation_item,
}
use byok_business_autopilot.ApprovalQueue.Store.Laws.{decided, or_throw-ok}
use byok_business_autopilot.ApprovalQueue.Trail.{Queue}
use byok_business_autopilot.ApprovalQueue.Queue.Resolve.{made, calls}

-- How often the executor was called for an action.
abbrev pub times : ℕ → List (EffectDescriptor × ProposedAction) → ℕ
times id [] = 0
times id ((e, a) ∷ xs) = (if a.id == id then 1 else 0) + times id xs

-- The calls that a verdict allows.
abbrev pub allowed : Option Verdict → ℕ
allowed none = 0
allowed (some (reject text)) = 0
allowed (some approve) = 1
allowed (some (modify edited)) = 1

abbrev pub allowance : Option StoredItem → ℕ
allowance none = 0
allowance (some item) = if is_pending item.status then 0 else allowed item.verdict

-- Stored actions stand under their own ids, and no action was executed more often than its item allows.
abbrev pub IsSound : Queue → Type 0
IsSound q =
    ((id : ℕ) (item : StoredItem) (a : ProposedAction)
      → lookup id q.items ≡ some item
      → item.payload ≡ proposed_action a
      → a.id ≡ id)
    × ((id : ℕ) → times id q.executed ≤ allowance (lookup id q.items))

times-append :
    (id : ℕ) (xs ys : List (EffectDescriptor × ProposedAction))
    → times id (xs ++ ys) ≡ times id xs + times id ys
times-append id [] ys = omega arith
times-append id ((e, a) ∷ xs) ys = omega (arith, times-append id xs ys)

times-made :
    (id : ℕ) (f : Option EffectDescriptor) (a : ProposedAction)
    → times id (made f a) ≤ (if a.id == id then 1 else 0)
times-made id none a = ground arith
times-made id (some e) a = ground arith

times-calls :
    (id : ℕ) (v : Verdict) (a : ProposedAction)
    → times id (calls v a) ≤ (if a.id == id then allowed (some v) else 0)
times-calls id (reject text) a = ground arith
times-calls id approve a = times-made id a.effect a
times-calls id (modify edited) a = times-made id a.effect (record a { draft = edited })

-- A call that leaves the items and the executor alone.
pub IsSound-same :
    (q q' : Queue) → q'.items ≡ q.items → q'.executed ≡ q.executed → IsSound q → IsSound q'
IsSound-same q q' i x (keyed, few) = (
  (λ id item a h p. keyed id item a (ap (lookup id) (sym i) ∙ h) p),
  (λ id. ground (arith, i, x, few id)),
)

-- A new pending item under a fresh id.
pub IsSound-insert :
    (q q' : Queue) (id : ℕ) (item : StoredItem)
    → q'.items ≡ insert id item q.items
    → q'.executed ≡ q.executed
    → lookup id q.items ≡ none
    → ((a : ProposedAction) → item.payload ≡ proposed_action a → a.id ≡ id)
    → IsSound q
    → IsSound q'
IsSound-insert q q' id item i x fresh own (keyed, few) = (
  (λ j it a h p. ground (arith, h, p, own a, keyed j it a, i, lookup-insert id j item q.items)),
  (λ j. ground (arith, i, x, few j, fresh, lookup-insert id j item q.items)),
)

-- An item that was pending is resolved, and the executor called as the verdict allows.
pub IsSound-decided :
    (q q' : Queue) (id : ℕ) (v : Verdict) (b : ProposedAction) (item : StoredItem)
    → lookup id q.items ≡ some item
    → item.payload ≡ proposed_action b
    → item.status ≡ pending
    → q'.items ≡ insert id (decided v item) q.items
    → q'.executed ≡ q.executed ++ calls v b
    → IsSound q
    → IsSound q'
IsSound-decided q q' id v b item found payload waits i x (keyed, few) = (
  (λ j it a h p. ground (
    arith,
    h,
    p,
    keyed id item a found,
    keyed j it a,
    i,
    lookup-insert id j (decided v item) q.items,
  )),
  (λ j. ground (
    arith,
    i,
    x,
    few j,
    found,
    waits,
    keyed id item b found payload,
    lookup-insert id j (decided v item) q.items,
    times-append j q.executed (calls v b),
    times-calls j v b,
  )),
)

pub resolve_recommendation_item-ok :
    (t id : ℕ) (items items' : Items) (r : RecommendationItem)
    → resolve_recommendation_item t id items ≡ ok (r, items')
    → (item : StoredItem) × (lookup id items ≡ some item)
      × (item.payload ≡ recommendation r)
      × (item.status ≡ pending)
      × (items' ≡ insert id (record item { status = resolved }) items)
unfolding resolve_recommendation_item
resolve_recommendation_item-ok t id items items' r h =
    let (item, found, rest) = >>=-eq-ok (or_throw (lookup id items) unknown_recommendation) _ h in
    let (s, is, last) =
      >>=-eq-ok (or_throw (pending_recommendation_of t item) unknown_recommendation) _ rest in
    let is' = or_throw-ok (pending_recommendation_of t item) unknown_recommendation is in
    let same = ap (λ p. p.0) (ok-injective last) in
    (
      item,
      or_throw-ok (lookup id items) unknown_recommendation found,
      ground (arith, is', same),
      ground (arith, is'),
      ap (λ p. p.1) (sym (ok-injective last)),
    )

-- A recommendation that is resolved.
pub IsSound-guided :
    (q q' : Queue) (id : ℕ) (r : RecommendationItem) (item : StoredItem)
    → lookup id q.items ≡ some item
    → item.payload ≡ recommendation r
    → item.status ≡ pending
    → q'.items ≡ insert id (record item { status = resolved }) q.items
    → q'.executed ≡ q.executed
    → IsSound q
    → IsSound q'
IsSound-guided q q' id r item found payload waits i x (keyed, few) = (
  (λ j it a h p. ground (
    arith,
    h,
    p,
    payload,
    keyed id item a found,
    keyed j it a,
    i,
    lookup-insert id j (record item { status = resolved }) q.items,
  )),
  (λ j. ground (
    arith,
    i,
    x,
    few j,
    found,
    waits,
    lookup-insert id j (record item { status = resolved }) q.items,
  )),
)
