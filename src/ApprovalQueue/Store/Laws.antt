-- ===== src/ApprovalQueue/Store/Laws.antt =====
-- packages/approval-queue/src/durable/approvalStore.ts: an item is resolved once, by its tenant.
use byok_business_autopilot.Base.{
  ℕ, ◌≡◌, ◌≢◌, refl, sym, ◌∙◌, ap, Bool, Option, none, some, ok, err, nat_eq, or_throw, ◌>>=◌,
  >>=-eq-ok, ok-injective, arith, Option-cases, inl, inr,
}
use byok_business_autopilot.Base.Dict.{lookup, insert, lookup-insert_self}
use byok_business_autopilot.ApprovalQueue.Types.{
  ProposedAction, Verdict, QueueError, unknown_action,
}
use byok_business_autopilot.ApprovalQueue.Store.{
  proposed_action, pending, resolved, StoredItem, ResolveOutcome, Items, store_action,
  pending_action_of, resolve_item,
}

abbrev pub decided : Verdict → StoredItem → StoredItem
decided v item = record item { status = resolved; verdict = some v }

pub or_throw-ok {ℓ κ} :
    {E : Type ℓ} {A : Type κ} (o : Option A) (e : E) {a : A} → or_throw o e ≡ ok a → o ≡ some a
or_throw-ok none e h = cc
or_throw-ok (some b) e h = cc

pub pending_action_of-some :
    (t : ℕ) (item : StoredItem) {a : ProposedAction}
    → pending_action_of t item ≡ some a
    → (item.payload ≡ proposed_action a) × (item.status ≡ pending) × (a.tenant_id ≡ t)
pending_action_of-some t item h = ground (arith, h)

pub resolve_item-ok :
    (t id : ℕ) (v : Verdict) (items items' : Items) (o : ResolveOutcome)
    → resolve_item t id v items ≡ ok (o, items')
    → (item : StoredItem) × (lookup id items ≡ some item)
      × (pending_action_of t item ≡ some o.action)
      × (o.was_spot_check ≡ item.spot_check)
      × (items' ≡ insert id (decided v item) items)
unfolding resolve_item
resolve_item-ok t id v items items' o h =
    let (item, found, rest) = >>=-eq-ok (or_throw (lookup id items) unknown_action) _ h in
    let (a, is, last) = >>=-eq-ok (or_throw (pending_action_of t item) unknown_action) _ rest in
    (
      item,
      or_throw-ok (lookup id items) unknown_action found,
      or_throw-ok (pending_action_of t item) unknown_action is
          ∙ ap (λ p. some (p.0.action)) (ok-injective last),
      ap (λ p. p.0.was_spot_check) (sym (ok-injective last)),
      ap (λ p. p.1) (sym (ok-injective last)),
    )

-- It fails only where no pending action of the tenant is there.
pub resolve_item-err :
    (t id : ℕ) (v : Verdict) (items : Items) (e : QueueError)
    → resolve_item t id v items ≡ err e
    → (e ≡ unknown_action)
      × ((item : StoredItem) (a : ProposedAction)
          → lookup id items ≡ some item
          → item.payload ≡ proposed_action a
          → item.status ≡ pending
          → a.tenant_id ≢ t)
unfolding resolve_item
resolve_item-err t id v items e h = elim (Option-cases (lookup id items)) [
  | inl f ↦ (ground (arith, h, f), λ item a g p w o. ground (arith, f, g))
  | inr (it, f) ↦ elim (Option-cases (pending_action_of t it)) [
    | inl g ↦ (ground (arith, h, f, g), λ item a k p w o. ground (arith, f, g, k, p, w, o))
    | inr (b, g) ↦ absurd (ground (arith, h, f, g))
  ]
]

abbrev stored : ProposedAction → Bool → StoredItem
stored a mark = record {
  payload = proposed_action a;
  status = pending;
  spot_check = mark;
  verdict = none;
}

pending_action_of-stored :
    (a : ProposedAction) (mark : Bool) → pending_action_of a.tenant_id (stored a mark) ≡ some a
pending_action_of-stored a mark = ground arith

pending_action_of-stored_other :
    (a : ProposedAction) (mark : Bool) (t : ℕ)
    → t ≢ a.tenant_id
    → pending_action_of t (stored a mark) ≡ none
pending_action_of-stored_other a mark t n = ground (arith, n)

-- What resolving an item does, from the lookup.
pub resolve_item-of :
    (t id : ℕ) (v : Verdict) (items : Items) (item : StoredItem)
    → lookup id items ≡ some item
    → resolve_item t id v items ≡ (
        or_throw (pending_action_of t item) unknown_action >>= λ a.
        ok (
          record { action = a; was_spot_check = item.spot_check },
          insert id (decided v item) items,
        ))
unfolding resolve_item
resolve_item-of t id v items item h = rw (h, resolve_item)

-- A stored action is resolved by its own tenant, with the spot-check mark it was stored with, and is not
-- there for any other tenant. Once it is resolved every further verdict on it is refused.
pub store_action_resolves_once :
    (a : ProposedAction) (mark : Bool) (items : Items) (t t' : ℕ) (v w : Verdict)
    → t ≢ a.tenant_id
    → let stored = store_action a mark items in
      (resolve_item t a.id v stored ≡ err unknown_action)
      × ((items' : Items) × (resolve_item a.tenant_id a.id v stored
            ≡ ok (record { action = a; was_spot_check = mark }, items'))
          × (resolve_item t' a.id w items' ≡ err unknown_action))
unfolding store_action
store_action_resolves_once a mark items t t' v w n =
    let there = lookup-insert_self a.id (stored a mark) items in
    let after = insert a.id (stored a mark) items in
    (
      resolve_item-of t a.id v after _ there ∙ rw (pending_action_of-stored_other a mark t n) refl,
      (
        insert a.id (decided v (stored a mark)) after,
        resolve_item-of a.tenant_id a.id v after _ there
            ∙ rw (pending_action_of-stored a mark) refl,
        resolve_item-of t' a.id w (insert a.id (decided v (stored a mark)) after) _
            (lookup-insert_self a.id (decided v (stored a mark)) after),
      ),
    )
