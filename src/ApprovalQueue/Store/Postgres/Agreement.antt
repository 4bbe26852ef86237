-- ===== src/ApprovalQueue/Store/Postgres/Agreement.antt =====
-- packages/approval-queue/src/durable/approvalStore.ts: the two stores answer alike.
use byok_business_autopilot.Base.{
  ℕ, ◌≡◌, refl, sym, ap, ◌∙◌, subst, Bool, true, false, ◌&&◌, Option, none, some, [], ◌∷◌, ◌++◌,
  Result, ok, err, or_throw, ◌==◌, if◌then◌else◌, nat_eq, Option-cases, Bool-cases, ==_iff, ◌⊎◌,
  inl, inr, arith, ◌>>=◌,
}
use byok_business_autopilot.Base.Dict.{lookup, insert, lookup-insert}
use byok_business_autopilot.Base.Rows.{
  update_rows, Unique, keep_if, change_if, select_row-lookup, lookup-update_rows,
  Unique-update_rows,
}
use byok_business_autopilot.ApprovalQueue.Types.{
  ProposedAction, Verdict, QueueError, unknown_action,
}
use byok_business_autopilot.ApprovalQueue.Store.{
  Payload, proposed_action, recommendation, resolved, is_pending, StoredItem, ResolveOutcome, Items,
  pending_action_of, resolve_item,
}
use byok_business_autopilot.ApprovalQueue.Store.Laws.{resolve_item-of}
use byok_business_autopilot.ApprovalQueue.Store.Postgres.{
  ItemRows, open_action, returned_outcome, outcome_of, resolved_row, resolve_row,
}

-- The same item under every id, which is primary.
pub record ItemsAgree (rows : ItemRows) (items : Items) : Type 0 where
  pub same : (id : ℕ) → lookup id rows ≡ lookup id items
  pub unique : Unique rows

-- The answer and the store that a resolution leaves, a refused one the store it found.
abbrev pub answer_of : {A : Type 0} → Result QueueError (A × Items) → Result QueueError A
answer_of (ok (a, items)) = ok a
answer_of (err e) = err e

abbrev pub items_of : {A : Type 0} → Items → Result QueueError (A × Items) → Items
items_of old (ok (a, items)) = items
items_of old (err e) = old

pub lookup-append :
    (id j : ℕ) (item : StoredItem) (rows : ItemRows)
    → lookup id rows ≡ none
    → lookup j (rows ++ (id, item) ∷ []) ≡ (if id == j then some item else lookup j rows)
unfolding lookup
lookup-append id j item [] h = refl
lookup-append id j item ((i, first) ∷ rows) h =
    ground (arith, h, λ (r : lookup id rows ≡ none). lookup-append id j item rows r)

action_cases :
    (t : ℕ) (item : StoredItem)
    → ((open_action t item ≡ false) × (pending_action_of t item ≡ none))
      ⊎ ((a : ProposedAction) × (open_action t item ≡ true)
          × (pending_action_of t item ≡ some a)
          × (item.payload ≡ proposed_action a))
action_cases t item = by_payload item.payload refl
  where
    by_payload :
        (p : Payload)
        → item.payload ≡ p
        → ((open_action t item ≡ false) × (pending_action_of t item ≡ none))
          ⊎ ((a : ProposedAction) × (open_action t item ≡ true)
              × (pending_action_of t item ≡ some a)
              × (item.payload ≡ proposed_action a))
    by_payload (proposed_action a) e =
        elim (Bool-cases ((a.tenant_id == t) && is_pending item.status)) [
          | inl open_one ↦ inr (a, ground (arith, e, open_one), ground (arith, e, open_one), e)
          | inr shut ↦ inl (ground (arith, e, shut), ground (arith, e, shut))
        ]
    by_payload (recommendation r) e = inl (ground (arith, e), ground (arith, e))

-- What the two stores do, for each of the three cases of the item.
abbrev Agreeing : ℕ → ℕ → Verdict → ItemRows → Items → Type 0
Agreeing t id v rows items =
    ((resolve_row t id v rows).0 ≡ answer_of (resolve_item t id v items))
    × ItemsAgree (resolve_row t id v rows).1 (items_of items (resolve_item t id v items))

from_result :
    (t id : ℕ) (v : Verdict) (rows : ItemRows) (items : Items)
    (r : Result QueueError (ResolveOutcome × Items))
    → resolve_item t id v items ≡ r
    → (resolve_row t id v rows).0 ≡ answer_of r
    → ((j : ℕ) → lookup j (resolve_row t id v rows).1 ≡ lookup j (items_of items r))
    → Unique rows
    → Agreeing t id v rows items
unfolding resolve_row
from_result t id v rows items r e first same u = (
  first ∙ ap answer_of (sym e),
  record {
    same = λ j. same j ∙ ap (λ x. lookup j (items_of items x)) (sym e);
    unique = Unique-update_rows (open_action t) (resolved_row v) id rows u;
  },
)

missing :
    (t id : ℕ) (v : Verdict) (items : Items)
    → lookup id items ≡ none
    → resolve_item t id v items ≡ err unknown_action
unfolding resolve_item
missing t id v items h =
    ap
      (λ (o : Option StoredItem). or_throw o unknown_action >>= λ item.
        or_throw (pending_action_of t item) unknown_action >>= λ action. ok (
          record { action = action; was_spot_check = item.spot_check },
          insert id (record item { status = resolved; verdict = some v }) items,
        ))
      h

kept_rows :
    (t id j : ℕ) (v : Verdict) (rows : ItemRows) (items : Items)
    → ItemsAgree rows items
    → change_if (open_action t) (resolved_row v) (lookup id rows) ≡ lookup id rows
    → lookup j (update_rows (open_action t) (resolved_row v) id rows) ≡ lookup j items
kept_rows t id j v rows items agree kept =
    lookup-update_rows (open_action t) (resolved_row v) id j rows
    ∙ either (id == j) refl
    ∙ agree.same j
  where
    either :
        (b : Bool)
        → (id == j) ≡ b
        → (if b then change_if (open_action t) (resolved_row v) (lookup j rows) else lookup j rows)
          ≡ lookup j rows
    either true e =
        subst (λ k. change_if (open_action t) (resolved_row v) (lookup k rows) ≡ lookup k rows)
          ((==_iff id j).0 e) kept
    either false e = refl

resolved_rows :
    (t id j : ℕ) (v : Verdict) (rows : ItemRows) (items : Items) (item : StoredItem)
    → ItemsAgree rows items
    → lookup id rows ≡ some item
    → open_action t item ≡ true
    → lookup j (update_rows (open_action t) (resolved_row v) id rows)
      ≡ lookup j (insert id (resolved_row v item) items)
resolved_rows t id j v rows items item agree here open_one =
    lookup-update_rows (open_action t) (resolved_row v) id j rows
    ∙ either (id == j) refl
    ∙ sym (lookup-insert id j (resolved_row v item) items)
  where
    either :
        (b : Bool)
        → (id == j) ≡ b
        → (if b then change_if (open_action t) (resolved_row v) (lookup j rows) else lookup j rows)
          ≡ (if b then some (resolved_row v item) else lookup j items)
    either true e =
        ap (λ k. change_if (open_action t) (resolved_row v) (lookup k rows))
          (sym ((==_iff id j).0 e))
        ∙ ap (change_if (open_action t) (resolved_row v)) here
        ∙ ap (λ b. some (if b then resolved_row v item else item)) open_one
    either false e = agree.same j

pub resolve_row-Agrees :
    (t id : ℕ) (v : Verdict) (rows : ItemRows) (items : Items)
    → ItemsAgree rows items
    → Agreeing t id v rows items
unfolding resolve_row
resolve_row-Agrees t id v rows items agree =
    let p = open_action t in
    let f = resolved_row v in
    let u = agree.unique in
    elim (Option-cases (lookup id items)) [
      | inl absent ↦
          let gone = agree.same id ∙ absent in
          from_result t id v rows items (err unknown_action) (missing t id v items absent)
            (ap returned_outcome (select_row-lookup p id rows u ∙ ap (keep_if p) gone))
            (λ j. kept_rows t id j v rows items agree (ap (change_if p f) gone ∙ sym gone)) u
      | inr (item, there) ↦
          let here = agree.same id ∙ there in
          let at = resolve_item-of t id v items item there in
          elim (action_cases t item) [
            | inl (shut, nothing) ↦
                from_result t id v rows items (err unknown_action)
                  (at
                    ∙ ap
                        (λ (o : Option ProposedAction). or_throw o unknown_action >>= λ a. ok (
                          record { action = a; was_spot_check = item.spot_check },
                          insert id (record item { status = resolved; verdict = some v }) items,
                        ))
                        nothing)
                  (ap returned_outcome (
                    select_row-lookup p id rows u
                    ∙ ap (keep_if p) here
                    ∙ ap (λ b. if b then some item else none) shut))
                  (λ j. kept_rows t id j v rows items agree (
                    ap (change_if p f) here
                    ∙ ap (λ b. some (if b then f item else item)) shut
                    ∙ sym here))
                  u
            | inr (a, open_one, is, payload) ↦
                from_result t id v rows items
                  (ok (
                    record { action = a; was_spot_check = item.spot_check },
                    insert id (record item { status = resolved; verdict = some v }) items,
                  ))
                  (at
                    ∙ ap
                        (λ (o : Option ProposedAction). or_throw o unknown_action >>= λ a. ok (
                          record { action = a; was_spot_check = item.spot_check },
                          insert id (record item { status = resolved; verdict = some v }) items,
                        ))
                        is)
                  (ap returned_outcome (
                      select_row-lookup p id rows u
                      ∙ ap (keep_if p) here
                      ∙ ap (λ b. if b then some item else none) open_one)
                    ∙ ap (λ q. outcome_of q item.spot_check) payload)
                  (λ j. resolved_rows t id j v rows items item agree here open_one) u
          ]
    ]
