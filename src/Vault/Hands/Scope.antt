-- ===== src/Vault/Hands/Scope.antt =====
-- packages/vault/src/vault.ts: the claim that opens a Hands key.
use byok_business_autopilot.Base.{
  ◌≡◌, ◌≢◌, refl, sym, ap, ◌∙◌, false, Option, none, some, ◌∷◌, ◌++◌, ok, err,
}
use byok_business_autopilot.Base.Dict.{lookup-insert_self}
use mathlib.Core.List.{append_assoc}
use byok_business_autopilot.Base.Steps.{after, after-ok}
use byok_business_autopilot.Vault.Crypto.{
  Bytes, bytes_eq, colon, IsAuthentic, cloud_kms, encrypt, decrypt, decrypt-encrypt,
  decrypt-encrypt_other_aad, hands_aad,
}
use byok_business_autopilot.Vault.Crypto.Binding.{HasNoColon, hands_aad-injective}
use byok_business_autopilot.Vault.Types.{
  RequesterIdentity, router_service, HandsKeyRecord, PublicKeyRecord, hands_to_public,
  scope_binding, opaque, store, plain,
}
use byok_business_autopilot.Vault.Handle.{mask_fingerprint}
use byok_business_autopilot.Vault.Deks.{Deks}
use byok_business_autopilot.Vault.Deks.Held.{HoldsDek}
use byok_business_autopilot.Vault.Keys.{get_hands_key_by_id, put_hands_key}
use byok_business_autopilot.Vault.State.{State, Fresh, Setup, log_audit}
use byok_business_autopilot.Vault.Brain.Sealed.{Accepts, run_validation-Accepts}
use byok_business_autopilot.Vault.Brain.RoundTrip.{dek_for_write-held}
use byok_business_autopilot.Vault.Hands.{
  StoreHandsKeyInput, RequestedBy, put_hands, bound, store_hands_key,
}
use byok_business_autopilot.Vault.Hands.Refresh.{granted, revealed, hand_over, decrypt_hands_key}
use byok_business_autopilot.Vault.Hands.Reach.{decrypt_hands_key-Reachable}

module _ (setup : Setup) where
  -- An opaque plaintext is handed over as it is.
  hand_over-opaque :
      (r : HandsKeyRecord) (key_id : Bytes) (claim : RequestedBy) (requester : RequesterIdentity)
      (fresh : Fresh) (plaintext : Bytes) (s : State)
      → r.credential_kind ≡ opaque
      → (hand_over setup r key_id claim requester fresh plaintext s).0 ≡ ok (granted plaintext)
  unfolding log_audit
  hand_over-opaque r key_id claim requester fresh plaintext s k =
      ap (λ p. p.0) (after-ok _ _ (ap (λ o. revealed setup r requester fresh plaintext o s) k))

module _ (setup : Setup) (sound : IsAuthentic setup.platform.cipher)
    (running : setup.kms ≢ cloud_kms) where
  -- The state that a store leaves, and the record it files.
  abbrev pub filed : HandsKeyRecord → Deks → RequesterIdentity → State → State
  filed r deks' requester s =
      (log_audit store r.tenant_id r.id requester plain
        (record s { deks = deks'; hands = put_hands_key r s.hands })).1

  abbrev pub sealed_hands : StoreHandsKeyInput → Bytes → Fresh → HandsKeyRecord
  sealed_hands input dek fresh = record {
    id = fresh.id;
    tenant_id = input.tenant_id;
    sub_agent_id = input.sub_agent_id;
    capability_scope = input.capability_scope;
    service = input.service;
    material = some (
        encrypt setup.platform.cipher fresh.iv input.plaintext dek
          (some (hands_aad input.sub_agent_id input.capability_scope)));
    credential_kind = input.credential_kind;
    masked_fingerprint = mask_fingerprint (setup.platform.decode input.plaintext);
    revoked = false;
    revoked_at = none;
    created_at = fresh.now;
    updated_at = fresh.now;
  }

  -- A claim with the stored additional data is handed the plaintext, any other the scope error.
  abbrev pub OpensFor : StoreHandsKeyInput → Bytes → State → Type 0
  OpensFor input key_id s =
      (service_id : Bytes) (claim : RequestedBy) (later : Fresh)
      → let answer =
          decrypt_hands_key setup input.tenant_id key_id claim (router_service service_id) later
            s in
        let stored = hands_aad input.sub_agent_id input.capability_scope in
        let claimed = hands_aad claim.sub_agent_id claim.capability_scope in
        (stored ≢ claimed → answer.0 ≡ err scope_binding)
        × (stored ≡ claimed
            → input.credential_kind ≡ opaque
            → answer.0 ≡ ok (granted input.plaintext))

  sealed_hands-OpensFor :
      (input : StoreHandsKeyInput) (dek : Bytes) (fresh : Fresh) (s : State)
      → let r = sealed_hands input dek fresh in
        HoldsDek setup.platform.cipher setup.kms input.tenant_id dek s.deks
        → get_hands_key_by_id input.tenant_id r.id s.hands ≡ some r
        → OpensFor input r.id s
  unfolding log_audit
  sealed_hands-OpensFor input dek fresh s held there service_id claim later =
      let r = sealed_hands input dek fresh in
      let me = router_service service_id in
      let c = setup.platform.cipher in
      let stored = hands_aad input.sub_agent_id input.capability_scope in
      let claimed = hands_aad claim.sub_agent_id claim.capability_scope in
      let blob = encrypt c fresh.iv input.plaintext dek (some stored) in
      let reach =
        decrypt_hands_key-Reachable setup input.tenant_id blob dek service_id r claim later s
          (refl, refl, held, there) in
      let rest = hand_over setup r r.id claim me later in
      let answers = λ (o : Option Bytes). (after (bound r r.id me claim o s) rest).0 in
      (
        λ n.
            ap (λ p. p.0) reach
            ∙ ap answers (
                decrypt-encrypt_other_aad c sound fresh.iv input.plaintext dek (some stored)
                  (some claimed) (λ e. n (cc e))),
        λ e k.
            ap (λ p. p.0) reach
            ∙ ap (λ a. answers (decrypt c blob dek (some a))) (sym e)
            ∙ ap answers (decrypt-encrypt c sound fresh.iv input.plaintext dek (some stored))
            ∙ hand_over-opaque setup r r.id claim me later input.plaintext s k,
      )

  store_hands_key-OpensFor :
      (input : StoreHandsKeyInput) (requester : RequesterIdentity) (fresh : Fresh) (s : State)
      → Accepts input.validate input.plaintext
      → (shown : PublicKeyRecord) × (s' : State) × (store_hands_key setup input requester fresh s
          ≡ (ok shown, s'))
        × OpensFor input fresh.id s'
  unfolding store_hands_key put_hands log_audit get_hands_key_by_id put_hands_key
  store_hands_key-OpensFor input requester fresh s accepts =
      let (dek, deks', got, held) =
        dek_for_write-held setup sound running input.tenant_id fresh s in
      let r = sealed_hands input dek fresh in
      let s' = filed r deks' requester s in
      (
        hands_to_public r,
        s',
        after-ok _ _ (
              run_validation-Accepts input.validate input.plaintext input.tenant_id requester s
                accepts)
            ∙ after-ok _ _ got,
        sealed_hands-OpensFor input dek fresh s' held (lookup-insert_self r.id r s.hands.by_id),
      )

  abbrev pub own_claim : StoreHandsKeyInput → RequestedBy
  own_claim input = record {
    sub_agent_id = input.sub_agent_id;
    capability_scope = input.capability_scope;
  }

  -- An opaque Hands key that is stored is bound to its scope: a router service that claims the sub-agent
  -- and the scope it was stored for is given the plaintext, and one that claims any other pair is refused
  -- with the scope error, though it knows the key's id. The names of the sub-agents, stored and claimed,
  -- have no colon.
  pub store_hands_key-is_bound :
      (input : StoreHandsKeyInput) (requester : RequesterIdentity) (fresh later : Fresh) (s : State)
      (service_id : Bytes) (claim : RequestedBy)
      → Accepts input.validate input.plaintext
      → HasNoColon input.sub_agent_id
      → HasNoColon claim.sub_agent_id
      → input.credential_kind ≡ opaque
      → claim ≢ own_claim input
      → let me = router_service service_id in
        (shown : PublicKeyRecord) × (s' : State) × (store_hands_key setup input requester fresh s
          ≡ (ok shown, s'))
        × ((decrypt_hands_key setup input.tenant_id fresh.id claim me later s').0
            ≡ err scope_binding)
        × ((decrypt_hands_key setup input.tenant_id fresh.id (own_claim input) me later s').0
            ≡ ok (granted input.plaintext))
  store_hands_key-is_bound input requester fresh later s service_id claim accepts plain_id
        plain_claim k n =
      let (shown, s', stored, opens) = store_hands_key-OpensFor input requester fresh s accepts in
      (
        shown,
        s',
        stored,
        (opens service_id claim later).0 (λ e.
            let (p, q) =
              hands_aad-injective input.sub_agent_id claim.sub_agent_id input.capability_scope
                claim.capability_scope plain_id plain_claim e in
            n (λ i. record { sub_agent_id = sym p i; capability_scope = sym q i })),
        (opens service_id (own_claim input) later).1 refl k,
      )

  -- Stored for the sub-agent `a:b` and the scope `c`, an opaque key is handed to the claim of `a` and
  -- `b:c`: the two pairs have the same additional data.
  pub store_hands_key-regrouped :
      (input : StoreHandsKeyInput) (requester : RequesterIdentity) (fresh later : Fresh) (s : State)
      (service_id a b : Bytes)
      → Accepts input.validate input.plaintext
      → input.sub_agent_id ≡ a ++ colon ∷ b
      → input.credential_kind ≡ opaque
      → let claim : RequestedBy = record {
        sub_agent_id = a;
        capability_scope = b ++ colon ∷ input.capability_scope;
      } in
        (shown : PublicKeyRecord) × (s' : State) × (store_hands_key setup input requester fresh s
          ≡ (ok shown, s'))
        × ((decrypt_hands_key setup input.tenant_id fresh.id claim
              (router_service service_id)
              later
              s').0
            ≡ ok (granted input.plaintext))
  unfolding hands_aad
  store_hands_key-regrouped input requester fresh later s service_id a b accepts named k =
      let (shown, s', stored, opens) = store_hands_key-OpensFor input requester fresh s accepts in
      let claim : RequestedBy = record {
        sub_agent_id = a;
        capability_scope = b ++ colon ∷ input.capability_scope;
      } in
      (
        shown,
        s',
        stored,
        (opens service_id claim later).1
            (ap (λ t. hands_aad t input.capability_scope) named
              ∙ ap (λ t. 104 ∷ 97 ∷ 110 ∷ 100 ∷ 115 ∷ colon ∷ t)
                  (append_assoc a (colon ∷ b) (colon ∷ input.capability_scope)))
            k,
      )
