-- ===== src/Vault/Hands/FailClosed.antt =====
-- packages/vault/src/vault.ts: what a caller is given of an OAuth credential that has expired.
use byok_business_autopilot.Base.{
  ◌≡◌, refl, sym, ap, ◌∙◌, true, Option, none, some, Result, ok, err, ok-injective,
}
use byok_business_autopilot.Base.Steps.{after, after-ok}
use byok_business_autopilot.Vault.Crypto.{Bytes, bytes_eq, EncryptedBlob, decrypt, hands_aad}
use byok_business_autopilot.Vault.Types.{
  RequesterIdentity, router_service, VaultError, hands_refresh_failed, hands_refresh_token_revoked,
  HandsKeyRecord, oauth, OAuthCredential, RefreshedCredential, decrypt_granted, granted_scope,
}
use byok_business_autopilot.Vault.Handle.{SecretHandle}
use byok_business_autopilot.Vault.State.{
  State, Fresh, Setup, RefreshReply, refreshed, token_revoked, failed, timed_out, VaultStep,
  log_audit, dek_for_write,
}
use byok_business_autopilot.Vault.Hands.{RequestedBy, update_hands, bound, revoke_hands_key}
use byok_business_autopilot.Vault.Hands.Refresh.{
  granted, merged, parsed, present, refreshable, registered, credential_is_expired, settled,
  perform_refresh, fresh_credential, revealed, handed, decrypt_hands_key,
}
use byok_business_autopilot.Vault.Hands.Reach.{Reachable, decrypt_hands_key-Reachable}

module _ (setup : Setup) where
  -- The key is there, the claim opens it, and its text is that credential.
  abbrev pub Holds : Bytes → HandsKeyRecord → RequestedBy → OAuthCredential → State → Type 0
  Holds t r claim credential s =
      (blob : EncryptedBlob) × (dek : Bytes) × (text : Bytes) × Reachable setup t blob dek r s
      × (r.credential_kind ≡ oauth)
      × (decrypt setup.platform.cipher blob dek
            (some (hands_aad claim.sub_agent_id claim.capability_scope))
          ≡ some text)
      × (setup.platform.parse text ≡ some credential)

  abbrev pub answered :
      HandsKeyRecord
      → RequestedBy
      → RequesterIdentity
      → Result VaultError OAuthCredential × State
      → Result VaultError SecretHandle × State
  answered r claim who (err thrown, s) = (err thrown, s)
  answered r claim who (ok usable, s) = (
    ok (granted usable.access_token),
    (log_audit decrypt_granted r.tenant_id r.id who
        (granted_scope claim.sub_agent_id claim.capability_scope) s).1,
  )

  answered-tail :
      (r : HandsKeyRecord) (claim : RequestedBy) (who : RequesterIdentity)
      (x : Result VaultError OAuthCredential × State)
      → after (after x (λ usable s. (ok usable.access_token, s))) (handed r r.id claim who)
        ≡ answered r claim who x
  unfolding log_audit
  answered-tail r claim who (err thrown, s) = refl
  answered-tail r claim who (ok usable, s) = refl

  pub decrypt_hands_key-answered :
      (t service_id : Bytes) (r : HandsKeyRecord) (claim : RequestedBy)
      (credential : OAuthCredential) (fresh : Fresh) (s : State)
      → Holds t r claim credential s
      → let me = router_service service_id in
        decrypt_hands_key setup t r.id claim me fresh s
        ≡ answered r claim me (
            fresh_credential setup r credential me fresh
              (credential_is_expired setup fresh.now credential)
              s)
  decrypt_hands_key-answered t service_id r claim credential fresh s
        (blob, dek, text, reach, kind, opens, json) =
      let me = router_service service_id in
      decrypt_hands_key-Reachable setup t blob dek service_id r claim fresh s reach
      ∙ after-ok _ _ (ap (λ o. bound r r.id me claim o s) opens)
      ∙ ap (λ k. after (revealed setup r me fresh text k s) (handed r r.id claim me)) kind
      ∙ ap (λ x. after x (handed r r.id claim me)) (after-ok _ _ (ap (λ o. parsed o s) json))
      ∙ answered-tail r claim me (
          fresh_credential setup r credential me fresh
            (credential_is_expired setup fresh.now credential) s)

  abbrev pub asked_with : Option Bytes → Option (Bytes → RefreshReply) → Option RefreshReply
  asked_with none refresher = none
  asked_with (some token) none = none
  asked_with (some token) (some refresher) = some (refresher token)

  -- What the provider answers, if there is a token to ask with and a refresher for the service.
  abbrev pub asked : HandsKeyRecord → OAuthCredential → Option RefreshReply
  asked r credential = asked_with (present credential.refresh_token) (setup.refreshers r.service)

  abbrev pub settled_or :
      HandsKeyRecord
      → OAuthCredential
      → RequesterIdentity
      → Fresh
      → Option RefreshReply
      → VaultStep OAuthCredential
  settled_or r credential who fresh none s = (err hands_refresh_failed, s)
  settled_or r credential who fresh (some reply) s = settled setup r credential who fresh reply s

  perform_with :
      (r : HandsKeyRecord) (credential : OAuthCredential) (who : RequesterIdentity) (fresh : Fresh)
      (token : Option Bytes) (refresher : Option (Bytes → RefreshReply)) (s : State)
      → after (refreshable token s) (λ tok s.
        after (registered refresher s) λ ask. settled setup r credential who fresh (ask tok))
        ≡ settled_or r credential who fresh (asked_with token refresher) s
  perform_with r credential who fresh none refresher s = refl
  perform_with r credential who fresh (some token) none s = refl
  perform_with r credential who fresh (some token) (some refresher) s = refl

  -- A read of an expired credential ends as the provider's answer says.
  pub decrypt_hands_key-settled :
      (t service_id : Bytes) (r : HandsKeyRecord) (claim : RequestedBy)
      (credential : OAuthCredential) (fresh : Fresh) (s : State)
      → Holds t r claim credential s
      → credential_is_expired setup fresh.now credential ≡ true
      → let me = router_service service_id in
        decrypt_hands_key setup t r.id claim me fresh s
        ≡ answered r claim me (settled_or r credential me fresh (asked r credential) s)
  unfolding perform_refresh
  decrypt_hands_key-settled t service_id r claim credential fresh s holds expired =
      let me = router_service service_id in
      decrypt_hands_key-answered t service_id r claim credential fresh s holds
      ∙ ap (λ b. answered r claim me (fresh_credential setup r credential me fresh b s)) expired
      ∙ ap (answered r claim me) (
          perform_with r credential me fresh (present credential.refresh_token)
            (setup.refreshers r.service) s)

  thrown_after :
      (r : HandsKeyRecord) (claim : RequestedBy) (who : RequesterIdentity) (e : VaultError)
      (x : Result VaultError (Unit {0}) × State) (handle : SecretHandle)
      → (answered r claim who (after x λ u s. (err e, s))).0 ≡ ok handle
      → ⊥
  thrown_after r claim who e (err thrown, s) handle h = cc
  thrown_after r claim who e (ok u, s) handle h = cc

  pub answered-ok :
      (r : HandsKeyRecord) (claim : RequestedBy) (who : RequesterIdentity)
      (x : Result VaultError OAuthCredential × State) {usable : OAuthCredential}
      → x.0 ≡ ok usable
      → (answered r claim who x).0 ≡ ok (granted usable.access_token)
  answered-ok r claim who (err thrown, s) h = cc
  answered-ok r claim who (ok credential, s) h =
      ap (λ u. ok (granted u.access_token)) (ok-injective h)

  renewed_after :
      (r : HandsKeyRecord) (claim : RequestedBy) (who : RequesterIdentity)
      (usable : OAuthCredential) (x : Result VaultError Bytes × State)
      (k : Bytes → VaultStep OAuthCredential) (handle : SecretHandle)
      → ((dek : Bytes) (s : State) → (k dek s).0 ≡ ok usable)
      → (answered r claim who (after x k)).0 ≡ ok handle
      → handle ≡ granted usable.access_token
  renewed_after r claim who usable (err thrown, s) k handle gives h = cc
  renewed_after r claim who usable (ok dek, s) k handle gives h =
      ok-injective (sym h ∙ answered-ok r claim who (k dek s) (gives dek s))

  granted_only :
      (r : HandsKeyRecord) (claim : RequestedBy) (credential : OAuthCredential)
      (who : RequesterIdentity) (fresh : Fresh) (o : Option RefreshReply) (s : State)
      (handle : SecretHandle)
      → (answered r claim who (settled_or r credential who fresh o s)).0 ≡ ok handle
      → (result : RefreshedCredential) × (o ≡ some (refreshed result))
        × (handle ≡ granted result.access_token)
  unfolding update_hands log_audit
  granted_only r claim credential who fresh none s handle h = cc
  granted_only r claim credential who fresh (some token_revoked) s handle h = absurd (
      thrown_after r claim who hands_refresh_token_revoked
        (revoke_hands_key r.tenant_id r.id who fresh s) handle h)
  granted_only r claim credential who fresh (some failed) s handle h = cc
  granted_only r claim credential who fresh (some timed_out) s handle h = cc
  granted_only r claim credential who fresh (some (refreshed result)) s handle h = (
    result,
    refl,
    renewed_after r claim who (merged credential result) (dek_for_write setup r.tenant_id fresh s) _
        handle (λ dek s. refl) h,
  )

  -- A caller that reads an OAuth credential past its expiry, less the safety margin, is never handed the
  -- old token: if it is given a handle, the provider was asked with the refresh token and answered with
  -- the token that the handle holds.
  pub decrypt_hands_key-fails_closed :
      (t service_id : Bytes) (r : HandsKeyRecord) (claim : RequestedBy)
      (credential : OAuthCredential) (fresh : Fresh) (s : State) (handle : SecretHandle)
      → Holds t r claim credential s
      → credential_is_expired setup fresh.now credential ≡ true
      → (decrypt_hands_key setup t r.id claim (router_service service_id) fresh s).0 ≡ ok handle
      → (result : RefreshedCredential) × (asked r credential ≡ some (refreshed result))
        × (handle ≡ granted result.access_token)
  decrypt_hands_key-fails_closed t service_id r claim credential fresh s handle holds expired got =
      let me = router_service service_id in
      granted_only r claim credential me fresh (asked r credential) s handle (
        ap (λ p. p.0)
          (sym (decrypt_hands_key-settled t service_id r claim credential fresh s holds expired))
        ∙ got)
