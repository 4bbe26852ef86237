-- ===== src/Vault/Hands/Renewed.antt =====
-- packages/vault/src/vault.ts: a refresh stores the new credential under the same key.
use byok_business_autopilot.Base.{◌≡◌, ◌≢◌, refl, ap, ◌∙◌, true, false, some, ok}
use byok_business_autopilot.Base.Dict.{lookup-insert_self}
use byok_business_autopilot.Base.Steps.{after-ok}
use byok_business_autopilot.Vault.Crypto.{
  Bytes, bytes_eq, IsAuthentic, cloud_kms, encrypt, decrypt-encrypt, hands_aad,
}
use byok_business_autopilot.Vault.Types.{
  router_service, HandsKeyRecord, OAuthCredential, RefreshedCredential, decrypt_granted,
  granted_scope, rotate, silent_refresh,
}
use byok_business_autopilot.Vault.Keys.{get_hands_key_by_id, update_hands_key}
use byok_business_autopilot.Vault.State.{State, Fresh, Setup, refreshed, log_audit}
use byok_business_autopilot.Vault.Brain.RoundTrip.{dek_for_write-held}
use byok_business_autopilot.Vault.Hands.{RequestedBy, update_hands}
use byok_business_autopilot.Vault.Hands.Refresh.{
  granted, merged, rekeyed, credential_is_expired, fresh_credential, decrypt_hands_key,
}
use byok_business_autopilot.Vault.Hands.FailClosed.{
  Holds, answered, asked, settled_or, decrypt_hands_key-answered, decrypt_hands_key-settled,
}

module _ (setup : Setup) (sound : IsAuthentic setup.platform.cipher)
    (running : setup.kms ≢ cloud_kms) where
  -- The scope that a key was stored for.
  abbrev pub own_scope : HandsKeyRecord → RequestedBy
  own_scope r = record { sub_agent_id = r.sub_agent_id; capability_scope = r.capability_scope }

  decrypt_hands_key-valid :
      (t service_id : Bytes) (r : HandsKeyRecord) (claim : RequestedBy)
      (credential : OAuthCredential) (fresh : Fresh) (s : State)
      → Holds setup t r claim credential s
      → credential_is_expired setup fresh.now credential ≡ false
      → (decrypt_hands_key setup t r.id claim (router_service service_id) fresh s).0
        ≡ ok (granted credential.access_token)
  decrypt_hands_key-valid t service_id r claim credential fresh s holds valid =
      let me = router_service service_id in
      ap (λ p. p.0) (decrypt_hands_key-answered setup t service_id r claim credential fresh s holds)
      ∙ ap (λ b. (answered setup r claim me (fresh_credential setup r credential me fresh b s)).0)
          valid

  -- When the provider answers a refresh, the read is handed the new token, the key keeps its id, and the
  -- new credential is stored under it: a later read, at a time when that one has not expired, is handed
  -- the new token again. The claim is the scope the key was stored for; the KMS runs, the cipher is
  -- authenticated, and `JSON.parse` reads back what `JSON.stringify` wrote.
  pub decrypt_hands_key-renews :
      (t service_id : Bytes) (r : HandsKeyRecord) (credential : OAuthCredential)
      (result : RefreshedCredential) (fresh later : Fresh) (s : State)
      → ((c : OAuthCredential) → setup.platform.parse (setup.platform.stringify c) ≡ some c)
      → Holds setup t r (own_scope r) credential s
      → credential_is_expired setup fresh.now credential ≡ true
      → asked setup r credential ≡ some (refreshed result)
      → credential_is_expired setup later.now (merged credential result) ≡ false
      → let me = router_service service_id in
        (s' : State) × (decrypt_hands_key setup t r.id (own_scope r) me fresh s
          ≡ (ok (granted result.access_token), s'))
        × ((decrypt_hands_key setup t r.id (own_scope r) me later s').0
            ≡ ok (granted result.access_token))
  unfolding update_hands update_hands_key log_audit get_hands_key_by_id
  decrypt_hands_key-renews t service_id r credential result fresh later s json holds expired answer
        valid =
      let (blob, dek, text, (m, v, held, there), kind, opens, read) = holds in
      let me = router_service service_id in
      let c = setup.platform.cipher in
      let aad = some (hands_aad r.sub_agent_id r.capability_scope) in
      let (dek', deks', got, held') = dek_for_write-held setup sound running r.tenant_id fresh s in
      let text' = setup.platform.stringify (merged credential result) in
      let blob' = encrypt c fresh.iv text' dek' aad in
      let r' = rekeyed fresh blob' r in
      let s1 =
        (log_audit rotate r.tenant_id r.id me (silent_refresh r.service)
          (update_hands r' (record s { deks = deks' })).1).1 in
      let s2 =
        (log_audit decrypt_granted r.tenant_id r.id me
          (granted_scope r.sub_agent_id r.capability_scope) s1).1 in
      (
        s2,
        decrypt_hands_key-settled setup t service_id r (own_scope r) credential fresh s holds
              expired
            ∙ ap
                (λ o.
                  answered setup r (own_scope r) me (settled_or setup r credential me fresh o s))
                answer
            ∙ ap (answered setup r (own_scope r) me) (after-ok _ _ got),
        decrypt_hands_key-valid t service_id r' (own_scope r) (merged credential result) later s2
            (
              blob',
              dek',
              text',
              (refl, v, held', lookup-insert_self r.id r' s.hands.by_id),
              kind,
              decrypt-encrypt c sound fresh.iv text' dek' aad,
              json (merged credential result),
            )
            valid,
      )
