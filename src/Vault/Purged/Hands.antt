-- ===== src/Vault/Purged/Hands.antt =====
-- packages/vault/src/vault.ts: the calls on Hands keys keep revoked keys purged.
use byok_business_autopilot.Base.{◌≡◌, refl, Bool, true, false, Option, none, some}
use byok_business_autopilot.Base.Steps.{after-Keeps, after-Yields, Keeps, Returned}
use byok_business_autopilot.Vault.Crypto.{Bytes, bytes_eq, EncryptedBlob, decrypt, hands_aad}
use byok_business_autopilot.Vault.Types.{
  RequesterIdentity, CredentialKind, opaque, oauth, HandsKeyRecord, OAuthCredential, store, rotate,
  plain, silent_refresh,
}
use byok_business_autopilot.Vault.Keys.{get_hands_key_by_id}
use byok_business_autopilot.Vault.State.{
  State, Fresh, Setup, RefreshReply, refreshed, token_revoked, failed, timed_out, Validation,
  log_audit, assert_router_service, run_validation, dek_for_read, dek_for_write,
}
use byok_business_autopilot.Vault.Brain.{usable_material}
use byok_business_autopilot.Vault.Hands.{
  StoreHandsKeyInput, RequestedBy, put_hands, update_hands, find_hands, active_hands,
  revoke_hands_key, unlocked_hands, readable_hands, bound, store_hands_key, rotate_hands_key,
}
use byok_business_autopilot.Vault.Hands.Refresh.{
  present, parsed, refreshable, registered, credential_is_expired, settled, perform_refresh,
  fresh_credential, revealed, unknown, decrypt_hands_key,
}
use byok_business_autopilot.Vault.Purged.{Purged, put_hands-Purged, update_hands-Purged}
use byok_business_autopilot.Vault.Purged.Guards.{
  live-Tombstone, log_audit-Purged, assert-Purged, run_validation-Purged, active_hands-Purged,
  active_hands-Guards, revoke_hands_key-Purged, dek_for_read-Purged, dek_for_write-Purged,
}

-- A readable Hands key is not revoked.
pub unlocked_hands-Purged :
    (r : HandsKeyRecord) (key_id : Bytes) (who : RequesterIdentity) (o : Option EncryptedBlob)
    → Keeps Purged (unlocked_hands r key_id who o)
unfolding log_audit
unlocked_hands-Purged r key_id who none s h = record { brain = h.brain; hands = h.hands }
unlocked_hands-Purged r key_id who (some blob) s h = h

pub readable_hands-Purged :
    (key_id : Bytes) (who : RequesterIdentity) (label : Bytes) (o : Option HandsKeyRecord)
    → Keeps Purged (readable_hands key_id who label o)
unfolding log_audit
readable_hands-Purged key_id who label none s h = record { brain = h.brain; hands = h.hands }
readable_hands-Purged key_id who label (some r) s h =
    unlocked_hands-Purged r key_id who (usable_material r.revoked r.material) s h

abbrev pub LiveRead : HandsKeyRecord × EncryptedBlob → Type 0
LiveRead (r, blob) = r.revoked ≡ false

pub unlocked_hands-LiveRead :
    (r : HandsKeyRecord) (key_id : Bytes) (who : RequesterIdentity) (b : Bool)
    (material : Option EncryptedBlob) (s : State)
    → r.revoked ≡ b
    → Returned LiveRead (unlocked_hands r key_id who (usable_material b material) s).0
unfolding log_audit
unlocked_hands-LiveRead r key_id who true material s e = tt
unlocked_hands-LiveRead r key_id who false none s e = tt
unlocked_hands-LiveRead r key_id who false (some blob) s e = e

pub readable_hands-LiveRead :
    (key_id : Bytes) (who : RequesterIdentity) (label : Bytes) (o : Option HandsKeyRecord)
    (s : State)
    → Returned LiveRead (readable_hands key_id who label o s).0
unfolding log_audit
readable_hands-LiveRead key_id who label none s = tt
readable_hands-LiveRead key_id who label (some r) s =
    unlocked_hands-LiveRead r key_id who r.revoked r.material s refl

pub bound-Purged :
    (r : HandsKeyRecord) (key_id : Bytes) (who : RequesterIdentity) (claim : RequestedBy)
    (o : Option Bytes)
    → Keeps Purged (bound r key_id who claim o)
unfolding log_audit
bound-Purged r key_id who claim none s h = record { brain = h.brain; hands = h.hands }
bound-Purged r key_id who claim (some text) s h = h

pub parsed-Purged : (o : Option OAuthCredential) → Keeps Purged (parsed o)
parsed-Purged none s h = h
parsed-Purged (some credential) s h = h

pub refreshable-Purged : (o : Option Bytes) → Keeps Purged (refreshable o)
refreshable-Purged none s h = h
refreshable-Purged (some token) s h = h

pub registered-Purged : (o : Option (Bytes → RefreshReply)) → Keeps Purged (registered o)
registered-Purged none s h = h
registered-Purged (some refresher) s h = h

module _ (setup : Setup) where
  pub rotate_hands_key-Purged :
      (t key_id text : Bytes) (who : RequesterIdentity) (check : Validation) (fresh : Fresh)
      → Keeps Purged (rotate_hands_key setup t key_id text who check fresh)
  unfolding rotate_hands_key find_hands update_hands log_audit
  rotate_hands_key-Purged t key_id text who check fresh s h =
      after-Yields Purged (λ (r : HandsKeyRecord). r.revoked ≡ false)
        (active_hands (get_hands_key_by_id t key_id s.hands) s) _
        (active_hands-Purged (get_hands_key_by_id t key_id s.hands) s h)
        (active_hands-Guards (get_hands_key_by_id t key_id s.hands) s)
        λ r live s h.
          after-Keeps Purged (run_validation text check r.tenant_id who s) _
            (run_validation-Purged text check r.tenant_id who s h)
            λ u s h.
              after-Keeps Purged (dek_for_write setup r.tenant_id fresh s) _
                (dek_for_write-Purged setup r.tenant_id fresh s h)
                λ dek s h.
                  log_audit-Purged rotate r.tenant_id r.id who plain _
                    (update_hands-Purged _ s (live-Tombstone r.revoked _ live) h)

  pub store_hands_key-Purged :
      (input : StoreHandsKeyInput) (who : RequesterIdentity) (fresh : Fresh)
      → Keeps Purged (store_hands_key setup input who fresh)
  unfolding store_hands_key put_hands log_audit
  store_hands_key-Purged input who fresh s h =
      after-Keeps Purged (run_validation input.plaintext input.validate input.tenant_id who s) _
        (run_validation-Purged input.plaintext input.validate input.tenant_id who s h)
        λ u s h.
          after-Keeps Purged (dek_for_write setup input.tenant_id fresh s) _
            (dek_for_write-Purged setup input.tenant_id fresh s h)
            λ dek s h.
              log_audit-Purged store input.tenant_id fresh.id who plain _
                (put_hands-Purged _ s tt h)

  -- A refresh keeps the property of the record that the guard let through.
  pub settled-Purged :
      (r : HandsKeyRecord) (credential : OAuthCredential) (who : RequesterIdentity) (fresh : Fresh)
      (reply : RefreshReply)
      → r.revoked ≡ false
      → Keeps Purged (settled setup r credential who fresh reply)
  unfolding update_hands log_audit
  settled-Purged r credential who fresh token_revoked live s h =
      after-Keeps Purged (revoke_hands_key r.tenant_id r.id who fresh s) _
        (revoke_hands_key-Purged r.tenant_id r.id who fresh s h) λ u s h. h
  settled-Purged r credential who fresh failed live s h = h
  settled-Purged r credential who fresh timed_out live s h = h
  settled-Purged r credential who fresh (refreshed result) live s h =
      after-Keeps Purged (dek_for_write setup r.tenant_id fresh s) _
        (dek_for_write-Purged setup r.tenant_id fresh s h)
        λ dek s h.
          log_audit-Purged rotate r.tenant_id r.id who (silent_refresh r.service) _
            (update_hands-Purged _ s (live-Tombstone r.revoked _ live) h)

  pub fresh_credential-Purged :
      (r : HandsKeyRecord) (credential : OAuthCredential) (who : RequesterIdentity) (fresh : Fresh)
      (expired : Bool)
      → r.revoked ≡ false
      → Keeps Purged (fresh_credential setup r credential who fresh expired)
  unfolding perform_refresh
  fresh_credential-Purged r credential who fresh true live s h =
      after-Keeps Purged (refreshable (present credential.refresh_token) s) _
        (refreshable-Purged (present credential.refresh_token) s h)
        λ token s h.
          after-Keeps Purged (registered (setup.refreshers r.service) s) _
            (registered-Purged (setup.refreshers r.service) s h)
            λ refresher s h. settled-Purged r credential who fresh (refresher token) live s h
  fresh_credential-Purged r credential who fresh false live s h = h

  pub revealed-Purged :
      (r : HandsKeyRecord) (who : RequesterIdentity) (fresh : Fresh) (text : Bytes)
      (kind : CredentialKind)
      → r.revoked ≡ false
      → Keeps Purged (revealed setup r who fresh text kind)
  revealed-Purged r who fresh text opaque live s h = h
  revealed-Purged r who fresh text oauth live s h =
      after-Keeps Purged (parsed (setup.platform.parse text) s) _
        (parsed-Purged (setup.platform.parse text) s h)
        λ credential s h.
          let expired = credential_is_expired setup fresh.now credential in
          after-Keeps Purged (fresh_credential setup r credential who fresh expired s) _
            (fresh_credential-Purged r credential who fresh expired live s h) λ usable s h. h

  pub decrypt_hands_key-Purged :
      (t key_id : Bytes) (claim : RequestedBy) (who : RequesterIdentity) (fresh : Fresh)
      → Keeps Purged (decrypt_hands_key setup t key_id claim who fresh)
  unfolding decrypt_hands_key find_hands log_audit
  decrypt_hands_key-Purged t key_id claim who fresh s h =
      let found = get_hands_key_by_id t key_id s.hands in
      let claimed = hands_aad claim.sub_agent_id claim.capability_scope in
      after-Keeps Purged (assert_router_service who s) _ (assert-Purged who s h) λ u s h.
        after-Yields Purged LiveRead
          (readable_hands key_id who (unknown setup) (get_hands_key_by_id t key_id s.hands) s) _
          (readable_hands-Purged key_id who (unknown setup) (get_hands_key_by_id t key_id s.hands) s
            h)
          (readable_hands-LiveRead key_id who (unknown setup) (get_hands_key_by_id t key_id s.hands)
            s)
          λ (r, blob) live s h.
            after-Keeps Purged (dek_for_read setup r.tenant_id fresh s) _
              (dek_for_read-Purged setup r.tenant_id fresh s h)
              λ dek s h.
                after-Keeps Purged
                  (bound r key_id who claim (decrypt setup.platform.cipher blob dek (some claimed))
                    s)
                  _
                  (bound-Purged r key_id who claim
                    (decrypt setup.platform.cipher blob dek (some claimed)) s h)
                  λ text s h.
                    after-Keeps Purged (revealed setup r who fresh text r.credential_kind s) _
                      (revealed-Purged r who fresh text r.credential_kind live s h)
                      λ secret s h. record { brain = h.brain; hands = h.hands }
