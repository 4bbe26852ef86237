-- ===== src/Vault/Purged/Brain.antt =====
-- packages/vault/src/vault.ts: the calls on Brain keys keep revoked keys purged.
use byok_business_autopilot.Base.{◌≡◌, false, Option, none, some, ok, err, Result}
use byok_business_autopilot.Base.Steps.{after-Keeps, after-Yields, Keeps}
use byok_business_autopilot.Vault.Crypto.{Bytes, bytes_eq, EncryptedBlob, decrypt, brain_aad}
use byok_business_autopilot.Vault.Types.{
  RequesterIdentity, VaultError, BrainKeyRecord, store, rotate, plain,
}
use byok_business_autopilot.Vault.Keys.{get_brain_key}
use byok_business_autopilot.Vault.State.{
  State, Fresh, Setup, Validation, log_audit, assert_router_service, run_validation, dek_for_read,
  dek_for_write,
}
use byok_business_autopilot.Vault.Brain.{
  StoreBrainKeyInput, usable_material, put_brain, update_brain, find_brain, active_brain,
  readable_brain, deciphered, store_brain_key, rotate_brain_key, decrypt_brain_key, succeeds,
  verify_blob, verify_material,
}
use byok_business_autopilot.Vault.Purged.{Purged, put_brain-Purged, update_brain-Purged}
use byok_business_autopilot.Vault.Purged.Guards.{
  live-Tombstone, log_audit-Purged, assert-Purged, run_validation-Purged, deciphered-Purged,
  readable_brain-Purged, active_brain-Purged, active_brain-Guards, dek_for_read-Purged,
  dek_for_write-Purged,
}

module _ (setup : Setup) where
  pub store_brain_key-Purged :
      (input : StoreBrainKeyInput) (who : RequesterIdentity) (fresh : Fresh)
      → Keeps Purged (store_brain_key setup input who fresh)
  unfolding store_brain_key put_brain log_audit
  store_brain_key-Purged input who fresh s h =
      after-Keeps Purged (run_validation input.plaintext input.validate input.tenant_id who s) _
        (run_validation-Purged input.plaintext input.validate input.tenant_id who s h)
        λ u s h.
          after-Keeps Purged (dek_for_write setup input.tenant_id fresh s) _
            (dek_for_write-Purged setup input.tenant_id fresh s h)
            λ dek s h.
              log_audit-Purged store input.tenant_id fresh.id who plain _
                (put_brain-Purged _ s tt h)

  pub rotate_brain_key-Purged :
      (t role_id text : Bytes) (who : RequesterIdentity) (check : Validation) (fresh : Fresh)
      → Keeps Purged (rotate_brain_key setup t role_id text who check fresh)
  unfolding rotate_brain_key find_brain update_brain log_audit
  rotate_brain_key-Purged t role_id text who check fresh s h =
      after-Yields Purged (λ (r : BrainKeyRecord). r.revoked ≡ false)
        (active_brain (get_brain_key t role_id s.brain) s) _
        (active_brain-Purged (get_brain_key t role_id s.brain) s h)
        (active_brain-Guards (get_brain_key t role_id s.brain) s)
        λ r live s h.
          after-Keeps Purged (run_validation text check r.tenant_id who s) _
            (run_validation-Purged text check r.tenant_id who s h)
            λ u s h.
              after-Keeps Purged (dek_for_write setup r.tenant_id fresh s) _
                (dek_for_write-Purged setup r.tenant_id fresh s h)
                λ dek s h.
                  log_audit-Purged rotate r.tenant_id r.id who plain _
                    (update_brain-Purged _ s (live-Tombstone r.revoked _ live) h)

  pub decrypt_brain_key-Purged :
      (t role_id : Bytes) (who : RequesterIdentity) (fresh : Fresh)
      → Keeps Purged (decrypt_brain_key setup t role_id who fresh)
  unfolding decrypt_brain_key find_brain log_audit
  decrypt_brain_key-Purged t role_id who fresh s h =
      after-Keeps Purged (assert_router_service who s) _ (assert-Purged who s h) λ u s h.
        after-Keeps Purged (readable_brain t role_id who (get_brain_key t role_id s.brain) s) _
          (readable_brain-Purged t role_id who (get_brain_key t role_id s.brain) s h)
          λ (r, blob) s h.
            after-Keeps Purged (dek_for_read setup r.tenant_id fresh s) _
              (dek_for_read-Purged setup r.tenant_id fresh s h)
              λ dek s h.
                after-Keeps Purged
                  (deciphered
                    (decrypt setup.platform.cipher blob dek (some (brain_aad r.role_id r.provider)))
                    s)
                  _ (deciphered-Purged _ s h)
                  λ text s h. record { brain = h.brain; hands = h.hands }

  pub succeeds-Purged :
      (p : Result VaultError Bytes × State) → Purged p.1 → Purged (succeeds setup p).1
  succeeds-Purged (ok text, s) h = h
  succeeds-Purged (err thrown, s) h = h

  pub verify_blob-Purged :
      (fresh : Fresh) (r : BrainKeyRecord) (o : Option EncryptedBlob)
      → Keeps Purged (verify_blob setup fresh r o)
  verify_blob-Purged fresh r none s h = h
  verify_blob-Purged fresh r (some blob) s h = succeeds-Purged _ (
      after-Keeps Purged (dek_for_read setup r.tenant_id fresh s) _
        (dek_for_read-Purged setup r.tenant_id fresh s h)
        λ dek.
          deciphered-Purged
            (decrypt setup.platform.cipher blob dek (some (brain_aad r.role_id r.provider))))

  pub verify_material-Purged :
      (fresh : Fresh) (o : Option BrainKeyRecord) → Keeps Purged (verify_material setup fresh o)
  verify_material-Purged fresh none s h = h
  verify_material-Purged fresh (some r) s h =
      verify_blob-Purged fresh r (usable_material r.revoked r.material) s h
