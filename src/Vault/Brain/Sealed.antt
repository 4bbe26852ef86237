-- ===== src/Vault/Brain/Sealed.antt =====
-- packages/vault/src/vault.ts: a Brain key on file under the key of its tenant, and its decryption.
use byok_business_autopilot.Base.{◌≡◌, refl, ap, ◌∙◌, true, false, none, some, ok}
use byok_business_autopilot.Base.Dict.{lookup, insert, lookup-insert_self}
use byok_business_autopilot.Base.Steps.{after-ok}
use byok_business_autopilot.Vault.Crypto.{Bytes, bytes_eq, EncryptedBlob, decrypt, brain_aad}
use byok_business_autopilot.Vault.Types.{
  RequesterIdentity, router_service, BrainKeyRecord, decrypt_granted, plain,
}
use byok_business_autopilot.Vault.Deks.Held.{HoldsDek, get_or_create_dek-held}
use byok_business_autopilot.Vault.Keys.{BrainKeys, get_brain_key, put_brain_key, roles_of}
use byok_business_autopilot.Vault.State.{
  State, Fresh, Setup, Validation, validated, run_validation, log_audit, assert_router_service,
  with_deks, dek_for_read,
}
use byok_business_autopilot.Vault.Brain.{
  DecryptedBrainKey, readable_brain, unlocked_brain, usable_material, verify_material, verify_blob,
  succeeds, active_brain, active_if, deciphered, find_brain, decrypt_brain_key,
  verify_brain_key_decryptable,
}

-- The caller's check, if there is one, accepts the key.
abbrev pub Accepts : Validation → Bytes → Type 0
Accepts none plaintext = Unit
Accepts (some validate) plaintext = validate plaintext ≡ some true

pub run_validation-Accepts :
    (validate : Validation) (plaintext t : Bytes) (requester : RequesterIdentity) (s : State)
    → Accepts validate plaintext
    → run_validation plaintext validate t requester s ≡ (ok tt, s)
unfolding run_validation
run_validation-Accepts none plaintext t requester s h = refl
run_validation-Accepts (some validate) plaintext t requester s h =
    ap (λ o. validated o t requester s) h

pub get-put_brain_key :
    (r : BrainKeyRecord) (keys : BrainKeys)
    → get_brain_key r.tenant_id r.role_id (put_brain_key r keys) ≡ some r
unfolding get_brain_key put_brain_key
get-put_brain_key r keys =
    let by_role = insert r.role_id r (roles_of (lookup r.tenant_id keys)) in
    ap (λ o. lookup r.role_id (roles_of o)) (lookup-insert_self r.tenant_id by_role keys)
    ∙ lookup-insert_self r.role_id r (roles_of (lookup r.tenant_id keys))

pub active_brain-active :
    (r : BrainKeyRecord) (s : State) → r.revoked ≡ false → active_brain (some r) s ≡ (ok r, s)
active_brain-active r s h = ap (λ b. active_if b r s) h

module _ (setup : Setup) where
  pub dek_for_read-held :
      (t dek : Bytes) (fresh : Fresh) (s : State)
      → HoldsDek setup.platform.cipher setup.kms t dek s.deks
      → dek_for_read setup t fresh s ≡ (ok dek, s)
  unfolding dek_for_read
  dek_for_read-held t dek fresh s h =
      ap (λ p. with_deks p s)
        (get_or_create_dek-held setup.platform.cipher setup.kms t fresh.dek s.deks dek h)

  -- The record that a store or a rotation leaves, under the tenant's key.
  abbrev pub Sealed : Bytes → Bytes → BrainKeyRecord → State → Type 0
  Sealed plaintext dek r s =
      (blob : EncryptedBlob) × (r.material ≡ some blob)
      × (r.revoked ≡ false)
      × (decrypt setup.platform.cipher blob dek (some (brain_aad r.role_id r.provider))
          ≡ some plaintext)
      × HoldsDek setup.platform.cipher setup.kms r.tenant_id dek s.deks
      × (get_brain_key r.tenant_id r.role_id s.brain ≡ some r)

  -- The log after a granted decryption.
  abbrev pub logged_grant : BrainKeyRecord → RequesterIdentity → State → State
  logged_grant r requester s = (log_audit decrypt_granted r.tenant_id r.id requester plain s).1

  abbrev pub opened : Bytes → BrainKeyRecord → DecryptedBrainKey
  opened plaintext r = record { handle = record { buffer = some plaintext }; provider = r.provider }

  usable :
      (r : BrainKeyRecord) (blob : EncryptedBlob)
      → r.material ≡ some blob
      → r.revoked ≡ false
      → usable_material r.revoked r.material ≡ some blob
  usable r blob m v = ap (λ b. usable_material b r.material) v ∙ m

  pub decrypt_brain_key-Sealed :
      (plaintext dek service_id : Bytes) (r : BrainKeyRecord) (fresh : Fresh) (s : State)
      → Sealed plaintext dek r s
      → decrypt_brain_key setup r.tenant_id r.role_id (router_service service_id) fresh s
        ≡ (ok (opened plaintext r), logged_grant r (router_service service_id) s)
  unfolding decrypt_brain_key assert_router_service find_brain log_audit
  decrypt_brain_key-Sealed plaintext dek service_id r fresh s (blob, m, v, opens, held, there) =
      let me = router_service service_id in
      after-ok _ _ (
        ap (λ o. readable_brain r.tenant_id r.role_id me o s) there
        ∙ ap (λ o. unlocked_brain r me o s) (usable r blob m v))
      ∙ after-ok _ _ (dek_for_read-held r.tenant_id dek fresh s held)
      ∙ after-ok _ _ (ap (λ o. deciphered o s) opens)

  pub verify_brain_key_decryptable-Sealed :
      (plaintext dek : Bytes) (r : BrainKeyRecord) (fresh : Fresh) (s : State)
      → Sealed plaintext dek r s
      → verify_brain_key_decryptable setup r.tenant_id r.role_id fresh s ≡ (ok true, s)
  unfolding verify_brain_key_decryptable find_brain
  verify_brain_key_decryptable-Sealed plaintext dek r fresh s (blob, m, v, opens, held, there) =
      ap (λ o. verify_material setup fresh o s) there
      ∙ ap (λ o. verify_blob setup fresh r o s) (usable r blob m v)
      ∙ ap (succeeds setup) (
          after-ok _ _ (dek_for_read-held r.tenant_id dek fresh s held)
          ∙ ap (λ o. deciphered o s) opens)
