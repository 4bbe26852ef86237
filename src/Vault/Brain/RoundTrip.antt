-- ===== src/Vault/Brain/RoundTrip.antt =====
-- packages/vault/src/vault.ts: a Brain key that was stored or rotated is what a decryption gives.
use byok_business_autopilot.Base.{◌≡◌, ◌≢◌, refl, ap, ◌∙◌, true, false, none, some, [], ok}
use byok_business_autopilot.Base.Steps.{after-ok}
use byok_business_autopilot.Vault.Crypto.{
  Bytes, bytes_eq, IsAuthentic, cloud_kms, encrypt, decrypt-encrypt, brain_aad,
}
use byok_business_autopilot.Vault.Types.{
  RequesterIdentity, router_service, BrainKeyRecord, PublicKeyRecord, Operation, store, rotate,
  plain, brain_to_public,
}
use byok_business_autopilot.Vault.Handle.{mask_fingerprint}
use byok_business_autopilot.Vault.Deks.{Deks}
use byok_business_autopilot.Vault.Deks.Held.{HoldsDek, get_dek_for_write-HoldsDek}
use byok_business_autopilot.Vault.Keys.{get_brain_key, put_brain_key}
use byok_business_autopilot.Vault.State.{
  State, Fresh, Setup, Validation, log_audit, with_deks, dek_for_write,
}
use byok_business_autopilot.Vault.Brain.{
  StoreBrainKeyInput, active_brain, rotate_brain_key, put_brain, update_brain, find_brain,
  store_brain_key, decrypt_brain_key, verify_brain_key_decryptable,
}
use byok_business_autopilot.Vault.Brain.Sealed.{
  Accepts, run_validation-Accepts, get-put_brain_key, active_brain-active, Sealed,
  decrypt_brain_key-Sealed, verify_brain_key_decryptable-Sealed,
}

module _ (setup : Setup) (sound : IsAuthentic setup.platform.cipher)
    (running : setup.kms ≢ cloud_kms) where
  -- A write has a key, under which the tenant's row is from then on.
  pub dek_for_write-held :
      (t : Bytes) (fresh : Fresh) (s : State)
      → (dek : Bytes) × (deks' : Deks) × (dek_for_write setup t fresh s
          ≡ (ok dek, record s { deks = deks' }))
        × HoldsDek setup.platform.cipher setup.kms t dek deks'
  unfolding dek_for_write
  dek_for_write-held t fresh s =
      let (dek, deks', got, held, others) =
        get_dek_for_write-HoldsDek setup.platform.cipher sound setup.kms running t fresh.dek
          fresh.spare_dek s.deks in
      (dek, deks', ap (λ p. with_deks p s) got, held)

  -- What `store` and `rotate` write.
  abbrev pub sealed : Bytes → Bytes → Fresh → BrainKeyRecord → BrainKeyRecord
  sealed plaintext dek fresh r = record r {
    material = some (
        encrypt setup.platform.cipher fresh.iv plaintext dek
          (some (brain_aad r.role_id r.provider)));
    masked_fingerprint = mask_fingerprint (setup.platform.decode plaintext);
    updated_at = fresh.now;
  }

  sealed-Sealed :
      (plaintext dek : Bytes) (fresh : Fresh) (r : BrainKeyRecord) (s : State)
      → r.revoked ≡ false
      → HoldsDek setup.platform.cipher setup.kms r.tenant_id dek s.deks
      → get_brain_key r.tenant_id r.role_id s.brain ≡ some (sealed plaintext dek fresh r)
      → Sealed setup plaintext dek (sealed plaintext dek fresh r) s
  sealed-Sealed plaintext dek fresh r s v held there =
      let aad = some (brain_aad r.role_id r.provider) in
      (
        encrypt setup.platform.cipher fresh.iv plaintext dek aad,
        refl,
        v,
        decrypt-encrypt setup.platform.cipher sound fresh.iv plaintext dek aad,
        held,
        there,
      )

  -- The state that a write of the key leaves.
  abbrev pub written : Operation → BrainKeyRecord → Deks → RequesterIdentity → State → State
  written operation r deks' requester s =
      (log_audit operation r.tenant_id r.id requester plain
        (record s { deks = deks'; brain = put_brain_key r s.brain })).1

  -- A router service, of whatever name, is given the plaintext and its provider, and the health check
  -- says yes and changes nothing.
  abbrev pub Decrypts : Bytes → Bytes → Bytes → Bytes → State → Type 0
  Decrypts t role_id plaintext provider s =
      (service_id : Bytes) (later : Fresh)
      → ((decrypt_brain_key setup t role_id (router_service service_id) later s).0
          ≡ ok (record { handle = record { buffer = some plaintext }; provider = provider }))
        × (verify_brain_key_decryptable setup t role_id later s ≡ (ok true, s))

  Decrypts-Sealed :
      (plaintext dek : Bytes) (r : BrainKeyRecord) (s : State)
      → Sealed setup plaintext dek r s
      → Decrypts r.tenant_id r.role_id plaintext r.provider s
  Decrypts-Sealed plaintext dek r s sealed service_id later = (
    ap (λ p. p.0) (decrypt_brain_key-Sealed setup plaintext dek service_id r later s sealed),
    verify_brain_key_decryptable-Sealed setup plaintext dek r later s sealed,
  )

  -- A Brain key that the caller's check accepts is stored, whatever was on file before, an undecryptable
  -- data key too, and a router service then decrypts exactly the plaintext that was stored, with the
  -- provider. This holds with a KMS that runs and an authenticated cipher.
  pub store_brain_key-Decrypts :
      (input : StoreBrainKeyInput) (requester : RequesterIdentity) (fresh : Fresh) (s : State)
      → Accepts input.validate input.plaintext
      → (shown : PublicKeyRecord) × (s' : State) × (store_brain_key setup input requester fresh s
          ≡ (ok shown, s'))
        × Decrypts input.tenant_id input.role_id input.plaintext input.provider s'
  unfolding store_brain_key put_brain log_audit
  store_brain_key-Decrypts input requester fresh s accepts =
      let (dek, deks', got, held) = dek_for_write-held input.tenant_id fresh s in
      let blank : BrainKeyRecord = record {
        id = fresh.id;
        tenant_id = input.tenant_id;
        role_id = input.role_id;
        provider = input.provider;
        material = none;
        masked_fingerprint = [];
        revoked = false;
        revoked_at = none;
        created_at = fresh.now;
        updated_at = fresh.now;
      } in
      let r = sealed input.plaintext dek fresh blank in
      let s' = written store r deks' requester s in
      (
        brain_to_public r,
        s',
        after-ok _ _ (
              run_validation-Accepts input.validate input.plaintext input.tenant_id requester s
                accepts)
            ∙ after-ok _ _ got,
        Decrypts-Sealed input.plaintext dek r s' (
            sealed-Sealed input.plaintext dek fresh blank s' refl held
              (get-put_brain_key r s.brain)),
      )

  -- Rotating an active Brain key with a plaintext that the check accepts keeps its id, role and provider,
  -- and from then on a router service decrypts the new plaintext.
  pub rotate_brain_key-Decrypts :
      (r : BrainKeyRecord) (plaintext : Bytes) (requester : RequesterIdentity)
      (validate : Validation) (fresh : Fresh) (s : State)
      → get_brain_key r.tenant_id r.role_id s.brain ≡ some r
      → r.revoked ≡ false
      → Accepts validate plaintext
      → (r' : BrainKeyRecord) × (s' : State) × (rotate_brain_key setup r.tenant_id r.role_id
            plaintext requester validate fresh s
          ≡ (ok (brain_to_public r'), s'))
        × (get_brain_key r.tenant_id r.role_id s'.brain ≡ some r')
        × (r'.id ≡ r.id)
        × Decrypts r.tenant_id r.role_id plaintext r.provider s'
  unfolding rotate_brain_key find_brain update_brain log_audit
  rotate_brain_key-Decrypts r plaintext requester validate fresh s there active accepts =
      let (dek, deks', got, held) = dek_for_write-held r.tenant_id fresh s in
      let r' = sealed plaintext dek fresh r in
      let s' = written rotate r' deks' requester s in
      let filed = get-put_brain_key r' s.brain in
      (
        r',
        s',
        after-ok _ _ (ap (λ o. active_brain o s) there ∙ active_brain-active r s active)
            ∙ after-ok _ _
                (run_validation-Accepts validate plaintext r.tenant_id requester s accepts)
            ∙ after-ok _ _ got,
        filed,
        refl,
        Decrypts-Sealed plaintext dek r' s'
            (sealed-Sealed plaintext dek fresh r s' active held filed),
      )
