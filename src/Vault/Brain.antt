-- ===== src/Vault/Brain.antt =====
-- packages/vault/src/vault.ts: the Brain keys, one for each role of a tenant.
use byok_business_autopilot.Base.{
  Bool, true, false, Option, none, some, List, [], ◌∷◌, ◌++◌, Result, ok, err,
}
use byok_business_autopilot.Base.Steps.{Step, after, ◌>>=◌, ◌>>◌, return, throw, gets, modify}
use byok_business_autopilot.Vault.Crypto.{Bytes, EncryptedBlob, encrypt, decrypt, brain_aad}
use byok_business_autopilot.Vault.Types.{
  RequesterIdentity, VaultError, key_not_found, cipher_failure, BrainKeyRecord, PublicKeyRecord,
  brain_to_public, store, rotate, revoke, decrypt_granted, decrypt_denied, plain,
  not_found_or_revoked, brain_key_revoked,
}
use byok_business_autopilot.Vault.Handle.{SecretHandle, mask_fingerprint}
use byok_business_autopilot.Vault.Keys.{get_brain_key, put_brain_key, update_brain_key}
use byok_business_autopilot.Vault.State.{
  State, Fresh, Setup, VaultStep, Validation, log_audit, emit, assert_router_service,
  run_validation, dek_for_read, dek_for_write,
}
pub mod Sealed
pub mod RoundTrip

pub record StoreBrainKeyInput : Type 0 where
  pub tenant_id : Bytes
  pub role_id : Bytes
  pub provider : Bytes
  pub plaintext : Bytes
  pub validate : Validation

pub record DecryptedBrainKey : Type 0 where
  pub handle : SecretHandle
  pub provider : Bytes

-- `!record || record.revoked || !record.material`
abbrev pub usable_material : Bool → Option EncryptedBlob → Option EncryptedBlob
usable_material true material = none
usable_material false material = material

unfoldable pub put_brain : BrainKeyRecord → VaultStep (Unit {0})
put_brain r = modify λ s. record s { brain = put_brain_key r s.brain }

unfoldable pub update_brain : BrainKeyRecord → VaultStep (Unit {0})
update_brain r = modify λ s. record s { brain = update_brain_key r s.brain }

unfoldable pub find_brain : Bytes → Bytes → VaultStep (Option BrainKeyRecord)
find_brain tenant_id role_id = gets λ s. get_brain_key tenant_id role_id s.brain

-- `!record || record.revoked`
abbrev pub active_if : Bool → BrainKeyRecord → VaultStep BrainKeyRecord
active_if true r = throw key_not_found
active_if false r = return r

abbrev pub active_brain : Option BrainKeyRecord → VaultStep BrainKeyRecord
active_brain none = throw key_not_found
active_brain (some r) = active_if r.revoked r

abbrev pub known_brain : Option BrainKeyRecord → VaultStep BrainKeyRecord
known_brain none = throw key_not_found
known_brain (some r) = return r

-- The fields that a purge sets.
abbrev pub purged_brain : Fresh → BrainKeyRecord → BrainKeyRecord
purged_brain fresh r = record r {
  material = none;
  revoked = true;
  revoked_at = some fresh.now;
  updated_at = fresh.now;
}

unfoldable pub revoke_brain_key : Bytes → Bytes → RequesterIdentity → Fresh → VaultStep (Unit {0})
revoke_brain_key tenant_id role_id requester fresh = do
  found ← find_brain tenant_id role_id
  r ← known_brain found
  update_brain (purged_brain fresh r)
  log_audit revoke r.tenant_id r.id requester plain
  emit (brain_key_revoked r.id r.tenant_id role_id fresh.now)

abbrev pub status_of : Option BrainKeyRecord → Option PublicKeyRecord
status_of none = none
status_of (some r) = elim r.revoked [ true ↦ none | false ↦ some (brain_to_public r) ]

unfoldable pub get_brain_key_status : Bytes → Bytes → VaultStep (Option PublicKeyRecord)
get_brain_key_status tenant_id role_id =
    gets λ s. status_of (get_brain_key tenant_id role_id s.brain)

-- `role:${roleId}`
abbrev pub role_ref : Bytes → Bytes
role_ref role_id = 114 ∷ 111 ∷ 108 ∷ 101 ∷ 58 ∷ role_id

-- A refused decryption is in the log before it throws.
abbrev pub unlocked_brain :
    BrainKeyRecord
    → RequesterIdentity
    → Option EncryptedBlob
    → VaultStep (BrainKeyRecord × EncryptedBlob)
unlocked_brain r requester none = do
  log_audit decrypt_denied r.tenant_id r.id requester not_found_or_revoked
  throw key_not_found
unlocked_brain r requester (some blob) = return (r, blob)

abbrev pub readable_brain :
    Bytes
    → Bytes
    → RequesterIdentity
    → Option BrainKeyRecord
    → VaultStep (BrainKeyRecord × EncryptedBlob)
readable_brain tenant_id role_id requester none = do
  log_audit decrypt_denied tenant_id (role_ref role_id) requester not_found_or_revoked
  throw key_not_found
readable_brain tenant_id role_id requester (some r) =
    unlocked_brain r requester (usable_material r.revoked r.material)

abbrev pub deciphered : Option Bytes → VaultStep Bytes
deciphered none = throw cipher_failure
deciphered (some plaintext) = return plaintext

module _ (setup : Setup) where
  unfoldable pub store_brain_key :
      StoreBrainKeyInput → RequesterIdentity → Fresh → VaultStep PublicKeyRecord
  store_brain_key input requester fresh = do
    run_validation input.plaintext input.validate input.tenant_id requester
    dek ← dek_for_write setup input.tenant_id fresh
    let aad = brain_aad input.role_id input.provider
    let r : BrainKeyRecord = record {
      id = fresh.id;
      tenant_id = input.tenant_id;
      role_id = input.role_id;
      provider = input.provider;
      material = some (encrypt setup.platform.cipher fresh.iv input.plaintext dek (some aad));
      masked_fingerprint = mask_fingerprint (setup.platform.decode input.plaintext);
      revoked = false;
      revoked_at = none;
      created_at = fresh.now;
      updated_at = fresh.now;
    }
    put_brain r
    log_audit store input.tenant_id r.id requester plain
    return (brain_to_public r)

  unfoldable pub rotate_brain_key :
      Bytes → Bytes → Bytes → RequesterIdentity → Validation → Fresh → VaultStep PublicKeyRecord
  rotate_brain_key tenant_id role_id new_plaintext requester validate fresh = do
    found ← find_brain tenant_id role_id
    r ← active_brain found
    run_validation new_plaintext validate r.tenant_id requester
    dek ← dek_for_write setup r.tenant_id fresh
    let aad = brain_aad r.role_id r.provider
    let r' : BrainKeyRecord = record r {
      material = some (encrypt setup.platform.cipher fresh.iv new_plaintext dek (some aad));
      masked_fingerprint = mask_fingerprint (setup.platform.decode new_plaintext);
      updated_at = fresh.now;
    }
    update_brain r'
    log_audit rotate r.tenant_id r.id requester plain
    return (brain_to_public r')

  unfoldable pub decrypt_brain_key :
      Bytes → Bytes → RequesterIdentity → Fresh → VaultStep DecryptedBrainKey
  decrypt_brain_key tenant_id role_id requester fresh = do
    assert_router_service requester
    found ← find_brain tenant_id role_id
    (r, blob) ← readable_brain tenant_id role_id requester found
    dek ← dek_for_read setup r.tenant_id fresh
    plaintext ←
        deciphered (decrypt setup.platform.cipher blob dek (some (brain_aad r.role_id r.provider)))
    log_audit decrypt_granted r.tenant_id r.id requester plain
    return (record { handle = record { buffer = some plaintext }; provider = r.provider })

  -- `try { … } catch { return false }`
  abbrev pub succeeds : Result VaultError Bytes × State → Result VaultError Bool × State
  succeeds (err thrown, s) = (ok false, s)
  succeeds (ok plaintext, s) = (ok true, s)

  abbrev pub verify_blob : Fresh → BrainKeyRecord → Option EncryptedBlob → VaultStep Bool
  verify_blob fresh r none s = (ok false, s)
  verify_blob fresh r (some blob) s = succeeds (
      after (dek_for_read setup r.tenant_id fresh s) λ dek.
        deciphered (decrypt setup.platform.cipher blob dek (some (brain_aad r.role_id r.provider))))

  abbrev pub verify_material : Fresh → Option BrainKeyRecord → VaultStep Bool
  verify_material fresh none = return false
  verify_material fresh (some r) = verify_blob fresh r (usable_material r.revoked r.material)

  unfoldable pub verify_brain_key_decryptable : Bytes → Bytes → Fresh → VaultStep Bool
  verify_brain_key_decryptable tenant_id role_id fresh = do
    found ← find_brain tenant_id role_id
    verify_material fresh found
