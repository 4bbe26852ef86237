-- ===== src/Vault/Hands.antt =====
-- packages/vault/src/vault.ts: the Hands keys, one for each store call, read under a claimed scope.
use byok_business_autopilot.Base.{
  ℕ, ◌+◌, Bool, true, false, Option, none, some, Result, ok, err, leb,
}
use byok_business_autopilot.Base.Steps.{Step, after, ◌>>=◌, ◌>>◌, return, throw, gets, modify}
use byok_business_autopilot.Vault.Crypto.{Bytes, EncryptedBlob, encrypt, decrypt, hands_aad}
use byok_business_autopilot.Vault.Types.{
  RequesterIdentity, VaultError, key_not_found, scope_binding, HandsKeyRecord, CredentialKind,
  PublicKeyRecord, hands_to_public, store, rotate, revoke, decrypt_denied, plain,
  not_found_or_revoked, scope_mismatch, hands_key_revoked,
}
use byok_business_autopilot.Vault.Handle.{mask_fingerprint}
use byok_business_autopilot.Vault.Keys.{
  get_hands_key_by_id, put_hands_key, update_hands_key, resolve_hands_key_id,
}
use byok_business_autopilot.Vault.State.{
  State, Fresh, Setup, VaultStep, Validation, log_audit, emit, run_validation, dek_for_write,
}
use byok_business_autopilot.Vault.Brain.{usable_material}
pub mod Refresh
pub mod Reach
pub mod Scope
pub mod FailClosed
pub mod Revoked
pub mod Renewed

-- `credentialKind` has its default filled in.
pub record StoreHandsKeyInput : Type 0 where
  pub tenant_id : Bytes
  pub sub_agent_id : Bytes
  pub capability_scope : Bytes
  pub service : Bytes
  pub plaintext : Bytes
  pub validate : Validation
  pub credential_kind : CredentialKind

-- The scope a caller claims.
pub record RequestedBy : Type 0 where
  pub sub_agent_id : Bytes
  pub capability_scope : Bytes

unfoldable pub put_hands : HandsKeyRecord → VaultStep (Unit {0})
put_hands r = modify λ s. record s { hands = put_hands_key r s.hands }

unfoldable pub update_hands : HandsKeyRecord → VaultStep (Unit {0})
update_hands r = modify λ s. record s { hands = update_hands_key r s.hands }

unfoldable pub find_hands : Bytes → Bytes → VaultStep (Option HandsKeyRecord)
find_hands tenant_id key_id = gets λ s. get_hands_key_by_id tenant_id key_id s.hands

abbrev pub active_hands_if : Bool → HandsKeyRecord → VaultStep HandsKeyRecord
active_hands_if true r = throw key_not_found
active_hands_if false r = return r

abbrev pub active_hands : Option HandsKeyRecord → VaultStep HandsKeyRecord
active_hands none = throw key_not_found
active_hands (some r) = active_hands_if r.revoked r

abbrev pub known_hands : Option HandsKeyRecord → VaultStep HandsKeyRecord
known_hands none = throw key_not_found
known_hands (some r) = return r

abbrev pub purged_hands : Fresh → HandsKeyRecord → HandsKeyRecord
purged_hands fresh r = record r {
  material = none;
  revoked = true;
  revoked_at = some fresh.now;
  updated_at = fresh.now;
}

unfoldable pub revoke_hands_key : Bytes → Bytes → RequesterIdentity → Fresh → VaultStep (Unit {0})
revoke_hands_key tenant_id key_id requester fresh = do
  found ← find_hands tenant_id key_id
  r ← known_hands found
  update_hands (purged_hands fresh r)
  log_audit revoke r.tenant_id r.id requester plain
  emit (hands_key_revoked r.id r.tenant_id r.sub_agent_id fresh.now)

abbrev pub hands_status_of : Option HandsKeyRecord → Option PublicKeyRecord
hands_status_of none = none
hands_status_of (some r) = elim r.revoked [ true ↦ none | false ↦ some (hands_to_public r) ]

abbrev pub record_with_id : Bytes → State → Option Bytes → Option HandsKeyRecord
record_with_id tenant_id s none = none
record_with_id tenant_id s (some key_id) = get_hands_key_by_id tenant_id key_id s.hands

unfoldable pub get_hands_key_status : Bytes → Bytes → Bytes → VaultStep (Option PublicKeyRecord)
get_hands_key_status tenant_id sub_agent_id capability_scope = gets λ s. hands_status_of (
    record_with_id tenant_id s
      (resolve_hands_key_id tenant_id sub_agent_id capability_scope s.hands))

abbrev pub unlocked_hands :
    HandsKeyRecord
    → Bytes
    → RequesterIdentity
    → Option EncryptedBlob
    → VaultStep (HandsKeyRecord × EncryptedBlob)
unlocked_hands r key_id requester none = do
  log_audit decrypt_denied r.tenant_id key_id requester not_found_or_revoked
  throw key_not_found
unlocked_hands r key_id requester (some blob) = return (r, blob)

abbrev pub readable_hands :
    Bytes
    → RequesterIdentity
    → Bytes
    → Option HandsKeyRecord
    → VaultStep (HandsKeyRecord × EncryptedBlob)
readable_hands key_id requester unknown none = do
  log_audit decrypt_denied unknown key_id requester not_found_or_revoked
  throw key_not_found
readable_hands key_id requester unknown (some r) =
    unlocked_hands r key_id requester (usable_material r.revoked r.material)

-- A wrong claim fails in the cipher, and is in the log.
abbrev pub bound :
    HandsKeyRecord → Bytes → RequesterIdentity → RequestedBy → Option Bytes → VaultStep Bytes
bound r key_id requester claim none = do
  log_audit decrypt_denied r.tenant_id key_id requester
      (scope_mismatch claim.sub_agent_id claim.capability_scope)
  throw scope_binding
bound r key_id requester claim (some plaintext) = return plaintext

module _ (setup : Setup) where
  unfoldable pub store_hands_key :
      StoreHandsKeyInput → RequesterIdentity → Fresh → VaultStep PublicKeyRecord
  store_hands_key input requester fresh = do
    run_validation input.plaintext input.validate input.tenant_id requester
    dek ← dek_for_write setup input.tenant_id fresh
    let aad = hands_aad input.sub_agent_id input.capability_scope
    let r : HandsKeyRecord = record {
      id = fresh.id;
      tenant_id = input.tenant_id;
      sub_agent_id = input.sub_agent_id;
      capability_scope = input.capability_scope;
      service = input.service;
      material = some (encrypt setup.platform.cipher fresh.iv input.plaintext dek (some aad));
      credential_kind = input.credential_kind;
      masked_fingerprint = mask_fingerprint (setup.platform.decode input.plaintext);
      revoked = false;
      revoked_at = none;
      created_at = fresh.now;
      updated_at = fresh.now;
    }
    put_hands r
    log_audit store input.tenant_id r.id requester plain
    return (hands_to_public r)

  unfoldable pub rotate_hands_key :
      Bytes → Bytes → Bytes → RequesterIdentity → Validation → Fresh → VaultStep PublicKeyRecord
  rotate_hands_key tenant_id key_id new_plaintext requester validate fresh = do
    found ← find_hands tenant_id key_id
    r ← active_hands found
    run_validation new_plaintext validate r.tenant_id requester
    dek ← dek_for_write setup r.tenant_id fresh
    let aad = hands_aad r.sub_agent_id r.capability_scope
    let r' : HandsKeyRecord = record r {
      material = some (encrypt setup.platform.cipher fresh.iv new_plaintext dek (some aad));
      masked_fingerprint = mask_fingerprint (setup.platform.decode new_plaintext);
      updated_at = fresh.now;
    }
    update_hands r'
    log_audit rotate r.tenant_id r.id requester plain
    return (hands_to_public r')
