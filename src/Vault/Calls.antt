-- ===== src/Vault/Calls.antt =====
-- packages/vault/src/vault.ts: the calls of a vault, one after the other.
use byok_business_autopilot.Base.{List, [], ◌∷◌}
use byok_business_autopilot.Vault.Crypto.{Bytes, bytes_eq}
use byok_business_autopilot.Vault.Types.{RequesterIdentity}
use byok_business_autopilot.Vault.State.{State, Fresh, Setup, Validation}
use byok_business_autopilot.Vault.Brain.{
  StoreBrainKeyInput, revoke_brain_key, store_brain_key, rotate_brain_key, decrypt_brain_key,
  verify_brain_key_decryptable,
}
use byok_business_autopilot.Vault.Hands.{
  StoreHandsKeyInput, RequestedBy, revoke_hands_key, store_hands_key, rotate_hands_key,
}
use byok_business_autopilot.Vault.Hands.Refresh.{decrypt_hands_key}

-- A call of one of the methods that can change the state.
pub data VaultCall : Type 0 where
  call_store_brain : StoreBrainKeyInput → RequesterIdentity → Fresh → VaultCall
  call_rotate_brain :
      (tenant_id role_id plaintext : Bytes) → RequesterIdentity → Validation → Fresh → VaultCall
  call_revoke_brain : (tenant_id role_id : Bytes) → RequesterIdentity → Fresh → VaultCall
  call_decrypt_brain : (tenant_id role_id : Bytes) → RequesterIdentity → Fresh → VaultCall
  call_verify_brain : (tenant_id role_id : Bytes) → Fresh → VaultCall
  call_store_hands : StoreHandsKeyInput → RequesterIdentity → Fresh → VaultCall
  call_rotate_hands :
      (tenant_id key_id plaintext : Bytes) → RequesterIdentity → Validation → Fresh → VaultCall
  call_revoke_hands : (tenant_id key_id : Bytes) → RequesterIdentity → Fresh → VaultCall
  call_decrypt_hands :
      (tenant_id key_id : Bytes) → RequestedBy → RequesterIdentity → Fresh → VaultCall

abbrev pub empty_vault : State
empty_vault = record {
  brain = [];
  hands = record { by_id = []; index = [] };
  deks = [];
  audit = [];
  events = [];
}

module _ (setup : Setup) where
  -- The state after the call, whether it returned or threw.
  unfoldable pub make_call : VaultCall → State → State
  make_call (call_store_brain input who fresh) s = (store_brain_key setup input who fresh s).1
  make_call (call_rotate_brain t role_id text who check fresh) s =
      (rotate_brain_key setup t role_id text who check fresh s).1
  make_call (call_revoke_brain t role_id who fresh) s = (revoke_brain_key t role_id who fresh s).1
  make_call (call_decrypt_brain t role_id who fresh) s =
      (decrypt_brain_key setup t role_id who fresh s).1
  make_call (call_verify_brain t role_id fresh) s =
      (verify_brain_key_decryptable setup t role_id fresh s).1
  make_call (call_store_hands input who fresh) s = (store_hands_key setup input who fresh s).1
  make_call (call_rotate_hands t key_id text who check fresh) s =
      (rotate_hands_key setup t key_id text who check fresh s).1
  make_call (call_revoke_hands t key_id who fresh) s = (revoke_hands_key t key_id who fresh s).1
  make_call (call_decrypt_hands t key_id claim who fresh) s =
      (decrypt_hands_key setup t key_id claim who fresh s).1

  unfoldable pub make_calls : List VaultCall → State → State
  make_calls [] s = s
  make_calls (call ∷ calls) s = make_calls calls (make_call call s)
