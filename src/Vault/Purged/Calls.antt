-- ===== src/Vault/Purged/Calls.antt =====
-- packages/vault/src/vault.ts: revoked keys stay purged over the calls of a vault.
use byok_business_autopilot.Base.{List, [], ◌∷◌}
use byok_business_autopilot.Vault.Crypto.{bytes_eq}
use byok_business_autopilot.Vault.Keys.{get_brain_key}
use byok_business_autopilot.Vault.State.{State, Setup}
use byok_business_autopilot.Vault.Brain.{find_brain, verify_brain_key_decryptable}
use byok_business_autopilot.Vault.Purged.{Purged}
use byok_business_autopilot.Vault.Calls.{
  VaultCall, empty_vault, make_call, make_calls, call_store_brain, call_rotate_brain,
  call_revoke_brain, call_decrypt_brain, call_verify_brain, call_store_hands, call_rotate_hands,
  call_revoke_hands, call_decrypt_hands,
}
use byok_business_autopilot.Vault.Purged.Guards.{revoke_brain_key-Purged, revoke_hands_key-Purged}
use byok_business_autopilot.Vault.Purged.Brain.{
  store_brain_key-Purged, rotate_brain_key-Purged, decrypt_brain_key-Purged, verify_material-Purged,
}
use byok_business_autopilot.Vault.Purged.Hands.{
  rotate_hands_key-Purged, store_hands_key-Purged, decrypt_hands_key-Purged,
}

module _ (setup : Setup) where
  make_call-Purged : (call : VaultCall) (s : State) → Purged s → Purged (make_call setup call s)
  unfolding make_call verify_brain_key_decryptable find_brain
  make_call-Purged (call_store_brain input who fresh) s h =
      store_brain_key-Purged setup input who fresh s h
  make_call-Purged (call_rotate_brain t role_id text who check fresh) s h =
      rotate_brain_key-Purged setup t role_id text who check fresh s h
  make_call-Purged (call_revoke_brain t role_id who fresh) s h =
      revoke_brain_key-Purged t role_id who fresh s h
  make_call-Purged (call_decrypt_brain t role_id who fresh) s h =
      decrypt_brain_key-Purged setup t role_id who fresh s h
  make_call-Purged (call_verify_brain t role_id fresh) s h =
      verify_material-Purged setup fresh (get_brain_key t role_id s.brain) s h
  make_call-Purged (call_store_hands input who fresh) s h =
      store_hands_key-Purged setup input who fresh s h
  make_call-Purged (call_rotate_hands t key_id text who check fresh) s h =
      rotate_hands_key-Purged setup t key_id text who check fresh s h
  make_call-Purged (call_revoke_hands t key_id who fresh) s h =
      revoke_hands_key-Purged t key_id who fresh s h
  make_call-Purged (call_decrypt_hands t key_id claim who fresh) s h =
      decrypt_hands_key-Purged setup t key_id claim who fresh s h

  make_calls-kept :
      (calls : List VaultCall) (s : State) → Purged s → Purged (make_calls setup calls s)
  unfolding make_calls
  make_calls-kept [] s h = h
  make_calls-kept (call ∷ calls) s h = make_calls-kept calls _ (make_call-Purged call s h)

  -- After any calls on a new vault, the failed ones among them too, every Brain key and every Hands key
  -- that is revoked has lost its material. The calls run one after the other.
  pub make_calls-Purged : (calls : List VaultCall) → Purged (make_calls setup calls empty_vault)
  make_calls-Purged calls = make_calls-kept calls empty_vault (record { brain = tt; hands = tt })
