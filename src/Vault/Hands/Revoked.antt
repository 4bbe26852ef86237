-- ===== src/Vault/Hands/Revoked.antt =====
-- packages/vault/src/vault.ts: a dead refresh token revokes its key.
use byok_business_autopilot.Base.{◌≡◌, ap, some, err}
use byok_business_autopilot.Base.Steps.{after-err}
use byok_business_autopilot.Vault.Crypto.{Bytes, bytes_eq}
use byok_business_autopilot.Vault.Types.{
  RequesterIdentity, router_service, key_not_found, HandsKeyRecord, decrypt_denied,
  not_found_or_revoked, revoke, plain, hands_key_revoked,
}
use byok_business_autopilot.Vault.Keys.{get_hands_key_by_id}
use byok_business_autopilot.Vault.State.{
  State, Fresh, Setup, log_audit, emit, assert_router_service,
}
use byok_business_autopilot.Vault.Hands.{
  RequestedBy, find_hands, update_hands, purged_hands, readable_hands,
}
use byok_business_autopilot.Vault.Hands.Refresh.{unknown, decrypt_hands_key}

module _ (setup : Setup) where
  -- The state after a revoked refresh token.
  abbrev dead_state : HandsKeyRecord → RequesterIdentity → Fresh → State → State
  dead_state r who fresh s =
      (emit (hands_key_revoked r.id r.tenant_id r.sub_agent_id fresh.now)
        (log_audit revoke r.tenant_id r.id who plain (update_hands (purged_hands fresh r) s).1).1).1

  -- A key that is not there or is revoked is refused to a router service, and the refusal is in the log.
  pub decrypt_hands_key-purged :
      (t service_id : Bytes) (fresh : Fresh) (r : HandsKeyRecord) (claim : RequestedBy)
      (later : Fresh) (s : State)
      → get_hands_key_by_id t r.id s.hands ≡ some (purged_hands fresh r)
      → let me = router_service service_id in
        decrypt_hands_key setup t r.id claim me later s ≡ (
          err key_not_found,
          (log_audit decrypt_denied r.tenant_id r.id me not_found_or_revoked s).1,
        )
  unfolding decrypt_hands_key assert_router_service find_hands log_audit
  decrypt_hands_key-purged t service_id fresh r claim later s there =
      after-err _ _
        (ap (λ o. readable_hands r.id (router_service service_id) (unknown setup) o s) there)
