-- ===== src/Vault/Hands/Reach.antt =====
-- packages/vault/src/vault.ts: reading a Hands key that is on file.
use byok_business_autopilot.Base.{◌≡◌, ap, ◌∙◌, false, some}
use byok_business_autopilot.Base.Steps.{after, after-ok}
use byok_business_autopilot.Vault.Crypto.{Bytes, bytes_eq, EncryptedBlob, decrypt, hands_aad}
use byok_business_autopilot.Vault.Types.{router_service, HandsKeyRecord}
use byok_business_autopilot.Vault.Deks.Held.{HoldsDek}
use byok_business_autopilot.Vault.Keys.{get_hands_key_by_id}
use byok_business_autopilot.Vault.State.{State, Fresh, Setup, assert_router_service}
use byok_business_autopilot.Vault.Brain.{usable_material}
use byok_business_autopilot.Vault.Brain.Sealed.{dek_for_read-held}
use byok_business_autopilot.Vault.Hands.{
  RequestedBy, find_hands, unlocked_hands, readable_hands, bound,
}
use byok_business_autopilot.Vault.Hands.Refresh.{unknown, hand_over, decrypt_hands_key}

module _ (setup : Setup) where
  -- A record with a blob that the tenant's key reaches.
  abbrev pub Reachable : Bytes → EncryptedBlob → Bytes → HandsKeyRecord → State → Type 0
  Reachable t blob dek r s =
      (r.material ≡ some blob)
      × (r.revoked ≡ false)
      × HoldsDek setup.platform.cipher setup.kms r.tenant_id dek s.deks
      × (get_hands_key_by_id t r.id s.hands ≡ some r)

  -- A reachable key is as open as the claimed scope makes it.
  pub decrypt_hands_key-Reachable :
      (t : Bytes) (blob : EncryptedBlob) (dek service_id : Bytes) (r : HandsKeyRecord)
      (claim : RequestedBy) (fresh : Fresh) (s : State)
      → Reachable t blob dek r s
      → let me = router_service service_id in
        decrypt_hands_key setup t r.id claim me fresh s
        ≡ after
            (bound r r.id me claim
              (decrypt setup.platform.cipher blob dek
                (some (hands_aad claim.sub_agent_id claim.capability_scope)))
              s)
            (hand_over setup r r.id claim me fresh)
  unfolding decrypt_hands_key assert_router_service find_hands
  decrypt_hands_key-Reachable t blob dek service_id r claim fresh s (m, v, held, there) =
      let me = router_service service_id in
      after-ok _ _ (
        ap (λ o. readable_hands r.id me (unknown setup) o s) there
        ∙ ap (λ o. unlocked_hands r r.id me o s) (ap (λ b. usable_material b r.material) v ∙ m))
      ∙ after-ok _ _ (dek_for_read-held setup r.tenant_id dek fresh s held)
