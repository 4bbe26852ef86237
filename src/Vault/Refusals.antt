-- ===== src/Vault/Refusals.antt =====
-- packages/vault/src/vault.ts: what a refused call leaves.
use byok_business_autopilot.Base.{◌≡◌, ◌≢◌, refl, ap, ◌∙◌, false, none, some, err}
use byok_business_autopilot.Base.Steps.{after-ok, after-err}
use byok_business_autopilot.Vault.Crypto.{Bytes}
use byok_business_autopilot.Vault.Types.{
  RequesterIdentity, router_service, onboarding_service, admin, tenant_user, access_denied,
  validation_failed, validate_failed, plain, BrainKeyRecord, HandsKeyRecord,
}
use byok_business_autopilot.Vault.Keys.{get_brain_key, get_hands_key_by_id}
use byok_business_autopilot.Vault.State.{
  State, Fresh, Setup, Validation, log_audit, pending_id, validated, run_validation,
  assert_router_service,
}
use byok_business_autopilot.Vault.Brain.{
  StoreBrainKeyInput, store_brain_key, rotate_brain_key, decrypt_brain_key, find_brain,
  active_brain,
}
use byok_business_autopilot.Vault.Brain.Sealed.{active_brain-active}
use byok_business_autopilot.Vault.Hands.{
  StoreHandsKeyInput, RequestedBy, store_hands_key, rotate_hands_key, find_hands, active_hands,
  active_hands_if,
}
use byok_business_autopilot.Vault.Hands.Refresh.{decrypt_hands_key}

assert_router_service-err :
    (who : RequesterIdentity) (s : State)
    → ((id : Bytes) → who ≢ router_service id)
    → assert_router_service who s ≡ (err access_denied, s)
unfolding assert_router_service
assert_router_service-err (router_service id) s n = absurd (n id refl)
assert_router_service-err (onboarding_service id) s n = refl
assert_router_service-err (admin id) s n = refl
assert_router_service-err (tenant_user id) s n = refl

-- The check of the caller looks at the plaintext and refuses it.
abbrev pub Rejects : Validation → Bytes → Type 0
Rejects none plaintext = ⊥
Rejects (some validate) plaintext = validate plaintext ≡ some false

-- The log says that a validation failed.
abbrev pub rejected : Bytes → RequesterIdentity → State → State
rejected t who s = (log_audit validate_failed t pending_id who plain s).1

run_validation-Rejects :
    (check : Validation) (plaintext t : Bytes) (who : RequesterIdentity) (s : State)
    → Rejects check plaintext
    → run_validation plaintext check t who s ≡ (err validation_failed, rejected t who s)
unfolding run_validation log_audit
run_validation-Rejects none plaintext t who s h = absurd h
run_validation-Rejects (some validate) plaintext t who s h = ap (λ o. validated o t who s) h

module _ (setup : Setup) where
  -- A caller that is not a router service, a tenant's user or an administrator say, is denied every
  -- decryption, of a Brain key and of a Hands key, and the vault's state is exactly as it was.
  pub decrypt_needs_router_service :
      (t role_id key_id : Bytes) (claim : RequestedBy) (who : RequesterIdentity) (fresh : Fresh)
      (s : State)
      → ((id : Bytes) → who ≢ router_service id)
      → (decrypt_brain_key setup t role_id who fresh s ≡ (err access_denied, s))
        × (decrypt_hands_key setup t key_id claim who fresh s ≡ (err access_denied, s))
  unfolding decrypt_brain_key decrypt_hands_key
  decrypt_needs_router_service t role_id key_id claim who fresh s n = (
    after-err _ _ (assert_router_service-err who s n),
    after-err _ _ (assert_router_service-err who s n),
  )

  -- A key that the caller's check refuses is not stored: storing a Brain or a Hands key and rotating an
  -- active one of either kind throw the validation error, and beside one event in the log the state is
  -- exactly as it was.
  pub rejected_key_stores_nothing :
      (brain : StoreBrainKeyInput) (hands : StoreHandsKeyInput) (b : BrainKeyRecord)
      (h : HandsKeyRecord) (plaintext : Bytes) (check : Validation) (who : RequesterIdentity)
      (fresh : Fresh) (s : State)
      → Rejects brain.validate brain.plaintext
      → Rejects hands.validate hands.plaintext
      → Rejects check plaintext
      → get_brain_key b.tenant_id b.role_id s.brain ≡ some b
      → b.revoked ≡ false
      → get_hands_key_by_id h.tenant_id h.id s.hands ≡ some h
      → h.revoked ≡ false
      → (store_brain_key setup brain who fresh s
          ≡ (err validation_failed, rejected brain.tenant_id who s))
        × (store_hands_key setup hands who fresh s
            ≡ (err validation_failed, rejected hands.tenant_id who s))
        × (rotate_brain_key setup b.tenant_id b.role_id plaintext who check fresh s
            ≡ (err validation_failed, rejected b.tenant_id who s))
        × (rotate_hands_key setup h.tenant_id h.id plaintext who check fresh s
            ≡ (err validation_failed, rejected h.tenant_id who s))
  unfolding store_brain_key store_hands_key rotate_brain_key rotate_hands_key find_brain find_hands
  rejected_key_stores_nothing brain hands b h plaintext check who fresh s rb rh rc there live thereh
        liveh =
      (
        after-err _ _
            (run_validation-Rejects brain.validate brain.plaintext brain.tenant_id who s rb),
        after-err _ _
            (run_validation-Rejects hands.validate hands.plaintext hands.tenant_id who s rh),
        after-ok _ _ (ap (λ o. active_brain o s) there ∙ active_brain-active b s live)
            ∙ after-err _ _ (run_validation-Rejects check plaintext b.tenant_id who s rc),
        after-ok _ _ (ap (λ o. active_hands o s) thereh ∙ ap (λ f. active_hands_if f h s) liveh)
            ∙ after-err _ _ (run_validation-Rejects check plaintext h.tenant_id who s rc),
      )
