-- ===== src/Vault/Purged/Guards.antt =====
-- packages/vault/src/vault.ts: the checks and the log keep revoked keys purged.
use byok_business_autopilot.Base.{◌≡◌, refl, Bool, true, false, Option, none, some, Result}
use byok_business_autopilot.Base.Steps.{after-Keeps, Keeps, Returned}
use byok_business_autopilot.Vault.Crypto.{Bytes, bytes_eq, EncryptedBlob}
use byok_business_autopilot.Vault.Types.{
  RequesterIdentity, router_service, onboarding_service, admin, tenant_user, VaultError,
  BrainKeyRecord, HandsKeyRecord, Operation, revoke, AuditDetail, plain, VaultEvent,
}
use byok_business_autopilot.Vault.Deks.{Deks, get_or_create_dek, get_dek_for_write}
use byok_business_autopilot.Vault.Keys.{get_brain_key, get_hands_key_by_id}
use byok_business_autopilot.Vault.State.{
  State, Fresh, Setup, Validation, log_audit, emit, assert_router_service, validated,
  run_validation, with_deks, dek_for_read, dek_for_write,
}
use byok_business_autopilot.Vault.Brain.{
  usable_material, update_brain, find_brain, active_if, active_brain, known_brain, revoke_brain_key,
  unlocked_brain, readable_brain, deciphered,
}
use byok_business_autopilot.Vault.Hands.{
  update_hands, find_hands, active_hands_if, active_hands, known_hands, revoke_hands_key,
}
use byok_business_autopilot.Vault.Purged.{
  Tombstone, Purged, update_brain-Purged, update_hands-Purged,
}

pub log_audit-Purged :
    (o : Operation) (t i : Bytes) (who : RequesterIdentity) (d : AuditDetail)
    → Keeps Purged (log_audit o t i who d)
unfolding log_audit
log_audit-Purged o t i who d s h = record { brain = h.brain; hands = h.hands }

pub emit-Purged : (event : VaultEvent) → Keeps Purged (emit event)
unfolding emit
emit-Purged event s h = record { brain = h.brain; hands = h.hands }

pub assert-Purged : (who : RequesterIdentity) → Keeps Purged (assert_router_service who)
unfolding assert_router_service
assert-Purged (router_service i) s h = h
assert-Purged (onboarding_service i) s h = h
assert-Purged (admin i) s h = h
assert-Purged (tenant_user i) s h = h

pub validated-Purged :
    (o : Option Bool) (t : Bytes) (who : RequesterIdentity) → Keeps Purged (validated o t who)
unfolding log_audit
validated-Purged none t who s h = h
validated-Purged (some true) t who s h = h
validated-Purged (some false) t who s h = record { brain = h.brain; hands = h.hands }

pub run_validation-Purged :
    (text : Bytes) (check : Validation) (t : Bytes) (who : RequesterIdentity)
    → Keeps Purged (run_validation text check t who)
unfolding run_validation
run_validation-Purged text none t who s h = h
run_validation-Purged text (some validate) t who s h = validated-Purged (validate text) t who s h

pub with_deks-Purged :
    (p : Result VaultError Bytes × Deks) (s : State) → Purged s → Purged (with_deks p s).1
with_deks-Purged (r, deks) s h = record { brain = h.brain; hands = h.hands }

pub active_if-Guards :
    (b : Bool) (r : BrainKeyRecord) (s : State)
    → r.revoked ≡ b
    → Returned (λ (r : BrainKeyRecord). r.revoked ≡ false) (active_if b r s).0
active_if-Guards true r s e = tt
active_if-Guards false r s e = e

pub active_if-Purged : (b : Bool) (r : BrainKeyRecord) → Keeps Purged (active_if b r)
active_if-Purged true r s h = h
active_if-Purged false r s h = h

pub active_hands_if-Guards :
    (b : Bool) (r : HandsKeyRecord) (s : State)
    → r.revoked ≡ b
    → Returned (λ (r : HandsKeyRecord). r.revoked ≡ false) (active_hands_if b r s).0
active_hands_if-Guards true r s e = tt
active_hands_if-Guards false r s e = e

pub active_hands_if-Purged : (b : Bool) (r : HandsKeyRecord) → Keeps Purged (active_hands_if b r)
active_hands_if-Purged true r s h = h
active_hands_if-Purged false r s h = h

-- A record that is not revoked may have any material.
pub live-Tombstone : (b : Bool) (material : Option EncryptedBlob) → b ≡ false → Tombstone b material
live-Tombstone true material e = cc
live-Tombstone false material e = tt

pub deciphered-Purged : (o : Option Bytes) → Keeps Purged (deciphered o)
deciphered-Purged none s h = h
deciphered-Purged (some text) s h = h

pub unlocked_brain-Purged :
    (r : BrainKeyRecord) (who : RequesterIdentity) (o : Option EncryptedBlob)
    → Keeps Purged (unlocked_brain r who o)
unfolding log_audit
unlocked_brain-Purged r who none s h = record { brain = h.brain; hands = h.hands }
unlocked_brain-Purged r who (some blob) s h = h

pub readable_brain-Purged :
    (t role_id : Bytes) (who : RequesterIdentity) (o : Option BrainKeyRecord)
    → Keeps Purged (readable_brain t role_id who o)
unfolding log_audit
readable_brain-Purged t role_id who none s h = record { brain = h.brain; hands = h.hands }
readable_brain-Purged t role_id who (some r) s h =
    unlocked_brain-Purged r who (usable_material r.revoked r.material) s h

pub known_brain-Purged : (o : Option BrainKeyRecord) → Keeps Purged (known_brain o)
known_brain-Purged none s h = h
known_brain-Purged (some r) s h = h

pub active_brain-Purged : (o : Option BrainKeyRecord) → Keeps Purged (active_brain o)
active_brain-Purged none s h = h
active_brain-Purged (some r) s h = active_if-Purged r.revoked r s h

pub active_brain-Guards :
    (o : Option BrainKeyRecord) (s : State)
    → Returned (λ (r : BrainKeyRecord). r.revoked ≡ false) (active_brain o s).0
active_brain-Guards none s = tt
active_brain-Guards (some r) s = active_if-Guards r.revoked r s refl

pub known_hands-Purged : (o : Option HandsKeyRecord) → Keeps Purged (known_hands o)
known_hands-Purged none s h = h
known_hands-Purged (some r) s h = h

pub active_hands-Purged : (o : Option HandsKeyRecord) → Keeps Purged (active_hands o)
active_hands-Purged none s h = h
active_hands-Purged (some r) s h = active_hands_if-Purged r.revoked r s h

pub active_hands-Guards :
    (o : Option HandsKeyRecord) (s : State)
    → Returned (λ (r : HandsKeyRecord). r.revoked ≡ false) (active_hands o s).0
active_hands-Guards none s = tt
active_hands-Guards (some r) s = active_hands_if-Guards r.revoked r s refl

pub revoke_brain_key-Purged :
    (t role_id : Bytes) (who : RequesterIdentity) (fresh : Fresh)
    → Keeps Purged (revoke_brain_key t role_id who fresh)
unfolding revoke_brain_key find_brain update_brain log_audit emit
revoke_brain_key-Purged t role_id who fresh s h =
    after-Keeps Purged (known_brain (get_brain_key t role_id s.brain) s) _
      (known_brain-Purged (get_brain_key t role_id s.brain) s h)
      λ r s h.
        emit-Purged _ _
          (log_audit-Purged revoke r.tenant_id r.id who plain _ (update_brain-Purged _ s refl h))

pub revoke_hands_key-Purged :
    (t key_id : Bytes) (who : RequesterIdentity) (fresh : Fresh)
    → Keeps Purged (revoke_hands_key t key_id who fresh)
unfolding revoke_hands_key find_hands update_hands log_audit emit
revoke_hands_key-Purged t key_id who fresh s h =
    after-Keeps Purged (known_hands (get_hands_key_by_id t key_id s.hands) s) _
      (known_hands-Purged (get_hands_key_by_id t key_id s.hands) s h)
      λ r s h.
        emit-Purged _ _
          (log_audit-Purged revoke r.tenant_id r.id who plain _ (update_hands-Purged _ s refl h))

module _ (setup : Setup) where
  pub dek_for_read-Purged : (t : Bytes) (fresh : Fresh) → Keeps Purged (dek_for_read setup t fresh)
  unfolding dek_for_read
  dek_for_read-Purged t fresh s h =
      with_deks-Purged (get_or_create_dek setup.platform.cipher setup.kms t fresh.dek s.deks) s h

  pub dek_for_write-Purged :
      (t : Bytes) (fresh : Fresh) → Keeps Purged (dek_for_write setup t fresh)
  unfolding dek_for_write
  dek_for_write-Purged t fresh s h =
      with_deks-Purged
        (get_dek_for_write setup.platform.cipher setup.kms t fresh.dek fresh.spare_dek s.deks) s h
