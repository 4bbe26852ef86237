-- ===== src/Vault/Deks.antt =====
-- packages/vault/src/dekStore.ts and durable/dekRecordStore.ts: one data key per tenant. A call is three
-- steps, since other calls come between: the look, the insert, and the second look of the one that lost.
use byok_business_autopilot.Base.{
  ◌≡◌, Bool, true, false, Option, none, some, Result, ok, err, or_throw,
}
use byok_business_autopilot.Base.Dict.{Dict, lookup, insert}
use byok_business_autopilot.Base.Steps.{Step}
use byok_business_autopilot.Vault.Crypto.{
  Bytes, bytes_eq, EncryptedBlob, Aead, Kms, encrypt_dek, decrypt_dek,
}
use byok_business_autopilot.Vault.Types.{VaultError, dek_undecryptable, dek_vanished, kms_failed}
pub mod Held
pub mod Race

abbrev pub Deks : Type 0
Deks = Dict Bytes EncryptedBlob

-- The answer says whether the row was inserted.
abbrev pub put_unless : Option EncryptedBlob → Bytes → EncryptedBlob → Deks → Bool × Deks
put_unless none tenant_id blob deks = (true, insert tenant_id blob deks)
put_unless (some there) tenant_id blob deks = (false, deks)

unfoldable pub put_if_absent : Bytes → EncryptedBlob → Deks → Bool × Deks
put_if_absent tenant_id blob deks = put_unless (lookup tenant_id deks) tenant_id blob deks

-- The bytes that `randomBytes` gives a call: a new key, and the vector it is sealed with.
pub record FreshDek : Type 0 where
  pub dek : Bytes
  pub iv : Bytes

pub data DekCall : Type 0 where
  started : DekCall
  generated : (dek : Bytes) (blob : EncryptedBlob) → DekCall
  lost_race : DekCall
  returned : Result VaultError Bytes → DekCall

module _ (c : Aead) (kms : Kms) where
  unfoldable pub decrypt_or_throw : EncryptedBlob → Result VaultError Bytes
  decrypt_or_throw blob = or_throw (decrypt_dek c kms blob) dek_undecryptable

  abbrev pub offer : Bytes → Option EncryptedBlob → DekCall
  offer dek none = returned (err kms_failed)
  offer dek (some blob) = generated dek blob

  -- `existing`, or a new key under the master key
  abbrev pub after_look : FreshDek → Option EncryptedBlob → DekCall
  after_look fresh (some existing) = returned (decrypt_or_throw existing)
  after_look fresh none = offer fresh.dek (encrypt_dek c kms fresh.iv fresh.dek)

  abbrev pub put : Bytes → Bool × Deks → DekCall × Deks
  put dek (true, deks) = (returned (ok dek), deks)
  put dek (false, deks) = (lost_race, deks)

  abbrev pub after_loss : Option EncryptedBlob → DekCall
  after_loss none = returned (err dek_vanished)
  after_loss (some winner) = returned (decrypt_or_throw winner)

  -- One step of a `getOrCreateDek` call, between two awaits.
  unfoldable pub step_dek : Bytes → FreshDek → DekCall → Deks → DekCall × Deks
  step_dek tenant_id fresh started deks = (after_look fresh (lookup tenant_id deks), deks)
  step_dek tenant_id fresh (generated dek blob) deks = put dek (put_if_absent tenant_id blob deks)
  step_dek tenant_id fresh lost_race deks = (after_loss (lookup tenant_id deks), deks)
  step_dek tenant_id fresh (returned r) deks = (returned r, deks)

  abbrev pub concluded : DekCall × Deks → Result VaultError Bytes × Deks
  concluded (returned r, deks) = (r, deks)
  concluded (_, deks) = (err dek_vanished, deks)

  abbrev pub advance : Bytes → FreshDek → DekCall × Deks → DekCall × Deks
  advance tenant_id fresh (call, deks) = step_dek tenant_id fresh call deks

  -- The whole call when no other comes between: three steps end it.
  unfoldable pub get_or_create_dek : Bytes → FreshDek → Step Deks VaultError Bytes
  get_or_create_dek tenant_id fresh deks =
      let next = advance tenant_id fresh in concluded (next (next (next (started, deks))))

  abbrev replace_with : Bytes → Bytes → Option EncryptedBlob → Step Deks VaultError Bytes
  replace_with tenant_id dek none deks = (err kms_failed, deks)
  replace_with tenant_id dek (some blob) deks = (ok dek, insert tenant_id blob deks)

  unfoldable pub discard_and_recreate_dek : Bytes → FreshDek → Step Deks VaultError Bytes
  discard_and_recreate_dek tenant_id fresh =
      replace_with tenant_id fresh.dek (encrypt_dek c kms fresh.iv fresh.dek)

  -- `vault.ts`, getDekForWrite: only an undecryptable key is given up.
  abbrev pub recover :
      Bytes → FreshDek → Result VaultError Bytes × Deks → Result VaultError Bytes × Deks
  recover tenant_id fresh (err dek_undecryptable, deks) =
      discard_and_recreate_dek tenant_id fresh deks
  recover tenant_id fresh (err thrown, deks) = (err thrown, deks)
  recover tenant_id fresh (ok dek, deks) = (ok dek, deks)

  unfoldable pub get_dek_for_write : Bytes → FreshDek → FreshDek → Step Deks VaultError Bytes
  get_dek_for_write tenant_id fresh spare deks =
      recover tenant_id spare (get_or_create_dek tenant_id fresh deks)
