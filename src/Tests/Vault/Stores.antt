-- ===== src/Tests/Vault/Stores.antt =====
-- Tests of packages/vault: the rows of the Hands keys.
use byok_business_autopilot.Base.{ℕ, ◌≡◌, ◌≢◌, refl, ap, false, none, some, [], ◌∷◌, arith}
use byok_business_autopilot.Vault.Crypto.{Bytes, bytes_eq, EncryptedBlob}
use byok_business_autopilot.Vault.Types.{opaque, HandsKeyRecord}
use byok_business_autopilot.Vault.Keys.{resolve_hands_key_id}
use byok_business_autopilot.Vault.Hands.{purged_hands}
use byok_business_autopilot.Vault.Hands.Refresh.{rekeyed}
use byok_business_autopilot.Vault.Keys.Postgres.{
  select_hands_key, update_hands_rows, select_hands_key_id,
}
use byok_business_autopilot.Vault.Keys.Postgres.Latest.{
  refresh_undoes_revocation, memory_after, rows_after, revoking_latest_diverges,
}
use byok_business_autopilot.Tests.Vault.{fresh_at}

abbrev older : HandsKeyRecord
older = record {
  id = 2 ∷ [];
  tenant_id = 1 ∷ [];
  sub_agent_id = 4 ∷ [];
  capability_scope = 5 ∷ [];
  service = 6 ∷ [];
  material = none;
  credential_kind = opaque;
  masked_fingerprint = [];
  revoked = false;
  revoked_at = none;
  created_at = 100;
  updated_at = 100;
}

abbrev newer_key : HandsKeyRecord
newer_key = record older { id = 3 ∷ []; created_at = 200 }

abbrev first_byte : Bytes → ℕ
first_byte [] = 0
first_byte (b ∷ bs) = b

ids_differ : ◌≢◌ {A = Bytes} (2 ∷ []) (3 ∷ [])
ids_differ e = omega (arith, ap first_byte e)

revoking_latest_diverges_example :
    (resolve_hands_key_id (1 ∷ []) (4 ∷ []) (5 ∷ []) (memory_after older newer_key (fresh_at 9 300))
      ≡ none)
    × (select_hands_key_id (1 ∷ []) (4 ∷ []) (5 ∷ []) (rows_after older newer_key (fresh_at 9 300))
        ≡ some (2 ∷ []))
revoking_latest_diverges_example =
    revoking_latest_diverges older newer_key (fresh_at 9 300) (refl, refl, refl) ids_differ refl

abbrev some_blob : EncryptedBlob
some_blob = record { ciphertext = []; iv = []; auth_tag = [] }

one_row : select_hands_key (1 ∷ []) (2 ∷ []) (older ∷ []) ≡ some older
unfolding select_hands_key
one_row = ground arith

refresh_undoes_revocation_example :
    let revoked_rows = update_hands_rows (purged_hands (fresh_at 9 300) older) (older ∷ []) in
    (select_hands_key (1 ∷ []) (2 ∷ []) revoked_rows ≡ some (purged_hands (fresh_at 9 300) older))
    × ((row : HandsKeyRecord) × (select_hands_key
            (1 ∷ [])
            (2 ∷ [])
            (update_hands_rows (rekeyed (fresh_at 8 400) some_blob older) revoked_rows)
          ≡ some row)
        × (row.revoked ≡ false)
        × (row.material ≡ some some_blob))
refresh_undoes_revocation_example =
    refresh_undoes_revocation older some_blob (fresh_at 9 300) (fresh_at 8 400) (older ∷ []) one_row
      refl
