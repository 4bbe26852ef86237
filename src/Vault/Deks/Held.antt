-- ===== src/Vault/Deks/Held.antt =====
-- packages/vault/src/dekStore.ts: the data key that a tenant has on file, as reads and writes find it.
use byok_business_autopilot.Base.{
  ◌≡◌, ◌≢◌, refl, ap, ◌∙◌, none, some, inl, inr, ok, err, Option-cases, or_throw,
}
use byok_business_autopilot.Base.Dict.{lookup, insert, lookup-insert_self, lookup-insert_ne}
use byok_business_autopilot.Vault.Crypto.{
  Bytes, bytes_eq, EncryptedBlob, Aead, IsAuthentic, Kms, local_kms, staging_kms, cloud_kms,
  encrypt_dek, decrypt_dek, encrypt, decrypt_dek-encrypt_dek,
}
use byok_business_autopilot.Vault.Types.{dek_undecryptable}
use byok_business_autopilot.Vault.Deks.{
  Deks, put_if_absent, FreshDek, started, generated, returned, step_dek, decrypt_or_throw,
  after_look, offer, put, put_unless, concluded, advance, replace_with, get_or_create_dek,
  discard_and_recreate_dek, recover, get_dek_for_write,
}

pub encrypt_dek-some :
    (c : Aead) (kms : Kms) (iv dek : Bytes)
    → kms ≢ cloud_kms
    → (blob : EncryptedBlob) × (encrypt_dek c kms iv dek ≡ some blob)
unfolding encrypt_dek
encrypt_dek-some c (local_kms k) iv dek n = (encrypt c iv dek k none, refl)
encrypt_dek-some c (staging_kms k) iv dek n = (encrypt c iv dek k none, refl)
encrypt_dek-some c cloud_kms iv dek n = absurd (n refl)

module _ (c : Aead) (kms : Kms) where
  -- The tenant's row is there, and the master key opens it.
  abbrev pub HoldsDek : Bytes → Bytes → Deks → Type 0
  HoldsDek tenant_id dek deks =
      (blob : EncryptedBlob) × (lookup tenant_id deks ≡ some blob)
      × (decrypt_dek c kms blob ≡ some dek)

  pub step_dek-there :
      (t : Bytes) (fresh : FreshDek) (deks : Deks) (blob : EncryptedBlob)
      → lookup t deks ≡ some blob
      → step_dek c kms t fresh started deks ≡ (returned (decrypt_or_throw c kms blob), deks)
  unfolding step_dek
  step_dek-there t fresh deks blob h = ap (λ o. (after_look c kms fresh o, deks)) h

  pub get_or_create_dek-there :
      (t : Bytes) (fresh : FreshDek) (deks : Deks) (blob : EncryptedBlob)
      → lookup t deks ≡ some blob
      → get_or_create_dek c kms t fresh deks ≡ (decrypt_or_throw c kms blob, deks)
  unfolding get_or_create_dek step_dek
  get_or_create_dek-there t fresh deks blob h =
      let next = advance c kms t fresh in
      ap (λ p. concluded c kms (next (next p))) (step_dek-there t fresh deks blob h)

  step_dek-absent :
      (t : Bytes) (fresh : FreshDek) (deks : Deks) (blob : EncryptedBlob)
      → lookup t deks ≡ none
      → encrypt_dek c kms fresh.iv fresh.dek ≡ some blob
      → step_dek c kms t fresh started deks ≡ (generated fresh.dek blob, deks)
  unfolding step_dek
  step_dek-absent t fresh deks blob h e =
      ap (λ o. (after_look c kms fresh o, deks)) h ∙ ap (λ o. (offer c kms fresh.dek o, deks)) e

  step_dek-put :
      (t : Bytes) (fresh : FreshDek) (dek : Bytes) (deks : Deks) (blob : EncryptedBlob)
      → lookup t deks ≡ none
      → step_dek c kms t fresh (generated dek blob) deks ≡ (returned (ok dek), insert t blob deks)
  unfolding step_dek put_if_absent
  step_dek-put t fresh dek deks blob h = ap (λ o. put c kms dek (put_unless o t blob deks)) h

  pub get_or_create_dek-absent :
      (t : Bytes) (fresh : FreshDek) (deks : Deks) (blob : EncryptedBlob)
      → lookup t deks ≡ none
      → encrypt_dek c kms fresh.iv fresh.dek ≡ some blob
      → get_or_create_dek c kms t fresh deks ≡ (ok fresh.dek, insert t blob deks)
  unfolding get_or_create_dek step_dek
  get_or_create_dek-absent t fresh deks blob h e =
      let next = advance c kms t fresh in
      ap (λ p. concluded c kms (next (next p))) (step_dek-absent t fresh deks blob h e)
      ∙ ap (λ p. concluded c kms (next p)) (step_dek-put t fresh fresh.dek deks blob h)

  pub get_or_create_dek-held :
      (t : Bytes) (fresh : FreshDek) (deks : Deks) (dek : Bytes)
      → HoldsDek t dek deks
      → get_or_create_dek c kms t fresh deks ≡ (ok dek, deks)
  unfolding decrypt_or_throw
  get_or_create_dek-held t fresh deks dek (blob, there, opens) =
      get_or_create_dek-there t fresh deks blob there
      ∙ ap (λ o. (or_throw o dek_undecryptable, deks)) opens

  get_or_create_dek-dead :
      (t : Bytes) (fresh : FreshDek) (deks : Deks) (blob : EncryptedBlob)
      → lookup t deks ≡ some blob
      → decrypt_dek c kms blob ≡ none
      → get_or_create_dek c kms t fresh deks ≡ (err dek_undecryptable, deks)
  unfolding decrypt_or_throw
  get_or_create_dek-dead t fresh deks blob there shut =
      get_or_create_dek-there t fresh deks blob there
      ∙ ap (λ o. (or_throw o dek_undecryptable, deks)) shut

  discard_and_recreate_dek-some :
      (t : Bytes) (fresh : FreshDek) (deks : Deks) (blob : EncryptedBlob)
      → encrypt_dek c kms fresh.iv fresh.dek ≡ some blob
      → discard_and_recreate_dek c kms t fresh deks ≡ (ok fresh.dek, insert t blob deks)
  unfolding discard_and_recreate_dek
  discard_and_recreate_dek-some t fresh deks blob e =
      ap (λ o. replace_with c kms t fresh.dek o deks) e

module _ (c : Aead) (sound : IsAuthentic c) (kms : Kms) (running : kms ≢ cloud_kms) where
  HoldsDek-insert :
      (t : Bytes) (iv dek : Bytes) (deks : Deks) (blob : EncryptedBlob)
      → encrypt_dek c kms iv dek ≡ some blob
      → HoldsDek c kms t dek (insert t blob deks)
  HoldsDek-insert t iv dek deks blob e =
      (blob, lookup-insert_self t blob deks, decrypt_dek-encrypt_dek c sound kms iv dek e)

  -- A write always has a key, and the tenant holds it from then on; the other tenants' rows are as they
  -- were.
  pub get_dek_for_write-HoldsDek :
      (t : Bytes) (fresh spare : FreshDek) (deks : Deks)
      → (dek : Bytes) × (deks' : Deks) × (get_dek_for_write c kms t fresh spare deks
          ≡ (ok dek, deks'))
        × HoldsDek c kms t dek deks'
        × ((u : Bytes) → t ≢ u → lookup u deks' ≡ lookup u deks)
  unfolding get_dek_for_write
  get_dek_for_write-HoldsDek t fresh spare deks = elim (Option-cases (lookup t deks)) [
    | inl absent ↦
        let (blob, e) = encrypt_dek-some c kms fresh.iv fresh.dek running in
        (
          fresh.dek,
          insert t blob deks,
          ap (recover c kms t spare) (get_or_create_dek-absent c kms t fresh deks blob absent e),
          HoldsDek-insert t fresh.iv fresh.dek deks blob e,
          λ u n. lookup-insert_ne t u blob deks n,
        )
    | inr (old, there) ↦ elim (Option-cases (decrypt_dek c kms old)) [
      | inl shut ↦
          let (blob, e) = encrypt_dek-some c kms spare.iv spare.dek running in
          (
            spare.dek,
            insert t blob deks,
            ap (recover c kms t spare) (get_or_create_dek-dead c kms t fresh deks old there shut)
                ∙ discard_and_recreate_dek-some c kms t spare deks blob e,
            HoldsDek-insert t spare.iv spare.dek deks blob e,
            λ u n. lookup-insert_ne t u blob deks n,
          )
      | inr (dek, opens) ↦ (
        dek,
        deks,
        ap (recover c kms t spare)
            (get_or_create_dek-held c kms t fresh deks dek (old, there, opens)),
        (old, there, opens),
        λ u n. refl,
      )
    ]
  ]
