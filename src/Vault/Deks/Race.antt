-- ===== src/Vault/Deks/Race.antt =====
-- packages/vault/src/dekStore.ts, getOrCreateDek: calls for one tenant at the same time, in any order of
-- their steps.
use byok_business_autopilot.Base.{
  ℕ, zero, suc, ◌≡◌, ◌≢◌, refl, sym, ap, ◌∙◌, subst, Option, none, some, List, [], ◌∷◌, map, Result,
  ok, or_throw,
}
use byok_business_autopilot.Base.Dict.{lookup, insert, lookup-insert_self}
use byok_business_autopilot.Base.Lists.{get_elem?}
use byok_business_autopilot.Vault.Crypto.{
  Bytes, bytes_eq, EncryptedBlob, Aead, IsAuthentic, Kms, cloud_kms, decrypt_dek,
  decrypt_dek-encrypt_dek,
}
use byok_business_autopilot.Vault.Types.{VaultError, dek_undecryptable}
use byok_business_autopilot.Vault.Deks.{
  Deks, FreshDek, DekCall, started, generated, lost_race, returned, step_dek, put_if_absent,
  put_unless, put, decrypt_or_throw, after_look, after_loss, offer, get_or_create_dek,
}
use byok_business_autopilot.Vault.Deks.Held.{encrypt_dek-some, get_or_create_dek-there}

-- A call, and the bytes it draws.
pub record Caller : Type 0 where
  pub fresh : FreshDek
  pub call : DekCall

abbrev pub begin : FreshDek → Caller
begin fresh = record { fresh = fresh; call = started }

module _ (c : Aead) (kms : Kms) where
  abbrev moved : Caller → List Caller → DekCall × Deks → List Caller × Deks
  moved caller rest (call, deks) = (record caller { call = call } ∷ rest, deks)

  abbrev beside : Caller → List Caller × Deks → List Caller × Deks
  beside caller (rest, deks) = (caller ∷ rest, deks)

  -- The call with that number makes its next step.
  unfoldable pub step_caller : Bytes → ℕ → List Caller × Deks → List Caller × Deks
  step_caller t i ([], deks) = ([], deks)
  step_caller t zero (caller ∷ callers, deks) =
      moved caller callers (step_dek c kms t caller.fresh caller.call deks)
  step_caller t (suc i) (caller ∷ callers, deks) = beside caller (step_caller t i (callers, deks))

  unfoldable pub run_schedule : Bytes → List ℕ → List Caller × Deks → List Caller × Deks
  run_schedule t [] w = w
  run_schedule t (i ∷ schedule) w = run_schedule t schedule (step_caller t i w)

  -- What a call has seen fits the tenant's row.
  abbrev Fits : Option EncryptedBlob → DekCall → Type 0
  Fits row started = Unit
  Fits row (generated dek blob) = decrypt_dek c kms blob ≡ some dek
  Fits none lost_race = ⊥
  Fits (some blob) lost_race = Unit
  Fits none (returned r) = ⊥
  Fits (some blob) (returned r) = r ≡ decrypt_or_throw c kms blob

  abbrev AllFit : Option EncryptedBlob → List Caller → Type 0
  AllFit row [] = Unit
  AllFit row (caller ∷ callers) = Fits row caller.call × AllFit row callers

  -- A row is made once and then stays.
  abbrev pub Extends : Option EncryptedBlob → Option EncryptedBlob → Type 0
  Extends none row = Unit
  Extends (some blob) row = row ≡ some blob

  Fits-Extends :
      (row row' : Option EncryptedBlob) (call : DekCall)
      → Extends row row'
      → Fits row call
      → Fits row' call
  Fits-Extends row row' started e h = tt
  Fits-Extends row row' (generated dek blob) e h = h
  Fits-Extends none row' lost_race e h = absurd h
  Fits-Extends (some b) row' lost_race e h = subst (λ o. Fits o lost_race) (sym e) tt
  Fits-Extends none row' (returned r) e h = absurd h
  Fits-Extends (some b) row' (returned r) e h = subst (λ o. Fits o (returned r)) (sym e) h

  AllFit-Extends :
      (row row' : Option EncryptedBlob) (callers : List Caller)
      → Extends row row'
      → AllFit row callers
      → AllFit row' callers
  AllFit-Extends row row' [] e h = tt
  AllFit-Extends row row' (caller ∷ callers) e h =
      (Fits-Extends row row' caller.call e h.0, AllFit-Extends row row' callers e h.1)

  Extends-refl : (row : Option EncryptedBlob) → Extends row row
  Extends-refl none = tt
  Extends-refl (some b) = refl

  Extends-trans : (a b d : Option EncryptedBlob) → Extends a b → Extends b d → Extends a d
  Extends-trans none b d p q = tt
  Extends-trans (some x) b d p q = subst (λ o. Extends o d) p q

  -- After one step of a call.
  abbrev Moved : Bytes → Deks → DekCall × Deks → Type 0
  Moved t deks (call, deks') = Extends (lookup t deks) (lookup t deks') × Fits (lookup t deks') call

module _ (c : Aead) (sound : IsAuthentic c) (kms : Kms) (running : kms ≢ cloud_kms)
    (t : Bytes) where
  looked :
      (fresh : FreshDek) (row : Option EncryptedBlob) → Fits c kms row (after_look c kms fresh row)
  unfolding decrypt_or_throw
  looked fresh (some blob) = refl
  looked fresh none =
      let (blob, e) = encrypt_dek-some c kms fresh.iv fresh.dek running in
      subst (λ o. Fits c kms none (offer c kms fresh.dek o)) (sym e)
        (decrypt_dek-encrypt_dek c sound kms fresh.iv fresh.dek e)

  put_fits :
      (dek : Bytes) (blob : EncryptedBlob) (deks : Deks) (row : Option EncryptedBlob)
      → lookup t deks ≡ row
      → decrypt_dek c kms blob ≡ some dek
      → Moved c kms t deks (put c kms dek (put_unless row t blob deks))
  unfolding decrypt_or_throw
  put_fits dek blob deks none e h = (
    subst (λ o. Extends c kms o (lookup t (insert t blob deks))) (sym e) tt,
    subst (λ o. Fits c kms o (returned (ok dek))) (sym (lookup-insert_self t blob deks))
        (ap (λ o. or_throw o dek_undecryptable) (sym h)),
  )
  put_fits dek blob deks (some b) e h =
      (Extends-refl c kms (lookup t deks), subst (λ o. Fits c kms o lost_race) (sym e) tt)

  lost-Fits :
      (row : Option EncryptedBlob)
      → Fits c kms row lost_race
      → Fits c kms row (after_loss c kms row)
  lost-Fits none h = absurd h
  lost-Fits (some b) h = refl

  step_dek-Moved :
      (fresh : FreshDek) (call : DekCall) (deks : Deks)
      → Fits c kms (lookup t deks) call
      → Moved c kms t deks (step_dek c kms t fresh call deks)
  unfolding step_dek put_if_absent
  step_dek-Moved fresh started deks h =
      (Extends-refl c kms (lookup t deks), looked fresh (lookup t deks))
  step_dek-Moved fresh (generated dek blob) deks h = put_fits dek blob deks (lookup t deks) refl h
  step_dek-Moved fresh lost_race deks h =
      (Extends-refl c kms (lookup t deks), lost-Fits (lookup t deks) h)
  step_dek-Moved fresh (returned r) deks h = (Extends-refl c kms (lookup t deks), h)

  abbrev Good : Deks → List Caller × Deks → Type 0
  Good deks (callers, deks') =
      Extends c kms (lookup t deks) (lookup t deks') × AllFit c kms (lookup t deks') callers

  moved-Good :
      (caller : Caller) (rest : List Caller) (deks : Deks) (p : DekCall × Deks)
      → Moved c kms t deks p
      → AllFit c kms (lookup t deks) rest
      → Good deks (moved c kms caller rest p)
  moved-Good caller rest deks (call, deks') m h =
      (m.0, (m.1, AllFit-Extends c kms (lookup t deks) (lookup t deks') rest m.0 h))

  beside-Good :
      (caller : Caller) (deks : Deks) (w : List Caller × Deks)
      → Fits c kms (lookup t deks) caller.call
      → Good deks w
      → Good deks (beside c kms caller w)
  beside-Good caller deks (rest, deks') f g =
      (g.0, (Fits-Extends c kms (lookup t deks) (lookup t deks') caller.call g.0 f, g.1))

  step_caller-Good :
      (i : ℕ) (callers : List Caller) (deks : Deks)
      → AllFit c kms (lookup t deks) callers
      → Good deks (step_caller c kms t i (callers, deks))
  unfolding step_caller
  step_caller-Good i [] deks h = (Extends-refl c kms (lookup t deks), tt)
  step_caller-Good zero (caller ∷ callers) deks h =
      moved-Good caller callers deks _ (step_dek-Moved caller.fresh caller.call deks h.0) h.1
  step_caller-Good (suc i) (caller ∷ callers) deks h =
      beside-Good caller deks _ h.0 (step_caller-Good i callers deks h.1)

  run_schedule-Good :
      (schedule : List ℕ) (deks : Deks) (w : List Caller × Deks)
      → Good deks w
      → Good deks (run_schedule c kms t schedule w)
  unfolding run_schedule
  run_schedule-Good [] deks w g = g
  run_schedule-Good (i ∷ schedule) deks (callers, deks') g =
      let next = step_caller-Good i callers deks' g.1 in
      run_schedule-Good schedule deks _
        (Extends-trans c kms (lookup t deks) (lookup t deks') _ g.0 next.0, next.1)

  begin-fit :
      (row : Option EncryptedBlob) (draws : List FreshDek) → AllFit c kms row (map begin draws)
  begin-fit row [] = tt
  begin-fit row (fresh ∷ draws) = (tt, begin-fit row draws)

  fit_at :
      (row : Option EncryptedBlob) (callers : List Caller) (i : ℕ) (caller : Caller)
      → AllFit c kms row callers
      → get_elem? callers i ≡ some caller
      → Fits c kms row caller.call
  fit_at row [] i caller h e = cc
  fit_at row (first ∷ callers) zero caller h e =
      subst (λ o. elim o [ none ↦ Unit {0} | some x ↦ Fits c kms row x.call ]) e h.0
  fit_at row (first ∷ callers) (suc i) caller h e = fit_at row callers i caller h.1 e

  on_file :
      (row : Option EncryptedBlob) (deks : Deks) (fresh : FreshDek) (r : Result VaultError Bytes)
      → lookup t deks ≡ row
      → Fits c kms row (returned r)
      → get_or_create_dek c kms t fresh deks ≡ (r, deks)
  on_file none deks fresh r e h = absurd h
  on_file (some b) deks fresh r e h =
      get_or_create_dek-there c kms t fresh deks b e ∙ ap (λ r. (r, deks)) (sym h)

  -- However the steps of calls for a tenant are interleaved, each call that has ended returned what is on
  -- file, which every later call returns too: no two of them hold different keys. A row that was there
  -- before is still there. This holds with a KMS that runs and an authenticated cipher.
  pub run_schedule-Agrees :
      (draws : List FreshDek) (schedule : List ℕ) (deks : Deks) (i : ℕ) (caller : Caller)
      (r : Result VaultError Bytes) (fresh : FreshDek)
      → let w = run_schedule c kms t schedule (map begin draws, deks) in
        get_elem? w.0 i ≡ some caller
        → caller.call ≡ returned r
        → (get_or_create_dek c kms t fresh w.1 ≡ (r, w.1))
          × Extends c kms (lookup t deks) (lookup t w.1)
  run_schedule-Agrees draws schedule deks i caller r fresh at ended =
      let start : List Caller × Deks = (map begin draws, deks) in
      let w = run_schedule c kms t schedule start in
      let good =
        run_schedule-Good schedule deks start
          (Extends-refl c kms (lookup t deks), begin-fit (lookup t deks) draws) in
      (
        on_file (lookup t w.1) w.1 fresh r refl
            (subst (Fits c kms (lookup t w.1)) ended (fit_at _ w.0 i caller good.1 at)),
        good.0,
      )
