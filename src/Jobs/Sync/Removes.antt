-- ===== src/Jobs/Sync/Removes.antt =====
-- packages/jobs/src/tenantScheduler.ts: the second loop of a sync, and the whole of it.
use byok_business_autopilot.Base.{
  ◌≡◌, refl, sym, ap, ◌∙◌, subst, Bool, true, false, Option, none, some, List, [], ◌∷◌, ◌==◌,
  if◌then◌else◌, ◌⊎◌, inl, inr, Bool-cases, Option-cases, arith, nat_eq, ==_iff,
}
use byok_business_autopilot.Base.Dict.{Dict, lookup}
use byok_business_autopilot.Vault.Crypto.{Bytes, bytes_eq}
use byok_business_autopilot.Jobs.Cadence.{Cadence}
use byok_business_autopilot.Jobs.Sync.{
  DesiredScheduledJob, JobSchedulerDescriptor, RepeatableQueue, IsRegistry, starts_with,
  tenant_prefix, existing_of, is_desired, upsert_desired, remove_if, remove_undesired,
  sync_tenant_schedule,
}
use byok_business_autopilot.Jobs.Sync.Registers.{
  wanted, Distinct, lookup-existing_of, is_desired-wanted, Fires, found, upsert_desired-other,
  upsert_desired-Fires,
}

absent_head :
    (i : Bytes) (job : JobSchedulerDescriptor) (m : Dict Bytes JobSchedulerDescriptor) (j : Bytes)
    → lookup j ((i, job) ∷ m) ≡ none
    → ((i == j) ≡ false) × (lookup j m ≡ none)
unfolding lookup
absent_head i job m j h = ground (arith, h)

module _ {Q : Type 0} (queue : RepeatableQueue Q) (registry : IsRegistry queue) where
  remove_if-other :
      (keep : Bool) (i j : Bytes) (q : Q)
      → (i == j) ≡ false
      → found queue registry j (remove_if queue keep i q) ≡ found queue registry j q
  remove_if-other true i j q n = refl
  remove_if-other false i j q n =
      registry.removed i j q ∙ ap (λ b. if b then none else found queue registry j q) n

  remove_if-none :
      (keep : Bool) (i j : Bytes) (q : Q)
      → found queue registry j q ≡ none
      → found queue registry j (remove_if queue keep i q) ≡ none
  remove_if-none true i j q h = h
  remove_if-none false i j q h =
      registry.removed i j q ∙ ap (λ o. if i == j then none else o) h ∙ none_either (i == j)
    where
      none_either :
          (b : Bool) → ◌≡◌ {A = Option JobSchedulerDescriptor} (if b then none else none) none
      none_either true = refl
      none_either false = refl

  -- An id that is asked for is not removed.
  remove_undesired-wanted :
      (existing : Dict Bytes JobSchedulerDescriptor) (desired : List DesiredScheduledJob)
      (j : Bytes) (q : Q)
      → is_desired j desired ≡ true
      → found queue registry j (remove_undesired queue existing desired q)
        ≡ found queue registry j q
  unfolding remove_undesired
  remove_undesired-wanted [] desired j q h = refl
  remove_undesired-wanted ((i, job) ∷ existing) desired j q h =
      remove_undesired-wanted existing desired j _ h ∙ step (is_desired i desired) refl
    where
      step :
          (keep : Bool)
          → is_desired i desired ≡ keep
          → found queue registry j (remove_if queue keep i q) ≡ found queue registry j q
      step true e = refl
      step false e = remove_if-other false i j q (different (i == j) refl)
        where
          different : (b : Bool) → (i == j) ≡ b → (i == j) ≡ false
          different true same = cc ((==_iff i j).0 same, e, h)
          different false other = other

  remove_undesired-absent :
      (existing : Dict Bytes JobSchedulerDescriptor) (desired : List DesiredScheduledJob)
      (j : Bytes) (q : Q)
      → lookup j existing ≡ none
      → found queue registry j (remove_undesired queue existing desired q)
        ≡ found queue registry j q
  unfolding remove_undesired lookup
  remove_undesired-absent [] desired j q h = refl
  remove_undesired-absent ((i, job) ∷ existing) desired j q h =
      let (n, rest) = absent_head i job existing j h in
      remove_undesired-absent existing desired j _ rest
      ∙ remove_if-other (is_desired i desired) i j q n

  remove_undesired-none :
      (existing : Dict Bytes JobSchedulerDescriptor) (desired : List DesiredScheduledJob)
      (j : Bytes) (q : Q)
      → found queue registry j q ≡ none
      → found queue registry j (remove_undesired queue existing desired q) ≡ none
  unfolding remove_undesired
  remove_undesired-none [] desired j q h = h
  remove_undesired-none ((i, job) ∷ existing) desired j q h =
      remove_undesired-none existing desired j _ (remove_if-none (is_desired i desired) i j q h)

  -- An id that was there and is not asked for is gone.
  remove_undesired-gone :
      (existing : Dict Bytes JobSchedulerDescriptor) (desired : List DesiredScheduledJob)
      (j : Bytes) (q : Q) (job : JobSchedulerDescriptor)
      → is_desired j desired ≡ false
      → lookup j existing ≡ some job
      → found queue registry j (remove_undesired queue existing desired q) ≡ none
  unfolding remove_undesired lookup
  remove_undesired-gone [] desired j q job h at = cc
  remove_undesired-gone ((i, first) ∷ existing) desired j q job h at = elim (Bool-cases (i == j)) [
    | inl same ↦ remove_undesired-none existing desired j _ (
        subst (λ keep. found queue registry j (remove_if queue keep i q) ≡ none)
          (sym (ap (λ k. is_desired k desired) ((==_iff i j).0 same) ∙ h))
          (registry.removed i j q ∙ ap (λ b. if b then none else found queue registry j q) same))
    | inr other ↦
        remove_undesired-gone existing desired j _ job h
          (subst (λ b. (if b then some first else lookup j existing) ≡ some job) other at)
  ]

  -- The three outcomes for an id.
  abbrev pub Synced : Bytes → List DesiredScheduledJob → Q → Q → Bytes → Type 0
  Synced t desired q q' j =
      ((c : Cadence) × (wanted j desired ≡ some c) × Fires (found queue registry j q') c)
      ⊎ ((wanted j desired ≡ none)
          × (starts_with (tenant_prefix t) j ≡ true)
          × (found queue registry j q' ≡ none))
      ⊎ ((wanted j desired ≡ none)
          × (starts_with (tenant_prefix t) j ≡ false)
          × (found queue registry j q' ≡ found queue registry j q))

  current_of :
      (t j : Bytes) (q : Q) (job : JobSchedulerDescriptor)
      → lookup j (existing_of t (queue.get_job_schedulers q)) ≡ some job
      → found queue registry j q ≡ some job
  current_of t j q job h =
      from_if (starts_with (tenant_prefix t) j) (found queue registry j q)
        (sym (lookup-existing_of t j (queue.get_job_schedulers q)) ∙ h)
    where
      from_if :
          (b : Bool) (o : Option JobSchedulerDescriptor)
          → (if b then o else none) ≡ some job
          → o ≡ some job
      from_if true o e = e
      from_if false o e = cc

  not_wanted :
      (t : Bytes) (desired : List DesiredScheduledJob) (j : Bytes) (q q1 : Q)
      → let existing = existing_of t (queue.get_job_schedulers q) in
        wanted j desired ≡ none
        → is_desired j desired ≡ false
        → found queue registry j q1 ≡ found queue registry j q
        → Synced t desired q (remove_undesired queue existing desired q1) j
  not_wanted t desired j q q1 w undesired same =
      let jobs = queue.get_job_schedulers q in
      let existing = existing_of t jobs in
      let seen = lookup-existing_of t j jobs in
      elim (Bool-cases (starts_with (tenant_prefix t) j)) [
        | inl own ↦
            let here = seen ∙ ap (λ b. if b then lookup j jobs else none) own in
            inr (
              inl (
                w,
                own,
                elim (Option-cases (lookup j jobs)) [
                  | inl absent ↦ remove_undesired-none existing desired j q1 (same ∙ absent)
                  | inr (job, there) ↦
                      remove_undesired-gone existing desired j q1 job undesired (here ∙ there)
                ],
              ))
        | inr foreign ↦
            let here = seen ∙ ap (λ b. if b then lookup j jobs else none) foreign in
            inr (inr (w, foreign, remove_undesired-absent existing desired j q1 here ∙ same))
      ]

  pub sync_tenant_schedule-Synced :
      (t : Bytes) (desired : List DesiredScheduledJob) (q : Q) (j : Bytes)
      → Distinct desired
      → Synced t desired q (sync_tenant_schedule queue t desired q).1 j
  unfolding sync_tenant_schedule
  sync_tenant_schedule-Synced t desired q j distinct =
      let existing = existing_of t (queue.get_job_schedulers q) in
      let q1 = upsert_desired queue existing desired q in
      elim (is_desired-wanted j desired) [
        | inl (w, undesired) ↦
            not_wanted t desired j q q1 w undesired
              (upsert_desired-other queue registry existing desired j q w)
        | inr (c, w, asked) ↦ inl (
          c,
          w,
          subst (λ o. Fires o c) (sym (remove_undesired-wanted existing desired j q1 asked))
              (upsert_desired-Fires queue registry existing desired j c q distinct
                (current_of t j q) w),
        )
      ]
