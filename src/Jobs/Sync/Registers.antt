-- ===== src/Jobs/Sync/Registers.antt =====
-- packages/jobs/src/tenantScheduler.ts: what is registered after a sync.
use byok_business_autopilot.Base.{
  ◌≡◌, refl, sym, ap, ◌∙◌, subst, Bool, true, false, Option, none, some, List, [], ◌∷◌, ◌==◌,
  if◌then◌else◌, ◌⊎◌, inl, inr, Bool-cases, arith, nat_eq, ==_iff,
}
use byok_business_autopilot.Base.Dict.{Dict, lookup}
use byok_business_autopilot.Vault.Crypto.{Bytes, bytes_eq}
use byok_business_autopilot.Jobs.Cadence.{
  Cadence, RepeatOptions, every, pattern_of, at_two_daily, at_nine_on_first,
  cadence_to_repeat_options,
}
use byok_business_autopilot.Jobs.Sync.{
  DesiredScheduledJob, JobSchedulerDescriptor, descriptor_of, RepeatableQueue, IsRegistry,
  starts_with, tenant_prefix, existing_of, same_schedule, is_unchanged, is_desired, upsert_if,
  upsert_desired,
}

-- The cadence wanted for an id.
unfoldable pub wanted : Bytes → List DesiredScheduledJob → Option Cadence
wanted id [] = none
wanted id (job ∷ jobs) = if job.job_scheduler_id == id then some job.cadence else wanted id jobs

-- No id is asked for twice, and each is the tenant's.
abbrev pub Distinct : List DesiredScheduledJob → Type 0
Distinct [] = Unit
Distinct (job ∷ jobs) = (wanted job.job_scheduler_id jobs ≡ none) × Distinct jobs

abbrev pub AllOf : Bytes → List DesiredScheduledJob → Type 0
AllOf tenant_id [] = Unit
AllOf tenant_id (job ∷ jobs) =
    (starts_with (tenant_prefix tenant_id) job.job_scheduler_id ≡ true) × AllOf tenant_id jobs

pub lookup-existing_of :
    (t j : Bytes) (jobs : Dict Bytes JobSchedulerDescriptor)
    → lookup j (existing_of t jobs)
      ≡ (if starts_with (tenant_prefix t) j then lookup j jobs else none)
unfolding lookup existing_of
lookup-existing_of t j [] = ground arith
lookup-existing_of t j ((i, job) ∷ jobs) = ground (arith, lookup-existing_of t j jobs)

pub is_desired-wanted :
    (j : Bytes) (desired : List DesiredScheduledJob)
    → ((wanted j desired ≡ none) × (is_desired j desired ≡ false))
      ⊎ ((c : Cadence) × (wanted j desired ≡ some c) × (is_desired j desired ≡ true))
unfolding wanted is_desired
is_desired-wanted j [] = inl (refl, refl)
is_desired-wanted j (job ∷ jobs) = elim (Bool-cases (job.job_scheduler_id == j)) [
  | inl same ↦ inr (
    job.cadence,
    ap (λ b. if b then some job.cadence else wanted j jobs) same,
    ap (λ b. if b then true else is_desired j jobs) same,
  )
  | inr other ↦
      subst
        (λ b.
          (((if b then some job.cadence else wanted j jobs) ≡ none)
            × ((if b then true else is_desired j jobs) ≡ false))
          ⊎ ((c : Cadence) × ((if b then some job.cadence else wanted j jobs) ≡ some c)
              × ((if b then true else is_desired j jobs) ≡ true)))
        (sym other) (is_desired-wanted j jobs)
]

same_schedule-descriptor_of : (r : RepeatOptions) → same_schedule (descriptor_of r) r ≡ true
unfolding same_schedule
same_schedule-descriptor_of (every ms) = ground arith
same_schedule-descriptor_of (pattern_of at_two_daily) = refl
same_schedule-descriptor_of (pattern_of at_nine_on_first) = refl

some-inj : {a b : Cadence} → ◌≡◌ {A = Option Cadence} (some a) (some b) → a ≡ b
some-inj h = cc

-- The id has a job that fires as the cadence says.
abbrev pub Fires : Option JobSchedulerDescriptor → Cadence → Type 0
Fires o c =
    (job : JobSchedulerDescriptor) × (o ≡ some job)
    × (same_schedule job (cadence_to_repeat_options c) ≡ true)

module _ {Q : Type 0} (queue : RepeatableQueue Q) (registry : IsRegistry queue) where
  abbrev pub found : Bytes → Q → Option JobSchedulerDescriptor
  found j q = lookup j (queue.get_job_schedulers q)

  upsert_if-other :
      (same : Bool) (job : DesiredScheduledJob) (j : Bytes) (q : Q)
      → (job.job_scheduler_id == j) ≡ false
      → found j (upsert_if queue same job q) ≡ found j q
  upsert_if-other true job j q n = refl
  upsert_if-other false job j q n =
      registry.upserted job.job_scheduler_id j (cadence_to_repeat_options job.cadence) q
      ∙ ap
          (λ b.
            if b then some (descriptor_of (cadence_to_repeat_options job.cadence)) else found j q)
          n

  head_other :
      (job : DesiredScheduledJob) (jobs : List DesiredScheduledJob) (j : Bytes)
      → wanted j (job ∷ jobs) ≡ none
      → ((job.job_scheduler_id == j) ≡ false) × (wanted j jobs ≡ none)
  unfolding wanted
  head_other job jobs j h = ground (arith, h)

  pub upsert_desired-other :
      (existing : Dict Bytes JobSchedulerDescriptor) (desired : List DesiredScheduledJob)
      (j : Bytes) (q : Q)
      → wanted j desired ≡ none
      → found j (upsert_desired queue existing desired q) ≡ found j q
  unfolding upsert_desired
  upsert_desired-other existing [] j q h = refl
  upsert_desired-other existing (job ∷ jobs) j q h =
      let (n, rest) = head_other job jobs j h in
      let same =
        is_unchanged (lookup job.job_scheduler_id existing)
          (cadence_to_repeat_options job.cadence) in
      upsert_desired-other existing jobs j (upsert_if queue same job q) rest
      ∙ upsert_if-other same job j q n

  -- What the snapshot says of an id is still so.
  abbrev Current : Dict Bytes JobSchedulerDescriptor → Bytes → Q → Type 0
  Current existing j q =
      (job : JobSchedulerDescriptor) → lookup j existing ≡ some job → found j q ≡ some job

  own_step :
      (existing : Dict Bytes JobSchedulerDescriptor) (job : DesiredScheduledJob) (q : Q)
      (o : Option JobSchedulerDescriptor) (same : Bool)
      → lookup job.job_scheduler_id existing ≡ o
      → is_unchanged o (cadence_to_repeat_options job.cadence) ≡ same
      → Current existing job.job_scheduler_id q
      → Fires (found job.job_scheduler_id (upsert_if queue same job q)) job.cadence
  own_step existing job q none true at e current = cc
  own_step existing job q (some there) true at e current = (there, current there at, e)
  own_step existing job q o false at e current =
      let r = cadence_to_repeat_options job.cadence in
      let id = job.job_scheduler_id in
      (
        descriptor_of r,
        registry.upserted id id r q
            ∙ ap (λ b. if b then some (descriptor_of r) else found id q) ((==_iff id id).1 refl),
        same_schedule-descriptor_of r,
      )

  pub upsert_desired-Fires :
      (existing : Dict Bytes JobSchedulerDescriptor) (desired : List DesiredScheduledJob)
      (j : Bytes) (c : Cadence) (q : Q)
      → Distinct desired
      → Current existing j q
      → wanted j desired ≡ some c
      → Fires (found j (upsert_desired queue existing desired q)) c
  unfolding upsert_desired wanted
  upsert_desired-Fires existing [] j c q d current h = cc
  upsert_desired-Fires existing (job ∷ jobs) j c q d current h =
      let r = cadence_to_repeat_options job.cadence in
      let same = is_unchanged (lookup job.job_scheduler_id existing) r in
      let q' = upsert_if queue same job q in
      elim (Bool-cases (job.job_scheduler_id == j)) [
        | inl here ↦
            let id = (==_iff job.job_scheduler_id j).0 here in
            let found_c =
              subst (λ b. (if b then some job.cadence else wanted j jobs) ≡ some c) here h in
            let now =
              own_step existing job q (lookup job.job_scheduler_id existing) same refl refl
                (subst (λ i. Current existing i q) (sym id) current) in
            let last = upsert_desired-other existing jobs job.job_scheduler_id q' d.0 in
            let fires = subst (λ o. Fires o job.cadence) (sym last) now in
            subst (λ i. Fires (found i (upsert_desired queue existing jobs q')) c) id
              (subst (Fires (found job.job_scheduler_id (upsert_desired queue existing jobs q')))
                (some-inj found_c) fires)
        | inr other ↦
            let rest =
              subst (λ b. (if b then some job.cadence else wanted j jobs) ≡ some c) other h in
            upsert_desired-Fires existing jobs j c q' d.1
              (λ (there : JobSchedulerDescriptor) (at : lookup j existing ≡ some there).
                upsert_if-other same job j q other ∙ current there at)
              rest
      ]
