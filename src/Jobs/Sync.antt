-- ===== src/Jobs/Sync.antt =====
-- packages/jobs/src/tenantScheduler.ts. The queue is BullMQ's, an interface with the behaviour the code relies
-- on. A text is the list of its bytes; the payload of a job, which is only handed on, is left out.
use byok_business_autopilot.Base.{
  ℕ, ◌≡◌, Bool, true, false, ◌&&◌, not, Option, none, some, List, [], ◌∷◌, ◌++◌, Eq, ◌==◌,
  if◌then◌else◌, nat_eq,
}
use byok_business_autopilot.Base.Dict.{Dict, lookup, contains}
use byok_business_autopilot.Vault.Crypto.{Bytes, bytes_eq, colon}
use byok_business_autopilot.Jobs.Cadence.{
  Cadence, RepeatOptions, every, pattern_of, CronPattern, at_two_daily, at_nine_on_first,
  cadence_to_repeat_options,
}
pub mod Registers
pub mod Removes
pub mod Desired

pub record DesiredScheduledJob : Type 0 where
  pub job_scheduler_id : Bytes
  pub cadence : Cadence

-- One of the two is there, as the job was registered.
pub record JobSchedulerDescriptor : Type 0 where
  pub every_ms : Option ℕ
  pub cron : Option CronPattern

abbrev pub descriptor_of : RepeatOptions → JobSchedulerDescriptor
descriptor_of (every ms) = record { every_ms = some ms; cron = none }
descriptor_of (pattern_of p) = record { every_ms = none; cron = some p }

pub record RepeatableQueue (Q : Type 0) : Type 0 where
  pub get_job_schedulers : Q → Dict Bytes JobSchedulerDescriptor
  pub upsert_job_scheduler : Bytes → RepeatOptions → Q → Q
  pub remove_job_scheduler : Bytes → Q → Q

-- An upsert registers its id and a removal forgets it; neither touches another id. Ids are unique.
pub record IsRegistry {Q : Type 0} (queue : RepeatableQueue Q) : Type 0 where
  pub upserted :
      (i j : Bytes) (r : RepeatOptions) (q : Q)
      → lookup j (queue.get_job_schedulers (queue.upsert_job_scheduler i r q))
        ≡ (if i == j then some (descriptor_of r) else lookup j (queue.get_job_schedulers q))
  pub removed :
      (i j : Bytes) (q : Q)
      → lookup j (queue.get_job_schedulers (queue.remove_job_scheduler i q))
        ≡ (if i == j then none else lookup j (queue.get_job_schedulers q))

-- `text.startsWith(prefix)`
unfoldable pub starts_with : Bytes → Bytes → Bool
starts_with [] text = true
starts_with (p ∷ ps) [] = false
starts_with (p ∷ ps) (x ∷ xs) = (p == x) && starts_with ps xs

-- `${tenantId}:`
abbrev pub tenant_prefix : Bytes → Bytes
tenant_prefix tenant_id = tenant_id ++ colon ∷ []

unfoldable pub existing_of :
    Bytes → Dict Bytes JobSchedulerDescriptor → Dict Bytes JobSchedulerDescriptor
existing_of tenant_id [] = []
existing_of tenant_id ((id, job) ∷ jobs) =
    let rest = existing_of tenant_id jobs in
    if starts_with (tenant_prefix tenant_id) id then (id, job) ∷ rest else rest

abbrev pub is_two_daily : CronPattern → Bool
is_two_daily at_two_daily = true
is_two_daily at_nine_on_first = false

abbrev pub same_cron : CronPattern → CronPattern → Bool
same_cron at_two_daily q = is_two_daily q
same_cron at_nine_on_first q = not (is_two_daily q)

abbrev pub is_every : ℕ → Option ℕ → Bool
is_every ms none = false
is_every ms (some current) = current == ms

abbrev pub is_cron : CronPattern → Option CronPattern → Bool
is_cron p none = false
is_cron p (some current) = same_cron current p

unfoldable pub same_schedule : JobSchedulerDescriptor → RepeatOptions → Bool
same_schedule current (every ms) = is_every ms current.every_ms
same_schedule current (pattern_of p) = is_cron p current.cron

-- `current && sameSchedule(current, repeatOptions)`
abbrev pub is_unchanged : Option JobSchedulerDescriptor → RepeatOptions → Bool
is_unchanged none r = false
is_unchanged (some current) r = same_schedule current r

unfoldable pub is_desired : Bytes → List DesiredScheduledJob → Bool
is_desired id [] = false
is_desired id (job ∷ jobs) = if job.job_scheduler_id == id then true else is_desired id jobs

pub record SyncResult : Type 0 where
  pub added : List Bytes
  pub removed : List Bytes
  pub unchanged : List Bytes

module _ {Q : Type 0} (queue : RepeatableQueue Q) where
  abbrev pub upsert_if : Bool → DesiredScheduledJob → Q → Q
  upsert_if true job q = q
  upsert_if false job q =
      queue.upsert_job_scheduler job.job_scheduler_id (cadence_to_repeat_options job.cadence) q

  abbrev pub changed_if : Bool → Bytes → List Bytes → List Bytes
  changed_if true id rest = rest
  changed_if false id rest = id ∷ rest

  -- The first loop; its `added` and `unchanged` are read off the jobs that were there before.
  unfoldable pub upsert_desired :
      Dict Bytes JobSchedulerDescriptor → List DesiredScheduledJob → Q → Q
  upsert_desired existing [] q = q
  upsert_desired existing (job ∷ jobs) q =
      let same =
        is_unchanged (lookup job.job_scheduler_id existing)
          (cadence_to_repeat_options job.cadence) in
      upsert_desired existing jobs (upsert_if same job q)

  unfoldable pub added_of :
      Dict Bytes JobSchedulerDescriptor → List DesiredScheduledJob → List Bytes
  added_of existing [] = []
  added_of existing (job ∷ jobs) =
      let same =
        is_unchanged (lookup job.job_scheduler_id existing)
          (cadence_to_repeat_options job.cadence) in
      changed_if same job.job_scheduler_id (added_of existing jobs)

  unfoldable pub unchanged_of :
      Dict Bytes JobSchedulerDescriptor → List DesiredScheduledJob → List Bytes
  unchanged_of existing [] = []
  unchanged_of existing (job ∷ jobs) =
      let same =
        is_unchanged (lookup job.job_scheduler_id existing)
          (cadence_to_repeat_options job.cadence) in
      changed_if (not same) job.job_scheduler_id (unchanged_of existing jobs)

  abbrev pub remove_if : Bool → Bytes → Q → Q
  remove_if true id q = q
  remove_if false id q = queue.remove_job_scheduler id q

  -- The second loop.
  unfoldable pub remove_undesired :
      Dict Bytes JobSchedulerDescriptor → List DesiredScheduledJob → Q → Q
  remove_undesired [] desired q = q
  remove_undesired ((id, job) ∷ jobs) desired q =
      remove_undesired jobs desired (remove_if (is_desired id desired) id q)

  unfoldable pub removed_of :
      Dict Bytes JobSchedulerDescriptor → List DesiredScheduledJob → List Bytes
  removed_of [] desired = []
  removed_of ((id, job) ∷ jobs) desired =
      changed_if (is_desired id desired) id (removed_of jobs desired)

  unfoldable pub sync_tenant_schedule : Bytes → List DesiredScheduledJob → Q → SyncResult × Q
  sync_tenant_schedule tenant_id desired q =
      let existing = existing_of tenant_id (queue.get_job_schedulers q) in
      (
        record {
          added = added_of existing desired;
          removed = removed_of existing desired;
          unchanged = unchanged_of existing desired;
        },
        remove_undesired existing desired (upsert_desired existing desired q),
      )
