-- ===== src/Jobs/Sync/Desired.antt =====
-- apps/api/src/scheduler/computeDesiredSchedule.ts: the schedule of a tenant from its org chart, and the jobs
-- that a sync of it leaves.
use byok_business_autopilot.Base.{
  ◌≡◌, sym, ◌∙◌, subst, Bool, true, false, Option, none, some, List, [], ◌∷◌, ◌++◌, ◌==◌,
  if◌then◌else◌, inl, inr, Bool-cases,
}
use byok_business_autopilot.Base.Dict.{Dict, lookup, insert}
use byok_business_autopilot.Vault.Crypto.{Bytes, bytes_eq, colon}
use byok_business_autopilot.Jobs.Cadence.{
  Cadence, clamp_cadence_to_floor, cadence_to_repeat_options, AtMostDaily,
  clamp_cadence_to_floor-AtMostDaily,
}
use byok_business_autopilot.Jobs.Sync.{
  DesiredScheduledJob, JobSchedulerDescriptor, RepeatableQueue, IsRegistry, starts_with,
  tenant_prefix, same_schedule, sync_tenant_schedule,
}
use byok_business_autopilot.Jobs.Sync.Registers.{wanted, Distinct, found}
use byok_business_autopilot.Jobs.Sync.Removes.{sync_tenant_schedule-Synced}

pub data TriggerType : Type 0 where
  on_cadence on_event on_threshold : TriggerType

-- The fields of the org chart's tasks and agents that the schedule reads.
pub record ChartTask : Type 0 where
  pub id : Bytes
  pub trigger_type : Option TriggerType
  pub cadence : Option Cadence

pub record ChartAgent : Type 0 where
  pub id : Bytes
  pub task_ids : List Bytes

abbrev set_all : ChartAgent → List Bytes → Dict Bytes ChartAgent → Dict Bytes ChartAgent
set_all agent [] owners = owners
set_all agent (task_id ∷ task_ids) owners = set_all agent task_ids (insert task_id agent owners)

-- `agentByTaskId`: of two agents with a task the later one has it.
unfoldable pub agent_by_task_id : List ChartAgent → Dict Bytes ChartAgent → Dict Bytes ChartAgent
agent_by_task_id [] owners = owners
agent_by_task_id (agent ∷ agents) owners =
    agent_by_task_id agents (set_all agent agent.task_ids owners)

-- `triggerType !== "cadence" || !task.cadence`
abbrev pub scheduled_cadence : Option TriggerType → Option Cadence → Option Cadence
scheduled_cadence (some on_cadence) cadence = cadence
scheduled_cadence _ cadence = none

-- `${tenantId}:${agent.id}:${task.id}`
abbrev pub scheduler_id : Bytes → Bytes → Bytes → Bytes
scheduler_id tenant_id agent_id task_id = (tenant_id ++ colon ∷ []) ++ (agent_id ++ colon ∷ task_id)

-- The id of a task that was clamped; its reason is the floor's.
abbrev pub noted : Bool → Bytes → List Bytes → List Bytes
noted true task_id notes = task_id ∷ notes
noted false task_id notes = notes

pub record DesiredScheduleResult : Type 0 where
  pub desired : List DesiredScheduledJob
  pub clamp_notes : List Bytes

abbrev pub add_task :
    Bytes
    → ChartTask
    → Option Cadence
    → Option ChartAgent
    → DesiredScheduleResult
    → DesiredScheduleResult
add_task tenant_id task none agent rest = rest
add_task tenant_id task (some cadence) none rest = rest
add_task tenant_id task (some cadence) (some agent) rest =
    let clamp = clamp_cadence_to_floor cadence in
    record {
      desired =
          (record {
            job_scheduler_id = scheduler_id tenant_id agent.id task.id;
            cadence = clamp.cadence;
          })
          ∷ rest.desired;
      clamp_notes = noted clamp.clamped task.id rest.clamp_notes;
    }

unfoldable pub desired_of : Bytes → Dict Bytes ChartAgent → List ChartTask → DesiredScheduleResult
desired_of tenant_id owners [] = record { desired = []; clamp_notes = [] }
desired_of tenant_id owners (task ∷ tasks) =
    add_task tenant_id task (scheduled_cadence task.trigger_type task.cadence)
      (lookup task.id owners) (desired_of tenant_id owners tasks)

unfoldable pub compute_desired_schedule :
    Bytes → List ChartAgent → List ChartTask → DesiredScheduleResult
compute_desired_schedule tenant_id agents tasks =
    desired_of tenant_id (agent_by_task_id agents []) tasks

abbrev AllDaily : List DesiredScheduledJob → Type 0
AllDaily [] = Unit
AllDaily (job ∷ jobs) = AtMostDaily (cadence_to_repeat_options job.cadence) × AllDaily jobs

add_task-AllDaily :
    (t : Bytes) (task : ChartTask) (cadence : Option Cadence) (agent : Option ChartAgent)
    (rest : DesiredScheduleResult)
    → AllDaily rest.desired
    → AllDaily (add_task t task cadence agent rest).desired
add_task-AllDaily t task none agent rest h = h
add_task-AllDaily t task (some cadence) none rest h = h
add_task-AllDaily t task (some cadence) (some agent) rest h =
    ((clamp_cadence_to_floor-AtMostDaily cadence).0, h)

desired_of-AllDaily :
    (t : Bytes) (owners : Dict Bytes ChartAgent) (tasks : List ChartTask)
    → AllDaily (desired_of t owners tasks).desired
unfolding desired_of
desired_of-AllDaily t owners [] = tt
desired_of-AllDaily t owners (task ∷ tasks) =
    add_task-AllDaily t task (scheduled_cadence task.trigger_type task.cadence)
      (lookup task.id owners) (desired_of t owners tasks) (desired_of-AllDaily t owners tasks)

wanted-AllDaily :
    (j : Bytes) (desired : List DesiredScheduledJob) (c : Cadence)
    → AllDaily desired
    → wanted j desired ≡ some c
    → AtMostDaily (cadence_to_repeat_options c)
unfolding wanted
wanted-AllDaily j [] c h w = cc
wanted-AllDaily j (job ∷ jobs) c h w = elim (Bool-cases (job.job_scheduler_id == j)) [
  | inl same ↦
      let found_c = subst (λ b. (if b then some job.cadence else wanted j jobs) ≡ some c) same w in
      subst (λ o. elim o [ none ↦ Unit {0} | some x ↦ AtMostDaily (cadence_to_repeat_options x) ])
        found_c h.0
  | inr other ↦
      wanted-AllDaily j jobs c h.1
        (subst (λ b. (if b then some job.cadence else wanted j jobs) ≡ some c) other w)
]

module _ {Q : Type 0} (queue : RepeatableQueue Q) (registry : IsRegistry queue) where
  -- A tenant's schedule is computed from its org chart and synced: whatever cadences the chart declares,
  -- every job that the tenant then has fires as one of at most once a day. No id is asked for twice.
  pub synced_schedule-AtMostDaily :
      (t : Bytes) (agents : List ChartAgent) (tasks : List ChartTask) (q : Q) (j : Bytes)
      (job : JobSchedulerDescriptor)
      → let desired = (compute_desired_schedule t agents tasks).desired in
        Distinct desired
        → starts_with (tenant_prefix t) j ≡ true
        → found queue registry j (sync_tenant_schedule queue t desired q).1 ≡ some job
        → (c : Cadence) × (same_schedule job (cadence_to_repeat_options c) ≡ true)
          × AtMostDaily (cadence_to_repeat_options c)
  unfolding compute_desired_schedule
  synced_schedule-AtMostDaily t agents tasks q j job distinct own there =
      let owners = agent_by_task_id agents [] in
      let desired = (desired_of t owners tasks).desired in
      elim (sync_tenant_schedule-Synced queue registry t desired q j distinct) [
        | inl (c, w, (other, at, fires)) ↦ (
          c,
          subst
              (λ o. elim o [
                | none ↦ Unit {0}
                | some x ↦ same_schedule x (cadence_to_repeat_options c) ≡ true
              ])
              (sym at ∙ there) fires,
          wanted-AllDaily j desired c (desired_of-AllDaily t owners tasks) w,
        )
        | inr (inl (w, mine, gone)) ↦ absurd (cc (gone, there))
        | inr (inr (w, foreign, same)) ↦ absurd (cc (own, foreign))
      ]
