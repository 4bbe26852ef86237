-- ===== src/Tests/Jobs.antt =====
-- Tests of packages/jobs, and of the stores of the queue and of the tags.
use byok_business_autopilot.Base.{◌≡◌, refl, true, none, List, [], ◌∷◌, arith}
use byok_business_autopilot.Base.Dict.{Dict, lookup, insert, erase}
use byok_business_autopilot.Vault.Crypto.{Bytes, bytes_eq}
use byok_business_autopilot.Jobs.Cadence.{daily}
use byok_business_autopilot.Jobs.Breaker.{
  default_options, BreakerEvent, error_at, resume_at, start, on_events,
}
use byok_business_autopilot.Jobs.Breaker.Bounds.{Sound, on_events-Sound}
use byok_business_autopilot.Jobs.Sync.{
  DesiredScheduledJob, JobSchedulerDescriptor, descriptor_of, RepeatableQueue,
}
use byok_business_autopilot.ApprovalQueue.Types.{ProposedAction, approve}
use byok_business_autopilot.ApprovalQueue.Store.Postgres.Calls.{
  StoreCall, submit_call, resolve_call, FreshIds, answers_in_rows, answers_in_memory,
  answers_in_rows-Agree,
}

abbrev Schedulers : Type 0
Schedulers = Dict Bytes JobSchedulerDescriptor

abbrev table : RepeatableQueue Schedulers
table = record {
  get_job_schedulers = λ q. q;
  upsert_job_scheduler = λ id r q. insert id (descriptor_of r) q;
  remove_job_scheduler = λ id q. erase id q;
}

abbrev job : DesiredScheduledJob
job = record { job_scheduler_id = 1 ∷ 58 ∷ 2 ∷ []; cadence = daily }

abbrev storm : List BreakerEvent
storm = error_at 1 ∷ error_at 2 ∷ resume_at 3 ∷ error_at 4 ∷ []

on_events-Sound_example :
    Sound default_options (on_events default_options storm (start default_options))
on_events-Sound_example = on_events-Sound default_options storm (omega arith) (omega arith)

abbrev action : ProposedAction
action = record {
  id = 1;
  tenant_id = 2;
  agent_name = 3;
  role_title = 4;
  task_type = 5;
  summary = 6;
  draft = 7;
  stakes_tags = [];
  effect = none;
  created_at = 8;
}

abbrev store_calls : List StoreCall
store_calls =
    submit_call action true
    ∷ resolve_call 9 1 approve
    ∷ resolve_call 2 1 approve
    ∷ resolve_call 2 1 approve
    ∷ []

own_ids : FreshIds store_calls []
unfolding FreshIds lookup
own_ids = (refl, tt)

answers_in_rows-Agree_example : answers_in_rows store_calls [] ≡ answers_in_memory store_calls []
answers_in_rows-Agree_example = answers_in_rows-Agree store_calls own_ids
