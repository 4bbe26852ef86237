-- ===== src/Tests/Router.antt =====
-- apps/router: one task through the gate and the agent to the queue.
use byok_business_autopilot.Base.{true, false, none, some, [], ◌∷◌, ok, nat_eq}
use byok_business_autopilot.Base.Dict.{lookup}
use byok_business_autopilot.ApprovalQueue.Autonomy.{AutonomyConfig}
use byok_business_autopilot.Router.Types.{RouterTask, RouterTaskInput, sub_agent, ceo, dedup_key_eq}
use byok_business_autopilot.Router.State.{Outcome, threw, done, Router, Moment, input_key}
use byok_business_autopilot.Router.Task.{submit_task}
use byok_business_autopilot.Base.{◌≡◌, refl}
use byok_business_autopilot.Base.Dict.{lookup-nil}
use byok_business_autopilot.Router.Task.Replay.{submit_task_replays}
use byok_business_autopilot.Router.Task.Returns.{submit_task_returns}
use byok_business_autopilot.Router.Task.Advice.{Advises, submit_task-Advises}
use byok_business_autopilot.Router.Task.Order.{Obeys, submit_task-Obeys}
use byok_business_autopilot.Router.Tagging.{TaggingHints, locked, derive_tags}
use byok_business_autopilot.Router.Task.Locked.{ends_completed, submit_task-reviewed}
use byok_business_autopilot.Tests.Gate.{input, call, gate_of, result, spent, reserved_here}

abbrev config : AutonomyConfig
config = record { offer_threshold = 10; spot_check_rate = 10 }

abbrev request : RouterTaskInput
request = record {
  sub_agent_id = 4;
  team_id = 3;
  title = 1;
  payload = 80 ∷ 81 ∷ [];
  dedup_key = 77;
  source_org_chart_task_id = none;
  model = some 7;
  output_class = input.output_class;
  batchable = true;
  tenant_id = 1;
  agent_name = 9;
  effect = none;
  system_prompt = none;
  prompt_tier = sub_agent;
}

abbrev moment : Moment
moment = record { task_id = 2; gate_call = call; draw = 50 }

abbrev agent : RouterTask → Outcome
agent t = done 5 none []

abbrev broken : RouterTask → Outcome
broken t = threw 6

abbrev router : Router
router = record {
  dedup = [];
  ledger = [];
  gate = gate_of 100000000000;
  approvals = record { items = []; autonomy = []; audit = []; events = []; executed = [] };
  calls = [];
}

submit_task_replays_example :
    let r' = (submit_task config agent moment request [] router).1 in
    (t : RouterTask) × (lookup (input_key request) r'.dedup ≡ some t)
    × (submit_task config broken moment request [] r' ≡ (ok t, r'))
submit_task_replays_example =
    submit_task_replays config agent broken moment moment request request [] [] router refl

submit_task_returns_example :
    (t : RouterTask) × ((submit_task config agent moment request [] router).0 ≡ ok t)
submit_task_returns_example = submit_task_returns config agent moment request [] router

submit_task-Obeys_example :
    Obeys result.verdict router (submit_task config agent moment request [] router)
submit_task-Obeys_example =
    submit_task-Obeys config agent moment request [] router 7 result spent
      (lookup-nil (input_key request)) refl reserved_here

abbrev ceo_request : RouterTaskInput
ceo_request = record request { prompt_tier = ceo }

submit_task-Advises_example : Advises router (submit_task config agent moment ceo_request [] router)
submit_task-Advises_example = submit_task-Advises config agent moment ceo_request [] router refl

abbrev hints : TaggingHints
hints = record {
  stakes = none;
  autonomy = some locked;
  frequency = none;
  requires_professional_verification = false;
}

submit_task-reviewed_example :
    ends_completed
      (submit_task config agent moment request
        (derive_tags (λ tags. tags) hints ("routine" ∷ []))
        router).0
    ≡ false
submit_task-reviewed_example =
    submit_task-reviewed config agent moment request (λ tags. tags) hints ("routine" ∷ []) router
      (λ t tags. refl) refl (lookup-nil (input_key request))
