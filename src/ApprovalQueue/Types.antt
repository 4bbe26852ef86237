-- ===== src/ApprovalQueue/Types.antt =====
-- packages/approval-queue/src/types.ts and denyList.ts. Ids and the texts that the code only hands on
-- are numbers; a tag is a text, since five of them are named in the code. Times are milliseconds.
use byok_business_autopilot.Base.{ℕ, Bool, false, Option, List, [], ◌∷◌, ◌||◌}
use Prim.Native.String.{String}
use text.Mathlib.Text.{◌==◌}

pub data EffectKind : Type 0 where
  send post pay deploy : EffectKind

pub record EffectDescriptor : Type 0 where
  pub kind : EffectKind
  pub description : ℕ
  pub detail : Option ℕ

pub record ProposedAction : Type 0 where
  pub id : ℕ
  pub tenant_id : ℕ
  pub agent_name : ℕ
  pub role_title : ℕ
  pub task_type : ℕ
  pub summary : ℕ
  pub draft : ℕ
  pub stakes_tags : List String
  pub effect : Option EffectDescriptor
  pub created_at : ℕ

-- The type has no effect; `smuggled` is the value of a key `effect` that a cast has put on the object all
-- the same, `some none` where the key is there and its value is undefined.
pub record RecommendationItem : Type 0 where
  pub id : ℕ
  pub tenant_id : ℕ
  pub agent_name : ℕ
  pub role_title : ℕ
  pub summary : ℕ
  pub draft : ℕ
  pub stakes_tags : List String
  pub created_at : ℕ
  pub smuggled : Option (Option EffectDescriptor)

pub data Verdict : Type 0 where
  approve : Verdict
  reject : ℕ → Verdict
  modify : ℕ → Verdict

pub data QueueError : Type 0 where
  effect_on_recommendation unknown_action unknown_recommendation no_pending_offer executor_failed :
      QueueError

-- `set.has(tag)`
abbrev pub has_tag : String → List String → Bool
has_tag tag [] = false
has_tag tag (t ∷ ts) = t == tag || has_tag tag ts

abbrev pub deny_list_tags : List String
deny_list_tags =
    "money-movement" ∷ "external-send-high-stakes" ∷ "deploy" ∷ "requires-professional-verification"
    ∷ "never-autonomous" ∷ []

-- `stakesTags.some(…)`
unfoldable pub is_denied_from_autonomy : List String → Bool
is_denied_from_autonomy [] = false
is_denied_from_autonomy (tag ∷ tags) = has_tag tag deny_list_tags || is_denied_from_autonomy tags
