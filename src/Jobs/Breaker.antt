-- ===== src/Jobs/Breaker.antt =====
-- packages/jobs/src/redisErrorCircuitBreaker.ts: the listener of a worker's errors, and the timer that
-- resumes it. Times are milliseconds; `t - ts` is of times already past, so it does not go below 0.
use byok_business_autopilot.Base.{
  ℕ, ◌+◌, ◌-◌, ◌*◌, ◌≤◌, ◌<◌, ◌≡◌, Bool, true, false, Option, none, some, List, [], ◌∷◌, ◌++◌, ltb,
  leb, if◌then◌else◌,
}
use byok_business_autopilot.Base.Lists.{length}
pub mod Bounds

pub record BreakerOptions : Type 0 where
  pub error_threshold : ℕ
  pub window_ms : ℕ
  pub initial_cooldown_ms : ℕ
  pub max_cooldown_ms : ℕ

abbrev pub default_options : BreakerOptions
default_options = record {
  error_threshold = 10;
  window_ms = 5000;
  initial_cooldown_ms = 30000;
  max_cooldown_ms = 600000;
}

-- The variables of the closure, and the pauses it asked the worker for, newest first.
pub record Breaker : Type 0 where
  pub error_timestamps : List ℕ
  pub cooldown_ms : ℕ
  pub tripped : Bool
  pub resumed_at : Option ℕ
  pub pauses : List ℕ

pub data BreakerEvent : Type 0 where
  error_at resume_at : ℕ → BreakerEvent

abbrev pub min : ℕ → ℕ → ℕ
min a b = if leb a b then a else b

-- `.filter((ts) => t - ts <= windowMs)`
unfoldable pub in_window : ℕ → ℕ → List ℕ → List ℕ
in_window window t [] = []
in_window window t (ts ∷ rest) =
    let kept = in_window window t rest in if leb (t - ts) window then ts ∷ kept else kept

module _ (o : BreakerOptions) where
  abbrev pub start : Breaker
  start = record {
    error_timestamps = [];
    cooldown_ms = o.initial_cooldown_ms;
    tripped = false;
    resumed_at = none;
    pauses = [];
  }

  -- Escalates after a trip soon after the last resume.
  abbrev pub next_cooldown : ℕ → ℕ → Option ℕ → ℕ
  next_cooldown t cooldown none = o.initial_cooldown_ms
  next_cooldown t cooldown (some resumed) =
      if ltb (t - resumed) (cooldown * 2)
      then min (cooldown * 2) o.max_cooldown_ms
      else o.initial_cooldown_ms

  abbrev pub trip : ℕ → Breaker → Breaker
  trip t b =
      let cooldown = next_cooldown t b.cooldown_ms b.resumed_at in
      record b {
        error_timestamps = [];
        cooldown_ms = cooldown;
        tripped = true;
        pauses = cooldown ∷ b.pauses;
      }

  abbrev pub counted : ℕ → Breaker → List ℕ → Bool → Breaker
  counted t b recent true = record b { error_timestamps = recent }
  counted t b recent false = trip t b

  abbrev pub on_error_if : ℕ → Breaker → Bool → Breaker
  on_error_if t b true = b
  on_error_if t b false =
      let recent = in_window o.window_ms t (b.error_timestamps ++ t ∷ []) in
      counted t b recent (ltb (length recent) o.error_threshold)

  unfoldable pub on_error : ℕ → Breaker → Breaker
  on_error t b = on_error_if t b b.tripped

  unfoldable pub on_resume : ℕ → Breaker → Breaker
  on_resume t b = record b { tripped = false; resumed_at = some t }

  unfoldable pub on_events : List BreakerEvent → Breaker → Breaker
  on_events [] b = b
  on_events (error_at t ∷ events) b = on_events events (on_error t b)
  on_events (resume_at t ∷ events) b = on_events events (on_resume t b)
