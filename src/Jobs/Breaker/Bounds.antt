-- ===== src/Jobs/Breaker/Bounds.antt =====
-- packages/jobs/src/redisErrorCircuitBreaker.ts: how long a worker is paused, and what the breaker keeps.
use byok_business_autopilot.Base.{
  ℕ, ◌≤◌, ◌<◌, ◌≡◌, refl, Bool, true, false, Option, none, some, List, [], ◌∷◌, ◌++◌, ltb, arith,
}
use byok_business_autopilot.Base.Lists.{length}
use byok_business_autopilot.Jobs.Breaker.{
  BreakerOptions, Breaker, BreakerEvent, error_at, resume_at, in_window, start, next_cooldown,
  counted, on_error_if, on_error, on_resume, on_events,
}

module _ (o : BreakerOptions) where
  abbrev pub InBounds : ℕ → Type 0
  InBounds cooldown = (o.initial_cooldown_ms ≤ cooldown) × (cooldown ≤ o.max_cooldown_ms)

  abbrev pub AllInBounds : List ℕ → Type 0
  AllInBounds [] = Unit
  AllInBounds (pause ∷ pauses) = InBounds pause × AllInBounds pauses

  -- Every pause is between the first and the longest one, and fewer errors are kept than trip it.
  pub record Sound (b : Breaker) : Type 0 where
    pub cooldown : InBounds b.cooldown_ms
    pub pauses : AllInBounds b.pauses
    pub few : length b.error_timestamps < o.error_threshold

  next_cooldown-InBounds :
      (t cooldown : ℕ) (resumed : Option ℕ)
      → o.initial_cooldown_ms ≤ o.max_cooldown_ms
      → InBounds cooldown
      → InBounds (next_cooldown o t cooldown resumed)
  next_cooldown-InBounds t cooldown none le h = (omega arith, le)
  next_cooldown-InBounds t cooldown (some resumed) le h = ground (arith, le, h)

  counted-Sound :
      (t : ℕ) (b : Breaker) (recent : List ℕ) (test : Bool)
      → o.initial_cooldown_ms ≤ o.max_cooldown_ms
      → 0 < o.error_threshold
      → Sound b
      → ltb (length recent) o.error_threshold ≡ test
      → Sound (counted o t b recent test)
  counted-Sound t b recent true le pos h e = record {
    cooldown = h.cooldown;
    pauses = h.pauses;
    few = ground (arith, e);
  }
  counted-Sound t b recent false le pos h e =
      let next = next_cooldown-InBounds t b.cooldown_ms b.resumed_at le h.cooldown in
      record { cooldown = next; pauses = (next, h.pauses); few = pos }

  on_error_if-Sound :
      (t : ℕ) (b : Breaker) (test : Bool)
      → o.initial_cooldown_ms ≤ o.max_cooldown_ms
      → 0 < o.error_threshold
      → Sound b
      → Sound (on_error_if o t b test)
  on_error_if-Sound t b true le pos h = h
  on_error_if-Sound t b false le pos h =
      let recent = in_window o.window_ms t (b.error_timestamps ++ t ∷ []) in
      counted-Sound t b recent (ltb (length recent) o.error_threshold) le pos h refl

  kept :
      (events : List BreakerEvent) (b : Breaker)
      → o.initial_cooldown_ms ≤ o.max_cooldown_ms
      → 0 < o.error_threshold
      → Sound b
      → Sound (on_events o events b)
  unfolding on_events on_error on_resume
  kept [] b le pos h = h
  kept (error_at t ∷ events) b le pos h =
      kept events (on_error o t b) le pos (on_error_if-Sound t b b.tripped le pos h)
  kept (resume_at t ∷ events) b le pos h =
      kept events (on_resume o t b) le pos
        (record { cooldown = h.cooldown; pauses = h.pauses; few = h.few })

  -- Through any errors and resumes, every pause that the breaker asks for, and the next one's start,
  -- stays between the initial cooldown and the longest one, and fewer timestamps are kept than the
  -- threshold. The initial cooldown is at most the longest, and the threshold is not 0.
  pub on_events-Sound :
      (events : List BreakerEvent)
      → o.initial_cooldown_ms ≤ o.max_cooldown_ms
      → 0 < o.error_threshold
      → Sound (on_events o events (start o))
  on_events-Sound events le pos =
      kept events (start o) le pos (record { cooldown = (omega arith, le); pauses = tt; few = pos })
