-- ===== src/Jobs/Cadence.antt =====
-- packages/jobs/src/cadenceFloors.ts and cadenceSchedule.ts. A cron pattern is one of the two that the code
-- names.
use byok_business_autopilot.Base.{
  ℕ, ◌*◌, ◌≤◌, ◌≡◌, refl, Bool, true, false, ◌⊎◌, inl, inr, leb, if◌then◌else◌, arith,
}

pub data Cadence : Type 0 where
  every_15min hourly nightly daily weekly monthly : Cadence

abbrev pub cadence_floor : Cadence
cadence_floor = daily

unfoldable pub cadence_rank : Cadence → ℕ
cadence_rank every_15min = 0
cadence_rank hourly = 1
cadence_rank nightly = 2
cadence_rank daily = 2
cadence_rank weekly = 3
cadence_rank monthly = 4

-- The reason is there exactly when the cadence was clamped.
pub record ClampResult : Type 0 where
  pub cadence : Cadence
  pub clamped : Bool

unfoldable pub clamp_cadence_to_floor : Cadence → ClampResult
clamp_cadence_to_floor declared =
    if leb (cadence_rank cadence_floor) (cadence_rank declared)
    then record { cadence = declared; clamped = false }
    else record { cadence = cadence_floor; clamped = true }

pub data CronPattern : Type 0 where
  at_two_daily at_nine_on_first : CronPattern

pub data RepeatOptions : Type 0 where
  every : ℕ → RepeatOptions
  pattern_of : CronPattern → RepeatOptions

abbrev pub minute_ms : ℕ
minute_ms = 60000

abbrev pub hour_ms : ℕ
hour_ms = 60 * minute_ms

abbrev pub day_ms : ℕ
day_ms = 24 * hour_ms

unfoldable pub cadence_to_repeat_options : Cadence → RepeatOptions
cadence_to_repeat_options every_15min = every (15 * minute_ms)
cadence_to_repeat_options hourly = every hour_ms
cadence_to_repeat_options nightly = pattern_of at_two_daily
cadence_to_repeat_options daily = every day_ms
cadence_to_repeat_options weekly = every (7 * day_ms)
cadence_to_repeat_options monthly = pattern_of at_nine_on_first

-- The two patterns fire once a day and once a month.
abbrev pub AtMostDaily : RepeatOptions → Type 0
AtMostDaily (every ms) = day_ms ≤ ms
AtMostDaily (pattern_of p) = Unit

-- Whatever cadence is declared, the clamped one fires at most once a day; it is the declared one unless
-- the result says that it was clamped, and clamping it again changes nothing.
pub clamp_cadence_to_floor-AtMostDaily :
    (declared : Cadence)
    → let r = clamp_cadence_to_floor declared in
      AtMostDaily (cadence_to_repeat_options r.cadence)
      × ((r.clamped ≡ true) ⊎ (r.cadence ≡ declared))
      × (clamp_cadence_to_floor r.cadence ≡ record { cadence = r.cadence; clamped = false })
unfolding clamp_cadence_to_floor cadence_rank cadence_to_repeat_options
clamp_cadence_to_floor-AtMostDaily every_15min = (omega arith, inl refl, refl)
clamp_cadence_to_floor-AtMostDaily hourly = (omega arith, inl refl, refl)
clamp_cadence_to_floor-AtMostDaily nightly = (tt, inr refl, refl)
clamp_cadence_to_floor-AtMostDaily daily = (omega arith, inr refl, refl)
clamp_cadence_to_floor-AtMostDaily weekly = (omega arith, inr refl, refl)
clamp_cadence_to_floor-AtMostDaily monthly = (tt, inr refl, refl)
