-- ===== src/Timeutil/Clock.antt =====
-- What timeutil/scheduler.go uses of time.Time, in a location whose clocks are never changed. A month is
-- its number from 1, and a weekday its number from 0.
use go_utils.Prelude.{ℕ, ◌+◌, ◌*◌, ◌/◌, ◌%◌, ◌<◌, ◌≡◌}

abbrev pub second_ns : ℕ
second_ns = 1000000000

abbrev pub minute_ns : ℕ
minute_ns = 60000000000

abbrev pub hour_ns : ℕ
hour_ns = 3600000000000

-- `seconds` counts the whole seconds since a midnight before every time that is looked at; what Clock,
-- Nanosecond and Weekday give, and what Add and Date make, is documented in these terms.
pub record Clock : Type 1 where
  pub Time : Type 0
  pub seconds : Time → ℕ
  pub nanosecond : Time → ℕ
  pub second : Time → ℕ
  pub minute : Time → ℕ
  pub hour : Time → ℕ
  pub day : Time → ℕ
  pub month : Time → ℕ
  pub year : Time → ℕ
  pub weekday : Time → ℕ
  -- time.Date at midnight
  pub date : ℕ → ℕ → ℕ → Time
  -- Add of a duration in nanoseconds
  pub add : Time → ℕ → Time
  pub nanosecond_below : (t : Time) → nanosecond t < 1000000000
  pub second_lem : (t : Time) → second t ≡ seconds t % 60
  pub minute_lem : (t : Time) → minute t ≡ seconds t / 60 % 60
  pub hour_lem : (t : Time) → hour t ≡ seconds t / 3600 % 24
  pub weekday_lem : (t u : Time) → seconds t / 86400 ≡ seconds u / 86400 → weekday t ≡ weekday u
  pub add_lem :
      (t : Time) (d : ℕ)
      → seconds (add t d) * 1000000000 + nanosecond (add t d)
        ≡ seconds t * 1000000000 + nanosecond t + d
  -- Date with the day after the day of a time, also after the last day of a month
  pub date_tomorrow :
      (t : Time)
      → (seconds (date (year t) (month t) (day t + 1)) ≡ (seconds t / 86400 + 1) * 86400)
        × (nanosecond (date (year t) (month t) (day t + 1)) ≡ 0)
