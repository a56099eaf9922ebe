-- ===== src/Timeutil/Next.antt =====
-- Next of a ScheduledTicker, timeutil/scheduler.go.
pub mod Ahead
pub mod First
pub mod Search
use go_utils.Prelude.{
  ℕ, ◌+◌, ◌-◌, ◌*◌, ◌||◌, not, Option, none, some, List, [], ◌∷◌, ltb, if◌then◌else◌,
}
use go_utils.Prelude.Rounds.{Round, again, stop, iterate}
use go_utils.Timeutil.Clock.{Clock, second_ns, minute_ns, hour_ns}
use go_utils.Timeutil.Schedule.{
  ScheduledTicker, match_second, match_minute, match_hour, match_day, match_month, match_weekday,
}

-- `for _, v := range … { if v > n { … } }`: the first value above n
unfoldable pub first_above : List ℕ → ℕ → Option ℕ
first_above [] n = none
first_above (v ∷ vs) n = if ltb n v then some v else first_above vs n

-- How many units nextSecond, nextMinute and nextHour go ahead, of which `base` make the next larger one.
unfoldable pub units_ahead : ℕ → List ℕ → ℕ → ℕ
unfolding first_above
units_ahead base [] n = 1
units_ahead base (w ∷ ws) n = elim (first_above (w ∷ ws) n) [ some v ↦ v - n | none ↦ base - n + w ]

module _ (c : Clock) (s : ScheduledTicker) where
  unfoldable pub next_second : c.Time → c.Time
  unfolding units_ahead
  next_second at = c.add at (units_ahead 60 s.seconds (c.second at) * second_ns - c.nanosecond at)

  unfoldable pub next_minute : c.Time → c.Time
  unfolding units_ahead
  next_minute at = c.add at (
      units_ahead 60 s.minutes (c.minute at) * minute_ns
      - (c.second at * second_ns + c.nanosecond at))

  unfoldable pub next_hour : c.Time → c.Time
  unfolding units_ahead
  next_hour at = c.add at (
      units_ahead 24 s.hours (c.hour at) * hour_ns
      - (c.minute at * minute_ns + c.second at * second_ns + c.nanosecond at))

  unfoldable pub next_day_of : List ℕ → c.Time → c.Time
  unfolding first_above
  next_day_of [] at = c.date (c.year at) (c.month at) (c.day at + 1)
  next_day_of (w ∷ ws) at = elim (first_above (w ∷ ws) (c.day at)) [
    | some v ↦ c.date (c.year at) (c.month at) v
    | none ↦ c.date (c.year at) (c.month at + 1) w
  ]

  unfoldable pub next_day : c.Time → c.Time
  unfolding next_day_of
  next_day at = next_day_of s.days at

  unfoldable pub next_month_of : List ℕ → c.Time → c.Time
  unfolding first_above
  next_month_of [] at = c.date (c.year at + 1) 1 1
  next_month_of (w ∷ ws) at = elim (first_above (w ∷ ws) (c.month at)) [
    | some v ↦ c.date (c.year at) v 1
    | none ↦ c.date (c.year at + 1) w 1
  ]

  unfoldable pub next_month : c.Time → c.Time
  unfolding next_month_of
  next_month at = next_month_of s.months at

  -- One round of the loop of Next.
  unfoldable pub next_round : c.Time → Round c.Time (Option c.Time)
  next_round at =
      if not (match_month c s at)
      then again (next_month at)
      else if not (match_weekday c s at) || not (match_day c s at)
      then again (next_day at)
      else if not (match_hour c s at)
      then again (next_hour at)
      else if not (match_minute c s at)
      then again (next_minute at)
      else if not (match_second c s at)
      then again (next_second at)
      else stop (some at)

  -- Next, with a bound on its rounds; `none` if the bound is reached.
  unfoldable pub next : ℕ → c.Time → Option c.Time
  unfolding next_round next_second
  next rounds at = iterate next_round (λ t. none) rounds (next_second at)
