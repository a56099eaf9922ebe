-- ===== src/Timeutil/Next/First.antt =====
-- The jumps of Next in timeutil/scheduler.go, in whole seconds.
use go_utils.Prelude.{ℕ, ◌+◌, ◌-◌, ◌*◌, ◌/◌, ◌<◌, ◌≡◌, [], arith}
use go_utils.Timeutil.Clock.{Clock, second_ns, minute_ns, hour_ns}
use go_utils.Timeutil.Schedule.{ScheduledTicker}
use go_utils.Timeutil.Next.{units_ahead, next_second, next_minute, next_hour, next_day, next_day_of}
use go_utils.Prelude.Sorted.{IsSorted}
use go_utils.Timeutil.Next.Ahead.{AreBelow, units_ahead_pos}

-- The lists of a schedule that are looked at with a clock.
pub record IsDaily (s : ScheduledTicker) : Type 0 where
  pub seconds_sorted : IsSorted s.seconds
  pub seconds_below : AreBelow 60 s.seconds
  pub minutes_sorted : IsSorted s.minutes
  pub minutes_below : AreBelow 60 s.minutes
  pub hours_sorted : IsSorted s.hours
  pub hours_below : AreBelow 24 s.hours
  pub any_day : s.days ≡ []
  pub any_month : s.months ≡ []

module _ (c : Clock) (s : ScheduledTicker) (daily : IsDaily s) where
  open c use {seconds, nanosecond, second, minute, hour, add}

  abbrev pub At : c.Time → ℕ → Type 0
  At t n = (seconds t ≡ n) × (nanosecond t ≡ 0)

  pub next_second-At :
      (t : c.Time) → At (next_second c s t) (seconds t + units_ahead 60 s.seconds (second t))
  unfolding next_second
  next_second-At t =
      let inside : second t < 60 = rw (c.second_lem t) (omega arith) in
      let up =
        units_ahead_pos 60 (second t) inside s.seconds daily.seconds_sorted daily.seconds_below in
      let d : ℕ = units_ahead 60 s.seconds (second t) * second_ns - nanosecond t in
      omega (
        arith,
        up,
        c.add_lem t d,
        c.nanosecond_below t,
        c.nanosecond_below (add t d),
        c.second_lem t,
      )

  pub next_minute-At :
      (t : c.Time)
      → At (next_minute c s t) ((seconds t / 60 + units_ahead 60 s.minutes (minute t)) * 60)
  unfolding next_minute
  next_minute-At t =
      let inside : minute t < 60 = rw (c.minute_lem t) (omega arith) in
      let up =
        units_ahead_pos 60 (minute t) inside s.minutes daily.minutes_sorted daily.minutes_below in
      let d : ℕ =
        units_ahead 60 s.minutes (minute t) * minute_ns - (second t * second_ns + nanosecond t) in
      omega (
        arith,
        up,
        c.add_lem t d,
        c.nanosecond_below t,
        c.nanosecond_below (add t d),
        c.second_lem t,
      )

  pub next_hour-At :
      (t : c.Time)
      → At (next_hour c s t) ((seconds t / 3600 + units_ahead 24 s.hours (hour t)) * 3600)
  unfolding next_hour
  next_hour-At t =
      let inside : hour t < 24 = rw (c.hour_lem t) (omega arith) in
      let up = units_ahead_pos 24 (hour t) inside s.hours daily.hours_sorted daily.hours_below in
      let d : ℕ =
        units_ahead 24 s.hours (hour t) * hour_ns
        - (minute t * minute_ns + second t * second_ns + nanosecond t) in
      omega (
        arith,
        up,
        c.add_lem t d,
        c.nanosecond_below t,
        c.nanosecond_below (add t d),
        c.second_lem t,
        c.minute_lem t,
      )

  pub next_day-At : (t : c.Time) → At (next_day c s t) ((seconds t / 86400 + 1) * 86400)
  unfolding next_day next_day_of
  next_day-At t = rw daily.any_day (c.date_tomorrow t)
