-- ===== src/Timeutil/Examples.antt =====
-- Schedules on a concrete clock: the time is a number of nanoseconds, its day the number of whole days.
use go_utils.Prelude.{
  ℕ, ◌+◌, ◌*◌, ◌/◌, ◌%◌, ◌≡◌, refl, ap, true, false, none, some, List, [], ◌∷◌, arith,
}
use go_utils.Prelude.Int.{ℤ, pos}
use go_utils.Timeutil.Clock.{Clock}
use go_utils.Timeutil.Schedule.{
  ScheduledTicker, match_value, match_second, match_minute, match_hour, match_day, match_month,
  match_weekday,
}
use go_utils.Timeutil.Next.{next}
use go_utils.Timeutil.Next.First.{IsDaily}
use go_utils.Timeutil.Next.Search.{IsFirst, next-IsFirst}
use go_utils.Timeutil.Spec.{going, parse, schedule_text}
use go_utils.Timeutil.Scheduler.{Turn, next_interval, scheduler}
use go_utils.Timeutil.Scheduler.Ticks.{IsTicking, scheduler-IsTicking}
use go_utils.Timeutil.Ticker.{Event, cancelled, fired, Ticker, live, started, start}
use go_utils.Timeutil.Ticker.Lifecycle.{here, next as step, starts, IsSingle, Reach-IsSingle}
use go_utils.Timeutil.Spec.Parsed.{parse-IsSchedule}
use go_utils.Timeutil.Spec.RoundTrip.{IsSchedule, parse-schedule_text}

abbrev counted : Clock
counted = record {
  Time = ℕ;
  seconds = λ t. t / 1000000000;
  nanosecond = λ t. t % 1000000000;
  second = λ t. t / 1000000000 % 60;
  minute = λ t. t / 1000000000 / 60 % 60;
  hour = λ t. t / 1000000000 / 3600 % 24;
  day = λ t. t / 1000000000 / 86400;
  month = λ t. 1;
  year = λ t. 0;
  weekday = λ t. t / 1000000000 / 86400 % 7;
  date = λ y m d. d * 86400 * 1000000000;
  add = λ t d. t + d;
  nanosecond_below = λ t. omega arith;
  second_lem = λ t. refl;
  minute_lem = λ t. refl;
  hour_lem = λ t. refl;
  weekday_lem = λ t u e. ap (λ d. d % 7) e;
  add_lem = λ t d. omega arith;
  date_tomorrow = λ t. (omega arith, omega arith);
}

-- Mondays at half past every hour.
abbrev mondays : ScheduledTicker
mondays = record {
  seconds = 0 ∷ [];
  minutes = 30 ∷ [];
  hours = [];
  days = [];
  months = [];
  weekdays = 1 ∷ [];
}

mondays-IsDaily : IsDaily mondays
mondays-IsDaily = record {
  seconds_sorted = (tt, tt);
  seconds_below = (omega arith, tt);
  minutes_sorted = (tt, tt);
  minutes_below = (omega arith, tt);
  hours_sorted = tt;
  hours_below = tt;
  any_day = refl;
  any_month = refl;
}

mondays-IsSchedule : IsSchedule mondays
mondays-IsSchedule = record {
  seconds = record {
    sorted = (tt, tt);
    in_range = ((omega arith, omega arith), tt);
    not_full = λ e. omega arith;
  };
  minutes = record {
    sorted = (tt, tt);
    in_range = ((omega arith, omega arith), tt);
    not_full = λ e. omega arith;
  };
  hours = record { sorted = tt; in_range = tt; not_full = λ e. omega arith };
  days = record { sorted = tt; in_range = tt; not_full = λ e. omega arith };
  months = record { sorted = tt; in_range = tt; not_full = λ e. omega arith };
  weekdays = record {
    sorted = (tt, tt);
    in_range = ((omega arith, omega arith), tt);
    not_full = λ e. omega arith;
  };
}

half_past_twelve :
    (match_month counted mondays 131400000000000 ≡ true)
    × (match_weekday counted mondays 131400000000000 ≡ true)
    × (match_day counted mondays 131400000000000 ≡ true)
    × (match_hour counted mondays 131400000000000 ≡ true)
    × (match_minute counted mondays 131400000000000 ≡ true)
    × (match_second counted mondays 131400000000000 ≡ true)
unfolding match_month match_weekday match_day match_hour match_minute match_second match_value
half_past_twelve = (refl, refl, refl, refl, refl, refl)

next-IsFirst_example : IsFirst counted mondays 1 (next counted mondays 131400 0)
next-IsFirst_example =
    next-IsFirst counted mondays mondays-IsDaily 0 131400000000000 half_past_twelve (omega arith)

parse-schedule_text_example : parse (schedule_text mondays) mondays ≡ going mondays
parse-schedule_text_example = parse-schedule_text mondays mondays mondays-IsSchedule

-- A minute's interval: one tick, and the end of the context in the second sleep.
abbrev two_turns : List Turn
two_turns =
    record { now = pos 0; cancelled = false; received = true }
    ∷ record { now = pos 60000000000; cancelled = true; received = true }
    ∷ []

scheduler-IsTicking_example :
    IsTicking
      (next_interval (pos 60000000000))
      (pos 0)
      two_turns
      (scheduler (next_interval (pos 60000000000)) (pos 0) two_turns)
scheduler-IsTicking_example =
    scheduler-IsTicking (next_interval (pos 60000000000)) (pos 0) two_turns

abbrev three_ticks : List Event
three_ticks = fired (pos 1) ∷ fired (pos 3) ∷ fired (pos 5) ∷ cancelled ∷ []

abbrev idle_ticker : Ticker ℤ
idle_ticker = record { ctx = none; d = pos 5; routines = 0; stopping = 0 }

abbrev live_ticker : Ticker ℤ
live_ticker = record { ctx = some live; d = pos 5; routines = 1; stopping = 0 }

starts_live : start (some live) idle_ticker ≡ started live_ticker
unfolding start
starts_live = refl

Reach-IsSingle_example : IsSingle live_ticker
Reach-IsSingle_example =
    Reach-IsSingle (pos 5) live_ticker (step here (starts (some live) starts_live))

parse-IsSchedule_example : IsSchedule mondays
parse-IsSchedule_example =
    parse-IsSchedule (schedule_text mondays) mondays mondays mondays-IsSchedule
      parse-schedule_text_example
