-- ===== src/Timeutil/Next/Search.antt =====
-- Next of timeutil/scheduler.go as a search for a time.
use go_utils.Prelude.Rounds.{again, stop, iterate}
use go_utils.Prelude.{
  ℕ, zero, suc, ◌-◌, ◌/◌, ◌≤◌, ◌<◌, ◌≡◌, refl, inl, inr, true, false, Option, none, some, arith,
  ltb, leb, Bool-cases,
}
use go_utils.Timeutil.Clock.{Clock}
use go_utils.Timeutil.Schedule.{
  ScheduledTicker, match_value, match_second, match_minute, match_hour, match_day, match_month,
  match_weekday,
}
use go_utils.Timeutil.Next.{next_second, next_minute, next_hour, next_day, next_round, next}
use go_utils.Timeutil.Next.Ahead.{
  sixty, twenty_four, between_unmatched, from_unmatched, units_ahead_pos,
}
use go_utils.Timeutil.Next.First.{
  IsDaily, next_second-At, next_minute-At, next_hour-At, next_day-At,
}

module _ (c : Clock) (s : ScheduledTicker) where
  -- The time is one of the schedule.
  abbrev pub Matches : c.Time → Type 0
  Matches t =
      (match_month c s t ≡ true)
      × (match_weekday c s t ≡ true)
      × (match_day c s t ≡ true)
      × (match_hour c s t ≡ true)
      × (match_minute c s t ≡ true)
      × (match_second c s t ≡ true)

  -- `u` is no later than any time of the schedule that is not before second `n`.
  abbrev pub NoLater : ℕ → c.Time → Type 0
  NoLater n u = (m : c.Time) → Matches m → n ≤ c.seconds m → c.seconds u ≤ c.seconds m

  -- A search ended with the first time of the schedule from second `n` on.
  pub record IsFirst (n : ℕ) (o : Option c.Time) : Type 0 where
    pub time : c.Time
    pub is_some : o ≡ some time
    pub matches : Matches time
    pub whole : c.nanosecond time ≡ 0
    pub not_before : n ≤ c.seconds time
    pub first : NoLater n time

module _ (c : Clock) (s : ScheduledTicker) (daily : IsDaily s) where
  open c use {seconds, nanosecond, second, minute, hour}

  next_second-NoLater : (t : c.Time) → NoLater c s (suc (seconds t)) (next_second c s t)
  unfolding match_second
  next_second-NoLater t m h l = elim (Bool-cases (leb (seconds (next_second c s t)) (seconds m))) [
    | inl done ↦ ground arith
    | inr before ↦
        let (e, z) = next_second-At c s daily t in
        let no =
          between_unmatched 60 sixty s.seconds daily.seconds_sorted daily.seconds_below (seconds t)
            (seconds m) (omega arith) (rw (← c.second_lem t) (ground arith)) in
        cc (h.5, c.second_lem m)
  ]

  minute_jump :
      (t : c.Time) → match_minute c s t ≡ false → NoLater c s (seconds t) (next_minute c s t)
  unfolding match_minute
  minute_jump t no_match m h l = elim (Bool-cases (leb (seconds (next_minute c s t)) (seconds m))) [
    | inl done ↦ ground arith
    | inr before ↦
        let (e, z) = next_minute-At c s daily t in
        let no =
          from_unmatched 60 sixty s.minutes daily.minutes_sorted daily.minutes_below
            (seconds t / 60) (seconds m / 60) (omega arith) (rw (← c.minute_lem t) (ground arith))
            (rw (← c.minute_lem t) no_match) in
        cc (c.minute_lem m, h.4)
  ]

  hour_jump : (t : c.Time) → match_hour c s t ≡ false → NoLater c s (seconds t) (next_hour c s t)
  unfolding match_hour
  hour_jump t no_match m h l = elim (Bool-cases (leb (seconds (next_hour c s t)) (seconds m))) [
    | inl done ↦ ground arith
    | inr before ↦
        let (e, z) = next_hour-At c s daily t in
        let no =
          from_unmatched 24 twenty_four s.hours daily.hours_sorted daily.hours_below
            (seconds t / 3600) (seconds m / 3600) (omega arith) (rw (← c.hour_lem t) (ground arith))
            (rw (← c.hour_lem t) no_match) in
        cc (c.hour_lem m, h.3)
  ]

  day_jump : (t : c.Time) → match_weekday c s t ≡ false → NoLater c s (seconds t) (next_day c s t)
  unfolding match_weekday
  day_jump t no_match m h l = elim (Bool-cases (leb (seconds (next_day c s t)) (seconds m))) [
    | inl done ↦ ground arith
    | inr before ↦
        let (e, z) = next_day-At c s daily t in
        let same = c.weekday_lem t m (ground arith) in cc (h.1)
  ]

  second_jump :
      (t : c.Time) → match_second c s t ≡ false → NoLater c s (seconds t) (next_second c s t)
  unfolding match_second
  second_jump t no_match m h l = elim (Bool-cases (ltb (seconds t) (seconds m))) [
    | inl after ↦ next_second-NoLater t m h (ground arith)
    | inr now ↦
        let same : seconds t ≡ seconds m = ground arith in
        cc (h.5, c.second_lem m, c.second_lem t, same)
  ]

  -- A round ends at a time of the schedule, or goes on to a later whole second that misses none.
  data RoundIs (t : c.Time) : Type 0 where
    found : next_round c s t ≡ stop (some t) → Matches c s t → RoundIs t
    jump :
        (u : c.Time)
        → next_round c s t ≡ again u
        → seconds t < seconds u
        → nanosecond u ≡ 0
        → NoLater c s (seconds t) u
        → RoundIs t

  any_month : (t : c.Time) → match_month c s t ≡ true
  unfolding match_month match_value
  any_month t = rw daily.any_month refl

  any_day : (t : c.Time) → match_day c s t ≡ true
  unfolding match_day match_value
  any_day t = rw daily.any_day refl

  later_second : (t : c.Time) → seconds t < seconds (next_second c s t)
  later_second t =
      let (e, z) = next_second-At c s daily t in
      let inside : second t < 60 = rw (c.second_lem t) (omega arith) in
      let up =
        units_ahead_pos 60 (second t) inside s.seconds daily.seconds_sorted daily.seconds_below in
      omega arith

  later_minute : (t : c.Time) → seconds t < seconds (next_minute c s t)
  later_minute t =
      let (e, z) = next_minute-At c s daily t in
      let inside : minute t < 60 = rw (c.minute_lem t) (omega arith) in
      let up =
        units_ahead_pos 60 (minute t) inside s.minutes daily.minutes_sorted daily.minutes_below in
      omega arith

  later_hour : (t : c.Time) → seconds t < seconds (next_hour c s t)
  later_hour t =
      let (e, z) = next_hour-At c s daily t in
      let inside : hour t < 24 = rw (c.hour_lem t) (omega arith) in
      let up = units_ahead_pos 24 (hour t) inside s.hours daily.hours_sorted daily.hours_below in
      omega arith

  later_day : (t : c.Time) → seconds t < seconds (next_day c s t)
  later_day t = let (e, z) = next_day-At c s daily t in omega arith

  round_cases : (t : c.Time) → RoundIs t
  unfolding next_round
  round_cases t = elim (Bool-cases (match_weekday c s t)) [
    | inr w ↦
        jump (next_day c s t) (rw (any_month t, w) refl) (later_day t) (next_day-At c s daily t).1
          (day_jump t w)
    | inl w ↦ elim (Bool-cases (match_hour c s t)) [
      | inr h ↦
          jump (next_hour c s t) (rw (any_month t, w, any_day t, h) refl) (later_hour t)
            (next_hour-At c s daily t).1 (hour_jump t h)
      | inl h ↦ elim (Bool-cases (match_minute c s t)) [
        | inr m ↦
            jump (next_minute c s t) (rw (any_month t, w, any_day t, h, m) refl) (later_minute t)
              (next_minute-At c s daily t).1 (minute_jump t m)
        | inl m ↦ elim (Bool-cases (match_second c s t)) [
          | inr d ↦
              jump (next_second c s t) (rw (any_month t, w, any_day t, h, m, d) refl)
                (later_second t) (next_second-At c s daily t).1 (second_jump t d)
          | inl d ↦
              found (rw (any_month t, w, any_day t, h, m, d) refl)
                (any_month t, w, any_day t, h, m, d)
        ]
      ]
    ]
  ]

  search_from :
      (rounds : ℕ) (t m : c.Time)
      → nanosecond t ≡ 0
      → Matches c s m
      → seconds t ≤ seconds m
      → seconds m - seconds t < rounds
      → IsFirst c s (seconds t) (iterate (next_round c s) (λ u. none) rounds t)
  unfolding iterate
  search_from zero t m z h l f = absurd (omega arith)
  search_from (suc rounds) t m z h l f = elim (round_cases t) [
    | found e g ↦
        rw (e, iterate)
          (record {
            time = t;
            is_some = refl;
            matches = g;
            whole = z;
            not_before = omega arith;
            first = λ m' i j. j;
          })
    | jump u e up zu late ↦
        let near : seconds u ≤ seconds m = late m h l in
        let rest = search_from rounds u m zu h near (omega arith) in
        rw (e, iterate)
          (record {
            time = rest.time;
            is_some = rest.is_some;
            matches = rest.matches;
            whole = rest.whole;
            not_before = let b : seconds u ≤ seconds rest.time = rest.not_before in omega arith;
            first = λ m' i j. rest.first m' i (late m' i j);
          })
  ]

  -- For a schedule that names no days of the month and no months, if some time `m` of the schedule comes
  -- in a later second than `at`, then Next ends, after at most as many rounds as seconds lie between them,
  -- with the first time of the schedule that comes in a later second than `at`, a whole second.
  pub next-IsFirst :
      (at m : c.Time)
      → Matches c s m
      → seconds at < seconds m
      → IsFirst c s (suc (seconds at)) (next c s (seconds m - seconds at) at)
  unfolding next
  next-IsFirst at m h l =
      let near : seconds (next_second c s at) ≤ seconds m =
        next_second-NoLater at m h (omega arith) in
      let up = later_second at in
      let rest =
        search_from (seconds m - seconds at) (next_second c s at) m (next_second-At c s daily at).1
          h near (omega arith) in
      record {
        time = rest.time;
        is_some = rest.is_some;
        matches = rest.matches;
        whole = rest.whole;
        not_before =
            let b : seconds (next_second c s at) ≤ seconds rest.time = rest.not_before in
            omega arith;
        first = λ m' i j. rest.first m' i (next_second-NoLater at m' i j);
      }
