-- ===== src/Timeutil/Schedule.antt =====
-- ScheduledTicker of timeutil/scheduler.go: its fields, and the tests of a time against them.
use go_utils.Prelude.{ℕ, Bool, true, false, List, [], ◌∷◌, nat_beq, if◌then◌else◌}
use go_utils.Timeutil.Clock.{Clock}

-- An empty list means every value.
pub record ScheduledTicker : Type 0 where
  pub seconds : List ℕ
  pub minutes : List ℕ
  pub hours : List ℕ
  pub days : List ℕ
  pub months : List ℕ
  pub weekdays : List ℕ

-- The loop of the tests.
unfoldable pub is_listed : List ℕ → ℕ → Bool
is_listed [] n = false
is_listed (v ∷ vs) n = if nat_beq v n then true else is_listed vs n

-- `if len(…) == 0 { return true }` and the loop
unfoldable pub match_value : List ℕ → ℕ → Bool
unfolding is_listed
match_value [] n = true
match_value (v ∷ vs) n = is_listed (v ∷ vs) n

module _ (c : Clock) (s : ScheduledTicker) where
  unfoldable pub match_second : c.Time → Bool
  match_second at = match_value s.seconds (c.second at)

  unfoldable pub match_minute : c.Time → Bool
  match_minute at = match_value s.minutes (c.minute at)

  unfoldable pub match_hour : c.Time → Bool
  match_hour at = match_value s.hours (c.hour at)

  unfoldable pub match_day : c.Time → Bool
  match_day at = match_value s.days (c.day at)

  unfoldable pub match_month : c.Time → Bool
  match_month at = match_value s.months (c.month at)

  unfoldable pub match_weekday : c.Time → Bool
  match_weekday at = match_value s.weekdays (c.weekday at)
