-- ===== src/Timeutil/Spec/Parsed.antt =====
-- What parse of timeutil/scheduler.go leaves in a schedule.
use go_utils.Prelude.{
  ℕ, ◌<◌, ◌≡◌, refl, inl, inr, Bool, true, false, Option, none, some, List, [], ◌∷◌, arith, ltb,
  nat_beq, if◌then◌else◌, Bool-cases, length, get_elem?, All, Bytes, codes,
}
use go_utils.Prelude.Sorted.{IsSorted}
use go_utils.Timeutil.Schedule.{ScheduledTicker}
use go_utils.Timeutil.Spec.{
  split, trim_suffix, parse_all, tidy, parse_values, parse_part, Parsing, going, failed,
  parse_field, nil_if_full, normalise, parse_parts, parse,
}
use go_utils.Timeutil.Spec.Values.{
  parse_second, parse_minute, parse_hour, parse_day, parse_month, parse_weekday,
}
use go_utils.Timeutil.Spec.RoundTrip.{IsField, IsSchedule}
use go_utils.Prelude.{nat_comparable}
use go_utils.Timeutil.Spec.Ranges.{
  Between, Within, second-Within, minute-Within, hour-Within, day-Within, month-Within,
  weekday-Within,
}
use go_utils.Timeutil.Spec.Sorting.{tidy-IsSorted, tidy_all}

-- What parsing gives, when it gives something.
abbrev Gives : (List ℕ → Type 0) → Option (List ℕ) → Type 0
Gives Q none = Unit
Gives Q (some ns) = Q ns

module _ (low high : ℕ) (fn : Bytes → Option ℕ) (within : Within low high fn) where
  abbrev IsPart : List ℕ → Type 0
  IsPart ns = IsSorted ns × All (Between low high) ns

  both_given :
      (o : Option ℕ) (os : Option (List ℕ))
      → ((n : ℕ) → o ≡ some n → Between low high n)
      → Gives (All (Between low high)) os
      → Gives
          (All (Between low high))
          (elim o [ none ↦ none | some n ↦ elim os [ none ↦ none | some ns ↦ some (n ∷ ns) ] ])
  both_given none os h k = tt
  both_given (some n) none h k = tt
  both_given (some n) (some ns) h k = (h n refl, k)

  tidied_given :
      (o : Option (List ℕ))
      → Gives (All (Between low high)) o
      → Gives IsPart (elim o [ none ↦ none | some ns ↦ some (tidy ns) ])
  tidied_given none h = tt
  tidied_given (some ns) h = (tidy-IsSorted ns, tidy_all (Between low high) ns h)

  either_given :
      (b : Bool) (o p : Option (List ℕ))
      → Gives IsPart o
      → Gives IsPart p
      → Gives IsPart (if b then o else p)
  either_given true o p h k = h
  either_given false o p h k = k

  parse_all-Gives : (ps : List Bytes) → Gives (All (Between low high)) (parse_all fn ps)
  unfolding parse_all
  parse_all-Gives [] = tt
  parse_all-Gives (p ∷ ps) = both_given (fn p) (parse_all fn ps) (within p) (parse_all-Gives ps)

  parse_part-Gives : (part suffix : Bytes) → Gives IsPart (parse_part part suffix fn)
  unfolding parse_part parse_values
  parse_part-Gives part suffix =
      either_given _ (some []) _ (tt, tt)
        (tidied_given _ (parse_all-Gives (split b',' (trim_suffix part suffix))))

abbrev Keeps : (ScheduledTicker → Type 0) → Parsing → Type 0
Keeps Q (going s) = Q s
Keeps Q (failed s) = Unit

-- The six lists, before those that name every value are emptied.
record AreParts (s : ScheduledTicker) : Type 0 where
  seconds : IsPart 0 60 parse_second second-Within s.seconds
  minutes : IsPart 0 60 parse_minute minute-Within s.minutes
  hours : IsPart 0 24 parse_hour hour-Within s.hours
  days : IsPart 1 32 parse_day day-Within s.days
  months : IsPart 1 13 parse_month month-Within s.months
  weekdays : IsPart 0 7 parse_weekday weekday-Within s.weekdays

parse_field-Keeps :
    (Q : ScheduledTicker → Type 0) (put : List ℕ → ScheduledTicker → ScheduledTicker)
    (suffix : Bytes) (low high : ℕ) (fn : Bytes → Option ℕ) (within : Within low high fn)
    → ((ns : List ℕ) (u : ScheduledTicker) → IsPart low high fn within ns → Q u → Q (put ns u))
    → (part : Option Bytes) (p : Parsing) → Keeps Q p
    → Keeps Q (parse_field put suffix fn part p)
unfolding parse_field
parse_field-Keeps Q put suffix low high fn within puts none p h = h
parse_field-Keeps Q put suffix low high fn within puts (some part) (failed u) h = tt
parse_field-Keeps Q put suffix low high fn within puts (some part) (going u) h =
    kept (parse_part part suffix fn) (parse_part-Gives low high fn within part suffix)
  where
    kept :
        (o : Option (List ℕ))
        → Gives (IsPart low high fn within) o
        → Keeps Q (elim o [ none ↦ failed (put [] u) | some ns ↦ going (put ns u) ])
    kept none g = tt
    kept (some ns) g = puts ns u g h

module _ (parts : List Bytes) (t : ScheduledTicker) (h : AreParts t) where
  abbrev after_seconds : Parsing
  after_seconds =
      parse_field (λ ns u. record u { seconds = ns }) (codes "s") parse_second (get_elem? parts 0)
        (going t)

  after_seconds-Keeps : Keeps AreParts after_seconds
  after_seconds-Keeps =
      parse_field-Keeps AreParts (λ ns u. record u { seconds = ns }) (codes "s") 0 60 parse_second
        second-Within
        (λ ns u p k. record {
          seconds = p;
          minutes = k.minutes;
          hours = k.hours;
          days = k.days;
          months = k.months;
          weekdays = k.weekdays;
        })
        (get_elem? parts 0) (going t) h

  abbrev after_minutes : Parsing
  after_minutes =
      parse_field (λ ns u. record u { minutes = ns }) (codes "m") parse_minute (get_elem? parts 1)
        after_seconds

  after_minutes-Keeps : Keeps AreParts after_minutes
  after_minutes-Keeps =
      parse_field-Keeps AreParts (λ ns u. record u { minutes = ns }) (codes "m") 0 60 parse_minute
        minute-Within
        (λ ns u p k. record {
          seconds = k.seconds;
          minutes = p;
          hours = k.hours;
          days = k.days;
          months = k.months;
          weekdays = k.weekdays;
        })
        (get_elem? parts 1) after_seconds after_seconds-Keeps

  abbrev after_hours : Parsing
  after_hours =
      parse_field (λ ns u. record u { hours = ns }) (codes "h") parse_hour (get_elem? parts 2)
        after_minutes

  after_hours-Keeps : Keeps AreParts after_hours
  after_hours-Keeps =
      parse_field-Keeps AreParts (λ ns u. record u { hours = ns }) (codes "h") 0 24 parse_hour
        hour-Within
        (λ ns u p k. record {
          seconds = k.seconds;
          minutes = k.minutes;
          hours = p;
          days = k.days;
          months = k.months;
          weekdays = k.weekdays;
        })
        (get_elem? parts 2) after_minutes after_minutes-Keeps

  abbrev after_days : Parsing
  after_days =
      parse_field (λ ns u. record u { days = ns }) (codes "d") parse_day (get_elem? parts 3)
        after_hours

  after_days-Keeps : Keeps AreParts after_days
  after_days-Keeps =
      parse_field-Keeps AreParts (λ ns u. record u { days = ns }) (codes "d") 1 32 parse_day
        day-Within
        (λ ns u p k. record {
          seconds = k.seconds;
          minutes = k.minutes;
          hours = k.hours;
          days = p;
          months = k.months;
          weekdays = k.weekdays;
        })
        (get_elem? parts 3) after_hours after_hours-Keeps

  abbrev after_months : Parsing
  after_months =
      parse_field (λ ns u. record u { months = ns }) [] parse_month (get_elem? parts 4) after_days

  after_months-Keeps : Keeps AreParts after_months
  after_months-Keeps =
      parse_field-Keeps AreParts (λ ns u. record u { months = ns }) [] 1 13 parse_month month-Within
        (λ ns u p k. record {
          seconds = k.seconds;
          minutes = k.minutes;
          hours = k.hours;
          days = k.days;
          months = p;
          weekdays = k.weekdays;
        })
        (get_elem? parts 4) after_days after_days-Keeps

  parse_parts-Keeps : Keeps AreParts (parse_parts parts t)
  unfolding parse_parts
  parse_parts-Keeps =
      parse_field-Keeps AreParts (λ ns u. record u { weekdays = ns }) [] 0 7 parse_weekday
        weekday-Within
        (λ ns u p k. record {
          seconds = k.seconds;
          minutes = k.minutes;
          hours = k.hours;
          days = k.days;
          months = k.months;
          weekdays = p;
        })
        (get_elem? parts 5) after_months after_months-Keeps

nil_if_full-IsField :
    (low high full : ℕ) (ns : List ℕ)
    → 0 < full
    → IsSorted ns
    → All (Between low high) ns
    → IsField low high full (nil_if_full full ns)
unfolding nil_if_full
nil_if_full-IsField low high full ns l h k = elim (Bool-cases (nat_beq (length ns) full)) [
  | inl c ↦ rw c (record { sorted = tt; in_range = tt; not_full = λ e. omega arith })
  | inr c ↦ rw c (record { sorted = h; in_range = k; not_full = λ e. ground arith })
]

normalise-Keeps : (p : Parsing) → Keeps AreParts p → Keeps IsSchedule (normalise p)
unfolding normalise
normalise-Keeps (failed s) h = tt
normalise-Keeps (going s) h = record {
  seconds = nil_if_full-IsField 0 60 60 s.seconds (omega arith) h.seconds.0 h.seconds.1;
  minutes = nil_if_full-IsField 0 60 60 s.minutes (omega arith) h.minutes.0 h.minutes.1;
  hours = nil_if_full-IsField 0 24 24 s.hours (omega arith) h.hours.0 h.hours.1;
  days = nil_if_full-IsField 1 32 31 s.days (omega arith) h.days.0 h.days.1;
  months = nil_if_full-IsField 1 13 12 s.months (omega arith) h.months.0 h.months.1;
  weekdays = nil_if_full-IsField 0 7 7 s.weekdays (omega arith) h.weekdays.0 h.weekdays.1;
}

IsSchedule-AreParts : (s : ScheduledTicker) → IsSchedule s → AreParts s
IsSchedule-AreParts s v = record {
  seconds = (v.seconds.sorted, v.seconds.in_range);
  minutes = (v.minutes.sorted, v.minutes.in_range);
  hours = (v.hours.sorted, v.hours.in_range);
  days = (v.days.sorted, v.days.in_range);
  months = (v.months.sorted, v.months.in_range);
  weekdays = (v.weekdays.sorted, v.weekdays.in_range);
}

parse-Keeps : (spec : Bytes) (t : ScheduledTicker) → AreParts t → Keeps IsSchedule (parse spec t)
unfolding parse
parse-Keeps [] t h = tt
parse-Keeps (c ∷ spec) t h = elim (Bool-cases (ltb 6 (length (split b' ' (c ∷ spec))))) [
  | inl many ↦ rw many tt
  | inr few ↦ rw few (normalise-Keeps _ (parse_parts-Keeps (split b' ' (c ∷ spec)) t h))
]

-- If parse accepts a text, then the six lists of the schedule are strictly increasing, within the range of
-- their field and not the whole of it, provided that those of the receiver, which parse keeps where the text
-- leaves a field out, were so.
pub parse-IsSchedule :
    (spec : Bytes) (t s : ScheduledTicker) → IsSchedule t → parse spec t ≡ going s → IsSchedule s
parse-IsSchedule spec t s v e =
    let kept = parse-Keeps spec t (IsSchedule-AreParts t v) in rw e at kept
