-- ===== src/Timeutil/Spec/RoundTrip.antt =====
-- parse and String of timeutil/scheduler.go on whole schedules.
use go_utils.Prelude.{
  ℕ, ◌≤◌, ◌<◌, ◌≡◌, refl, sym, ap, ◌∙◌, ◌≢◌, true, false, Option, none, some, List, [], ◌∷◌, ◌++◌,
  append-nil, arith, ltb, leb, length, All, Bytes, codes,
}
use go_utils.Timeutil.Schedule.{ScheduledTicker}
use go_utils.Prelude.Sorted.{IsSorted}
use go_utils.Timeutil.Spec.{
  split, Parsing, going, failed, parse_field, nil_if_full, normalise, parse_parts, parse,
  write_values, schedule_text,
}
use go_utils.Timeutil.Spec.Values.{
  parse_second, parse_minute, parse_hour, parse_day, parse_month, parse_weekday, number_text,
  month_text, weekday_text,
}
use go_utils.Timeutil.Spec.Shown.{
  Shows, second-Shows, minute-Shows, hour-Shows, day-Shows, month-Shows, weekday-Shows,
}
use go_utils.Timeutil.Spec.Lists.{
  AreShown, write_values_spaces, parse_part_written, split_written, split_piece, split_last,
}

-- Sorted values of the field's range, with none twice, and not all of them.
pub record IsField (low high full : ℕ) (ns : List ℕ) : Type 0 where
  pub sorted : IsSorted ns
  pub in_range : All (λ n. (low ≤ n) × (n < high)) ns
  pub not_full : length ns ≢ full

pub record IsSchedule (s : ScheduledTicker) : Type 0 where
  pub seconds : IsField 0 60 60 s.seconds
  pub minutes : IsField 0 60 60 s.minutes
  pub hours : IsField 0 24 24 s.hours
  pub days : IsField 1 32 31 s.days
  pub months : IsField 1 13 12 s.months
  pub weekdays : IsField 0 7 7 s.weekdays

all_shown :
    (fn : Bytes → Option ℕ) (show : ℕ → Bytes) (low high : ℕ)
    → ((n : ℕ) → low ≤ n → n < high → Shows fn show n)
    → (ns : List ℕ) → All (λ n. (low ≤ n) × (n < high)) ns
    → AreShown fn show ns
all_shown fn show low high f [] h = tt
all_shown fn show low high f (n ∷ ns) ((l, k), h) = (f n l k, all_shown fn show low high f ns h)

written_first :
    (fn : Bytes → Option ℕ) (show : ℕ → Bytes) (ns : List ℕ) (suffix : ℕ)
    → AreShown fn show ns
    → suffix ≢ b' '
    → (rest : Bytes) (ps : List Bytes) → split b' ' rest ≡ ps
    → split b' ' (write_values show ns ++ suffix ∷ b' ' ∷ rest)
      ≡ (write_values show ns ++ suffix ∷ []) ∷ ps
written_first fn show ns suffix h n rest ps e =
    split_written fn show ns suffix rest h n
    ∙ ap (λ qs. (write_values show ns ++ suffix ∷ []) ∷ qs) e

module _ (s : ScheduledTicker) (v : IsSchedule s) where
  seconds_shown : AreShown parse_second number_text s.seconds
  seconds_shown =
      all_shown parse_second number_text 0 60 (λ n l h. second-Shows n h) s.seconds
        v.seconds.in_range

  minutes_shown : AreShown parse_minute number_text s.minutes
  minutes_shown =
      all_shown parse_minute number_text 0 60 (λ n l h. minute-Shows n h) s.minutes
        v.minutes.in_range

  hours_shown : AreShown parse_hour number_text s.hours
  hours_shown =
      all_shown parse_hour number_text 0 24 (λ n l h. hour-Shows n h) s.hours v.hours.in_range

  days_shown : AreShown parse_day number_text s.days
  days_shown =
      all_shown parse_day number_text 1 32 (λ n l h. day-Shows n (omega arith)) s.days
        v.days.in_range

  months_shown : AreShown parse_month month_text s.months
  months_shown =
      all_shown parse_month month_text 1 13 (λ n l h. month-Shows n (omega arith)) s.months
        v.months.in_range

  weekdays_shown : AreShown parse_weekday weekday_text s.weekdays
  weekdays_shown =
      all_shown parse_weekday weekday_text 0 7 (λ n l h. weekday-Shows n h) s.weekdays
        v.weekdays.in_range

  abbrev written : List Bytes
  written =
      (write_values number_text s.seconds ++ b's' ∷ [])
      ∷ (write_values number_text s.minutes ++ b'm' ∷ [])
      ∷ (write_values number_text s.hours ++ b'h' ∷ [])
      ∷ (write_values number_text s.days ++ b'd' ∷ [])
      ∷ write_values month_text s.months
      ∷ write_values weekday_text s.weekdays
      ∷ []

  months_last :
      split b' ' (write_values month_text s.months ++ b' ' ∷ write_values weekday_text s.weekdays)
      ≡ write_values month_text s.months ∷ write_values weekday_text s.weekdays ∷ []
  months_last =
      split_piece b' ' (write_values month_text s.months) (write_values weekday_text s.weekdays)
        (write_values_spaces parse_month month_text s.months months_shown)
      ∙ ap (λ ps. write_values month_text s.months ∷ ps)
          (split_last b' ' (write_values weekday_text s.weekdays)
            (write_values_spaces parse_weekday weekday_text s.weekdays weekdays_shown))

  split_text : split b' ' (schedule_text s) ≡ written
  unfolding schedule_text
  split_text =
      written_first parse_second number_text s.seconds b's' seconds_shown (λ e. ground (arith, e)) _
        _
        (written_first parse_minute number_text s.minutes b'm' minutes_shown
          (λ e. ground (arith, e)) _ _
          (written_first parse_hour number_text s.hours b'h' hours_shown (λ e. ground (arith, e)) _
            _
            (written_first parse_day number_text s.days b'd' days_shown (λ e. ground (arith, e)) _ _
              months_last)))

parse_parts_of :
    (spec : Bytes) (t : ScheduledTicker) (parts : List Bytes)
    → spec ≢ []
    → split b' ' spec ≡ parts
    → leb (length parts) 6 ≡ true
    → parse spec t ≡ normalise (parse_parts parts t)
unfolding parse
parse_parts_of [] t parts n e h = absurd (n refl)
parse_parts_of (c ∷ spec) t parts n e h =
    let l : ltb 6 (length parts) ≡ false = ground arith in rw (e, l) refl

field_read :
    (put : List ℕ → ScheduledTicker → ScheduledTicker) (suffix : Bytes) (fn : Bytes → Option ℕ)
    (show : ℕ → Bytes) (ns : List ℕ)
    → IsSorted ns
    → AreShown fn show ns
    → (p : Parsing) (u : ScheduledTicker) → p ≡ going u
    → parse_field put suffix fn (some (write_values show ns ++ suffix)) p ≡ going (put ns u)
unfolding parse_field
field_read put suffix fn show ns l h p u e =
    ap (parse_field put suffix fn (some (write_values show ns ++ suffix))) e
    ∙ ap (λ r. elim r as (λ r. Parsing) [ none ↦ failed (put [] u) | some ks ↦ going (put ks u) ])
        (parse_part_written fn show ns suffix l h)

plain_field :
    (put : List ℕ → ScheduledTicker → ScheduledTicker) (fn : Bytes → Option ℕ) (show : ℕ → Bytes)
    (ns : List ℕ)
    → IsSorted ns
    → AreShown fn show ns
    → (p : Parsing) (u : ScheduledTicker) → p ≡ going u
    → parse_field put [] fn (some (write_values show ns)) p ≡ going (put ns u)
plain_field put fn show ns l h p u e =
    ap (λ w. parse_field put [] fn (some w) p) (sym (append-nil (write_values show ns)))
    ∙ field_read put [] fn show ns l h p u e

append_some : (w : Bytes) (c : ℕ) (rest : Bytes) → w ++ c ∷ rest ≢ []
append_some [] c rest e = ground (arith, e)
append_some (d ∷ w) c rest e = ground (arith, e)

full_kept : (low high full : ℕ) (ns : List ℕ) → IsField low high full ns → nil_if_full full ns ≡ ns
unfolding nil_if_full
full_kept low high full ns f = let n = f.not_full in ground (arith, n)

module _ (s t : ScheduledTicker) (v : IsSchedule s) where
  normalise_kept : normalise (going s) ≡ going s
  unfolding normalise
  normalise_kept =
      rw
        (
          full_kept 0 60 60 s.seconds v.seconds,
          full_kept 0 60 60 s.minutes v.minutes,
          full_kept 0 24 24 s.hours v.hours,
          full_kept 1 32 31 s.days v.days,
          full_kept 1 13 12 s.months v.months,
          full_kept 0 7 7 s.weekdays v.weekdays,
        )
        refl

  parts_read : parse_parts (written s v) t ≡ going s
  unfolding parse_parts
  parts_read =
      plain_field (λ ks u. record u { weekdays = ks }) parse_weekday weekday_text s.weekdays
        v.weekdays.sorted (weekdays_shown s v) _ _
        (plain_field (λ ks u. record u { months = ks }) parse_month month_text s.months
          v.months.sorted (months_shown s v) _ _
          (field_read (λ ks u. record u { days = ks }) (codes "d") parse_day number_text s.days
            v.days.sorted (days_shown s v) _ _
            (field_read (λ ks u. record u { hours = ks }) (codes "h") parse_hour number_text s.hours
              v.hours.sorted (hours_shown s v) _ _
              (field_read (λ ks u. record u { minutes = ks }) (codes "m") parse_minute number_text
                s.minutes v.minutes.sorted (minutes_shown s v) _ _
                (field_read (λ ks u. record u { seconds = ks }) (codes "s") parse_second number_text
                  s.seconds v.seconds.sorted (seconds_shown s v) _ t refl)))))

  text_some : schedule_text s ≢ []
  unfolding schedule_text
  text_some = append_some (write_values number_text s.seconds) b's' _

  -- Given a schedule whose six lists are strictly increasing, within the range of their field and not the
  -- whole of it, parse accepts the text that String makes of it and leaves exactly this schedule in the
  -- receiver, whatever the receiver held.
  pub parse-schedule_text : parse (schedule_text s) t ≡ going s
  parse-schedule_text =
      parse_parts_of (schedule_text s) t (written s v) text_some (split_text s v) refl
      ∙ ap normalise parts_read
      ∙ normalise_kept
