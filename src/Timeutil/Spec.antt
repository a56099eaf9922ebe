-- ===== src/Timeutil/Spec.antt =====
-- The text of a ScheduledTicker, timeutil/scheduler.go: parse and String, over the functions of strings and
-- strconv that they call.
pub mod Values
pub mod Shown
pub mod Lists
pub mod RoundTrip
pub mod Ranges
pub mod Sorting
pub mod Parsed
use go_utils.Prelude.Int.{ℤ, pos, negsuc, neg_of, ltb_ℤ}
use go_utils.Prelude.{
  ℕ, ◌-◌, ◌*◌, ◌&&◌, Option, none, some, List, [], ◌∷◌, ◌++◌, ltb, leb, nat_beq, if◌then◌else◌,
  length, get_elem?, take, drop, Bytes, codes, bytes_eq,
}
use go_utils.Sliceutil.{unique}
use go_utils.Prelude.{nat_comparable}
use go_utils.Timeutil.Schedule.{ScheduledTicker}
use go_utils.Timeutil.Spec.Values.{
  parse_second, parse_minute, parse_hour, parse_day, parse_month, parse_weekday, number_text,
  month_text, weekday_text,
}

-- strings.Split by one byte
unfoldable pub on_first : ℕ → List Bytes → List Bytes
on_first c [] = (c ∷ []) ∷ []
on_first c (p ∷ ps) = (c ∷ p) ∷ ps

unfoldable pub split : ℕ → Bytes → List Bytes
unfolding on_first
split sep [] = [] ∷ []
split sep (c ∷ s) = let rest = split sep s in if nat_beq c sep then [] ∷ rest else on_first c rest

-- strings.TrimSuffix
unfoldable pub trim_suffix : Bytes → Bytes → Bytes
trim_suffix s suffix =
    if leb (length suffix) (length s) && bytes_eq (drop (length s - length suffix) s) suffix
    then take (length s - length suffix) s
    else s

-- The loop of parsePart.
unfoldable pub parse_all : (Bytes → Option ℕ) → List Bytes → Option (List ℕ)
parse_all fn [] = some []
parse_all fn (p ∷ ps) = elim (fn p) [
  | none ↦ none
  | some n ↦ elim (parse_all fn ps) [ none ↦ none | some ns ↦ some (n ∷ ns) ]
]

-- sort.Slice by `<`
unfoldable pub insert_sorted : ℕ → List ℕ → List ℕ
insert_sorted n [] = n ∷ []
insert_sorted n (m ∷ ms) = let rest = insert_sorted n ms in if ltb m n then m ∷ rest else n ∷ m ∷ ms

unfoldable pub sort_nums : List ℕ → List ℕ
unfolding insert_sorted
sort_nums [] = []
sort_nums (n ∷ ns) = insert_sorted n (sort_nums ns)

-- The end of parsePart.
unfoldable pub tidy : List ℕ → List ℕ
unfolding sort_nums unique
tidy (n ∷ []) = n ∷ []
tidy ns = unique (sort_nums ns ∷ [])

unfoldable pub parse_values : (Bytes → Option ℕ) → Bytes → Option (List ℕ)
unfolding split parse_all tidy
parse_values fn part =
    if bytes_eq part (codes "*")
    then some []
    else elim (parse_all fn (split b',' part)) [ none ↦ none | some ns ↦ some (tidy ns) ]

unfoldable pub parse_part : Bytes → Bytes → (Bytes → Option ℕ) → Option (List ℕ)
unfolding parse_values trim_suffix
parse_part part suffix fn = parse_values fn (trim_suffix part suffix)

-- The receiver and what parse returns: an error, or none so far.
pub data Parsing : Type 0 where
  going : ScheduledTicker → Parsing
  failed : ScheduledTicker → Parsing

-- `if len(parts) >= … { if s.… , err = parsePart(…); err != nil { return err } }`: with an error the field
-- becomes nil.
unfoldable pub parse_field :
    (List ℕ → ScheduledTicker → ScheduledTicker)
    → Bytes
    → (Bytes → Option ℕ)
    → Option Bytes
    → Parsing
    → Parsing
unfolding parse_part
parse_field put suffix fn none p = p
parse_field put suffix fn (some part) (failed s) = failed s
parse_field put suffix fn (some part) (going s) = elim (parse_part part suffix fn) [
  | none ↦ failed (put [] s)
  | some ns ↦ going (put ns s)
]

unfoldable pub nil_if_full : ℕ → List ℕ → List ℕ
nil_if_full n ns = if nat_beq (length ns) n then [] else ns

unfoldable pub normalise : Parsing → Parsing
unfolding nil_if_full
normalise (failed s) = failed s
normalise (going s) = going (record {
  seconds = nil_if_full 60 s.seconds;
  minutes = nil_if_full 60 s.minutes;
  hours = nil_if_full 24 s.hours;
  days = nil_if_full 31 s.days;
  months = nil_if_full 12 s.months;
  weekdays = nil_if_full 7 s.weekdays;
})

unfoldable pub parse_parts : List Bytes → ScheduledTicker → Parsing
unfolding parse_field
parse_parts parts s =
    parse_field (λ ns t. record t { weekdays = ns }) [] parse_weekday (get_elem? parts 5)
      (parse_field (λ ns t. record t { months = ns }) [] parse_month (get_elem? parts 4)
        (parse_field (λ ns t. record t { days = ns }) (codes "d") parse_day (get_elem? parts 3)
          (parse_field (λ ns t. record t { hours = ns }) (codes "h") parse_hour (get_elem? parts 2)
            (parse_field (λ ns t. record t { minutes = ns }) (codes "m") parse_minute
              (get_elem? parts 1)
              (parse_field (λ ns t. record t { seconds = ns }) (codes "s") parse_second
                (get_elem? parts 0) (going s))))))

-- parse, and with it UnmarshalText
unfoldable pub parse : Bytes → ScheduledTicker → Parsing
unfolding parse_parts split normalise
parse [] s = failed s
parse (c ∷ spec) s =
    let parts = split b' ' (c ∷ spec) in
    if ltb 6 (length parts) then failed s else normalise (parse_parts parts s)

-- writeNums, writeMonths and writeWeekdays, with the text of one value
unfoldable pub join_values : (ℕ → Bytes) → List ℕ → Bytes
join_values show [] = []
join_values show (n ∷ []) = show n
join_values show (n ∷ m ∷ ns) = show n ++ b',' ∷ join_values show (m ∷ ns)

unfoldable pub write_values : (ℕ → Bytes) → List ℕ → Bytes
unfolding join_values
write_values show [] = codes "*"
write_values show (n ∷ ns) = join_values show (n ∷ ns)

-- String, and with it MarshalText
unfoldable pub schedule_text : ScheduledTicker → Bytes
unfolding write_values
schedule_text s =
    write_values number_text s.seconds
    ++ b's'
      ∷ b' '
      ∷ (write_values number_text s.minutes
          ++ b'm'
            ∷ b' '
            ∷ (write_values number_text s.hours
                ++ b'h'
                  ∷ b' '
                  ∷ (write_values number_text s.days
                      ++ b'd'
                        ∷ b' '
                        ∷ (write_values month_text s.months
                            ++ b' ' ∷ write_values weekday_text s.weekdays))))
