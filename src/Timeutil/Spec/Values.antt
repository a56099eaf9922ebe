-- ===== src/Timeutil/Spec/Values.antt =====
-- The values in the text of a schedule, timeutil/scheduler.go. A month is its number from 1, a weekday its
-- number from 0.
use go_utils.Prelude.Int.{ℤ, pos, negsuc, neg_of}
use go_utils.Prelude.{
  ℕ, zero, suc, ◌+◌, ◌-◌, ◌*◌, ◌/◌, ◌%◌, Bool, true, false, ◌&&◌, Option, none, some, List, [], ◌∷◌,
  ltb, leb, nat_beq, if◌then◌else◌, get_or, Bytes, codes, bytes_eq,
}

-- strconv.Atoi. A number out of the range of an int is an error there; every caller refuses it here too.
unfoldable pub digits_value : ℕ → Bytes → Option ℕ
digits_value acc [] = some acc
digits_value acc (c ∷ s) =
    let rest = digits_value (acc * 10 + (c - b'0')) s in
    if leb b'0' c && leb c b'9' then rest else none

unfoldable pub unsigned_value : Bytes → Option ℕ
unfolding digits_value
unsigned_value [] = none
unsigned_value (c ∷ s) = digits_value 0 (c ∷ s)

unfoldable pub atoi : Bytes → Option ℤ
unfolding unsigned_value
atoi [] = none
atoi (c ∷ s) =
    if nat_beq c b'-'
    then (elim (unsigned_value s) [ none ↦ none | some n ↦ some (neg_of n) ])
    else if nat_beq c b'+'
    then (elim (unsigned_value s) [ none ↦ none | some n ↦ some (pos n) ])
    else elim (unsigned_value (c ∷ s)) [ none ↦ none | some n ↦ some (pos n) ]

-- A number of the range from `low` to `high`.
unfoldable pub in_range : ℕ → ℕ → Option ℤ → Option ℕ
in_range low high none = none
in_range low high (some (negsuc n)) = none
in_range low high (some (pos n)) = if leb low n && leb n high then some n else none

unfoldable pub parse_second : Bytes → Option ℕ
unfolding atoi in_range
parse_second s = in_range 0 59 (atoi s)

unfoldable pub parse_minute : Bytes → Option ℕ
unfolding atoi in_range
parse_minute s = in_range 0 59 (atoi s)

unfoldable pub parse_hour : Bytes → Option ℕ
unfolding atoi in_range
parse_hour s = in_range 0 23 (atoi s)

unfoldable pub parse_day : Bytes → Option ℕ
unfolding atoi in_range
parse_day s = in_range 1 31 (atoi s)

-- The first case of a switch that has the text.
unfoldable pub one_of : Bytes → List Bytes → Bool
one_of s [] = false
one_of s (t ∷ ts) = if bytes_eq s t then true else one_of s ts

unfoldable pub parse_month : Bytes → Option ℕ
unfolding one_of
parse_month s =
    if one_of s (codes "1" ∷ codes "jan" ∷ codes "january" ∷ [])
    then some 1
    else if one_of s (codes "2" ∷ codes "feb" ∷ codes "february" ∷ [])
    then some 2
    else if one_of s (codes "3" ∷ codes "mar" ∷ codes "march" ∷ [])
    then some 3
    else if one_of s (codes "4" ∷ codes "apr" ∷ codes "april" ∷ [])
    then some 4
    else if one_of s (codes "5" ∷ codes "may" ∷ [])
    then some 5
    else if one_of s (codes "6" ∷ codes "jun" ∷ codes "june" ∷ [])
    then some 6
    else if one_of s (codes "7" ∷ codes "jul" ∷ codes "july" ∷ [])
    then some 7
    else if one_of s (codes "8" ∷ codes "aug" ∷ codes "august" ∷ [])
    then some 8
    else if one_of s (codes "9" ∷ codes "sep" ∷ codes "september" ∷ [])
    then some 9
    else if one_of s (codes "10" ∷ codes "oct" ∷ codes "october" ∷ [])
    then some 10
    else if one_of s (codes "11" ∷ codes "nov" ∷ codes "november" ∷ [])
    then some 11
    else if one_of s (codes "12" ∷ codes "dec" ∷ codes "december" ∷ [])
    then some 12
    else none

unfoldable pub parse_weekday : Bytes → Option ℕ
unfolding one_of
parse_weekday s =
    if one_of s (codes "sun" ∷ codes "sunday" ∷ [])
    then some 0
    else if one_of s (codes "mon" ∷ codes "monday" ∷ [])
    then some 1
    else if one_of s (codes "tue" ∷ codes "tuesday" ∷ [])
    then some 2
    else if one_of s (codes "wed" ∷ codes "wednesday" ∷ [])
    then some 3
    else if one_of s (codes "thu" ∷ codes "thursday" ∷ [])
    then some 4
    else if one_of s (codes "fri" ∷ codes "friday" ∷ [])
    then some 5
    else if one_of s (codes "sat" ∷ codes "saturday" ∷ [])
    then some 6
    else none

-- fmt.Sprint of a number, with the number as fuel
unfoldable pub digits_before : ℕ → ℕ → Bytes → Bytes
digits_before zero n s = s
digits_before (suc fuel) n s =
    let more = digits_before fuel (n / 10) ((b'0' + n % 10) ∷ s) in
    if ltb n 10 then (b'0' + n) ∷ s else more

unfoldable pub number_text : ℕ → Bytes
unfolding digits_before
number_text n = digits_before (suc n) n []

-- The switch of writeMonths; another month is not written.
unfoldable pub month_text : ℕ → Bytes
month_text n =
    get_or
      ([]
        ∷ codes "jan"
        ∷ codes "feb"
        ∷ codes "mar"
        ∷ codes "apr"
        ∷ codes "may"
        ∷ codes "jun"
        ∷ codes "jul"
        ∷ codes "aug"
        ∷ codes "sep"
        ∷ codes "oct"
        ∷ codes "nov"
        ∷ codes "dec"
        ∷ [])
      n []

unfoldable pub weekday_text : ℕ → Bytes
weekday_text n =
    get_or
      (codes "sun"
        ∷ codes "mon"
        ∷ codes "tue"
        ∷ codes "wed"
        ∷ codes "thu"
        ∷ codes "fri"
        ∷ codes "sat"
        ∷ [])
      n []
