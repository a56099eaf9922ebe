-- ===== src/Timeutil/Spec/Ranges.antt =====
-- The ranges of the values that timeutil/scheduler.go parses.
use go_utils.Prelude.{
  ℕ, suc, ◌≤◌, ◌<◌, ◌≡◌, Bool, true, false, Option, none, some, arith, if◌then◌else◌, Bytes,
}
use mathlib.Core.Path.{subst}
use go_utils.Prelude.Int.{ℤ, pos, negsuc}
use go_utils.Timeutil.Spec.Values.{
  atoi, in_range, parse_second, parse_minute, parse_hour, parse_day, parse_month, parse_weekday,
}
use go_utils.Prelude.{nat_comparable}

abbrev pub Between : ℕ → ℕ → ℕ → Type 0
Between low high n = (low ≤ n) × (n < high)

-- The function gives only values of the range.
abbrev pub Within : ℕ → ℕ → (Bytes → Option ℕ) → Type 0
Within low high fn = (s : Bytes) (n : ℕ) → fn s ≡ some n → Between low high n

in_range_within :
    (low high : ℕ) (o : Option ℤ) (n : ℕ) → in_range low high o ≡ some n → Between low (suc high) n
unfolding in_range
in_range_within low high none n e = cc
in_range_within low high (some (negsuc m)) n e = cc
in_range_within low high (some (pos m)) n e = ground arith

-- A case of a switch.
if_some {κ} :
    (P : ℕ → Type κ) (b : Bool) (k : ℕ) (o : Option ℕ)
    → P k
    → ((n : ℕ) → o ≡ some n → P n)
    → (n : ℕ) → (if b then some k else o) ≡ some n
    → P n
if_some P true k o p q n e = let same : k ≡ n = cc in subst P same p
if_some P false k o p q n e = q n e

no_case {κ} : (P : ℕ → Type κ) (n : ℕ) → ◌≡◌ {A = Option ℕ} none (some n) → P n
no_case P n e = cc

pub month-Within : Within 1 13 parse_month
unfolding parse_month
month-Within s =
    let P = Between 1 13 in
    if_some P _ 1 _ (omega arith, omega arith)
      (if_some P _ 2 _ (omega arith, omega arith)
        (if_some P _ 3 _ (omega arith, omega arith)
          (if_some P _ 4 _ (omega arith, omega arith)
            (if_some P _ 5 _ (omega arith, omega arith)
              (if_some P _ 6 _ (omega arith, omega arith)
                (if_some P _ 7 _ (omega arith, omega arith)
                  (if_some P _ 8 _ (omega arith, omega arith)
                    (if_some P _ 9 _ (omega arith, omega arith)
                      (if_some P _ 10 _ (omega arith, omega arith)
                        (if_some P _ 11 _ (omega arith, omega arith)
                          (if_some P _ 12 _ (omega arith, omega arith) (no_case P))))))))))))

pub weekday-Within : Within 0 7 parse_weekday
unfolding parse_weekday
weekday-Within s =
    let P = Between 0 7 in
    if_some P _ 0 _ (omega arith, omega arith)
      (if_some P _ 1 _ (omega arith, omega arith)
        (if_some P _ 2 _ (omega arith, omega arith)
          (if_some P _ 3 _ (omega arith, omega arith)
            (if_some P _ 4 _ (omega arith, omega arith)
              (if_some P _ 5 _ (omega arith, omega arith)
                (if_some P _ 6 _ (omega arith, omega arith) (no_case P)))))))

pub second-Within : Within 0 60 parse_second
unfolding parse_second
second-Within s n e = in_range_within 0 59 (atoi s) n e

pub minute-Within : Within 0 60 parse_minute
unfolding parse_minute
minute-Within s n e = in_range_within 0 59 (atoi s) n e

pub hour-Within : Within 0 24 parse_hour
unfolding parse_hour
hour-Within s n e = in_range_within 0 23 (atoi s) n e

pub day-Within : Within 1 32 parse_day
unfolding parse_day
day-Within s n e = in_range_within 1 31 (atoi s) n e
