-- ===== src/Timeutil/Spec/Shown.antt =====
-- Texts of single values in timeutil/scheduler.go, read back.
use go_utils.Prelude.{
  ℕ, zero, suc, ◌+◌, ◌≤◌, ◌<◌, ◌≡◌, refl, ◌≢◌, inl, inr, Bool, true, false, ◌&&◌, not, Option, none,
  some, [], ◌∷◌, arith, nat_beq, Bool-cases, All, Bytes,
}
use go_utils.Timeutil.Spec.Values.{
  parse_second, parse_minute, parse_hour, parse_day, parse_month, parse_weekday, number_text,
  month_text, weekday_text,
}

-- No byte with a meaning between values.
abbrev pub IsPlain : ℕ → Type 0
IsPlain c = (c ≢ b',') × (c ≢ b' ') × (c ≢ b'*')

-- The text of `n` is read back, and can stand in a list.
pub record Shows (fn : Bytes → Option ℕ) (show : ℕ → Bytes) (n : ℕ) : Type 0 where
  pub readback : fn (show n) ≡ some n
  pub plain : All IsPlain (show n)
  pub some_byte : show n ≢ []

abbrev is_plain : ℕ → Bool
is_plain c = not (nat_beq c b',') && (not (nat_beq c b' ') && not (nat_beq c b'*'))

abbrev all_plain : Bytes → Bool
all_plain [] = true
all_plain (c ∷ s) = is_plain c && all_plain s

abbrev is_value : ℕ → Option ℕ → Bool
is_value n none = false
is_value n (some m) = nat_beq m n

abbrev is_empty : Bytes → Bool
is_empty [] = true
is_empty (c ∷ s) = false

shows : (Bytes → Option ℕ) → (ℕ → Bytes) → ℕ → Bool
shows fn show n = is_value n (fn (show n)) && (all_plain (show n) && not (is_empty (show n)))

all_plain_sound : (s : Bytes) → all_plain s ≡ true → All IsPlain s
all_plain_sound [] h = tt
all_plain_sound (c ∷ s) h = (ground arith, all_plain_sound s (ground arith))

is_value_sound : (n : ℕ) (o : Option ℕ) → is_value n o ≡ true → o ≡ some n
is_value_sound n none h = cc
is_value_sound n (some m) h = ground arith

is_empty_sound : (s : Bytes) → not (is_empty s) ≡ true → s ≢ []
is_empty_sound [] h e = cc
is_empty_sound (c ∷ s) h e = cc

and_left : (a b : Bool) → (a && b) ≡ true → (a ≡ true) × (b ≡ true)
and_left a b h = ground arith

shows_sound :
    (fn : Bytes → Option ℕ) (show : ℕ → Bytes) (n : ℕ) → shows fn show n ≡ true → Shows fn show n
unfolding shows
shows_sound fn show n h =
    let (v, rest) =
      and_left (is_value n (fn (show n))) (all_plain (show n) && not (is_empty (show n))) h in
    let (p, e) = and_left (all_plain (show n)) (not (is_empty (show n))) rest in
    record {
      readback = is_value_sound n (fn (show n)) v;
      plain = all_plain_sound (show n) p;
      some_byte = is_empty_sound (show n) e;
    }

-- The values from `low` on, `count` of them, are read back: checked by evaluation.
module _ (fn : Bytes → Option ℕ) (show : ℕ → Bytes) where
  table : ℕ → ℕ → Bool
  table low zero = true
  table low (suc count) = table (suc low) count && shows fn show low

  from_table :
      (low count n : ℕ) → table low count ≡ true → low ≤ n → n < low + count → Shows fn show n
  unfolding table
  from_table low zero n h l k = absurd (omega arith)
  from_table low (suc count) n h l k =
      let (rest, here) = and_left (table (suc low) count) (shows fn show low) h in
      elim (Bool-cases (nat_beq low n)) [
        | inl e ↦
            let same : low ≡ n = ground arith in
            let shown = shows_sound fn show low here in rw same at shown
        | inr e ↦ from_table (suc low) count n rest (ground arith) (omega arith)
      ]

pub second-Shows : (n : ℕ) → n < 60 → Shows parse_second number_text n
unfolding table shows parse_second number_text
second-Shows n h = from_table parse_second number_text 0 60 n refl (omega arith) (omega arith)

pub minute-Shows : (n : ℕ) → n < 60 → Shows parse_minute number_text n
unfolding table shows parse_minute number_text
minute-Shows n h = from_table parse_minute number_text 0 60 n refl (omega arith) (omega arith)

pub hour-Shows : (n : ℕ) → n < 24 → Shows parse_hour number_text n
unfolding table shows parse_hour number_text
hour-Shows n h = from_table parse_hour number_text 0 24 n refl (omega arith) (omega arith)

pub day-Shows : (n : ℕ) → (0 < n) × (n < 32) → Shows parse_day number_text n
unfolding table shows parse_day number_text
day-Shows n h = from_table parse_day number_text 1 31 n refl (omega arith) (omega arith)

pub month-Shows : (n : ℕ) → (0 < n) × (n < 13) → Shows parse_month month_text n
unfolding table shows parse_month month_text
month-Shows n h = from_table parse_month month_text 1 12 n refl (omega arith) (omega arith)

pub weekday-Shows : (n : ℕ) → n < 7 → Shows parse_weekday weekday_text n
unfolding table shows parse_weekday weekday_text
weekday-Shows n h = from_table parse_weekday weekday_text 0 7 n refl (omega arith) (omega arith)
