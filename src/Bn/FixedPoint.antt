-- ===== src/Bn/FixedPoint.antt =====
-- DecFixedPointNumber of bn/decfixedpoint.go. `none` is a panic.
pub mod Arithmetic
pub mod Division
use go_utils.Prelude.Int.{ℤ, pos, negsuc, sign, neg, magnitude, quo, eq_ℤ, cmp_ℤ, ◌+ℤ◌, ◌-ℤ◌, ◌*ℤ◌}
use go_utils.Prelude.{ℕ, ◌+◌, ◌*◌, Option, none, some, nat_beq, if◌then◌else◌}
use go_utils.Bn.Rounding.{pow10, max, div_round, set_prec}

pub record DecFixedPointNumber : Type 0 where
  pub p : ℕ
  pub x : ℤ

abbrev pub dec_guard_digits : ℕ
dec_guard_digits = 2

-- DecFixedPointFromRawBigInt
abbrev pub from_raw_big_int : ℤ → ℕ → DecFixedPointNumber
from_raw_big_int x n = record { p = n; x = x }

-- convertIntToDecFixedPoint
abbrev pub from_int : ℤ → ℕ → DecFixedPointNumber
from_int x n = record { p = n; x = set_prec x 0 n }

-- convertBigIntToDecFixedPoint, and those of int64 and uint64
unfoldable pub from_big_int : ℤ → ℕ → DecFixedPointNumber
from_big_int x n = record { p = n; x = x *ℤ pos (pow10 n) }

-- SetPrec
unfoldable pub with_prec : DecFixedPointNumber → ℕ → DecFixedPointNumber
with_prec n prec =
    if nat_beq n.p prec
    then n
    else if eq_ℤ (sign n.x) (pos 0)
    then record { p = prec; x = pos 0 }
    else record { p = prec; x = set_prec n.x n.p prec }

unfoldable pub add : DecFixedPointNumber → DecFixedPointNumber → DecFixedPointNumber
unfolding max
add a b =
    let p = max a.p b.p in
    let xi = set_prec a.x a.p p in
    let yi = set_prec b.x b.p p in record { p = a.p; x = set_prec (xi +ℤ yi) p a.p }

unfoldable pub sub : DecFixedPointNumber → DecFixedPointNumber → DecFixedPointNumber
unfolding max
sub a b =
    let p = max a.p b.p in
    let xi = set_prec a.x a.p p in
    let yi = set_prec b.x b.p p in record { p = a.p; x = set_prec (xi -ℤ yi) p a.p }

unfoldable pub mul : DecFixedPointNumber → DecFixedPointNumber → DecFixedPointNumber
mul a b =
    let p = a.p + b.p in
    let xi = set_prec a.x a.p p in
    let yi = set_prec b.x b.p p in record { p = a.p; x = set_prec (xi *ℤ yi) (p * 2) a.p }

-- A divisor that rounds to zero at precision `prec` makes big.Int's Quo panic.
unfoldable pub div_prec : DecFixedPointNumber → DecFixedPointNumber → ℕ → Option DecFixedPointNumber
div_prec a b prec =
    if eq_ℤ (sign b.x) (pos 0)
    then none
    else let xi = set_prec a.x a.p prec in
      let yi = set_prec b.x b.p prec in
      if eq_ℤ (sign yi) (pos 0)
      then none
      else some (record { p = a.p; x = set_prec (quo (xi *ℤ pos (pow10 prec)) yi) prec a.p })

unfoldable pub div : DecFixedPointNumber → DecFixedPointNumber → Option DecFixedPointNumber
unfolding div_prec max
div a b = div_prec a b (max a.p b.p + dec_guard_digits)

unfoldable pub cmp : DecFixedPointNumber → DecFixedPointNumber → ℤ
cmp a b = cmp_ℤ a.x (set_prec b.x b.p a.p)

abbrev pub absolute : DecFixedPointNumber → DecFixedPointNumber
absolute a = record { p = a.p; x = pos (magnitude a.x) }

abbrev pub negated : DecFixedPointNumber → DecFixedPointNumber
negated a = record { p = a.p; x = neg a.x }

unfoldable pub inv : DecFixedPointNumber → Option DecFixedPointNumber
inv a =
    if eq_ℤ (sign a.x) (pos 0)
    then none
    else some (record { p = a.p; x = div_round (pos (pow10 (a.p * 2))) a.x })
