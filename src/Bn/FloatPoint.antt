-- ===== src/Bn/FloatPoint.antt =====
-- DecFloatPointNumber of bn/decfloatpoint.go. `none` is a panic.
pub mod Adjust
pub mod Exact
use mathlib.Core.List.{reverse}
use go_utils.Prelude.Int.{ℤ, pos, negsuc, sign, neg, magnitude, quo, eq_ℤ, ◌+ℤ◌, ◌-ℤ◌, ◌*ℤ◌}
use go_utils.Prelude.{
  ℕ, zero, suc, ◌+◌, ◌-◌, ◌*◌, ◌/◌, ◌%◌, Option, none, some, [], ◌∷◌, ◌++◌, ltb, leb, nat_beq,
  if◌then◌else◌, Bytes,
}
use go_utils.Bn.Rounding.{pow10, max, set_prec}
use go_utils.Bn.FixedPoint.{DecFixedPointNumber, with_prec, absolute, negated, dec_guard_digits}
use go_utils.Bn.FixedPoint.{cmp as fixed_cmp}

pub record DecFloatPointNumber : Type 0 where
  pub x : DecFixedPointNumber

abbrev pub max_dec_point_precision : ℕ
max_dec_point_precision = 255

abbrev pub div_precision_increase : ℕ
div_precision_increase = 16

-- The decimal digits of a number that is not zero, the last one first, with the number as fuel.
digits_from_last : ℕ → ℕ → Bytes
digits_from_last zero n = []
digits_from_last (suc fuel) n =
    let more = digits_from_last fuel (n / 10) in if nat_beq n 0 then [] else (b'0' + n % 10) ∷ more

-- big.Int's String, read from its end.
text_from_last : ℤ → Bytes
unfolding digits_from_last
text_from_last (pos zero) = b'0' ∷ []
text_from_last (pos (suc n)) = digits_from_last (suc n) (suc n)
text_from_last (negsuc n) = digits_from_last (suc n) (suc n) ++ b'-' ∷ []

-- The loop of adjustPrec over the text from its end: how many zeros can go.
count_zeros : Bytes → ℕ → ℕ → ℕ
count_zeros [] p z = p
count_zeros (c ∷ s) p z =
    let more = count_zeros s p (z + 1) in if leb p z then z else if nat_beq c b'0' then more else z

unfoldable pub adjust_prec : DecFixedPointNumber → DecFixedPointNumber
unfolding text_from_last count_zeros
adjust_prec n =
    if eq_ℤ (sign n.x) (pos 0)
    then record { p = 0; x = pos 0 }
    else let p = n.p - count_zeros (text_from_last n.x) n.p 0 in
      if nat_beq n.p p then n else record { p = p; x = set_prec n.x n.p p }

-- min(p, MaxDecPointPrecision), as the code caps a precision
unfoldable pub capped : ℕ → ℕ
capped p = if ltb max_dec_point_precision p then max_dec_point_precision else p

-- SetPrec
unfoldable pub float_with_prec : DecFloatPointNumber → ℕ → DecFloatPointNumber
unfolding with_prec
float_with_prec a n = if nat_beq n a.x.p then a else record { x = with_prec a.x n }

unfoldable pub add : DecFloatPointNumber → DecFloatPointNumber → DecFloatPointNumber
add a b =
    let p = max a.x.p b.x.p in
    let xi = set_prec a.x.x a.x.p p in
    let yi = set_prec b.x.x b.x.p p in record { x = adjust_prec (record { p = p; x = xi +ℤ yi }) }

unfoldable pub sub : DecFloatPointNumber → DecFloatPointNumber → DecFloatPointNumber
sub a b =
    let p = max a.x.p b.x.p in
    let xi = set_prec a.x.x a.x.p p in
    let yi = set_prec b.x.x b.x.p p in record { x = adjust_prec (record { p = p; x = xi -ℤ yi }) }

unfoldable pub mul : DecFloatPointNumber → DecFloatPointNumber → DecFloatPointNumber
unfolding capped
mul a b =
    let wp = a.x.p + b.x.p in
    let rp = capped wp in
    let xi = set_prec a.x.x a.x.p wp in
    let yi = set_prec b.x.x b.x.p wp in
    record { x = adjust_prec (record { p = rp; x = set_prec (xi *ℤ yi) (wp * 2) rp }) }

-- A divisor that rounds to zero at precision `prec` makes big.Int's Quo panic.
unfoldable pub div_prec : DecFloatPointNumber → DecFloatPointNumber → ℕ → Option DecFloatPointNumber
unfolding capped
div_prec a b prec =
    if eq_ℤ (sign b.x.x) (pos 0)
    then none
    else let rp = capped prec in
      let xi = set_prec a.x.x a.x.p prec in
      let yi = set_prec b.x.x b.x.p prec in
      if eq_ℤ (sign yi) (pos 0)
      then none
      else some (record {
        x = adjust_prec (record { p = rp; x = set_prec (quo (xi *ℤ pos (pow10 prec)) yi) prec rp });
      })

-- What `Div` does with the quotient at the working precision.
round_quotient : ℕ → DecFloatPointNumber → DecFloatPointNumber
round_quotient rp n = record { x = adjust_prec (record { p = rp; x = set_prec n.x.x n.x.p rp }) }

unfoldable pub div : DecFloatPointNumber → DecFloatPointNumber → Option DecFloatPointNumber
unfolding div_prec round_quotient
div a b =
    if eq_ℤ (sign b.x.x) (pos 0)
    then none
    else let p = max a.x.p b.x.p in
      elim (div_prec a b (p + div_precision_increase + dec_guard_digits)) [
        | none ↦ none
        | some n ↦ some (round_quotient (capped (p + div_precision_increase)) n)
      ]

unfoldable pub cmp : DecFloatPointNumber → DecFloatPointNumber → ℤ
unfolding fixed_cmp
cmp a b = fixed_cmp a.x b.x

abbrev pub float_absolute : DecFloatPointNumber → DecFloatPointNumber
float_absolute a = record { x = absolute a.x }

abbrev pub float_negated : DecFloatPointNumber → DecFloatPointNumber
float_negated a = record { x = negated a.x }

unfoldable pub inv : DecFloatPointNumber → Option DecFloatPointNumber
unfolding capped
inv a =
    if eq_ℤ (sign a.x.x) (pos 0)
    then none
    else let wp = a.x.p + div_precision_increase + dec_guard_digits in
      let rp = capped (a.x.p + div_precision_increase) in
      let z = set_prec a.x.x a.x.p wp in
      some (record {
        x = adjust_prec (record { p = rp; x = set_prec (quo (pos (pow10 (wp * 2))) z) wp rp });
      })
