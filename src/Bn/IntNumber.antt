-- ===== src/Bn/IntNumber.antt =====
-- IntNumber of bn/int.go: the operations that are not one call of big.Int on values that the model
-- shares. `none` is a panic.
use native.Mathlib.Nat.{div-add-mod', mod-lt}
use go_utils.Prelude.Int.{ℤ, pos, negsuc, sign, rem, neg_of, eq_ℤ, ltb_ℤ, ◌+ℤ◌}
use go_utils.Prelude.{
  ℕ, suc, ◌+◌, ◌-◌, ◌/◌, ◌%◌, ◌<◌, ◌≡◌, Option, none, some, arith, if◌then◌else◌,
}
use go_utils.Bn.Rounding.Laws.{div_unique}

-- a / b, rounded up
abbrev pub ceiling : ℕ → ℕ → ℕ
ceiling a b = (a + (b - 1)) / b

-- big.Int's Div is Euclidean: the remainder is never negative.
unfoldable pub euclid_div : ℤ → ℤ → ℤ
euclid_div (pos a) (pos b) = pos (a / b)
euclid_div (pos a) (negsuc b) = neg_of (a / suc b)
euclid_div (negsuc a) (pos b) = neg_of (ceiling (suc a) b)
euclid_div (negsuc a) (negsuc b) = pos (ceiling (suc a) (suc b))

-- Div
unfoldable pub int_div : ℤ → ℤ → Option ℤ
unfolding euclid_div
int_div x y = if eq_ℤ (sign y) (pos 0) then none else some (euclid_div x y)

unfoldable pub div_round_up : ℤ → ℤ → Option ℤ
unfolding euclid_div ◌+ℤ◌
div_round_up x y =
    if eq_ℤ (sign y) (pos 0)
    then none
    else if ltb_ℤ (pos 0) (sign (rem x y))
    then some (euclid_div x y +ℤ pos 1)
    else some (euclid_div x y)

ceiling_exact : (a b : ℕ) → 0 < b → a % b ≡ 0 → ceiling a b ≡ a / b
ceiling_exact a b p e =
    div_unique (a + (b - 1)) b (a / b) (omega (arith, div-add-mod' a b))
      (omega (arith, div-add-mod' a b))

ceiling_inexact : (a b : ℕ) → 0 < b → 0 < a % b → ceiling a b ≡ a / b + 1
ceiling_inexact a b p e =
    let small : a % b < b = mod-lt a p in
    div_unique (a + (b - 1)) b (a / b + 1) (omega (arith, div-add-mod' a b))
      (omega (arith, div-add-mod' a b))

-- For natural numbers and a divisor that is not zero, `DivRoundUp` rounds up.
pub div_round_up-ceiling :
    (a b : ℕ) → div_round_up (pos a) (pos (suc b)) ≡ some (pos (ceiling a (suc b)))
unfolding div_round_up
div_round_up-ceiling a b = ground (arith, ceiling_exact a (suc b), ceiling_inexact a (suc b))

-- A negative number is rounded down by a positive divisor: away from zero, not up.
pub div_round_up_negative :
    (a b : ℕ) → div_round_up (negsuc a) (pos (suc b)) ≡ some (neg_of (ceiling (suc a) (suc b)))
unfolding div_round_up
div_round_up_negative a b = ground arith
