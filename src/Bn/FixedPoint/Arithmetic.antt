-- ===== src/Bn/FixedPoint/Arithmetic.antt =====
-- Add, Sub, Mul and Cmp of bn/decfixedpoint.go against exact arithmetic.
use native.Mathlib.Nat.{mul-div-mul_right, pow-suc}
use go_utils.Prelude.Int.{ℤ, pos, cmp_ℤ, ◌+ℤ◌, ◌-ℤ◌, ◌*ℤ◌}
use go_utils.Prelude.Powers.{pow-pos, pow-add}
use go_utils.Prelude.{ℕ, zero, suc, ◌+◌, ◌-◌, ◌*◌, ◌/◌, ◌^◌, ◌≤◌, ◌<◌, ◌≡◌, arith}
use go_utils.Bn.Rounding.{max, set_prec}
use go_utils.Bn.Rounding.Laws.{
  set_prec_up, set_prec_down, set_prec_back, div_unique, pos-*ℤ, pow-ten_half,
}
use go_utils.Bn.FixedPoint.{DecFixedPointNumber, add, sub, mul, cmp}

set_prec_same : (x : ℤ) (n : ℕ) → set_prec x n n ≡ x
unfolding set_prec
set_prec_same x n = ground arith

module _ (a b : DecFixedPointNumber) (wide : b.p ≤ a.p) where
  widest : max a.p b.p ≡ a.p
  unfolding max
  widest = ground arith

  -- If the second operand has no more decimals than the first, a sum is exact.
  pub add_exact : add a b ≡ record { p = a.p; x = a.x +ℤ b.x *ℤ pos (10 ^ (a.p - b.p)) }
  unfolding add
  add_exact = rw (widest, set_prec_same, set_prec_same, set_prec_up b.x b.p a.p wide)

  -- If the second operand has no more decimals than the first, a difference is exact.
  pub sub_exact : sub a b ≡ record { p = a.p; x = a.x -ℤ b.x *ℤ pos (10 ^ (a.p - b.p)) }
  unfolding sub
  sub_exact = rw (widest, set_prec_same, set_prec_same, set_prec_up b.x b.p a.p wide)

  -- If the second operand has no more decimals than the first, a comparison is exact.
  pub cmp_exact : cmp a b ≡ cmp_ℤ a.x (b.x *ℤ pos (10 ^ (a.p - b.p)))
  unfolding cmp
  cmp_exact = rw (set_prec_up b.x b.p a.p wide)

-- With more decimals in the second operand the comparison rounds it first: numbers that differ by
-- less than half a unit of the first compare as equal.
pub cmp_coarse :
    (n k v d : ℕ)
    → d < 5 * 10 ^ k
    → cmp (record { p = n; x = pos v }) (record { p = n + suc k; x = pos (v * 10 ^ suc k + d) })
      ≡ pos 0
unfolding cmp
cmp_coarse n k v d h =
    rw
      (
        set_prec_down,
        div_unique (v * 10 ^ suc k + d + 5 * 10 ^ k) (10 ^ suc k) v (omega arith)
            (omega (arith, pow-ten_half k)),
      )
      (ground arith)

-- The product of two scaled numbers, over the common power of ten.
product_split : (x y m n : ℕ) → x * 10 ^ n * (y * 10 ^ m) ≡ x * y * 10 ^ (m + n)
product_split x y m n = rw (pow-add 10 m n) (omega arith)

-- Scaling dividend, half unit and divisor alike changes no quotient.
scaled_quotient :
    (t k m : ℕ) → (t * 10 ^ m + 5 * 10 ^ (k + m)) / 10 ^ suc (k + m) ≡ (t + 5 * 10 ^ k) / 10 ^ suc k
scaled_quotient t k m =
    rw (pow-suc 10 (k + m), pow-suc 10 k, pow-add 10 k m)
      (let up : t * 10 ^ m + 5 * (10 ^ k * 10 ^ m) ≡ (t + 5 * 10 ^ k) * 10 ^ m = omega arith in
        let down : 10 ^ k * 10 ^ m * 10 ≡ 10 ^ k * 10 * 10 ^ m = omega arith in
        rw (up, down)
          (mul-div-mul_right (t + 5 * 10 ^ k) (10 ^ k * 10) (pow-pos 10 m (omega arith))))

mul-set_prec :
    (n m x y : ℕ)
    → mul (record { p = n; x = pos x }) (record { p = m; x = pos y })
      ≡ record { p = n; x = set_prec (pos (x * y * 10 ^ (n + m))) ((n + m) * 2) n }
unfolding mul
mul-set_prec n m x y =
    let left : n + m - n ≡ m = omega arith in
    let right : n + m - m ≡ n = omega arith in
    rw
      (
        set_prec_up (pos x) n (n + m) (omega arith),
        set_prec_up (pos y) m (n + m) (omega arith),
        left,
        right,
      )
      (rw (
        pos-*ℤ x (10 ^ m),
        pos-*ℤ y (10 ^ n),
        pos-*ℤ (x * 10 ^ m) (y * 10 ^ n),
        product_split x y n m,
      ))

-- The product of numbers that are not negative is the exact product, rounded to the first operand's
-- precision: to the nearest, halves up.
pub mul_rounds :
    (n m x y : ℕ)
    → mul (record { p = n; x = pos x }) (record { p = m; x = pos y })
      ≡ record { p = n; x = pos ((x * y + 10 ^ m / 2) / 10 ^ m) }
mul_rounds n (suc k) x y =
    let twice : (n + suc k) * 2 ≡ n + suc (k + (n + suc k)) = omega arith in
    let half : 10 ^ suc k / 2 ≡ 5 * 10 ^ k = omega (arith, pow-ten_half k) in
    rw (mul-set_prec, twice, set_prec_down, scaled_quotient, half)
mul_rounds zero zero x y = rw mul-set_prec (rw (set_prec_same) (ground (arith)))
mul_rounds (suc j) zero x y =
    let twice : (suc j + 0) * 2 ≡ suc j + suc j = omega arith in
    let once : suc j + 0 ≡ suc j = omega arith in
    rw (mul-set_prec, twice, once)
      (rw (← pos-*ℤ (x * y) (10 ^ suc j), set_prec_back) (ground arith))
