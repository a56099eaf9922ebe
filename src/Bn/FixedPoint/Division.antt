-- ===== src/Bn/FixedPoint/Division.antt =====
-- Div and Inv of bn/decfixedpoint.go.
use go_utils.Prelude.Int.{ℤ, pos, negsuc, sign, eq_ℤ, neg_of, ◌+ℤ◌}
use go_utils.Prelude.Powers.{pow-pos}
use go_utils.Prelude.{
  ℕ, zero, suc, ◌+◌, ◌-◌, ◌*◌, ◌/◌, ◌%◌, ◌^◌, ◌≤◌, ◌<◌, ◌≡◌, refl, ◌↔◌, true, false, none, some,
  arith,
}
use go_utils.Bn.Rounding.{max, div_round, set_prec}
use go_utils.Bn.Rounding.Laws.{set_prec_up, pos-*ℤ, negsuc-*ℤ}
use go_utils.Bn.FixedPoint.{DecFixedPointNumber, div, div_prec, inv}

abbrev pub IsZero : ℤ → Type 0
IsZero x = eq_ℤ (sign x) (pos 0) ≡ true

set_prec_up_ne_zero :
    (x : ℤ) (c n : ℕ)
    → c ≤ n
    → eq_ℤ (sign x) (pos 0) ≡ false
    → eq_ℤ (sign (set_prec x c n)) (pos 0) ≡ false
set_prec_up_ne_zero (pos zero) c n l h = cc
set_prec_up_ne_zero (pos (suc a)) c n l h =
    rw (set_prec_up (pos (suc a)) c n l, pos-*ℤ)
      (sign_of (suc a * 10 ^ (n - c))
        (let p : 0 < 10 ^ (n - c) = pow-pos 10 (n - c) (omega arith) in grind arith))
  where
    sign_of : (t : ℕ) → 0 < t → eq_ℤ (sign (pos t)) (pos 0) ≡ false
    sign_of zero p = absurd (omega arith)
    sign_of (suc t) p = refl
set_prec_up_ne_zero (negsuc a) c n l h =
    let p : 0 < 10 ^ (n - c) = pow-pos 10 (n - c) (omega arith) in
    rw (set_prec_up (negsuc a) c n l, negsuc-*ℤ a (10 ^ (n - c)) p)
      (sign_of (suc a * 10 ^ (n - c)) (grind arith))
  where
    sign_of : (t : ℕ) → 0 < t → eq_ℤ (sign (neg_of t)) (pos 0) ≡ false
    sign_of zero p = absurd (omega arith)
    sign_of (suc t) p = refl

guarded : (m n : ℕ) → n ≤ max m n + 2
unfolding max
guarded m n = ground arith

-- `Div` panics exactly on a zero divisor: the guard digits keep any other divisor from rounding to
-- zero.
pub div_panics_iff : (a b : DecFixedPointNumber) → (div a b ≡ none) ↔ IsZero b.x
unfolding div div_prec
div_panics_iff a b = ground (arith, set_prec_up_ne_zero b.x b.p (max a.p b.p + 2) (guarded a.p b.p))

-- `Inv` of a negative number whose inverse is not exact is one unit above the truncated quotient.
pub inv_negative :
    (n d : ℕ)
    → 0 < 10 ^ (n * 2) % suc d
    → inv (record { p = n; x = negsuc d })
      ≡ some (record { p = n; x = neg_of (10 ^ (n * 2) / suc d) +ℤ pos 1 })
unfolding inv div_round
inv_negative n d h = ground arith
