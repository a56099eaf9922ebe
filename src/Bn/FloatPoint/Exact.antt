-- ===== src/Bn/FloatPoint/Exact.antt =====
-- Add, Sub and Mul of bn/decfloatpoint.go against exact arithmetic.
use go_utils.Prelude.Int.{
  ℤ, pos, magnitude, pos_part, neg_part, eq_of_parts, *ℤ_parts, ◌+ℤ◌, ◌-ℤ◌, ◌*ℤ◌,
}
use go_utils.Prelude.Powers.{pow-add}
use go_utils.Prelude.{ℕ, zero, suc, ◌+◌, ◌-◌, ◌*◌, ◌%◌, ◌^◌, ◌≤◌, ◌≡◌, ap, ◌≢◌, ◌⊎◌, arith}
use go_utils.Bn.Rounding.{max, set_prec}
use go_utils.Bn.Rounding.Laws.{set_prec_up, set_prec_back, *ℤ-one}
use go_utils.Bn.FixedPoint.{DecFixedPointNumber}
use go_utils.Bn.FloatPoint.{DecFloatPointNumber, add, sub, mul, capped}
use go_utils.Bn.FloatPoint.Adjust.{Adjusted, adjust_prec-Adjusted}

-- Both numbers stand for the same fraction.
abbrev pub SameValue : DecFixedPointNumber → DecFixedPointNumber → Type 0
SameValue a b = a.x *ℤ pos (10 ^ b.p) ≡ b.x *ℤ pos (10 ^ a.p)

-- The last decimal, if there is one, is not a zero.
abbrev pub IsLowest : DecFixedPointNumber → Type 0
IsLowest a = (a.p ≡ 0) ⊎ (magnitude a.x % 10 ≢ 0)

*ℤ_assoc : (x : ℤ) (m n : ℕ) → x *ℤ pos m *ℤ pos n ≡ x *ℤ pos (m * n)
*ℤ_assoc x m n =
    let (a, b) = *ℤ_parts x m in
    let (c, d) = *ℤ_parts (x *ℤ pos m) n in
    let (e, f) = *ℤ_parts x (m * n) in eq_of_parts _ _ (rw (c, d, e, f, a, b) (omega arith))

Adjusted-SameValue : {n a : DecFixedPointNumber} → Adjusted n a → SameValue a n
Adjusted-SameValue {n} {a} h =
    rw (h.value, h.prec, *ℤ_assoc, pow-add) (ap (λ (k : ℕ). a.x *ℤ pos k) (omega arith))

le-max_left : (m n : ℕ) → m ≤ max m n
unfolding max
le-max_left m n = ground arith

le-max_right : (m n : ℕ) → n ≤ max m n
unfolding max
le-max_right m n = ground arith

module _ (a b : DecFloatPointNumber) where
  -- A sum has the exact value, in lowest form, whatever the precisions are.
  pub float_add_exact :
      SameValue (add a b).x (record {
        p = max a.x.p b.x.p;
        x =
            a.x.x *ℤ pos (10 ^ (max a.x.p b.x.p - a.x.p))
            +ℤ b.x.x *ℤ pos (10 ^ (max a.x.p b.x.p - b.x.p));
      })
      × IsLowest (add a b).x
  unfolding add
  float_add_exact =
      rw
        (
          set_prec_up a.x.x a.x.p (max a.x.p b.x.p) (le-max_left a.x.p b.x.p),
          set_prec_up b.x.x b.x.p (max a.x.p b.x.p) (le-max_right a.x.p b.x.p),
        )
        (let h = adjust_prec-Adjusted (record {
          p = max a.x.p b.x.p;
          x =
              a.x.x *ℤ pos (10 ^ (max a.x.p b.x.p - a.x.p))
              +ℤ b.x.x *ℤ pos (10 ^ (max a.x.p b.x.p - b.x.p));
        }) in
          (Adjusted-SameValue h, h.lowest))

  -- A difference has the exact value, in lowest form, whatever the precisions are.
  pub float_sub_exact :
      SameValue (sub a b).x (record {
        p = max a.x.p b.x.p;
        x =
            a.x.x *ℤ pos (10 ^ (max a.x.p b.x.p - a.x.p))
            -ℤ b.x.x *ℤ pos (10 ^ (max a.x.p b.x.p - b.x.p));
      })
      × IsLowest (sub a b).x
  unfolding sub
  float_sub_exact =
      rw
        (
          set_prec_up a.x.x a.x.p (max a.x.p b.x.p) (le-max_left a.x.p b.x.p),
          set_prec_up b.x.x b.x.p (max a.x.p b.x.p) (le-max_right a.x.p b.x.p),
        )
        (let h = adjust_prec-Adjusted (record {
          p = max a.x.p b.x.p;
          x =
              a.x.x *ℤ pos (10 ^ (max a.x.p b.x.p - a.x.p))
              -ℤ b.x.x *ℤ pos (10 ^ (max a.x.p b.x.p - b.x.p));
        }) in
          (Adjusted-SameValue h, h.lowest))

-- The two parts of a product, as far as they are determined.
*ℤ_balance :
    (x y : ℤ)
    → pos_part (x *ℤ y) + (pos_part x * neg_part y + neg_part x * pos_part y)
      ≡ neg_part (x *ℤ y) + (pos_part x * pos_part y + neg_part x * neg_part y)
unfolding ◌*ℤ◌
*ℤ_balance x y = ground arith

product_parts : (x y : ℤ) (m n : ℕ) → x *ℤ pos m *ℤ (y *ℤ pos n) ≡ x *ℤ y *ℤ pos (m * n)
product_parts x y m n =
    let (a, b) = *ℤ_parts x m in
    let (c, d) = *ℤ_parts y n in
    let (e, f) = *ℤ_parts (x *ℤ y) (m * n) in
    let whole = *ℤ_balance (x *ℤ pos m) (y *ℤ pos n) in
    let scaled = ap (λ (t : ℕ). t * (m * n)) (*ℤ_balance x y) in
    eq_of_parts _ _ (omega (arith, rw (a, b, c, d) at whole, scaled, e, f))

set_prec_halve : (x : ℤ) (w : ℕ) → set_prec (x *ℤ pos (10 ^ w)) (w * 2) w ≡ x
set_prec_halve x zero = rw *ℤ-one (unfold set_prec in ground arith)
set_prec_halve x (suc w) =
    let twice : suc w * 2 ≡ suc w + suc w = omega arith in rw (twice, set_prec_back)

-- A product has the exact value, in lowest form, if the two precisions add up to a precision.
pub float_mul_exact :
    (a b : DecFloatPointNumber)
    → a.x.p + b.x.p ≤ 255
    → SameValue (mul a b).x (record { p = a.x.p + b.x.p; x = a.x.x *ℤ b.x.x })
      × IsLowest (mul a b).x
unfolding mul
float_mul_exact a b fits =
    let left : a.x.p + b.x.p - a.x.p ≡ b.x.p = omega arith in
    let right : a.x.p + b.x.p - b.x.p ≡ a.x.p = omega arith in
    let cap : capped (a.x.p + b.x.p) ≡ a.x.p + b.x.p = unfold capped in ground arith in
    let scale : 10 ^ b.x.p * 10 ^ a.x.p ≡ 10 ^ (a.x.p + b.x.p) = rw pow-add (omega arith) in
    let h = adjust_prec-Adjusted (record { p = a.x.p + b.x.p; x = a.x.x *ℤ b.x.x }) in
    rw
      (
        set_prec_up a.x.x a.x.p (a.x.p + b.x.p) (omega arith),
        set_prec_up b.x.x b.x.p (a.x.p + b.x.p) (omega arith),
        left,
        right,
        product_parts,
        scale,
        cap,
        set_prec_halve,
      )
      (Adjusted-SameValue h, h.lowest)
