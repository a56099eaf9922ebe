-- ===== src/Bn/Rounding/Laws.antt =====
-- bigIntDivRound and bigIntSetPrec of bn/decfixedpoint.go against division in the numbers.
use native.Mathlib.Nat.{
  div-add-mod', mod-lt, div-eq_of_lt, div-eq_of_lt-le, mul-div_cancel, pow-suc,
}
use go_utils.Prelude.Int.{ℤ, pos, negsuc, neg_of, ◌+ℤ◌, ◌*ℤ◌}
use go_utils.Prelude.Powers.{pow-pos}
use go_utils.Prelude.{
  ℕ, zero, suc, ◌+◌, ◌-◌, ◌*◌, ◌/◌, ◌%◌, ◌^◌, ◌≤◌, ◌<◌, ◌≡◌, refl, sym, ap, inl, inr, arith,
  nat_beq, Bool-cases,
}
use go_utils.Bn.Rounding.{div_round, set_prec}

-- A quotient is known by its bounds.
pub div_unique : (a d q : ℕ) → q * d ≤ a → a < q * d + d → a / d ≡ q
div_unique a d q l u = div-eq_of_lt-le {k = q} d l (grind arith)

-- The quotient of a + h by 2h, where the remainder of a is below h and where it is not.
half_below : (a h : ℕ) → a % (2 * h) < h → (a + h) / (2 * h) ≡ a / (2 * h)
half_below a h l =
    div_unique (a + h) (2 * h) (a / (2 * h)) (omega (arith, div-add-mod' a (2 * h)))
      (omega (arith, div-add-mod' a (2 * h)))

half_above : (a h : ℕ) → 0 < h → h ≤ a % (2 * h) → (a + h) / (2 * h) ≡ a / (2 * h) + 1
half_above a h p l =
    let small : a % (2 * h) < 2 * h = mod-lt a (omega arith) in
    div_unique (a + h) (2 * h) (a / (2 * h) + 1) (omega (arith, div-add-mod' a (2 * h)))
      (omega (arith, div-add-mod' a (2 * h)))

-- By an even divisor 2h a natural number is divided to the nearest, halves up.
pub div_round_nearest :
    (a h : ℕ) → 0 < h → div_round (pos a) (pos (2 * h)) ≡ pos ((a + h) / (2 * h))
unfolding div_round ◌+ℤ◌
div_round_nearest a h l =
    let half : 2 * h / 2 ≡ h = omega arith in ground (arith, half_below a h, half_above a h l)

-- A negative dividend is divided towards zero, whatever is left over.
pub div_round_negative : (a b : ℕ) → 0 < b → div_round (negsuc a) (pos b) ≡ neg_of (suc a / b)
unfolding div_round ◌+ℤ◌
div_round_negative a b l = ground arith

pub *ℤ-one : (x : ℤ) → x *ℤ pos 1 ≡ x
unfolding ◌*ℤ◌
*ℤ-one x = ground arith

pub zero-*ℤ : (k : ℕ) → pos 0 *ℤ pos k ≡ pos 0
unfolding ◌*ℤ◌
zero-*ℤ k = ground arith

-- To a precision that is not smaller, nothing is lost.
pub set_prec_up : (x : ℤ) (c n : ℕ) → c ≤ n → set_prec x c n ≡ x *ℤ pos (10 ^ (n - c))
unfolding set_prec
set_prec_up x c n l = elim (Bool-cases (nat_beq c n)) [
  | inl e ↦ let same : n - c ≡ 0 = ground arith in rw (e, same) (sym (*ℤ-one x))
  | inr e ↦ rw e (ground (arith, zero-*ℤ (10 ^ (n - c))))
]

pub pow-ten_half : (k : ℕ) → 10 ^ suc k ≡ 2 * (5 * 10 ^ k)
pow-ten_half k = rw (pow-suc 10 k) (omega arith)

zero_rounds : (h : ℕ) → 0 < h → (0 + h) / (2 * h) ≡ 0
zero_rounds h l = div-eq_of_lt (omega arith)

-- To a smaller precision, what is not negative is rounded to the nearest, halves up.
pub set_prec_down :
    (a n k : ℕ) → set_prec (pos a) (n + suc k) n ≡ pos ((a + 5 * 10 ^ k) / 10 ^ suc k)
unfolding set_prec
set_prec_down a n k =
    let span : n + suc k - n ≡ suc k = omega arith in
    rw (span, pow-ten_half k)
      (ground (
        arith,
        div_round_nearest a (5 * 10 ^ k),
        pow-pos 10 k (omega arith),
        zero_rounds (5 * 10 ^ k),
      ))

-- To a smaller precision, what is negative loses its last digits.
pub set_prec_down_negative :
    (a n k : ℕ) → set_prec (negsuc a) (n + suc k) n ≡ neg_of (suc a / 10 ^ suc k)
unfolding set_prec
set_prec_down_negative a n k =
    let span : n + suc k - n ≡ suc k = omega arith in
    rw span (ground (arith, div_round_negative a (10 ^ suc k), pow-pos 10 (suc k) (omega arith)))

pub pos-*ℤ : (a m : ℕ) → pos a *ℤ pos m ≡ pos (a * m)
unfolding ◌*ℤ◌
pos-*ℤ a m = ground arith

pub negsuc-*ℤ : (a m : ℕ) → 0 < m → negsuc a *ℤ pos m ≡ neg_of (suc a * m)
unfolding ◌*ℤ◌
negsuc-*ℤ a m h = go (suc a * m) refl
  where
    go : (t : ℕ) → suc a * m ≡ t → negsuc a *ℤ pos m ≡ neg_of t
    go zero e = absurd (grind arith)
    go (suc t) e = ground arith

neg_of_pos : (t : ℕ) → 0 < t → neg_of t ≡ negsuc (t - 1)
neg_of_pos zero h = absurd (omega arith)
neg_of_pos (suc t) h = ground arith

-- Digits that are all zero can be dropped: the way down undoes the way up.
pub set_prec_back : (x : ℤ) (n k : ℕ) → set_prec (x *ℤ pos (10 ^ suc k)) (n + suc k) n ≡ x
set_prec_back (pos a) n k =
    rw (pos-*ℤ, set_prec_down)
      (ap pos (
        div_unique (a * 10 ^ suc k + 5 * 10 ^ k) (10 ^ suc k) a (omega arith)
          (omega (arith, pow-ten_half k, pow-pos 10 k (omega arith)))))
set_prec_back (negsuc a) n k =
    let p : 0 < 10 ^ suc k = pow-pos 10 (suc k) (omega arith) in
    let q : 0 < suc a * 10 ^ suc k = grind arith in
    let whole : suc (suc a * 10 ^ suc k - 1) ≡ suc a * 10 ^ suc k = omega arith in
    rw (
      negsuc-*ℤ a (10 ^ suc k) p,
      neg_of_pos (suc a * 10 ^ suc k) q,
      set_prec_down_negative,
      whole,
      mul-div_cancel (suc a) p,
    )
