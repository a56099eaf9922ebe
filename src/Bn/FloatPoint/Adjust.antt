-- ===== src/Bn/FloatPoint/Adjust.antt =====
-- adjustPrec of bn/decfloatpoint.go.
use native.Mathlib.Nat.{pow-suc, pow-zero}
use mathlib.Core.Path.{ap₂}
use go_utils.Prelude.Int.{ℤ, pos, negsuc, sign, neg_of, magnitude, eq_ℤ, ◌*ℤ◌}
use go_utils.Prelude.Powers.{pow-pos}
use go_utils.Prelude.{
  ℕ, zero, suc, ◌+◌, ◌-◌, ◌*◌, ◌/◌, ◌%◌, ◌^◌, ◌≤◌, ◌<◌, ◌≡◌, refl, sym, ap, ◌∙◌, ◌≢◌, ◌⊎◌, inl, inr,
  true, false, [], ◌∷◌, ◌++◌, append-nil, arith, leb, nat_beq, if◌then◌else◌, Bool-cases, Bytes,
}
use go_utils.Bn.Rounding.{set_prec}
use go_utils.Bn.Rounding.Laws.{set_prec_back, *ℤ-one, zero-*ℤ, pos-*ℤ, negsuc-*ℤ}
use go_utils.Bn.FixedPoint.{DecFixedPointNumber}
use go_utils.Bn.FloatPoint.{adjust_prec, digits_from_last, text_from_last, count_zeros}

-- What the count of zeros is: `k` digits that are zero, and then a digit that is not, or no decimals.
pub record Zeros (n p z count : ℕ) : Type 0 where
  pub dropped : ℕ
  pub kept : ℕ
  pub counted : count ≡ z + dropped
  pub splits : n ≡ kept * 10 ^ dropped
  pub within : z + dropped ≤ p
  pub ends : (z + dropped ≡ p) ⊎ (kept % 10 ≢ 0)

one_more : {n p z count : ℕ} → Zeros (n / 10) p (z + 1) count → n % 10 ≡ 0 → Zeros n p z count
one_more {n} {p} {z} {count} h e = record {
  dropped = suc h.dropped;
  kept = h.kept;
  counted = omega (arith, h.counted);
  splits = rw pow-suc (omega (arith, h.splits));
  within = omega (arith, h.within);
  ends = again h.ends;
}
  where
    again :
        ((z + 1 + h.dropped ≡ p) ⊎ (h.kept % 10 ≢ 0)) → (z + suc h.dropped ≡ p) ⊎ (h.kept % 10 ≢ 0)
    again (inl q) = inl (omega arith)
    again (inr q) = inr q

count_zeros-Zeros :
    (fuel n p z : ℕ) (tail : Bytes)
    → 0 < n
    → n ≤ fuel
    → z ≤ p
    → Zeros n p z (count_zeros (digits_from_last fuel n ++ tail) p z)
unfolding count_zeros digits_from_last
count_zeros-Zeros zero n p z tail h k l = absurd (omega arith)
count_zeros-Zeros (suc fuel) n p z tail h k l =
    let some_digit : nat_beq n 0 ≡ false = ground arith in
    rw some_digit (elim (Bool-cases (leb p z)) [
      | inl full ↦ rw full (record {
        dropped = 0;
        kept = n;
        counted = omega arith;
        splits = rw pow-zero (omega arith);
        within = omega arith;
        ends = inl (ground arith);
      })
      | inr room ↦ rw room (elim (Bool-cases (nat_beq (b'0' + n % 10) b'0')) [
        | inl zero_digit ↦ rw zero_digit (
            one_more
              (count_zeros-Zeros fuel (n / 10) p (z + 1) tail (ground arith) (omega arith)
                (ground arith))
              (ground arith))
        | inr other ↦ rw other (record {
          dropped = 0;
          kept = n;
          counted = omega arith;
          splits = rw pow-zero (omega arith);
          within = omega arith;
          ends = inr (λ e. ground arith);
        })
      ])
    ])

-- The number that an adjusted number stands for, at the precision that it had.
pub record Adjusted (n a : DecFixedPointNumber) : Type 0 where
  pub dropped : ℕ
  pub value : n.x ≡ a.x *ℤ pos (10 ^ dropped)
  pub prec : n.p ≡ a.p + dropped
  pub lowest : (a.p ≡ 0) ⊎ (magnitude a.x % 10 ≢ 0)

-- A number with its magnitude split, over the text that adjustPrec counts.
text-Zeros :
    (x : ℤ) (p : ℕ)
    → eq_ℤ (sign x) (pos 0) ≡ false
    → Zeros (magnitude x) p 0 (count_zeros (text_from_last x) p 0)
unfolding text_from_last
text-Zeros (pos zero) p h = cc
text-Zeros (pos (suc n)) p h =
    rw (← append-nil (digits_from_last (suc n) (suc n)))
      (count_zeros-Zeros (suc n) (suc n) p 0 [] (omega arith) (omega arith) (omega arith))
text-Zeros (negsuc n) p h =
    count_zeros-Zeros (suc n) (suc n) p 0 (b'-' ∷ []) (omega arith) (omega arith) (omega arith)

-- `x` with its sign, and `m` for its magnitude.
signed : ℤ → ℕ → ℤ
signed (pos n) m = pos m
signed (negsuc n) m = neg_of m

signed_lem :
    (x : ℤ) (m k : ℕ)
    → magnitude x ≡ m * 10 ^ k
    → (x ≡ signed x m *ℤ pos (10 ^ k)) × (magnitude (signed x m) ≡ m)
unfolding signed
signed_lem (pos n) m k e = (rw pos-*ℤ (ap pos e), refl)
signed_lem (negsuc n) zero k e = absurd (omega arith)
signed_lem (negsuc n) (suc m) k e =
    (rw (negsuc-*ℤ m (10 ^ k) (pow-pos 10 k (omega arith))) (rw (← e)), refl)

Adjusted-self : (n : DecFixedPointNumber) → (n.p ≡ 0) ⊎ (magnitude n.x % 10 ≢ 0) → Adjusted n n
Adjusted-self n low = record {
  dropped = 0;
  value = sym (*ℤ-one n.x);
  prec = omega arith;
  lowest = low;
}

module _ (n : DecFixedPointNumber) {count : ℕ} (z : Zeros (magnitude n.x) n.p 0 count) where
  -- No zero goes.
  Adjusted-kept : z.dropped ≡ 0 → Adjusted n n
  Adjusted-kept e = Adjusted-self n (low z.ends)
    where
      low : ((0 + z.dropped ≡ n.p) ⊎ (z.kept % 10 ≢ 0)) → (n.p ≡ 0) ⊎ (magnitude n.x % 10 ≢ 0)
      low (inl q) = inl (omega arith)
      low (inr q) = inr (λ h.
          q (let same : magnitude n.x ≡ z.kept * 1 = rw (e, pow-zero) at z.splits in omega arith))

  -- Some zeros go.
  Adjusted-dropped :
      (j : ℕ)
      → z.dropped ≡ suc j
      → Adjusted n (record { p = n.p - suc j; x = set_prec n.x n.p (n.p - suc j) })
  Adjusted-dropped j e =
      let y : ℤ = signed n.x z.kept in
      let parts = signed_lem n.x z.kept (suc j) (rw e at z.splits) in
      let wide : n.p - suc j + suc j ≡ n.p = omega (arith, z.within) in
      let back : set_prec n.x n.p (n.p - suc j) ≡ y =
        ap₂ (λ (x : ℤ) (p : ℕ). set_prec x p (n.p - suc j)) (parts.0) (sym wide)
        ∙ set_prec_back y (n.p - suc j) j in
      record {
        dropped = suc j;
        value = rw back (parts.0);
        prec = omega (arith, z.within);
        lowest = rw back (rw (parts.1) (low z.ends));
      }
    where
      low : ((0 + z.dropped ≡ n.p) ⊎ (z.kept % 10 ≢ 0)) → (n.p - suc j ≡ 0) ⊎ (z.kept % 10 ≢ 0)
      low (inl q) = inl (omega arith)
      low (inr q) = inr q

zero-Adjusted :
    (n : DecFixedPointNumber)
    → eq_ℤ (sign n.x) (pos 0) ≡ true
    → Adjusted n (record { p = 0; x = pos 0 })
zero-Adjusted n e = record {
  dropped = n.p;
  value = zero_value n.x e;
  prec = omega arith;
  lowest = inl refl;
}
  where
    zero_value : (x : ℤ) → eq_ℤ (sign x) (pos 0) ≡ true → x ≡ pos 0 *ℤ pos (10 ^ n.p)
    zero_value (pos zero) h = sym (zero-*ℤ (10 ^ n.p))
    zero_value (pos (suc m)) h = cc
    zero_value (negsuc m) h = cc

-- Adjusting the precision keeps the value, and no decimal that is left at the end is a zero.
pub adjust_prec-Adjusted : (n : DecFixedPointNumber) → Adjusted n (adjust_prec n)
unfolding adjust_prec
adjust_prec-Adjusted n = elim (Bool-cases (eq_ℤ (sign n.x) (pos 0))) [
  | inl e ↦ rw e (zero-Adjusted n e)
  | inr e ↦ rw e (go (text-Zeros n.x n.p e))
]
  where
    go :
        Zeros (magnitude n.x) n.p 0 (count_zeros (text_from_last n.x) n.p 0)
        → Adjusted n (
            let p = n.p - count_zeros (text_from_last n.x) n.p 0 in
            if nat_beq n.p p then n else record { p = p; x = set_prec n.x n.p p })
    go z = elim (Bool-cases (nat_beq n.p (n.p - count_zeros (text_from_last n.x) n.p 0))) [
      | inl same ↦ rw same (Adjusted-kept n z (ground (arith, z.counted, z.within)))
      | inr less ↦ rw less (
          let some_zero : z.dropped ≡ suc (z.dropped - 1) = ground (arith, z.counted, z.within) in
          let counted : count_zeros (text_from_last n.x) n.p 0 ≡ suc (z.dropped - 1) =
            omega (arith, z.counted) in
          rw counted (Adjusted-dropped n z (z.dropped - 1) some_zero))
    ]
