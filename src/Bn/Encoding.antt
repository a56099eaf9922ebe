-- ===== src/Bn/Encoding.antt =====
-- MarshalBinary and UnmarshalBinary of bn/decfixedpoint.go, over BitLen, FillBytes and SetBytes of
-- big.Int: the magnitude, big-endian, in as many bytes as are asked for.
use go_utils.Prelude.Int.{ℤ, pos, magnitude}
use go_utils.Prelude.Powers.{pow-add}
use native.Mathlib.Nat.{pow-suc, pow-zero, pow-le-pow_right}
use go_utils.Prelude.{
  ℕ, zero, suc, ◌+◌, ◌*◌, ◌/◌, ◌%◌, ◌^◌, ◌≤◌, ◌<◌, ◌≡◌, refl, inl, inr, [], ◌∷◌, ◌++◌, arith,
  nat_beq, if◌then◌else◌, Bool-cases, Bytes,
}
use go_utils.Bn.FixedPoint.{DecFixedPointNumber, absolute}

-- The halvings of n, with n as fuel.
bit_len_loop : ℕ → ℕ → ℕ
bit_len_loop zero n = 0
bit_len_loop (suc fuel) n =
    let more = bit_len_loop fuel (n / 2) in if nat_beq n 0 then 0 else suc more

-- x.BitLen()
bit_len : ℤ → ℕ
unfolding bit_len_loop
bit_len x = bit_len_loop (magnitude x) (magnitude x)

fill_nat : ℕ → ℕ → Bytes
fill_nat zero n = []
fill_nat (suc size) n = fill_nat size (n / 256) ++ n % 256 ∷ []

-- x.FillBytes(buf), for a buffer of `size` bytes
fill_bytes : ℤ → ℕ → Bytes
unfolding fill_nat
fill_bytes x size = fill_nat size (magnitude x)

set_bytes_loop : ℕ → Bytes → ℕ
set_bytes_loop n [] = n
set_bytes_loop n (b ∷ s) = set_bytes_loop (n * 256 + b) s

-- new(big.Int).SetBytes(s)
set_bytes : Bytes → ℤ
unfolding set_bytes_loop
set_bytes s = pos (set_bytes_loop 0 s)

unfoldable pub marshal_binary : DecFixedPointNumber → Bytes
unfolding bit_len fill_bytes
marshal_binary a = 0 ∷ a.p ∷ fill_bytes a.x ((bit_len a.x + 7) / 8)

pub data Unmarshalled : Type 0 where
  ok : DecFixedPointNumber → Unmarshalled
  invalid_length : Unmarshalled
  invalid_format : Unmarshalled

unfoldable pub unmarshal_binary : Bytes → Unmarshalled
unfolding set_bytes
unmarshal_binary [] = invalid_length
unmarshal_binary (version ∷ []) = invalid_length
unmarshal_binary (version ∷ p ∷ s) =
    if nat_beq version 0 then ok (record { p = p; x = set_bytes s }) else invalid_format

lt-bit_len_loop : (fuel n : ℕ) → n ≤ fuel → n < 2 ^ bit_len_loop fuel n
unfolding bit_len_loop
lt-bit_len_loop zero n h = rw pow-zero (omega arith)
lt-bit_len_loop (suc fuel) n h = elim (Bool-cases (nat_beq n 0)) [
  | inl e ↦ rw e (rw pow-zero (ground arith))
  | inr e ↦
      let positive : 0 < n = ground arith in
      let half : n / 2 ≤ fuel = omega arith in
      rw e (rw pow-suc (omega (arith, lt-bit_len_loop fuel (n / 2) half)))
]

pow-256 : (k : ℕ) → 256 ^ k ≡ 2 ^ (8 * k)
pow-256 zero = refl
pow-256 (suc k) = let e : 8 * suc k ≡ 8 * k + 8 = omega arith in rw (e, pow-add, pow-suc, pow-256 k)

-- The buffer of `MarshalBinary` has room for the magnitude.
lt-room : (n bits : ℕ) → n < 2 ^ bits → n < 256 ^ ((bits + 7) / 8)
lt-room n bits h = rw pow-256 (
    let wide : bits ≤ 8 * ((bits + 7) / 8) = omega arith in
    let grows : 2 ^ bits ≤ 2 ^ (8 * ((bits + 7) / 8)) = pow-le-pow_right (omega arith) wide in
    omega arith)

set_bytes_loop-append :
    (n : ℕ) (s t : Bytes) → set_bytes_loop n (s ++ t) ≡ set_bytes_loop (set_bytes_loop n s) t
unfolding set_bytes_loop
set_bytes_loop-append n [] t = refl
set_bytes_loop-append n (b ∷ s) t = set_bytes_loop-append (n * 256 + b) s t

set_bytes_loop-fill_nat : (size n : ℕ) → n < 256 ^ size → set_bytes_loop 0 (fill_nat size n) ≡ n
unfolding fill_nat set_bytes_loop
set_bytes_loop-fill_nat zero n h = let small : n < 1 = h in omega arith
set_bytes_loop-fill_nat (suc size) n h =
    let room : n < 256 ^ size * 256 = rw pow-suc at h in
    let ih : set_bytes_loop 0 (fill_nat size (n / 256)) ≡ n / 256 =
      set_bytes_loop-fill_nat size (n / 256) (omega arith) in
    rw (set_bytes_loop-append, ih) (omega arith)

-- Decoding an encoded number gives its absolute value at its precision: the sign is not encoded.
pub unmarshal-marshal :
    (a : DecFixedPointNumber) → unmarshal_binary (marshal_binary a) ≡ ok (absolute a)
unfolding unmarshal_binary marshal_binary set_bytes fill_bytes bit_len
unmarshal-marshal a =
    let m = magnitude a.x in
    rw (
      set_bytes_loop-fill_nat ((bit_len_loop m m + 7) / 8) m
        (lt-room m (bit_len_loop m m) (lt-bit_len_loop m m (omega arith))))
