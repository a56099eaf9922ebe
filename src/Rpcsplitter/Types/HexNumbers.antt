-- ===== src/Rpcsplitter/Types/HexNumbers.antt =====
-- bigIntToHex and hexToBigInt of rpcsplitter/types/util.go.
use go_utils.Prelude.Int.{ℤ, pos, negsuc}
use go_utils.Prelude.{
  ℕ, zero, suc, ◌+◌, ◌*◌, ◌/◌, ◌%◌, ◌≤◌, ◌<◌, ◌≡◌, refl, ap, ◌∙◌, inl, inr, Bool, true, false, some,
  [], ◌∷◌, ◌++◌, arith, nat_beq, nat_beq_iff, if◌then◌else◌, Bool-cases, Option-cases, Bytes,
  bytes_eq,
}
use go_utils.Rpcsplitter.Types.Hex.{
  hex_char, hex_value, digits, big_int_to_hex, scan, set_digits, set_string, value, unsigned_hex,
  hex_to_big_int,
}
use go_utils.Rpcsplitter.Types.HexBytes.{hex_value-hex_char}

scan-append :
    (n m : ℕ) (s : Bytes) (d : ℕ)
    → scan n s ≡ some m
    → d < 16
    → scan n (s ++ hex_char d ∷ []) ≡ some (m * 16 + d)
unfolding scan
scan-append n m [] d e h = rw (hex_value-hex_char d h, scan) (ground arith)
scan-append n m (c ∷ s) d e h = elim (Option-cases (hex_value c)) [
  | inl q ↦ cc (rw (q, scan) at e)
  | inr (v, q) ↦ rw (q, scan) (scan-append (n * 16 + v) m s d (rw (q, scan) at e) h)
]

pub scan-digits : (fuel n : ℕ) → n ≤ fuel → scan 0 (digits fuel n) ≡ some n
unfolding digits
scan-digits zero n h = unfold scan in ground arith
scan-digits (suc fuel) n h = elim (Bool-cases (nat_beq n 0)) [
  | inl e ↦ rw e (unfold scan in ground arith)
  | inr e ↦ rw e (
      scan-append 0 (n / 16) (digits fuel (n / 16)) (n % 16)
        (scan-digits fuel (n / 16) (omega arith)) (omega arith)
      ∙ ap some (omega arith))
]

-- A text that scans to a number begins with a digit, so SetString takes it for one without a sign.
set_string-scan : (s : Bytes) (n : ℕ) → scan 0 s ≡ some (suc n) → set_string s ≡ some (pos (suc n))
unfolding scan
set_string-scan [] n e = unfold scan in cc (e)
set_string-scan (c ∷ s) n e = elim (Option-cases (hex_value c)) [
  | inl q ↦ cc (rw (q, scan) at e)
  | inr (v, q) ↦
      let no_minus : nat_beq c b'-' ≡ false = ground arith in
      let no_plus : nat_beq c b'+' ≡ false = ground arith in
      unfold set_string set_digits in rw (no_minus, no_plus, e)
]

unsigned_hex-scan :
    (is_neg : Bool) (s : Bytes) (n : ℕ)
    → scan 0 s ≡ some (suc n)
    → unsigned_hex is_neg s ≡ value (if is_neg then negsuc n else pos (suc n))
unfolding unsigned_hex
unsigned_hex-scan is_neg [] n e = unfold scan in cc (e)
unsigned_hex-scan true (c ∷ s) n e = rw (unsigned_hex, set_string-scan (c ∷ s) n e)
unsigned_hex-scan false (c ∷ s) n e = rw (unsigned_hex, set_string-scan (c ∷ s) n e)

-- It is not the text 0 either.
not_zero_text : (s : Bytes) (n : ℕ) → scan 0 s ≡ some (suc n) → bytes_eq s (b'0' ∷ []) ≡ false
unfolding scan
not_zero_text [] n e = refl
not_zero_text (c ∷ d ∷ s) n e = ground arith
not_zero_text (c ∷ []) n e = elim (Bool-cases (nat_beq c b'0')) [
  | inl q ↦ let zero_digit : c ≡ b'0' = (nat_beq_iff c b'0').0 q in cc (rw zero_digit at e)
  | inr q ↦ rw q
]

-- A number is read back from its hexadecimal text, whatever its sign.
pub hex_to_big_int-big_int_to_hex : (x : ℤ) → hex_to_big_int (big_int_to_hex x) ≡ value x
unfolding hex_to_big_int big_int_to_hex
hex_to_big_int-big_int_to_hex (pos zero) = refl
hex_to_big_int-big_int_to_hex (pos (suc n)) =
    let e = scan-digits (suc n) (suc n) (omega arith) in
    rw (not_zero_text (digits (suc n) (suc n)) n e)
      (unsigned_hex-scan false (digits (suc n) (suc n)) n e)
hex_to_big_int-big_int_to_hex (negsuc n) =
    unsigned_hex-scan true (digits (suc n) (suc n)) n (scan-digits (suc n) (suc n) (omega arith))
