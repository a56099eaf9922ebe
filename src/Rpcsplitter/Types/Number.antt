-- ===== src/Rpcsplitter/Types/Number.antt =====
-- Number of rpcsplitter/types/number.go: an integer, and its texts.
use go_utils.Prelude.Int.{ℤ, pos, negsuc}
use go_utils.Prelude.{
  ℕ, zero, suc, ◌≡◌, refl, ap, ◌∙◌, false, some, ◌++◌, arith, Bytes, [], ◌∷◌, codes,
}
use go_utils.Rpcsplitter.Types.Hex.{
  HexInt, value, empty_hex, invalid_hex, digits, big_int_to_hex, hex_to_big_int, scan, set_digits,
  set_string, unsigned_hex,
}
use go_utils.Rpcsplitter.Types.HexNumbers.{hex_to_big_int-big_int_to_hex, scan-digits}

-- Text(16) of big.Int: the digits, behind a sign if the number is negative.
unfoldable pub hex_text : ℤ → Bytes
hex_text (pos zero) = codes "0"
hex_text (pos (suc n)) = digits (suc n) (suc n)
hex_text (negsuc n) = b'-' ∷ digits (suc n) (suc n)

-- String
unfoldable number_text : ℤ → Bytes
unfolding hex_text
number_text x = codes "0x" ++ hex_text x

-- The number that UnmarshalText has set, zero if it returned an error.
unfoldable number_or_zero : HexInt → ℤ
number_or_zero (value x) = x
number_or_zero empty_hex = pos 0
number_or_zero invalid_hex = pos 0

unfoldable hex_to_number : Bytes → ℤ
unfolding number_or_zero
hex_to_number hex = number_or_zero (hex_to_big_int hex)

pub hex_text-big_int_to_hex : (n : ℕ) → codes "0x" ++ hex_text (pos n) ≡ big_int_to_hex (pos n)
unfolding hex_text big_int_to_hex
hex_text-big_int_to_hex zero = refl
hex_text-big_int_to_hex (suc n) = refl

set_digits-scan : (s : Bytes) (n : ℕ) → scan 0 s ≡ some (suc n) → set_digits s ≡ some (suc n)
unfolding set_digits
set_digits-scan [] n e = unfold scan in cc (e)
set_digits-scan (c ∷ s) n e = e

signed_hex :
    (s : Bytes) (n : ℕ) → scan 0 s ≡ some (suc n) → unsigned_hex false (b'-' ∷ s) ≡ value (negsuc n)
unfolding unsigned_hex set_string
signed_hex s n e = rw (unsigned_hex, set_string, set_digits-scan s n e) refl

-- HexToNumber reads back what String writes, also for a negative number, whose sign stands behind the
-- prefix there.
hex_to_number-number_text : (x : ℤ) → hex_to_number (number_text x) ≡ x
unfolding hex_to_number number_text number_or_zero hex_to_big_int hex_text
hex_to_number-number_text (pos n) =
    ap hex_to_number (hex_text-big_int_to_hex n)
    ∙ ap number_or_zero (hex_to_big_int-big_int_to_hex (pos n))
hex_to_number-number_text (negsuc n) =
    let e = scan-digits (suc n) (suc n) (omega arith) in
    ap number_or_zero (signed_hex (digits (suc n) (suc n)) n e)
