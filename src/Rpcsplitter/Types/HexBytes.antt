-- ===== src/Rpcsplitter/Types/HexBytes.antt =====
-- bytesToHex, hexToBytes, naiveQuote and naiveUnquote of rpcsplitter/types/util.go.
use go_utils.Prelude.{
  ℕ, ◌/◌, ◌%◌, ◌<◌, ◌≡◌, refl, ap, false, some, [], ◌∷◌, ◌++◌, arith, length, All, Bytes, bytes_eq,
}
use go_utils.Rpcsplitter.Types.Hex.{
  hex_char, hex_value, encode, decode, decode_pair, bytes_to_hex, hex_to_bytes, naive_quote,
  naive_unquote, drop_quote,
}

abbrev pub AreBytes : Bytes → Type 0
AreBytes s = All (λ b. b < 256) s

pub hex_value-hex_char : (d : ℕ) → d < 16 → hex_value (hex_char d) ≡ some d
hex_value-hex_char d h = ground arith

decode-encode : (s : Bytes) → AreBytes s → decode (encode s) ≡ some s
unfolding decode encode
decode-encode [] h = refl
decode-encode (b ∷ s) h =
    rw
      (
        hex_value-hex_char (b / 16) (omega (arith, h.0)),
        hex_value-hex_char (b % 16) (omega arith),
        decode-encode s h.1,
      )
      (unfold decode_pair in ap (λ (c : ℕ). some (c ∷ s)) (omega arith))

encode_even : (s : Bytes) → length (encode s) % 2 ≡ 0
unfolding encode
encode_even [] = refl
encode_even (b ∷ s) = omega (arith, encode_even s)

not_zero : (s : Bytes) → bytes_eq (encode s) (b'0' ∷ []) ≡ false
unfolding encode
not_zero [] = refl
not_zero (b ∷ s) = ground arith

-- Bytes are read back from their hexadecimal text.
pub hex_to_bytes-bytes_to_hex : (s : Bytes) → AreBytes s → hex_to_bytes (bytes_to_hex s) ≡ some s
unfolding hex_to_bytes bytes_to_hex
hex_to_bytes-bytes_to_hex s h = rw (not_zero s, encode_even s) (decode-encode s h)

drop_quote_lem : (s : Bytes) → drop_quote (s ++ b'"' ∷ []) ≡ some s
unfolding drop_quote
drop_quote_lem [] = refl
drop_quote_lem (c ∷ []) = refl
drop_quote_lem (c ∷ d ∷ s) = rw (drop_quote_lem (d ∷ s))

-- A quoted text is unquoted to itself.
pub naive_unquote-naive_quote : (s : Bytes) → naive_unquote (naive_quote s) ≡ s
unfolding naive_unquote naive_quote
naive_unquote-naive_quote s = rw (drop_quote_lem s)
