-- ===== src/Rpcsplitter/Types/Hex.antt =====
-- rpcsplitter/types/util.go, over encoding/hex and big.Int's Text and SetString in base 16.
use go_utils.Prelude.Int.{ℤ, pos, negsuc, neg, neg_of}
use go_utils.Prelude.{
  ℕ, zero, suc, ◌+◌, ◌-◌, ◌*◌, ◌/◌, ◌%◌, Bool, true, false, ◌&&◌, ◌||◌, Option, none, some, [], ◌∷◌,
  ◌++◌, ltb, leb, nat_beq, if◌then◌else◌, length, Bytes, codes, bytes_eq,
}

-- A digit as hex.Encode and Text write it.
abbrev pub hex_char : ℕ → ℕ
hex_char d = if ltb d 10 then b'0' + d else b'a' + (d - 10)

-- The value of a digit, in either case.
abbrev pub hex_value : ℕ → Option ℕ
hex_value c =
    if leb b'0' c && leb c b'9'
    then some (c - b'0')
    else if leb b'a' c && leb c b'f'
    then some (c - b'a' + 10)
    else if leb b'A' c && leb c b'F'
    then some (c - b'A' + 10)
    else none

-- hex.Encode
unfoldable pub encode : Bytes → Bytes
encode [] = []
encode (b ∷ s) = hex_char (b / 16) ∷ hex_char (b % 16) ∷ encode s

-- One byte of hex.Decode, in front of what the rest decodes to.
unfoldable pub decode_pair : Option ℕ → Option ℕ → Option Bytes → Option Bytes
decode_pair (some h) (some l) (some s) = some ((h * 16 + l) ∷ s)
decode_pair _ _ _ = none

-- hex.Decode of a text of even length; `none` is an error
unfoldable pub decode : Bytes → Option Bytes
unfolding decode_pair
decode [] = some []
decode (h ∷ []) = none
decode (h ∷ l ∷ s) = decode_pair (hex_value h) (hex_value l) (decode s)

abbrev pub has_0x_prefix : Bytes → Bool
has_0x_prefix (a ∷ b ∷ s) = nat_beq a b'0' && (nat_beq b b'x' || nat_beq b b'X')
has_0x_prefix s = false

abbrev pub without_prefix : Bytes → Bytes
without_prefix (a ∷ b ∷ s) = if has_0x_prefix (a ∷ b ∷ s) then s else a ∷ b ∷ s
without_prefix s = s

unfoldable pub bytes_to_hex : Bytes → Bytes
unfolding encode
bytes_to_hex s = b'0' ∷ b'x' ∷ encode s

unfoldable pub even_digits : Bytes → Bytes
even_digits h = if nat_beq (length h % 2) 0 then h else b'0' ∷ h

unfoldable pub hex_to_bytes : Bytes → Option Bytes
unfolding decode even_digits
hex_to_bytes h =
    if bytes_eq h (codes "0x0") then some (0 ∷ []) else decode (even_digits (without_prefix h))

-- The digits of a number in base 16, with the number as fuel; none for zero.
unfoldable pub digits : ℕ → ℕ → Bytes
digits zero n = []
digits (suc fuel) n =
    let more = digits fuel (n / 16) in if nat_beq n 0 then [] else more ++ hex_char (n % 16) ∷ []

unfoldable pub big_int_to_hex : ℤ → Bytes
big_int_to_hex (pos zero) = codes "0x0"
big_int_to_hex (pos (suc n)) = b'0' ∷ b'x' ∷ digits (suc n) (suc n)
big_int_to_hex (negsuc n) = b'-' ∷ b'0' ∷ b'x' ∷ digits (suc n) (suc n)

-- The value of digits behind a number.
unfoldable pub scan : ℕ → Bytes → Option ℕ
scan n [] = some n
scan n (c ∷ s) = elim (hex_value c) [ none ↦ none | some d ↦ scan (n * 16 + d) s ]

-- The digits of SetString: one at least.
unfoldable pub set_digits : Bytes → Option ℕ
set_digits [] = none
set_digits (c ∷ s) = scan 0 (c ∷ s)

-- SetString(s, 16): a sign may stand first.
unfoldable pub set_string : Bytes → Option ℤ
set_string [] = none
set_string (c ∷ s) =
    if nat_beq c b'-'
    then elim (set_digits s) [ none ↦ none | some n ↦ some (neg_of n) ]
    else if nat_beq c b'+'
    then elim (set_digits s) [ none ↦ none | some n ↦ some (pos n) ]
    else elim (set_digits (c ∷ s)) [ none ↦ none | some n ↦ some (pos n) ]

pub data HexInt : Type 0 where
  value : ℤ → HexInt
  empty_hex : HexInt
  invalid_hex : HexInt

-- What follows the sign of the text.
unfoldable pub unsigned_hex : Bool → Bytes → HexInt
unsigned_hex is_neg [] = empty_hex
unsigned_hex is_neg (c ∷ s) = elim (set_string (c ∷ s)) [
  | none ↦ invalid_hex
  | some x ↦ value (if is_neg then neg x else x)
]

unfoldable pub hex_to_big_int : Bytes → HexInt
hex_to_big_int [] = empty_hex
hex_to_big_int (c ∷ []) = unsigned_hex false (c ∷ [])
hex_to_big_int (c ∷ d ∷ s) =
    if bytes_eq (c ∷ d ∷ s) (codes "0x0")
    then value (pos 0)
    else if nat_beq c b'-'
    then unsigned_hex true (without_prefix (d ∷ s))
    else unsigned_hex false (without_prefix (c ∷ d ∷ s))

unfoldable pub naive_quote : Bytes → Bytes
naive_quote s = b'"' ∷ (s ++ b'"' ∷ [])

-- The text without its last byte, if that is a quote.
unfoldable pub drop_quote : Bytes → Option Bytes
drop_quote [] = none
drop_quote (c ∷ []) = if nat_beq c b'"' then some [] else none
drop_quote (c ∷ d ∷ s) = elim (drop_quote (d ∷ s)) [ none ↦ none | some t ↦ some (c ∷ t) ]

unfoldable pub naive_unquote : Bytes → Bytes
unfolding drop_quote
naive_unquote [] = []
naive_unquote (c ∷ s) =
    if nat_beq c b'"' then (elim (drop_quote s) [ none ↦ c ∷ s | some t ↦ t ]) else c ∷ s
