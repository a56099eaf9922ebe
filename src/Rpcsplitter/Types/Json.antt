-- ===== src/Rpcsplitter/Types/Json.antt =====
-- The JSON and text methods that the types share, of rpcsplitter/types/util.go. `none` is an error; what
-- bytesUnmarshalText leaves in its output then is not modelled.
use go_utils.Prelude.Int.{ℤ}
use go_utils.Prelude.{
  ◌-◌, ◌≤◌, ◌≡◌, refl, false, Option, none, some, ◌++◌, arith, ltb, if◌then◌else◌, length, take,
  Bytes, codes, bytes_eq,
}
use go_utils.Rpcsplitter.Types.Hex.{
  HexInt, value, bytes_to_hex, hex_to_bytes, big_int_to_hex, hex_to_big_int, naive_quote,
  naive_unquote,
}
use go_utils.Rpcsplitter.Types.HexBytes.{
  AreBytes, hex_to_bytes-bytes_to_hex, naive_unquote-naive_quote,
}
use go_utils.Rpcsplitter.Types.HexNumbers.{hex_to_big_int-big_int_to_hex}

unfoldable pub bytes_marshal_text : Bytes → Bytes
bytes_marshal_text input = bytes_to_hex input

unfoldable pub bytes_marshal_json : Bytes → Bytes
unfolding bytes_marshal_text
bytes_marshal_json input = naive_quote (bytes_marshal_text input)

unfoldable pub bytes_unmarshal_text : Bytes → Option Bytes
bytes_unmarshal_text input = hex_to_bytes input

unfoldable pub bytes_unmarshal_json : Bytes → Bytes → Option Bytes
unfolding bytes_unmarshal_text
bytes_unmarshal_json input output =
    if bytes_eq input (codes "null")
    then some output
    else bytes_unmarshal_text (naive_unquote input)

-- copy(output[len(output)-len(data):], data), if the data is no longer than the output
unfoldable pub copy_to_end : Bytes → Bytes → Option Bytes
copy_to_end bytes output =
    if ltb (length output) (length bytes)
    then none
    else some (take (length output - length bytes) output ++ bytes)

unfoldable pub fixed_bytes_unmarshal_text : Bytes → Bytes → Option Bytes
unfolding copy_to_end
fixed_bytes_unmarshal_text input output = elim (hex_to_bytes input) [
  | none ↦ none
  | some bytes ↦ copy_to_end bytes output
]

unfoldable pub fixed_bytes_unmarshal_json : Bytes → Bytes → Option Bytes
unfolding fixed_bytes_unmarshal_text
fixed_bytes_unmarshal_json input output =
    if bytes_eq input (codes "null")
    then some output
    else fixed_bytes_unmarshal_text (naive_unquote input) output

unfoldable pub number_marshal_json : ℤ → Bytes
number_marshal_json input = naive_quote (big_int_to_hex input)

unfoldable pub number_unmarshal_json : Bytes → HexInt
number_unmarshal_json input = hex_to_big_int (naive_unquote input)

quoted_no_null : (s : Bytes) → bytes_eq (naive_quote s) (codes "null") ≡ false
unfolding naive_quote
quoted_no_null s = refl

-- Bytes are read back from their JSON text, whatever the output was before.
pub bytes_unmarshal_json-bytes_marshal_json :
    (s output : Bytes) → AreBytes s → bytes_unmarshal_json (bytes_marshal_json s) output ≡ some s
unfolding bytes_unmarshal_json bytes_marshal_json bytes_unmarshal_text bytes_marshal_text
bytes_unmarshal_json-bytes_marshal_json s output h =
    rw (quoted_no_null (bytes_to_hex s), naive_unquote-naive_quote (bytes_to_hex s))
      (hex_to_bytes-bytes_to_hex s h)

-- Into a fixed number of bytes the JSON text of at most as many is read to the end, and the bytes of the
-- output before them stay as they were.
pub fixed_bytes_unmarshal_json-bytes_marshal_json :
    (s output : Bytes)
    → AreBytes s
    → length s ≤ length output
    → fixed_bytes_unmarshal_json (bytes_marshal_json s) output
      ≡ some (take (length output - length s) output ++ s)
unfolding fixed_bytes_unmarshal_json bytes_marshal_json fixed_bytes_unmarshal_text
    bytes_marshal_text copy_to_end
fixed_bytes_unmarshal_json-bytes_marshal_json s output h l =
    rw
      (
        quoted_no_null (bytes_to_hex s),
        naive_unquote-naive_quote (bytes_to_hex s),
        fixed_bytes_unmarshal_text,
        hex_to_bytes-bytes_to_hex s h,
      )
      (ground arith)

-- A number is read back from its JSON text, whatever its sign.
pub number_unmarshal_json-number_marshal_json :
    (x : ℤ) → number_unmarshal_json (number_marshal_json x) ≡ value x
unfolding number_unmarshal_json number_marshal_json
number_unmarshal_json-number_marshal_json x =
    rw (naive_unquote-naive_quote (big_int_to_hex x)) (hex_to_big_int-big_int_to_hex x)
