-- ===== src/Rpcsplitter/Types/BlockNames.antt =====
-- The texts of a BlockNumber of rpcsplitter/types/blocknumber.go, and the constructor from a text.
use go_utils.Prelude.Int.{ℤ, pos, negsuc, eq_ℤ, magnitude}
use go_utils.Prelude.{ℕ, suc, ◌^◌, ◌<◌, ◌≡◌, refl, Bool, ◌++◌, arith, if◌then◌else◌, Bytes, codes}
use go_utils.Rpcsplitter.Server.{to_int64, is_earliest}
use go_utils.Rpcsplitter.Types.Hex.{digits, big_int_to_hex}
use go_utils.Rpcsplitter.Types.Number.{hex_text, hex_text-big_int_to_hex}
use go_utils.Rpcsplitter.Types.Blocks.{
  BlockText, block, not_hex, too_large, marshal_text, unmarshal_text, unmarshal_text-marshal_text,
  to_int64-same, latest_block_number, pending_block_number,
}

unfoldable is_latest : ℤ → Bool
is_latest x = eq_ℤ (to_int64 x) latest_block_number

unfoldable is_pending : ℤ → Bool
is_pending x = eq_ℤ (to_int64 x) pending_block_number

-- The block number that UnmarshalText has stored, zero if it has stored none.
unfoldable stored : BlockText → ℤ
stored (block x) = x
stored (not_hex e) = pos 0
stored too_large = pos 0

unfoldable string_to_block_number : Bytes → ℤ
unfolding stored
string_to_block_number s = stored (unmarshal_text s)

-- A text that MarshalText writes is a block number again, without the error that StringToBlockNumber drops.
string_to_block_number-marshal_text :
    (x : ℤ) → magnitude x < 2 ^ 63 → string_to_block_number (marshal_text x) ≡ x
unfolding string_to_block_number stored
string_to_block_number-marshal_text x h = rw (unmarshal_text-marshal_text x h) refl

-- String
unfoldable block_string : ℤ → Bytes
unfolding is_earliest is_latest is_pending hex_text
block_string x =
    if is_earliest x
    then codes "earliest"
    else if is_latest x
    then codes "latest"
    else if is_pending x
    then codes "pending"
    else codes "0x" ++ hex_text x

-- String and MarshalText write a number that is not negative the same way.
block_string-marshal_text : (n : ℕ) → block_string (pos n) ≡ marshal_text (pos n)
unfolding block_string marshal_text
block_string-marshal_text n = rw (hex_text-big_int_to_hex n) refl

abbrev below_tags : ℕ → ℤ
below_tags n = negsuc (suc (suc (suc n)))

abbrev digits_of : ℕ → Bytes
digits_of n = digits (suc (suc (suc (suc n)))) (suc (suc (suc (suc n))))

-- Other negative numbers than the tags have the sign behind the prefix in String, where MarshalText has
-- it before the prefix.
block_string-below_tags :
    (n : ℕ)
    → suc (suc (suc (suc n))) < 2 ^ 63
    → (block_string (below_tags n) ≡ codes "0x-" ++ digits_of n)
      × (marshal_text (below_tags n) ≡ codes "-0x" ++ digits_of n)
unfolding block_string marshal_text is_earliest is_latest is_pending hex_text big_int_to_hex
block_string-below_tags n h = (
  rw (to_int64-same (below_tags n) h) (ground arith),
  rw (to_int64-same (below_tags n) h) (ground arith),
)
