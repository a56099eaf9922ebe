-- ===== src/Rpcsplitter/Types/Blocks.antt =====
-- BlockNumber of rpcsplitter/types/blocknumber.go: a number, or a tag as a negative number.
use go_utils.Prelude.Int.{ℤ, pos, negsuc, eq_ℤ, ltb_ℤ, magnitude}
use go_utils.Prelude.{
  ℕ, zero, suc, ◌-◌, ◌^◌, ◌<◌, ◌≡◌, refl, sym, ap, ◌∙◌, ◌⊎◌, inl, inr, Bool, false, ◌&&◌, ◌||◌, [],
  ◌∷◌, arith, leb, nat_beq, if◌then◌else◌, Bytes, codes, bytes_eq,
}
use go_utils.Rpcsplitter.Server.{to_int64, int64_bits}
use go_utils.Rpcsplitter.Types.Hex.{HexInt, value, big_int_to_hex, hex_to_big_int}
use go_utils.Rpcsplitter.Types.HexNumbers.{hex_to_big_int-big_int_to_hex}

abbrev pub earliest_block_number : ℤ
earliest_block_number = negsuc 0

abbrev pub latest_block_number : ℤ
latest_block_number = negsuc 1

abbrev pub pending_block_number : ℤ
pending_block_number = negsuc 2

-- MarshalText
unfoldable pub marshal_text : ℤ → Bytes
marshal_text x =
    if eq_ℤ (to_int64 x) earliest_block_number
    then codes "earliest"
    else if eq_ℤ (to_int64 x) latest_block_number
    then codes "latest"
    else if eq_ℤ (to_int64 x) pending_block_number
    then codes "pending"
    else big_int_to_hex x

-- The spaces of ASCII, which strings.TrimSpace removes at both ends. Others are not modelled.
is_space : ℕ → Bool
is_space c = nat_beq c b' ' || leb 9 c && leb c 13

trim_left : Bytes → Bytes
unfolding is_space
trim_left [] = []
trim_left (c ∷ s) = if is_space c then trim_left s else c ∷ s

trim_right_at : ℕ → Bytes → Bytes
unfolding is_space
trim_right_at c [] = if is_space c then [] else c ∷ []
trim_right_at c (d ∷ s) = c ∷ d ∷ s

trim_right : Bytes → Bytes
unfolding trim_right_at
trim_right [] = []
trim_right (c ∷ s) = trim_right_at c (trim_right s)

trim_space : Bytes → Bytes
unfolding trim_left trim_right
trim_space s = trim_right (trim_left s)

pub data BlockText : Type 0 where
  block : ℤ → BlockText
  not_hex : HexInt → BlockText
  too_large : BlockText

unfoldable pub checked : HexInt → BlockText
checked (value u) = if ltb_ℤ (pos (2 ^ 63 - 1)) u then too_large else block u
checked e = not_hex e

unfoldable pub unmarshal_text : Bytes → BlockText
unfolding trim_space checked
unmarshal_text s =
    if bytes_eq (trim_space s) (codes "earliest")
    then block earliest_block_number
    else if bytes_eq (trim_space s) (codes "latest")
    then block latest_block_number
    else if bytes_eq (trim_space s) (codes "pending")
    then block pending_block_number
    else checked (hex_to_big_int s)

-- The first byte stays if it is no space.
trim_right_at-shape :
    (c : ℕ) (s : Bytes) → is_space c ≡ false → (t : Bytes) × (trim_right_at c s ≡ c ∷ t)
unfolding trim_right_at
trim_right_at-shape c [] h = ([], rw h)
trim_right_at-shape c (d ∷ s) h = (d ∷ s, refl)

trim_space-shape :
    (c : ℕ) (s : Bytes) → is_space c ≡ false → (t : Bytes) × (trim_space (c ∷ s) ≡ c ∷ t)
unfolding trim_space
trim_space-shape c s h = let (t, e) = trim_right_at-shape c (trim_right s) h in (t, rw h e)

-- A text that begins with a digit or a sign is no tag.
no_tag :
    (c : ℕ) (s : Bytes)
    → ((c ≡ b'0') ⊎ (c ≡ b'-'))
    → unmarshal_text (c ∷ s) ≡ checked (hex_to_big_int (c ∷ s))
unfolding unmarshal_text
no_tag c s h =
    let (t, e) = trim_space-shape c s (unfold is_space in ground arith) in rw e (ground arith)

big_int_to_hex-shape :
    (x : ℤ) → (c : ℕ) × (s : Bytes) × (big_int_to_hex x ≡ c ∷ s) × ((c ≡ b'0') ⊎ (c ≡ b'-'))
unfolding big_int_to_hex
big_int_to_hex-shape (pos zero) = (b'0', codes "x0", refl, inl refl)
big_int_to_hex-shape (pos (suc n)) = (b'0', _, refl, inl refl)
big_int_to_hex-shape (negsuc n) = (b'-', _, refl, inr refl)

unmarshal_hex : (x : ℤ) → unmarshal_text (big_int_to_hex x) ≡ checked (value x)
unmarshal_hex x =
    let (c, s, e, h) = big_int_to_hex-shape x in
    ap unmarshal_text e
    ∙ no_tag c s h
    ∙ ap checked (ap hex_to_big_int (sym e) ∙ hex_to_big_int-big_int_to_hex x)

int64_bits-same : (m : ℕ) → m < 2 ^ 63 → int64_bits m ≡ pos m
int64_bits-same m h = ground arith

pub to_int64-same : (x : ℤ) → magnitude x < 2 ^ 63 → to_int64 x ≡ x
to_int64-same (pos n) h = int64_bits-same n h
to_int64-same (negsuc n) h = rw (int64_bits-same (suc n) h) refl

fits : (x : ℤ) → magnitude x < 2 ^ 63 → ltb_ℤ (pos (2 ^ 63 - 1)) x ≡ false
fits (pos n) h = ground arith
fits (negsuc n) h = ground arith

checked-block : (x : ℤ) → magnitude x < 2 ^ 63 → checked (value x) ≡ block x
unfolding checked
checked-block x h = rw (fits x h) refl

unmarshal_of_hex :
    (x : ℤ) (s : Bytes) → magnitude x < 2 ^ 63 → s ≡ big_int_to_hex x → unmarshal_text s ≡ block x
unmarshal_of_hex x s h e = ap unmarshal_text e ∙ unmarshal_hex x ∙ checked-block x h

-- A block number or tag that fits an int64 is read back from its text.
pub unmarshal_text-marshal_text :
    (x : ℤ) → magnitude x < 2 ^ 63 → unmarshal_text (marshal_text x) ≡ block x
unmarshal_text-marshal_text (pos n) h =
    unmarshal_of_hex (pos n) (marshal_text (pos n)) h
      (unfold marshal_text in rw (to_int64-same (pos n) h) refl)
unmarshal_text-marshal_text (negsuc zero) h = unfold marshal_text unmarshal_text in refl
unmarshal_text-marshal_text (negsuc (suc zero)) h = unfold marshal_text unmarshal_text in refl
unmarshal_text-marshal_text (negsuc (suc (suc zero))) h = unfold marshal_text unmarshal_text in refl
unmarshal_text-marshal_text (negsuc (suc (suc (suc n)))) h =
    unmarshal_of_hex (negsuc (suc (suc (suc n)))) (marshal_text (negsuc (suc (suc (suc n))))) h
      (unfold marshal_text in rw (to_int64-same (negsuc (suc (suc (suc n)))) h) (ground arith))
