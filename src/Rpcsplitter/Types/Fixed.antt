-- ===== src/Rpcsplitter/Types/Fixed.antt =====
-- Values of a fixed number of bytes: rpcsplitter/types/hash.go, address.go,
-- nonce.go and bloom.go.
use go_utils.Rpcsplitter.Types.Hex.{bytes_to_hex, hex_to_bytes}
use go_utils.Rpcsplitter.Types.HexBytes.{AreBytes, hex_to_bytes-bytes_to_hex}
use go_utils.Rpcsplitter.Types.Json.{copy_to_end, fixed_bytes_unmarshal_text}
use go_utils.Prelude.{
  ℕ, ◌-◌, ◌≤◌, ◌≡◌, refl, sym, ap, ◌∙◌, inl, inr, false, Option, none, some, List, [], ◌∷◌, arith,
  ltb, Bool-cases, Option-cases, length, length-append, take, replicate, length-take,
  length-replicate, All, Bytes,
}

abbrev pub hash_length : ℕ
hash_length = 32

abbrev pub address_length : ℕ
address_length = 20

abbrev pub nonce_length : ℕ
nonce_length = 8

abbrev pub zero_bytes : ℕ → Bytes
zero_bytes n = replicate n 0

-- An error leaves the zero value.
unfoldable pub or_zero : ℕ → Option Bytes → Bytes
or_zero n none = zero_bytes n
or_zero n (some s) = s

unfoldable pub hex_to_hash : Bytes → Bytes
unfolding or_zero fixed_bytes_unmarshal_text
hex_to_hash hex = or_zero hash_length (fixed_bytes_unmarshal_text hex (zero_bytes hash_length))

unfoldable pub bytes_to_hash : Bytes → Bytes
unfolding or_zero copy_to_end
bytes_to_hash s = or_zero hash_length (copy_to_end s (zero_bytes hash_length))

unfoldable pub hash_text : Bytes → Bytes
hash_text t = bytes_to_hex t

unfoldable pub hex_to_address : Bytes → Bytes
unfolding or_zero fixed_bytes_unmarshal_text
hex_to_address hex =
    or_zero address_length (fixed_bytes_unmarshal_text hex (zero_bytes address_length))

unfoldable pub bytes_to_address : Bytes → Bytes
unfolding or_zero copy_to_end
bytes_to_address s = or_zero address_length (copy_to_end s (zero_bytes address_length))

unfoldable pub address_text : Bytes → Bytes
address_text t = bytes_to_hex t

unfoldable pub hex_to_addresses : List Bytes → List Bytes
unfolding hex_to_address
hex_to_addresses [] = []
hex_to_addresses (s ∷ ss) = hex_to_address s ∷ hex_to_addresses ss

unfoldable pub hex_to_nonce : Bytes → Bytes
unfolding or_zero fixed_bytes_unmarshal_text
hex_to_nonce hex = or_zero nonce_length (fixed_bytes_unmarshal_text hex (zero_bytes nonce_length))

unfoldable pub bytes_to_nonce : Bytes → Bytes
unfolding or_zero copy_to_end
bytes_to_nonce s = or_zero nonce_length (copy_to_end s (zero_bytes nonce_length))

unfoldable pub nonce_text : Bytes → Bytes
nonce_text t = bytes_to_hex t

abbrev bloom_length : ℕ
bloom_length = 256

unfoldable bytes_to_bloom : Bytes → Bytes
unfolding or_zero copy_to_end
bytes_to_bloom s = or_zero bloom_length (copy_to_end s (zero_bytes bloom_length))

unfoldable bloom_text : Bytes → Bytes
bloom_text t = bytes_to_hex t

-- Bytes copied over as many.
copy_to_end_whole : (s output : Bytes) → length s ≡ length output → copy_to_end s output ≡ some s
unfolding copy_to_end
copy_to_end_whole s output e =
    let no : ltb (length output) (length s) ≡ false = ground arith in
    let none_kept : length output - length s ≡ 0 = omega arith in rw (no, none_kept) refl

whole :
    (n : ℕ) (s : Bytes)
    → AreBytes s
    → length s ≡ n
    → fixed_bytes_unmarshal_text (bytes_to_hex s) (zero_bytes n) ≡ some s
unfolding fixed_bytes_unmarshal_text
whole n s h e =
    rw (hex_to_bytes-bytes_to_hex s h, fixed_bytes_unmarshal_text)
      (copy_to_end_whole s (zero_bytes n) (e ∙ sym (length-replicate n 0)))

read_whole :
    (n : ℕ) (s : Bytes)
    → AreBytes s
    → length s ≡ n
    → or_zero n (fixed_bytes_unmarshal_text (bytes_to_hex s) (zero_bytes n)) ≡ s
unfolding or_zero
read_whole n s h e = ap (or_zero n) (whole n s h e)

pub addresses_text : List Bytes → List Bytes
addresses_text [] = []
addresses_text (s ∷ ss) = address_text s ∷ addresses_text ss

abbrev pub AreAddresses : List Bytes → Type 0
AreAddresses ss = All (λ s. AreBytes s × (length s ≡ address_length)) ss

-- The texts of addresses, of 20 bytes each, are read back by HexToAddresses, each at its place.
pub hex_to_addresses-addresses_text :
    (ss : List Bytes) → AreAddresses ss → hex_to_addresses (addresses_text ss) ≡ ss
unfolding hex_to_addresses hex_to_address addresses_text address_text
hex_to_addresses-addresses_text [] h = refl
hex_to_addresses-addresses_text (s ∷ ss) ((b, l), h) =
    ap (λ t. t ∷ hex_to_addresses (addresses_text ss)) (read_whole address_length s b l)
    ∙ ap (λ ts. s ∷ ts) (hex_to_addresses-addresses_text ss h)

length-copy_to_end :
    (n : ℕ) (s output : Bytes) → length output ≡ n → length (or_zero n (copy_to_end s output)) ≡ n
unfolding copy_to_end or_zero
length-copy_to_end n s output e = elim (Bool-cases (ltb (length output) (length s))) [
  | inl c ↦ rw c (length-replicate n 0)
  | inr c ↦
      let under : length s ≤ length output = ground arith in
      rw c (
        length-append (take (length output - length s) output) s
        ∙ let k = length-take (length output - length s) output in omega (arith, k))
]

length_read :
    (n : ℕ) (hex : Bytes) → length (or_zero n (fixed_bytes_unmarshal_text hex (zero_bytes n))) ≡ n
unfolding fixed_bytes_unmarshal_text or_zero
length_read n hex = elim (Option-cases (hex_to_bytes hex)) [
  | inl e ↦ rw (e, fixed_bytes_unmarshal_text) (length-replicate n 0)
  | inr (s, e) ↦
      rw (e, fixed_bytes_unmarshal_text)
        (length-copy_to_end n s (zero_bytes n) (length-replicate n 0))
]

-- Whatever text and whatever bytes they are made from, a hash has 32 bytes, an address 20 and a nonce 8.
pub fixed_lengths :
    (hex s : Bytes)
    → (length (hex_to_hash hex) ≡ 32)
      × (length (bytes_to_hash s) ≡ 32)
      × (length (hex_to_address hex) ≡ 20)
      × (length (bytes_to_address s) ≡ 20)
      × (length (hex_to_nonce hex) ≡ 8)
      × (length (bytes_to_nonce s) ≡ 8)
unfolding hex_to_hash bytes_to_hash hex_to_address bytes_to_address hex_to_nonce bytes_to_nonce
fixed_lengths hex s = (
  length_read 32 hex,
  length-copy_to_end 32 s (zero_bytes 32) refl,
  length_read 20 hex,
  length-copy_to_end 20 s (zero_bytes 20) refl,
  length_read 8 hex,
  length-copy_to_end 8 s (zero_bytes 8) refl,
)

-- A bloom filter has 256 bytes, whatever it is made from.
length-bytes_to_bloom : (s : Bytes) → length (bytes_to_bloom s) ≡ 256
unfolding bytes_to_bloom
length-bytes_to_bloom s = length-copy_to_end 256 s (zero_bytes 256) (length-replicate {A = ℕ} 256 0)

-- UnmarshalText reads the text of a bloom filter back, into an array that is all zero.
fixed_bytes_unmarshal_text-bloom_text :
    (t : Bytes)
    → AreBytes t
    → length t ≡ 256
    → fixed_bytes_unmarshal_text (bloom_text t) (zero_bytes 256) ≡ some t
unfolding bloom_text
fixed_bytes_unmarshal_text-bloom_text t h e = whole 256 t h e
