-- ===== src/Rpcsplitter/Compare.antt =====
-- compare of rpcsplitter/compare.go, over the values that reflection shows. A type is a number; an
-- address is a number, 0 for nil. Keys of maps are strings. Of the numbers, floats and complex
-- numbers are not modelled.
use Prim.Native.String.{String}
use go_utils.Prelude.Int.{ℤ, eq_ℤ}
use go_utils.Prelude.{
  ℕ, suc, Bool, true, false, ◌&&◌, not, nat_beq, if◌then◌else◌, ◌==◌, string_comparable,
}

mutual
  pub data Value : Type 0 where
    invalid : Value
    pointer : ℕ → Value → Value
    interface : Value → Value
    array : ℕ → Values → Value
    slice : ℕ → ℕ → Values → Value
    mapping : ℕ → ℕ → Entries → Value
    struct : ℕ → Values → Value
    text : ℕ → String → Value
    int : ℕ → ℤ → Value
    uint : ℕ → ℕ → Value
    boolean : ℕ → Bool → Value
    -- A channel, function or other kind: an identity, and whether `==` can compare it.
    other : ℕ → ℕ → Bool → Value

  pub data Values : Type 0 where
    nil : Values
    cons : Value → Values → Values

  pub data Entries : Type 0 where
    end : Entries
    entry : String → Value → Entries → Entries

abbrev pub is_valid : Value → Bool
is_valid invalid = false
is_valid _ = true

-- b.Elem(), as long as b is a pointer or an interface
unfoldable pub elem : Value → Value
elem (pointer p v) = elem v
elem (interface v) = elem v
elem v = v

abbrev pub points_to : ℕ → Value → Bool
points_to p (pointer q v) = nat_beq p q
points_to p _ = false

abbrev pub length_entries : Entries → ℕ
length_entries end = 0
length_entries (entry k v es) = suc (length_entries es)

abbrev pub length_values : Values → ℕ
length_values nil = 0
length_values (cons v vs) = suc (length_values vs)

-- b.MapIndex(k): the zero Value on a missing key
unfoldable pub map_index : Entries → String → Value
map_index end k = invalid
map_index (entry j v es) k = if j == k then v else map_index es k

abbrev pub bool_eq : Bool → Bool → Bool
bool_eq true b = b
bool_eq false b = not b

-- Cases on the kinds of both sides, behind the pointers. Arrays and structs of one type have one
-- length.
unfoldable mutual
  unfolding elem map_index

  pub cmp : Value → Value → Bool
  cmp invalid b = not (is_valid b)
  cmp (pointer p v) b =
      let inner = cmp v b in
      if not (is_valid b) then false else if points_to p b then true else inner
  cmp (interface v) b = let inner = cmp v b in if not (is_valid b) then false else inner
  cmp (array t vs) b = elim (elem b) [ array u ws ↦ nat_beq t u && cmp_values vs ws | _ ↦ false ]
  cmp (slice t p vs) b = elim (elem b) [
    | slice u q ws ↦
        if nat_beq t u
        then if nat_beq p q
          then true
          else nat_beq (length_values vs) (length_values ws) && cmp_values vs ws
        else false
    | _ ↦ false
  ]
  cmp (mapping t p es) b = elim (elem b) [
    | mapping u q fs ↦
        if nat_beq t u
        then if nat_beq p q
          then true
          else nat_beq (length_entries es) (length_entries fs) && cmp_entries es fs
        else false
    | _ ↦ false
  ]
  cmp (struct t vs) b = elim (elem b) [ struct u ws ↦ nat_beq t u && cmp_values vs ws | _ ↦ false ]
  cmp (text t s) b = elim (elem b) [ text u r ↦ nat_beq t u && s == r | _ ↦ false ]
  cmp (int t i) b = elim (elem b) [ int u j ↦ nat_beq t u && eq_ℤ i j | _ ↦ false ]
  cmp (uint t i) b = elim (elem b) [ uint u j ↦ nat_beq t u && nat_beq i j | _ ↦ false ]
  cmp (boolean t x) b = elim (elem b) [ boolean u y ↦ nat_beq t u && bool_eq x y | _ ↦ false ]
  cmp (other t i c) b = elim (elem b) [
    | other u j d ↦ nat_beq t u && (c && nat_beq i j)
    | _ ↦ false
  ]

  pub cmp_values : Values → Values → Bool
  cmp_values nil ws = true
  cmp_values (cons v vs) ws = elim ws [ nil ↦ false | cons w us ↦ cmp v w && cmp_values vs us ]

  pub cmp_entries : Entries → Entries → Bool
  cmp_entries end fs = true
  cmp_entries (entry k v es) fs = cmp v (map_index fs k) && cmp_entries es fs

-- compare
unfoldable pub compare : Value → Value → Bool
unfolding cmp
compare a b = cmp a b
