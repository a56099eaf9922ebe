-- ===== src/Hcl/Mapper/Typed.antt =====
-- The Go values of a type, for hcl/mapper.go, and what it relies on of the cty library and the mapper.
use go_utils.Hcl.Mapper.{
  Number, string_kind, number_kind, bool_kind, list_kind, map_kind, dynamic_kind, done, GoType,
  string_type, bool_type, big_int_type, big_float_type, int_type, uint_type, slice_type, map_type,
  Go, string_go, bool_go, int_go, uint_go, big_int_go, big_float_go, slice_go, map_go, Gos, no_gos,
  cons_go, Entries, no_entries, entry, Cty, Mapper,
}
use go_utils.Prelude.Int.{ℤ, pos, negsuc}
use go_utils.Prelude.{ℕ, ◌-◌, ◌^◌, ◌<◌, ◌≤◌, ◌≡◌, ◌≢◌, Bool, List, [], ◌∷◌, Bytes, All}

-- An integer of a width, and one without a sign.
abbrev pub IsInt : ℕ → ℤ → Type 0
IsInt w (pos n) = (w ≤ 64) × (n < 2 ^ (w - 1))
IsInt w (negsuc n) = (w ≤ 64) × (n < 2 ^ (w - 1))

abbrev pub IsUint : ℕ → ℕ → Type 0
IsUint w n = (w ≤ 64) × (n < 2 ^ w)

-- The values of a list of elements, and a list of elements with these keys.
abbrev pub values_of : {V : Type 0} → List (V × V) → List V
values_of [] = []
values_of ((k, v) ∷ es) = v ∷ values_of es

abbrev pub keys_of : {V : Type 0} → List (Bytes × V) → List Bytes
keys_of [] = []
keys_of ((k, v) ∷ es) = k ∷ keys_of es

abbrev pub as_elements : {V : Type 0} → (Bytes → V) → List (Bytes × V) → List (V × V)
as_elements f [] = []
as_elements f ((k, v) ∷ es) = (f k, v) ∷ as_elements f es

-- Texts that the cty library leaves as they are, which are those in Unicode's normal form, and lists of
-- keys in the order in which it lists the elements of a map.
module _ (IsNormal : Bytes → Type 0) (InOrder : List Bytes → Type 0) where
  -- What a value has in it is what it was made of: a list of values of known types has them in their order,
  -- and a map of such values with normal keys is listed by its keys. (Among values of known types, one
  -- whose type is dynamic is given another type.) The mapper keeps an integer that fits, and a key that
  -- is a string.
  pub record Laws {V : Type 0} (cty : Cty V) (m : Mapper V) : Type 0 where
    pub string_is : (s : Bytes) → cty.kind (cty.string_val s) ≡ string_kind
    pub string_has : (s : Bytes) → IsNormal s → cty.as_string (cty.string_val s) ≡ done s
    pub bool_is : (b : Bool) → cty.kind (cty.bool_val b) ≡ bool_kind
    pub bool_has : (b : Bool) → cty.is_true (cty.bool_val b) ≡ done b
    pub number_is : (n : Number) → cty.kind (cty.number_val n) ≡ number_kind
    pub number_has : (n : Number) → cty.as_big_float (cty.number_val n) ≡ done n
    pub empty_is : cty.kind cty.list_val_empty ≡ list_kind
    pub empty_has : cty.elements cty.list_val_empty ≡ done []
    pub list_is : (cs : List V) (c : V) → cty.list_val cs ≡ done c → cty.kind c ≡ list_kind
    pub list_has :
        (cs : List V) (c : V)
        → All (λ (d : V). cty.kind d ≢ dynamic_kind) cs
        → cty.list_val cs ≡ done c
        → (es : List (V × V)) × (cty.elements c ≡ done es) × (values_of es ≡ cs)
    pub map_is : (vs : List (Bytes × V)) (c : V) → cty.map_val vs ≡ done c → cty.kind c ≡ map_kind
    pub map_has :
        (vs : List (Bytes × V)) (c : V)
        → All (λ (e : Bytes × V). IsNormal (e.0) × (cty.kind (e.1) ≢ dynamic_kind)) vs
        → cty.map_val vs ≡ done c
        → InOrder (keys_of vs)
        → cty.elements c ≡ done (as_elements cty.string_val vs)
    pub int_fits : (w : ℕ) (z : ℤ) → IsInt w z → m.map_int w z ≡ done z
    pub uint_fits : (w n : ℕ) → IsUint w n → m.map_uint w n ≡ done n
    pub key_is : (s : Bytes) → m.map_key (string_go s) ≡ done s

  -- The texts that are the keys of the entries.
  abbrev pub texts_of : {V : Type 0} → Entries V → List Bytes
  texts_of no_entries = []
  texts_of (entry (string_go s) g es) = s ∷ texts_of es
  texts_of (entry k g es) = texts_of es

  -- A value of the type, without floats, values of cty itself, of interfaces and of types with methods, and whose texts
  -- are normal. A map has keys that are texts and not empty, and is listed in their order.
  mutual
    pub data HasType {V : Type 0} : GoType → Go V → Type 0 where
      has_string : {s : Bytes} → IsNormal s → HasType string_type (string_go s)
      has_bool : {b : Bool} → HasType bool_type (bool_go b)
      has_int : {w : ℕ} {z : ℤ} → IsInt w z → HasType (int_type w) (int_go z)
      has_uint : {w n : ℕ} → IsUint w n → HasType (uint_type w) (uint_go n)
      has_big_int : {z : ℤ} → HasType big_int_type (big_int_go z)
      has_big_float : {n : Number} → HasType big_float_type (big_float_go n)
      has_slice : {T : GoType} {gs : Gos V} → HaveType T gs → HasType (slice_type T) (slice_go gs)
      has_map :
          {T : GoType} {es : Entries V}
          → EntriesHave T es
          → InOrder (texts_of es)
          → HasType (map_type string_type T) (map_go es)

    pub data HaveType {V : Type 0} : GoType → Gos V → Type 0 where
      have_none : {T : GoType} → HaveType T no_gos
      have_one :
          {T : GoType} {g : Go V} {gs : Gos V}
          → HasType T g
          → HaveType T gs
          → HaveType T (cons_go g gs)

    pub data EntriesHave {V : Type 0} : GoType → Entries V → Type 0 where
      have_no_entry : {T : GoType} → EntriesHave T no_entries
      have_entry :
          {T : GoType} {c : ℕ} {cs : Bytes} {g : Go V} {es : Entries V}
          → IsNormal (c ∷ cs)
          → HasType T g
          → EntriesHave T es
          → EntriesHave T (entry (string_go (c ∷ cs)) g es)
