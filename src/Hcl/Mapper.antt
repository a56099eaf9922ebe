-- ===== src/Hcl/Mapper.antt =====
-- What the mapping functions of hcl/mapper.go map between, Go values and cty values. The cty library, the mapper
-- that calls these functions for numbers, keys and the elements of type any, and the methods of types
-- that marshal themselves are parameters.
pub mod From
pub mod To
pub mod Typed
pub mod Steps
pub mod RoundTrip
pub mod Sound
pub mod Examples
use go_utils.Prelude.Int.{ℤ, pos, negsuc}
use go_utils.Prelude.{ℕ, ◌^◌, Bool, List, [], ◌∷◌, if◌then◌else◌, Bytes, ltb}

-- A big.Float: a whole number, or another one.
pub data Number : Type 0 where
  whole : ℤ → Number
  fraction : ℕ → Number

-- What Type of a cty.Value is.
pub data Kind : Type 0 where
  string_kind number_kind bool_kind list_kind set_kind tuple_kind : Kind
  map_kind object_kind dynamic_kind other_kind : Kind

pub data MapError : Type 0 where
  cannot_decode : Kind → MapError
  not_integer too_large unsupported : MapError
  foreign : ℕ → MapError

pub data Outcome {ℓ} (A : Type ℓ) : Type ℓ where
  panics : Outcome A
  fails : MapError → Outcome A
  done : A → Outcome A

infixl 10 ◌>>=◌
abbrev pub ◌>>=◌ {ℓ κ} : {A : Type ℓ} {B : Type κ} → Outcome A → (A → Outcome B) → Outcome B
panics >>= next = panics
fails e >>= next = fails e
done a >>= next = next a

-- A Go type; the numbers are the widths of the integers and floats, and the name of a type with methods.
pub data GoType : Type 0 where
  string_type bool_type big_int_type big_float_type value_type any_type other_type : GoType
  int_type uint_type float_type named_type : ℕ → GoType
  slice_type : GoType → GoType
  map_type : GoType → GoType → GoType

-- A Go value. A map is the list of its entries.
mutual
  pub data Go (V : Type 0) : Type 0 where
    string_go : Bytes → Go V
    bool_go : Bool → Go V
    int_go : ℤ → Go V
    uint_go : ℕ → Go V
    float_go named_go other_go : ℕ → Go V
    nil_go : Go V
    big_int_go : ℤ → Go V
    big_float_go : Number → Go V
    value_go : V → Go V
    slice_go : Gos V → Go V
    map_go : Entries V → Go V

  pub data Gos (V : Type 0) : Type 0 where
    no_gos : Gos V
    cons_go : Go V → Gos V → Gos V

  pub data Entries (V : Type 0) : Type 0 where
    no_entries : Entries V
    entry : Go V → Go V → Entries V → Entries V

-- Values of the cty library. A null or unknown value panics where its content is asked for; ListVal and
-- MapVal panic on no values and on values of several types.
pub record Cty (V : Type 0) : Type 0 where
  pub kind : V → Kind
  pub as_string : V → Outcome Bytes
  pub as_big_float : V → Outcome Number
  pub is_true : V → Outcome Bool
  pub elements : V → Outcome (List (V × V))
  pub string_val : Bytes → V
  pub bool_val : Bool → V
  pub number_val : Number → V
  pub number_float_val : ℕ → Outcome V
  pub list_val_empty : V
  pub list_val : List V → Outcome V
  pub map_val : List (Bytes × V) → Outcome V

-- The mapper: from a 64-bit integer, or a big.Float, to a number of a width, from a key to a string, and
-- the methods of the types that have them.
pub record Mapper (V : Type 0) : Type 0 where
  pub map_int : ℕ → ℤ → Outcome ℤ
  pub map_uint : ℕ → ℕ → Outcome ℕ
  pub map_float : ℕ → Number → Outcome ℕ
  pub map_any : V → Outcome (Go V)
  pub map_key : Go V → Outcome Bytes
  pub unmarshal : ℕ → V → Outcome (Go V)
  pub marshal : ℕ → Outcome V

-- Int64 of a whole number, if it is exact
unfoldable pub int64 : ℤ → Outcome ℤ
int64 (pos n) = if ltb n (2 ^ 63) then done (pos n) else fails too_large
int64 (negsuc n) = if ltb n (2 ^ 63) then done (negsuc n) else fails too_large

unfoldable pub uint64 : ℤ → Outcome ℕ
uint64 (pos n) = if ltb n (2 ^ 64) then done n else fails too_large
uint64 (negsuc n) = fails too_large

-- `if !val.IsInt() { return ... }`
unfoldable pub whole_number : Number → Outcome ℤ
whole_number (whole z) = done z
whole_number (fraction x) = fails not_integer
