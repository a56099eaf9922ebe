-- ===== src/Metrics/Path.antt =====
-- byPath and splitPath of log/metrics/log.go, over the values that reflection shows.
pub mod Composed
use go_utils.Prelude.Int.{ℤ, pos, negsuc}
use go_utils.Timeutil.Spec.Values.{atoi}
use go_utils.Prelude.{
  ℕ, zero, suc, Option, none, some, [], ◌∷◌, nat_beq, if◌then◌else◌, Bytes, bytes_eq,
}

-- `plain`: a string, a number, or another value without parts. The keys of `other_map` are no strings.
mutual
  pub data Value : Type 0 where
    plain : Bytes → Value
    slice : Values → Value
    map : Fields → Value
    other_map : Value
    struct : Fields → Value
    pointer : Value → Value
    nil_pointer : Value

  pub data Values : Type 0 where
    no_values : Values
    more_values : Value → Values → Values

  pub data Fields : Type 0 where
    no_fields : Fields
    more_fields : Bytes → Value → Fields → Fields

-- reflect.Value{} is `invalid`; Index panics out of range.
pub data Found : Type 0 where
  found : Value → Found
  invalid : Found
  panicked : Found

pub record Split : Type 0 where
  pub first : Bytes
  pub rest : Bytes

unfoldable pub split_path : Bytes → Split
split_path [] = record { first = []; rest = [] }
split_path (c ∷ s) =
    let more = split_path s in
    if nat_beq c b'.'
    then record { first = []; rest = s }
    else record { first = c ∷ more.first; rest = more.rest }

-- The element of a slice by its text as a number.
unfoldable pub at_index : Option ℤ → (ℕ → Found) → Found
at_index none nth = invalid
at_index (some (negsuc i)) nth = panicked
at_index (some (pos i)) nth = nth i

-- By clauses on the value; the recursion goes into its parts. `nth_by_path` is Index with its panic, and
-- `field_by_path` is MapIndex and FieldByName, which find nothing or one field.
unfoldable mutual
  unfolding split_path atoi at_index

  pub by_path : Value → Bytes → Found
  by_path (plain v) [] = found (plain v)
  by_path (plain v) (c ∷ path) = invalid
  by_path (slice vs) [] = found (slice vs)
  by_path (slice vs) (c ∷ path) =
      at_index (atoi (split_path (c ∷ path)).first)
        (λ i. nth_by_path vs i (split_path (c ∷ path)).rest)
  by_path (map fs) [] = found (map fs)
  by_path (map fs) (c ∷ path) =
      field_by_path fs (split_path (c ∷ path)).first (split_path (c ∷ path)).rest
  by_path other_map [] = found other_map
  by_path other_map (c ∷ path) = invalid
  by_path (struct fs) [] = found (struct fs)
  by_path (struct fs) (c ∷ path) =
      field_by_path fs (split_path (c ∷ path)).first (split_path (c ∷ path)).rest
  by_path (pointer v) path = by_path v path
  by_path nil_pointer path = invalid

  pub nth_by_path : Values → ℕ → Bytes → Found
  nth_by_path no_values i path = panicked
  nth_by_path (more_values v vs) zero path = by_path v path
  nth_by_path (more_values v vs) (suc i) path = nth_by_path vs i path

  pub field_by_path : Fields → Bytes → Bytes → Found
  field_by_path no_fields name path = invalid
  field_by_path (more_fields f v fs) name path =
      let here = by_path v path in
      let rest = field_by_path fs name path in if bytes_eq f name then here else rest
