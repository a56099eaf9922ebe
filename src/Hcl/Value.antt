-- ===== src/Hcl/Value.antt =====
-- The values that hcl/decode.go decodes into, and the steps of the decoder that call nothing else. The
-- types of github.com/hashicorp/hcl, of cty and of the mapper are parameters.
use go_utils.Hcl.Field.{GoType, Fields, StructField, StructFieldMeta}
use go_utils.Hcl.Meta.{BodySchema, StructFieldsMeta}
use go_utils.Hcl.Result.{
  Result, ok, err, panics, ◌>>=◌, ◌>>◌, missing_block, extraneous_block, not_one_label,
  duplicate_key,
}
use go_utils.Prelude.{
  ℕ, zero, suc, Bool, true, false, ◌||◌, Option, none, some, List, [], ◌∷◌, if◌then◌else◌, Bytes,
  bytes_eq,
}

-- The types that the decoder does not look into; a leaf is a Go value of any other type.
pub record Types : Type 1 where
  pub Body : Type 0
  pub Expression : Type 0
  pub CtyValue : Type 0
  pub Range : Type 0
  pub Leaf : Type 0

module _ (t : Types) where
  -- hcl.Block, hcl.Attribute and hcl.BodyContent
  pub record Block : Type 0 where
    pub type : Bytes
    pub labels : List Bytes
    pub body : t.Body
    pub def_range : t.Range

  pub record Attribute : Type 0 where
    pub name : Bytes
    pub expr : t.Expression

  pub record BodyContent : Type 0 where
    pub blocks : List Block
    pub attributes : List Attribute

  mutual
    pub data Value : Type 0 where
      struct_value : Values → Value
      nil_pointer : Value
      pointer_to : Value → Value
      nil_slice : Value
      slice_value : Values → Value
      nil_map : Value
      map_value : Entries → Value
      body_value : t.Body → Value
      content_value : BodyContent → Value
      schema_value : BodySchema → Value
      range_value : t.Range → Value
      leaf : t.Leaf → Value

    pub data Values : Type 0 where
      no_values : Values
      value : Value → Values → Values

    pub data Entries : Type 0 where
      no_entries : Entries
      entry : Bytes → Value → Entries → Entries

  -- What the decoder calls: Content and PartialContent of a body, Value of an expression, StringVal, the
  -- mapper into a field (`none` is its error), the zero values of leaves, and the hooks of a type, which
  -- return the value as they leave it.
  pub record Calls : Type 0 where
    pub body_content : t.Body → BodySchema → Result BodyContent
    pub partial_content : t.Body → BodySchema → Result (BodyContent × Option t.Body)
    pub expr_value : t.Expression → Result t.CtyValue
    pub string_val : Bytes → t.CtyValue
    pub map_refl : t.CtyValue → StructField → Value → Option Value
    pub zero_leaf : GoType → t.Leaf
    pub pre_decode_block : Fields → BodySchema → Block → BodyContent → Values → Result Values
    pub post_decode_block : Fields → BodySchema → Block → BodyContent → Values → Result Values
    pub pre_decode_attribute : StructField → Attribute → Value → Result Value
    pub post_decode_attribute : StructField → Attribute → Value → Result Value

  -- How the value of a field is decoded from a block.
  pub record Decoder : Type 0 where
    pub single : Block → Value → Result Value
    pub multiple : Block → Value → Result Value

module _ {t : Types} where
  -- Field(i) and a change of what it holds; an index out of range panics.
  unfoldable pub update_at : Values t → ℕ → (Value t → Result (Value t)) → Result (Values t)
  update_at no_values i f = panics
  update_at (value v vs) zero f = f v >>= λ w. ok (value w vs)
  update_at (value v vs) (suc i) f = update_at vs i f >>= λ ws. ok (value v ws)

  -- Set panics on a field that is not exported.
  unfoldable pub set_field : Option StructFieldMeta → Value t → Values t → Result (Values t)
  unfolding update_at
  set_field none v vs = ok vs
  set_field (some f) v vs =
      if f.reflect.is_exported then update_at vs f.reflect.index (λ w. ok v) else panics

  unfoldable pub set_remain : Option StructFieldMeta → Option t.Body → Values t → Result (Values t)
  unfolding set_field
  set_remain f none vs = ok vs
  set_remain f (some b) vs = set_field f (body_value b) vs

  -- Blocks.OfType
  unfoldable pub of_type : Bytes → List (Block t) → List (Block t)
  of_type name [] = []
  of_type name (b ∷ bs) =
      let rest = of_type name bs in if bytes_eq b.type name then b ∷ rest else rest

  -- Whether there are as many blocks of the type as the field takes.
  unfoldable pub check_block : StructFieldMeta → List (Block t) → Result (Unit {0})
  check_block f [] = if f.optional then ok tt else err (missing_block f.name)
  check_block f (b ∷ []) = ok tt
  check_block f (b ∷ c ∷ bs) = err (extraneous_block f.name)

  -- The loop that checks for missing or extraneous blocks.
  unfoldable pub check_blocks : StructFieldsMeta → List (Block t) → Result (Unit {0})
  unfolding check_block of_type
  check_blocks [] bs = ok tt
  check_blocks (f ∷ fs) bs =
      (if f.ignore || f.multiple then ok tt else check_block f (of_type f.name bs))
      >> check_blocks fs bs

  abbrev pub decoder_at : List (Decoder t) → ℕ → Option (Decoder t)
  decoder_at [] i = none
  decoder_at (d ∷ ds) zero = some d
  decoder_at (d ∷ ds) (suc i) = decoder_at ds i

  unfoldable pub has_key : Bytes → Entries t → Bool
  has_key key no_entries = false
  has_key key (entry k v es) = if bytes_eq k key then true else has_key key es

  -- SetMapIndex of a key that the map does not have.
  unfoldable pub add_entry : Entries t → Bytes → Value t → Entries t
  add_entry no_entries key w = entry key w no_entries
  add_entry (entry k v es) key w = entry k v (add_entry es key w)

  -- The key of a block in a map: its label, if it has one only and the map has no such key.
  unfoldable pub key_of : Bytes → List Bytes → Entries t → Result Bytes
  unfolding has_key
  key_of type [] es = err (not_one_label type)
  key_of type (label ∷ []) es = if has_key label es then err (duplicate_key label) else ok label
  key_of type (label ∷ l ∷ ls) es = err (not_one_label type)

  -- reflect.Append
  unfoldable pub append_value : Values t → Value t → Values t
  append_value no_values w = value w no_values
  append_value (value v vs) w = value v (append_value vs w)

  -- A nil slice or map is made an empty one.
  abbrev pub slice_items : Value t → Option (Values t)
  slice_items nil_slice = some no_values
  slice_items (slice_value vs) = some vs
  slice_items v = none

  abbrev pub map_entries : Value t → Option (Entries t)
  map_entries nil_map = some no_entries
  map_entries (map_value es) = some es
  map_entries v = none
