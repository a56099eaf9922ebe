-- ===== src/Hcl/Decode.antt =====
-- decodeSingleBlock and decodeMultipleBlocks of hcl/decode.go. What a decoding that fails leaves in the
-- value is not modelled, nor are values of interface types; a Go type that refers to itself is unfolded as
-- deep as the body goes.
pub mod Runs
pub mod Repeated
pub mod Struct
pub mod Untouched
pub mod Whole
pub mod Examples
use go_utils.Hcl.Field.{
  GoType, struct_type, slice_type, map_type, pointer_type, interface_type, body_type,
  body_content_type, body_schema_type, range_type, other_type, Fields, no_fields, field,
  StructField, StructFieldMeta,
}
use go_utils.Hcl.Meta.{BodySchema, StructFieldsMeta, StructMeta, get_named, get_struct_meta}
use go_utils.Hcl.Result.{
  Result, ok, err, panics, ◌>>=◌, ◌>>◌, or_err, no_struct_pointer, bad_label, not_one_label,
  duplicate_key, bad_block, bad_value,
}
use go_utils.Hcl.Value.{
  Types, Block, Attribute, BodyContent, Value, Values, Entries, Calls, Decoder, update_at,
  set_field, set_remain, of_type, check_block, check_blocks, decoder_at, has_key, add_entry, key_of,
  append_value, slice_items, map_entries, struct_value, nil_pointer, pointer_to, nil_slice,
  slice_value, nil_map, map_value, body_value, content_value, schema_value, range_value, leaf,
  no_values, value, no_entries, entry,
}
use go_utils.Prelude.{ℕ, Option, none, some, List, [], ◌∷◌, if◌then◌else◌, Bytes}

module _ {t : Types} (c : Calls t) where
  unfoldable mutual
    -- reflect.Zero
    pub zero_value : GoType → Value t
    zero_value (struct_type fs) = struct_value (zero_values fs)
    zero_value (slice_type T) = nil_slice
    zero_value (map_type T) = nil_map
    zero_value (pointer_type T) = nil_pointer
    zero_value T = leaf (c.zero_leaf T)

    pub zero_values : Fields → Values t
    zero_values no_fields = no_values
    zero_values (field n e tag T fs) = value (zero_value T) (zero_values fs)

  -- Content, or PartialContent if there is a field for the rest.
  unfoldable pub read_body : StructMeta → Block t → Result (BodyContent t × Option t.Body)
  read_body m b = elim m.remain [
    | none ↦ c.body_content b.body m.body_schema >>= λ content. ok (content, none)
    | some f ↦ c.partial_content b.body m.body_schema
  ]

  -- The loop over the labels; there may be more than the struct has fields for.
  unfoldable pub decode_labels : List Bytes → StructFieldsMeta → Values t → Result (Values t)
  unfolding update_at
  decode_labels [] fs vs = ok vs
  decode_labels (label ∷ labels) [] vs = panics
  decode_labels (label ∷ labels) (f ∷ fs) vs =
      update_at vs f.reflect.index
        (λ v. or_err (c.map_refl (c.string_val label) f.reflect v) (bad_label label))
      >>= λ ws. decode_labels labels fs ws

  -- The field of a block, and the rest of the loop's body.
  unfoldable pub decode_into :
      List (Decoder t) → Option StructFieldMeta → Block t → Values t → Result (Values t)
  unfolding update_at
  decode_into ds none b vs = ok vs
  decode_into ds (some f) b vs = if f.ignore then ok vs else elim (decoder_at ds f.reflect.index) [
    | none ↦ panics
    | some d ↦ update_at vs f.reflect.index (if f.multiple then d.multiple b else d.single b)
  ]

  unfoldable pub decode_blocks :
      StructFieldsMeta → List (Decoder t) → List (Block t) → Values t → Result (Values t)
  unfolding decode_into get_named
  decode_blocks fs ds [] vs = ok vs
  decode_blocks fs ds (b ∷ bs) vs =
      decode_into ds (get_named fs b.type) b vs >>= λ ws. decode_blocks fs ds bs ws

  unfoldable pub decode_attribute : StructField → Attribute t → Value t → Result (Value t)
  decode_attribute f a v = do
    v1 ← c.pre_decode_attribute f a v
    x ← c.expr_value a.expr
    v2 ← or_err (c.map_refl x f v1) (bad_value a.name)
    c.post_decode_attribute f a v2

  unfoldable pub attribute_into :
      Option StructFieldMeta → Attribute t → Values t → Result (Values t)
  unfolding decode_attribute update_at
  attribute_into none a vs = ok vs
  attribute_into (some f) a vs =
      if f.ignore then ok vs else update_at vs f.reflect.index (decode_attribute f.reflect a)

  unfoldable pub decode_attributes :
      StructFieldsMeta → List (Attribute t) → Values t → Result (Values t)
  unfolding attribute_into get_named
  decode_attributes fs [] vs = ok vs
  decode_attributes fs (a ∷ as') vs =
      attribute_into (get_named fs a.name) a vs >>= λ ws. decode_attributes fs as' ws

  -- The fields "remain", "body", "content", "schema" and "range".
  unfoldable pub set_fields :
      StructMeta → Block t → BodyContent t → Option t.Body → Values t → Result (Values t)
  unfolding set_remain set_field
  set_fields m b content remain vs = do
    vs1 ← set_remain m.remain remain vs
    vs2 ← set_field m.body (body_value b.body) vs1
    vs3 ← set_field m.content (content_value content) vs2
    vs4 ← set_field m.schema (schema_value m.body_schema) vs3
    set_field m.range (range_value b.def_range) vs4

  -- decodeSingleBlock of a struct, whose fields are decoded by `ds`
  unfoldable pub decode_struct : Fields → List (Decoder t) → Block t → Values t → Result (Values t)
  unfolding get_struct_meta read_body set_fields check_blocks decode_labels decode_blocks
      decode_attributes
  decode_struct fs ds b vs = do
    m ← get_struct_meta fs
    (content, remain) ← read_body m b
    vs1 ← set_fields m b content remain vs
    vs2 ← c.pre_decode_block fs m.body_schema b content vs1
    check_blocks m.blocks content.blocks
    vs3 ← decode_labels b.labels m.labels vs2
    vs4 ← decode_blocks m.blocks ds content.blocks vs3
    vs5 ← decode_attributes m.attrs content.attributes vs4
    c.post_decode_block fs m.body_schema b content vs5

  -- decodeSingleBlock of a struct of package hcl, which has no hcl tags and no hooks
  unfoldable pub decode_untagged : Block t → Value t → Result (Value t)
  unfolding get_struct_meta read_body check_blocks decode_labels
  decode_untagged b v = do
    m ← get_struct_meta no_fields
    (content, remain) ← read_body m b
    check_blocks m.blocks content.blocks
    ws ← decode_labels b.labels m.labels no_values
    ok v

  unfoldable mutual
    unfolding decode_struct decode_untagged zero_value key_of add_entry append_value

    pub decode_single_block : GoType → Block t → Value t → Result (Value t)
    decode_single_block (struct_type fs) b (struct_value vs) =
        decode_struct fs (decoders fs) b vs >>= λ ws. ok (struct_value ws)
    decode_single_block (pointer_type T) b nil_pointer =
        decode_single_block T b (zero_value T) >>= λ w. ok (pointer_to w)
    decode_single_block (pointer_type T) b (pointer_to v) =
        decode_single_block T b v >>= λ w. ok (pointer_to w)
    decode_single_block body_content_type b v = decode_untagged b v
    decode_single_block body_schema_type b v = decode_untagged b v
    decode_single_block range_type b v = decode_untagged b v
    decode_single_block T b v = err no_struct_pointer

    pub decode_multiple_blocks : GoType → Block t → Value t → Result (Value t)
    decode_multiple_blocks (pointer_type T) b nil_pointer =
        decode_multiple_blocks T b (zero_value T) >>= λ w. ok (pointer_to w)
    decode_multiple_blocks (pointer_type T) b (pointer_to v) =
        decode_multiple_blocks T b v >>= λ w. ok (pointer_to w)
    decode_multiple_blocks (slice_type T) b v = do
      vs ← or_err (slice_items v) (bad_block b.type)
      w ← decode_single_block T b (zero_value T)
      ok (slice_value (append_value vs w))
    decode_multiple_blocks (map_type T) b v = do
      es ← or_err (map_entries v) (bad_block b.type)
      key ← key_of b.type b.labels es
      w ← decode_single_block T b (zero_value T)
      ok (map_value (add_entry es key w))
    decode_multiple_blocks T b v = err (bad_block b.type)

    -- The decoders of the fields of a struct.
    pub decoders : Fields → List (Decoder t)
    decoders no_fields = []
    decoders (field n e tag T fs) =
        record { single = decode_single_block T; multiple = decode_multiple_blocks T } ∷ decoders fs

  -- Decode, with the range of a block that stands nowhere.
  unfoldable pub decode : t.Range → GoType → t.Body → Value t → Result (Value t)
  unfolding decode_single_block
  decode zero_range T body v =
      decode_single_block T (record { type = []; labels = []; body = body; def_range = zero_range })
        v
