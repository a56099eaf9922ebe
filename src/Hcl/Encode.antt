-- ===== src/Hcl/Encode.antt =====
-- hcl/encode.go: from a struct to the blocks of hcl/writer.go. A map is listed by its keys, in the order
-- into which the code sorts them. What a failed encoding leaves in a block is not modelled.
pub mod Grown
pub mod Emitted
pub mod Whole
pub mod Examples
use go_utils.Hcl.Field.{
  GoType, struct_type, slice_type, map_type, pointer_type, body_content_type, body_schema_type,
  range_type, Fields, no_fields, field, StructField, StructFieldMeta,
}
use go_utils.Hcl.Meta.{StructFieldsMeta, StructMeta, get_struct_meta}
use go_utils.Hcl.Result.{
  Result, ok, err, panics, ◌>>=◌, or_err, not_encodable, no_type_name, bad_label,
}
use go_utils.Hcl.Value.{
  Types, Value, Values, Entries, struct_value, nil_pointer, pointer_to, nil_slice, slice_value,
  nil_map, map_value, no_values, value, no_entries, entry,
}
use go_utils.Prelude.{
  ℕ, zero, suc, Bool, true, false, ◌&&◌, not, Option, none, some, List, [], ◌∷◌, ◌++◌,
  if◌then◌else◌, Bytes,
}

-- Block of hcl/writer.go: its type, labels, attributes and blocks
mutual
  pub data OutBlock (t : Types) : Type 0 where
    out_block : Bytes → List Bytes → List (Bytes × Value t) → OutBlocks t → OutBlock t

  pub data OutBlocks (t : Types) : Type 0 where
    no_blocks : OutBlocks t
    blocks_and : OutBlock t → OutBlocks t → OutBlocks t

-- What the encoder calls: the mapper from a label's field to a cty value that is a string (none if there is
-- no such value), whether the type of a value has a package and whether the value is zero, and the hook.
pub record Encoding (t : Types) : Type 0 where
  pub map_label : StructField → Value t → Option Bytes
  pub has_pkg_path : GoType → Bool
  pub is_zero : Value t → Bool
  pub on_encode_block : Fields → OutBlock t → Result (OutBlock t)

-- How the value of a field is encoded into a block.
pub record Encoder (t : Types) : Type 0 where
  pub single : Bytes → Option (List Bytes) → Value t → OutBlock t → Result (OutBlock t)
  pub multiple : Bytes → Value t → OutBlock t → Result (OutBlock t)

module _ {t : Types} where
  unfoldable pub add_out : OutBlocks t → OutBlock t → OutBlocks t
  add_out no_blocks b = blocks_and b no_blocks
  add_out (blocks_and c cs) b = blocks_and c (add_out cs b)

  -- AppendBlock, of a block with its content, and AppendAttribute
  unfoldable pub append_block : OutBlock t → OutBlock t → OutBlock t
  unfolding add_out
  append_block (out_block type labels attrs blocks) b =
      out_block type labels attrs (add_out blocks b)

  unfoldable pub append_attribute : OutBlock t → Bytes → Value t → OutBlock t
  append_attribute (out_block type labels attrs blocks) name v =
      out_block type labels (attrs ++ ((name, v) ∷ [])) blocks

  -- FieldByIndex, and the encoder of the field
  unfoldable pub field_at : Values t → ℕ → Result (Value t)
  field_at no_values i = panics
  field_at (value v vs) zero = ok v
  field_at (value v vs) (suc i) = field_at vs i

  unfoldable pub encoder_at : List (Encoder t) → ℕ → Result (Encoder t)
  encoder_at [] i = panics
  encoder_at (e ∷ es) zero = ok e
  encoder_at (e ∷ es) (suc i) = encoder_at es i

  -- The loops of encodeMultipleBlocks over a slice and over a map.
  unfoldable pub encode_items :
      (Value t → OutBlock t → Result (OutBlock t)) → Values t → OutBlock t → Result (OutBlock t)
  encode_items single no_values b = ok b
  encode_items single (value v vs) b = single v b >>= λ d. encode_items single vs d

  unfoldable pub encode_keys :
      (Bytes → Value t → OutBlock t → Result (OutBlock t))
      → Entries t
      → OutBlock t
      → Result (OutBlock t)
  encode_keys single no_entries b = ok b
  encode_keys single (entry key v es) b = single key v b >>= λ d. encode_keys single es d

module _ {t : Types} (c : Encoding t) where
  unfoldable pub can_be_skipped : StructFieldMeta → Value t → Bool
  can_be_skipped f v = not (c.has_pkg_path f.reflect.type) && c.is_zero v

  -- The loop over the label fields.
  unfoldable pub encode_labels : StructFieldsMeta → Values t → Result (List Bytes)
  unfolding field_at
  encode_labels [] vs = ok []
  encode_labels (f ∷ fs) vs = field_at vs f.reflect.index >>= λ v.
      or_err (c.map_label f.reflect v) (bad_label f.name) >>= λ label.
      encode_labels fs vs >>= λ labels. ok (label ∷ labels)

  unfoldable pub encode_attribute : StructFieldMeta → Values t → OutBlock t → Result (OutBlock t)
  unfolding field_at can_be_skipped append_attribute
  encode_attribute f vs b =
      if f.ignore
      then ok b
      else field_at vs f.reflect.index >>= λ v.
          if f.optional && can_be_skipped f v then ok b else ok (append_attribute b f.name v)

  unfoldable pub encode_attributes : StructFieldsMeta → Values t → OutBlock t → Result (OutBlock t)
  unfolding encode_attribute
  encode_attributes [] vs b = ok b
  encode_attributes (f ∷ fs) vs b = encode_attribute f vs b >>= λ d. encode_attributes fs vs d

  -- The body of the loop over the block fields.
  unfoldable pub encode_block_field :
      StructFieldMeta → List (Encoder t) → Values t → OutBlock t → Result (OutBlock t)
  unfolding field_at encoder_at can_be_skipped
  encode_block_field f es vs b =
      if f.ignore
      then ok b
      else field_at vs f.reflect.index >>= λ v.
          if f.optional && can_be_skipped f v
          then ok b
          else encoder_at es f.reflect.index >>= λ e.
              if f.multiple then e.multiple f.name v b else e.single f.name none v b

  unfoldable pub encode_blocks :
      StructFieldsMeta → List (Encoder t) → Values t → OutBlock t → Result (OutBlock t)
  unfolding encode_block_field
  encode_blocks [] es vs b = ok b
  encode_blocks (f ∷ fs) es vs b = encode_block_field f es vs b >>= λ d. encode_blocks fs es vs d

  -- The attributes, the blocks and the hook.
  unfoldable pub fill :
      Fields → StructMeta → List (Encoder t) → Values t → OutBlock t → Result (OutBlock t)
  unfolding encode_attributes encode_blocks
  fill fs m es vs b = encode_attributes m.attrs vs b >>= λ d.
      encode_blocks m.blocks es vs d >>= λ e. c.on_encode_block fs e

  unfoldable pub labels_or : Option (List Bytes) → StructFieldsMeta → Values t → Result (List Bytes)
  unfolding encode_labels
  labels_or (some labels) fs vs = ok labels
  labels_or none fs vs = encode_labels fs vs

  -- encodeSingleBlock of a struct, whose fields are encoded by `es`
  unfoldable pub encode_struct :
      Fields
      → List (Encoder t)
      → Values t
      → Bytes
      → Option (List Bytes)
      → OutBlock t
      → Result (OutBlock t)
  unfolding get_struct_meta fill labels_or append_block
  encode_struct fs es vs [] labels b = get_struct_meta fs >>= λ m. fill fs m es vs b
  encode_struct fs es vs (ch ∷ name) labels b = get_struct_meta fs >>= λ m.
      labels_or labels m.labels vs >>= λ ls.
      fill fs m es vs (out_block (ch ∷ name) ls [] no_blocks) >>= λ d. ok (append_block b d)

  -- encodeSingleBlock of a struct of package hcl, which has no hcl tags
  unfoldable pub encode_untagged : Bytes → Option (List Bytes) → OutBlock t → Result (OutBlock t)
  unfolding encode_struct
  encode_untagged name labels b = encode_struct no_fields [] no_values name labels b

  unfoldable mutual
    unfolding encode_struct encode_untagged encode_items encode_keys

    -- encodeSingleBlock; a nil pointer that cannot be set has no value to encode.
    pub encode_single_block :
        GoType → Bytes → Option (List Bytes) → Value t → OutBlock t → Result (OutBlock t)
    encode_single_block (struct_type fs) name labels (struct_value vs) b =
        encode_struct fs (encoders fs) vs name labels b
    encode_single_block (pointer_type T) name labels (pointer_to v) b =
        encode_single_block T name labels v b
    encode_single_block body_content_type name labels v b = encode_untagged name labels b
    encode_single_block body_schema_type name labels v b = encode_untagged name labels b
    encode_single_block range_type name labels v b = encode_untagged name labels b
    encode_single_block T name labels v b = err not_encodable

    pub encode_multiple_blocks : GoType → Bytes → Value t → OutBlock t → Result (OutBlock t)
    encode_multiple_blocks (pointer_type T) name (pointer_to v) b =
        encode_multiple_blocks T name v b
    encode_multiple_blocks (slice_type T) name nil_slice b = ok b
    encode_multiple_blocks (slice_type T) name (slice_value vs) b =
        encode_items (encode_single_block T name none) vs b
    encode_multiple_blocks (map_type T) name nil_map b = ok b
    encode_multiple_blocks (map_type T) name (map_value es) b =
        encode_keys (λ key. encode_single_block T name (some (key ∷ []))) es b
    encode_multiple_blocks T name v b = err not_encodable

    pub encoders : Fields → List (Encoder t)
    encoders no_fields = []
    encoders (field n e tag T fs) =
        record {
          single = λ name labels v b. encode_single_block T name labels v b;
          multiple = λ name v b. encode_multiple_blocks T name v b;
        }
        ∷ encoders fs

  -- Encode and EncodeBlock
  unfoldable pub encode : GoType → Value t → OutBlock t → Result (OutBlock t)
  unfolding encode_single_block
  encode T v b = encode_single_block T [] none v b

  unfoldable pub encode_block :
      GoType → Value t → OutBlock t → Bytes → Option (List Bytes) → Result (OutBlock t)
  unfolding encode_single_block
  encode_block T v b [] labels = err no_type_name
  encode_block T v b (ch ∷ name) labels = encode_single_block T (ch ∷ name) labels v b
