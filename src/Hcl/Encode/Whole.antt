-- ===== src/Hcl/Encode/Whole.antt =====
-- What Encode and EncodeBlock of hcl/encode.go append to a block.
use mathlib.Core.Path.{subst}
use go_utils.Hcl.Encode.{
  OutBlock, out_block, no_blocks, Encoding, Encoder, append_block, encode_attributes, encode_blocks,
  fill, labels_or, encode_struct, encode_untagged, encode_single_block, encode_multiple_blocks,
  encoders, encode_block,
}
use go_utils.Hcl.Encode.Grown.{
  item_count, type_of, inner_types, Grows, Grows-trans, append_block-Grows, One, Several,
  Several-none, encode_items-Several, encode_keys-Several, Appends,
}
use go_utils.Hcl.Encode.Emitted.{Emitted, encode_attributes-Grows, encode_blocks-Emitted}
use go_utils.Hcl.Field.{
  GoType, struct_type, slice_type, map_type, pointer_type, body_content_type, body_schema_type,
  range_type, Fields, no_fields, field,
}
use go_utils.Hcl.Meta.{StructMeta, get_struct_meta}
use go_utils.Hcl.Result.{ok, ok_of_bind, ok_inj}
use go_utils.Hcl.Value.{
  Types, Value, Values, no_values, struct_value, pointer_to, nil_slice, slice_value, nil_map,
  map_value,
}
use go_utils.Prelude.{ℕ, ◌≡◌, refl, sym, ap, Option, none, some, List, [], ◌∷◌, Bytes, All}

-- A new block of the name, with what is encoded into it.
abbrev pub NewBlock :
    {t : Types} → Encoding t → Fields → Values t → Bytes → OutBlock t → OutBlock t → Type 0
NewBlock {t} c fs vs name b d =
    (m : StructMeta) × (child : OutBlock t) × (get_struct_meta fs ≡ ok m)
    × (d ≡ append_block b child)
    × (type_of child ≡ name)
    × Emitted c vs m.blocks (inner_types child)

module _ {t : Types} (c : Encoding t)
    (no_hook : (fs : Fields) (b d : OutBlock t) → c.on_encode_block fs b ≡ ok d → d ≡ b) where
  fill-Emitted :
      (fs : Fields) (m : StructMeta) (es : List (Encoder t)) (vs : Values t) (b d : OutBlock t)
      → All Appends es
      → fill c fs m es vs b ≡ ok d
      → (ns : List Bytes) × Grows b d ns × Emitted c vs m.blocks ns
  unfolding fill
  fill-Emitted fs m es vs b d h q =
      let (e, r, s) = ok_of_bind (encode_attributes c m.attrs vs b) _ q in
      let (g, u, v) = ok_of_bind (encode_blocks c m.blocks es vs e) _ s in
      let (ns, k, w) = encode_blocks-Emitted c m.blocks es vs e g h u in
      let grown = Grows-trans b e g [] ns (encode_attributes-Grows c m.attrs vs b e r) k in
      (ns, subst (λ (x : OutBlock t). Grows b x ns) (sym (no_hook fs g d v)) grown, w)

  encode_struct-NewBlock :
      (fs : Fields) (es : List (Encoder t)) (vs : Values t) (ch : ℕ) (name : Bytes)
      (labels : Option (List Bytes)) (b d : OutBlock t)
      → All Appends es
      → encode_struct c fs es vs (ch ∷ name) labels b ≡ ok d
      → NewBlock c fs vs (ch ∷ name) b d
  unfolding encode_struct
  encode_struct-NewBlock fs es vs ch name labels b d h q =
      let (m, r, s) = ok_of_bind (get_struct_meta fs) _ q in
      let (ls, u, v) = ok_of_bind (labels_or c labels m.labels vs) _ s in
      let (child, w, x) =
        ok_of_bind (fill c fs m es vs (out_block (ch ∷ name) ls [] no_blocks)) _ v in
      let (ns, (named, types), e) = fill-Emitted fs m es vs _ child h w in
      (m, child, r, sym (ok_inj x), named, subst (Emitted c vs m.blocks) (sym types) e)

  encode_struct-One :
      (fs : Fields) (es : List (Encoder t)) (vs : Values t) (name : Bytes)
      (labels : Option (List Bytes)) (b d : OutBlock t)
      → All Appends es
      → encode_struct c fs es vs name labels b ≡ ok d
      → One name b d
  unfolding encode_struct
  encode_struct-One fs es vs [] labels b d h q =
      let (m, r, s) = ok_of_bind (get_struct_meta fs) _ q in
      let (ns, g, w) = fill-Emitted fs m es vs b d h s in (ns, g, λ n. absurd (n refl))
  encode_struct-One fs es vs (ch ∷ name) labels b d h q =
      let (m, child, r, s, named, w) = encode_struct-NewBlock fs es vs ch name labels b d h q in
      (
        type_of child ∷ [],
        subst (λ (x : OutBlock t). Grows b x (type_of child ∷ [])) (sym s)
            (append_block-Grows b child),
        λ n. ap (λ (x : Bytes). x ∷ []) named,
      )

  mutual
    unfolding encode_single_block encode_untagged encode_multiple_blocks encoders

    single-One :
        (T : GoType) (v : Value t) (name : Bytes) (labels : Option (List Bytes)) (b d : OutBlock t)
        → encode_single_block c T name labels v b ≡ ok d
        → One name b d
    single-One (struct_type fs) (struct_value vs) name labels b d q =
        encode_struct-One fs (encoders c fs) vs name labels b d (encoders-Appends fs) q
    single-One (pointer_type T) (pointer_to v) name labels b d q = single-One T v name labels b d q
    single-One body_content_type v name labels b d q =
        encode_struct-One no_fields [] no_values name labels b d tt q
    single-One body_schema_type v name labels b d q =
        encode_struct-One no_fields [] no_values name labels b d tt q
    single-One range_type v name labels b d q =
        encode_struct-One no_fields [] no_values name labels b d tt q
    single-One T v name labels b d q = cc

    multiple-Several :
        (T : GoType) (v : Value t) (name : Bytes) (b d : OutBlock t)
        → encode_multiple_blocks c T name v b ≡ ok d
        → Several name (item_count v) b d
    multiple-Several (pointer_type T) (pointer_to v) name b d q = multiple-Several T v name b d q
    multiple-Several (slice_type T) nil_slice name b d q = Several-none name b d q
    multiple-Several (slice_type T) (slice_value vs) name b d q =
        encode_items-Several name (encode_single_block c T name none) vs b d
          (λ v x y r. single-One T v name none x y r) q
    multiple-Several (map_type T) nil_map name b d q = Several-none name b d q
    multiple-Several (map_type T) (map_value es) name b d q =
        encode_keys-Several name (λ key. encode_single_block c T name (some (key ∷ []))) es b d
          (λ key v x y r. single-One T v name (some (key ∷ [])) x y r) q
    multiple-Several T v name b d q = cc

    encoders-Appends : (fs : Fields) → All Appends (encoders c fs)
    encoders-Appends no_fields = tt
    encoders-Appends (field n e tag T fs) = (
      (
        λ name ls v b d q. single-One T v name ls b d q,
        λ name v b d q. multiple-Several T v name b d q,
      ),
      encoders-Appends fs,
    )

-- EncodeBlock of a struct appends one block of the given type, which is not empty, and in which are, for
-- the struct's block fields in their order, a block of the field's name, or as many as the slice or map of
-- a repeated field has items, and none of a field that is ignored, or of an optional one whose value is
-- zero and of a type without a package. (A field without a name can append any blocks.) Types have no hook.
pub encode_block-NewBlock :
    {t : Types} (c : Encoding t) (fs : Fields) (vs : Values t) (b d : OutBlock t) (name : Bytes)
    (labels : Option (List Bytes))
    → ((gs : Fields) (x y : OutBlock t) → c.on_encode_block gs x ≡ ok y → y ≡ x)
    → encode_block c (struct_type fs) (struct_value vs) b name labels ≡ ok d
    → NewBlock c fs vs name b d
unfolding encode_block encode_single_block
encode_block-NewBlock c fs vs b d [] labels no_hook h = cc
encode_block-NewBlock c fs vs b d (ch ∷ name) labels no_hook h =
    encode_struct-NewBlock c no_hook fs (encoders c fs) vs ch name labels b d
      (encoders-Appends c no_hook fs) h
