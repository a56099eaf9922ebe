-- ===== src/Hcl/Decode/Struct.antt =====
-- What holds when decodeSingleBlock of hcl/decode.go succeeds on a struct.
use go_utils.Hcl.Field.{Fields, StructFieldMeta}
use go_utils.Hcl.Meta.{StructFieldsMeta, StructMeta, get_struct_meta}
use go_utils.Hcl.Result.{ok, or_err, bad_label, ok_of_bind}
use go_utils.Hcl.Value.{
  Types, Block, BodyContent, Values, Calls, Decoder, update_at, of_type, check_block, check_blocks,
}
use go_utils.Hcl.Decode.{
  read_body, set_fields, decode_labels, decode_blocks, decode_attributes, decode_struct,
}
use go_utils.Prelude.{
  ◌≤◌, ◌≡◌, refl, ◌⊎◌, inl, inr, true, false, ◌||◌, Option, List, [], ◌∷◌, arith, if◌then◌else◌,
  Bool-cases, All, Bytes, length,
}

module _ {t : Types} where
  -- A field of a block that is neither ignored nor repeated has at most one block of its type, and exactly
  -- one if it is not optional.
  abbrev pub Fits : StructFieldMeta → List (Block t) → Type 0
  Fits f bs =
      (f.ignore || f.multiple ≡ true) ⊎ ((length bs ≤ 1) × (f.optional ≡ false → length bs ≡ 1))

  check_block-Fits :
      (f : StructFieldMeta) (bs : List (Block t)) {u : Unit {0}}
      → check_block f bs ≡ ok u
      → Fits f bs
  unfolding check_block
  check_block-Fits f [] h = inr (omega arith, λ o. absurd (cc (rw o at h)))
  check_block-Fits f (b ∷ []) h = inr (omega arith, λ o. refl)
  check_block-Fits f (b ∷ d ∷ bs) h = cc

  check_blocks-Fits :
      (fs : StructFieldsMeta) (bs : List (Block t)) {u : Unit {0}}
      → check_blocks fs bs ≡ ok u
      → All (λ f. Fits f (of_type f.name bs)) fs
  unfolding check_blocks
  check_blocks-Fits [] bs h = tt
  check_blocks-Fits (f ∷ fs) bs h =
      let (u, g, g') =
        ok_of_bind (if f.ignore || f.multiple then ok tt else check_block f (of_type f.name bs)) _
          h in
      (
        elim (Bool-cases (f.ignore || f.multiple)) [
          | inl free ↦ inl free
          | inr counted ↦ check_block-Fits f (of_type f.name bs) (rw counted at g)
        ],
        check_blocks-Fits fs bs g',
      )

module _ {t : Types} (c : Calls t) where
  decode_labels-length :
      (labels : List Bytes) (fs : StructFieldsMeta) (vs : Values t) {ws : Values t}
      → decode_labels c labels fs vs ≡ ok ws
      → length labels ≤ length fs
  unfolding decode_labels
  decode_labels-length [] fs vs h = omega arith
  decode_labels-length (l ∷ ls) [] vs h = cc
  decode_labels-length (l ∷ ls) (f ∷ fs) vs h =
      let (us, g, g') =
        ok_of_bind
          (update_at vs f.reflect.index
            (λ v. or_err (c.map_refl (c.string_val l) f.reflect v) (bad_label l)))
          _ h in
      omega (arith, decode_labels-length ls fs us g')

  -- The steps of a decoding that succeeds.
  pub record Decoded (fs : Fields) (ds : List (Decoder t)) (b : Block t) (vs ws : Values t)
      (m : StructMeta) : Type 0 where
    pub content : BodyContent t
    pub remain : Option t.Body
    pub v1 : Values t
    pub v2 : Values t
    pub v3 : Values t
    pub v4 : Values t
    pub v5 : Values t
    pub read : read_body c m b ≡ ok (content, remain)
    pub fields : set_fields c m b content remain vs ≡ ok v1
    pub before : c.pre_decode_block fs m.body_schema b content v1 ≡ ok v2
    pub checked : check_blocks m.blocks content.blocks ≡ ok tt
    pub labels : decode_labels c b.labels m.labels v2 ≡ ok v3
    pub blocks : decode_blocks c m.blocks ds content.blocks v3 ≡ ok v4
    pub attributes : decode_attributes c m.attrs content.attributes v4 ≡ ok v5
    pub after : c.post_decode_block fs m.body_schema b content v5 ≡ ok ws

  pub decode_struct-Decoded :
      (fs : Fields) (ds : List (Decoder t)) (b : Block t) (vs ws : Values t)
      → decode_struct c fs ds b vs ≡ ok ws
      → (m : StructMeta) × (get_struct_meta fs ≡ ok m) × Decoded fs ds b vs ws m
  unfolding decode_struct
  decode_struct-Decoded fs ds b vs ws h =
      let (m, e0, h0) = ok_of_bind (get_struct_meta fs) _ h in
      let ((content, remain), e1, h1) = ok_of_bind (read_body c m b) _ h0 in
      let (v1, e2, h2) = ok_of_bind (set_fields c m b content remain vs) _ h1 in
      let (v2, e3, h3) = ok_of_bind (c.pre_decode_block fs m.body_schema b content v1) _ h2 in
      let (u, e4, h4) = ok_of_bind (check_blocks m.blocks content.blocks) _ h3 in
      let (v3, e5, h5) = ok_of_bind (decode_labels c b.labels m.labels v2) _ h4 in
      let (v4, e6, h6) = ok_of_bind (decode_blocks c m.blocks ds content.blocks v3) _ h5 in
      let (v5, e7, h7) = ok_of_bind (decode_attributes c m.attrs content.attributes v4) _ h6 in
      (
        m,
        e0,
        record {
          content = content;
          remain = remain;
          v1 = v1;
          v2 = v2;
          v3 = v3;
          v4 = v4;
          v5 = v5;
          read = e1;
          fields = e2;
          before = e3;
          checked = e4;
          labels = e5;
          blocks = e6;
          attributes = e7;
          after = h7;
        },
      )

  -- A struct is decoded only from a block whose body, read by the schema of the struct, has exactly one
  -- block for each required field of a single block and at most one for an optional one, and that has no
  -- more labels than the struct has fields for.
  pub decode_struct-Fits :
      (fs : Fields) (ds : List (Decoder t)) (b : Block t) (vs ws : Values t)
      → decode_struct c fs ds b vs ≡ ok ws
      → (m : StructMeta) × (content : BodyContent t) × (remain : Option t.Body) × (get_struct_meta
            fs
          ≡ ok m)
        × (read_body c m b ≡ ok (content, remain))
        × All (λ (f : StructFieldMeta). Fits f (of_type f.name content.blocks)) m.blocks
        × (length b.labels ≤ length m.labels)
  decode_struct-Fits fs ds b vs ws h =
      let (m, e, d) = decode_struct-Decoded fs ds b vs ws h in
      (
        m,
        d.content,
        d.remain,
        e,
        d.read,
        check_blocks-Fits m.blocks d.content.blocks d.checked,
        decode_labels-length b.labels m.labels d.v2 d.labels,
      )
