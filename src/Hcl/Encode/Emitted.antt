-- ===== src/Hcl/Encode/Emitted.antt =====
-- The blocks that encodeSingleBlock of hcl/encode.go appends for the fields of a struct.
use mathlib.Core.Path.{subst}
use go_utils.Hcl.Encode.{
  OutBlock, Encoding, Encoder, append_attribute, field_at, encoder_at, can_be_skipped,
  encode_attribute, encode_attributes, encode_block_field, encode_blocks,
}
use go_utils.Hcl.Field.{StructFieldMeta}
use go_utils.Hcl.Meta.{StructFieldsMeta}
use go_utils.Hcl.Result.{ok, ◌>>=◌, ok_of_bind, ok_inj}
use go_utils.Hcl.Value.{Types, Value, Values}
use go_utils.Prelude.{
  Bool, true, false, ◌&&◌, ◌≡◌, ◌≢◌, ◌⊎◌, refl, ap, none, List, [], ◌∷◌, ◌++◌, if◌then◌else◌, inl,
  inr, Bytes, All, replicate,
}
use go_utils.Hcl.Encode.Grown.{
  item_count, Grows, Grows-trans, Grows-same, append_attribute-Grows, Appends, encoder_at-Appends,
}

-- The types of the blocks of the fields, in order: none of an ignored field and of an optional one whose
-- value can be skipped; else one of the field's name, or as many as its value has items if the field is
-- repeated; of a field without a name, any.
module _ {t : Types} (c : Encoding t) (vs : Values t) where
  -- The value of a field that is encoded.
  abbrev pub Encoded : StructFieldMeta → Value t → Type 0
  Encoded f v =
      (f.ignore ≡ false)
      × (field_at vs f.reflect.index ≡ ok v)
      × ((f.optional && can_be_skipped c f v) ≡ false)

  -- A field that is not.
  abbrev pub Skipped : StructFieldMeta → Type 0
  Skipped f =
      (f.ignore ≡ true)
      ⊎ ((v : Value t) × (field_at vs f.reflect.index ≡ ok v)
          × (f.optional ≡ true)
          × (can_be_skipped c f v ≡ true))

  pub data Emitted : StructFieldsMeta → List Bytes → Type 0 where
    emitted_all : Emitted [] []
    emitted_none :
        {f : StructFieldMeta} {fs : StructFieldsMeta} {ns : List Bytes}
        → Skipped f
        → Emitted fs ns
        → Emitted (f ∷ fs) ns
    emitted_one :
        {f : StructFieldMeta} {fs : StructFieldsMeta} {ns ms : List Bytes} {v : Value t}
        → Encoded f v
        → f.multiple ≡ false
        → (f.name ≢ [] → ms ≡ f.name ∷ [])
        → Emitted fs ns
        → Emitted (f ∷ fs) (ms ++ ns)
    emitted_several :
        {f : StructFieldMeta} {fs : StructFieldsMeta} {ns ms : List Bytes} {v : Value t}
        → Encoded f v
        → f.multiple ≡ true
        → (f.name ≢ [] → ms ≡ replicate (item_count v) f.name)
        → Emitted fs ns
        → Emitted (f ∷ fs) (ms ++ ns)

module _ {t : Types} (c : Encoding t) where
  pub encode_attributes-Grows :
      (fs : StructFieldsMeta) (vs : Values t) (b d : OutBlock t)
      → encode_attributes c fs vs b ≡ ok d
      → Grows b d []
  unfolding encode_attributes encode_attribute
  encode_attributes-Grows [] vs b d q = Grows-same b d q
  encode_attributes-Grows (f ∷ fs) vs b d q =
      let (e, r, s) = ok_of_bind (encode_attribute c f vs b) _ q in
      Grows-trans b e d [] [] (one f.ignore e r) (encode_attributes-Grows fs vs e d s)
    where
      added :
          (skip : Bool) (v : Value t) (e : OutBlock t)
          → (if skip then ok b else ok (append_attribute b f.name v)) ≡ ok e
          → Grows b e []
      added true v e h = Grows-same b e h
      added false v e h =
          subst (λ (x : OutBlock t). Grows b x []) (ok_inj h) (append_attribute-Grows b f.name v)

      one :
          (ignore : Bool) (e : OutBlock t)
          → (if ignore
              then ok b
              else field_at vs f.reflect.index >>= λ v.
                  if f.optional && can_be_skipped c f v
                  then ok b
                  else ok (append_attribute b f.name v))
            ≡ ok e
          → Grows b e []
      one true e h = Grows-same b e h
      one false e h =
          let (v, r, s) = ok_of_bind (field_at vs f.reflect.index) _ h in
          added (f.optional && can_be_skipped c f v) v e s

  pub encode_blocks-Emitted :
      (fs : StructFieldsMeta) (es : List (Encoder t)) (vs : Values t) (b d : OutBlock t)
      → All Appends es
      → encode_blocks c fs es vs b ≡ ok d
      → (ns : List Bytes) × Grows b d ns × Emitted c vs fs ns
  unfolding encode_blocks encode_block_field
  encode_blocks-Emitted [] es vs b d h q = ([], Grows-same b d q, emitted_all)
  encode_blocks-Emitted (f ∷ fs) es vs b d h' q =
      let (e, r, s) = ok_of_bind (encode_block_field c f es vs b) _ q in
      let (ns, g, w) = encode_blocks-Emitted fs es vs e d h' s in
      let (ms, k, u) = field_of f.ignore e refl r in (ms ++ ns, Grows-trans b e d ms ns k g, u ns w)
    where
      encoded :
          (multiple : Bool) (e : Encoder t) (v : Value t) (d : OutBlock t)
          → Encoded c vs f v
          → f.multiple ≡ multiple
          → Appends e
          → (if multiple then e.multiple f.name v b else e.single f.name none v b) ≡ ok d
          → (ms : List Bytes) × Grows b d ms
            × ((ns : List Bytes) → Emitted c vs fs ns → Emitted c vs (f ∷ fs) (ms ++ ns))
      encoded true e v d i p (single, multiple) h =
          let (ms, g, k) = multiple f.name v b d h in (ms, g, λ ns w. emitted_several i p k w)
      encoded false e v d i p (single, multiple) h =
          let (ms, g, k) = single f.name none v b d h in (ms, g, λ ns w. emitted_one i p k w)

      skipped :
          (optional skip : Bool) (v : Value t) (d : OutBlock t)
          → f.ignore ≡ false
          → field_at vs f.reflect.index ≡ ok v
          → f.optional ≡ optional
          → can_be_skipped c f v ≡ skip
          → (if optional && skip
              then ok b
              else encoder_at es f.reflect.index >>= λ e.
                  if f.multiple then e.multiple f.name v b else e.single f.name none v b)
            ≡ ok d
          → (ms : List Bytes) × Grows b d ms
            × ((ns : List Bytes) → Emitted c vs fs ns → Emitted c vs (f ∷ fs) (ms ++ ns))
      skipped true true v d i a p k h =
          ([], Grows-same b d h, λ ns w. emitted_none (inr (v, a, p, k)) w)
      skipped true false v d i a p k h =
          let (e, r, s) = ok_of_bind (encoder_at es f.reflect.index) _ h in
          encoded f.multiple e v d (i, a, cc) refl (encoder_at-Appends es f.reflect.index h' r) s
      skipped false skip v d i a p k h =
          let (e, r, s) = ok_of_bind (encoder_at es f.reflect.index) _ h in
          encoded f.multiple e v d (i, a, ap (λ o. o && can_be_skipped c f v) p) refl
            (encoder_at-Appends es f.reflect.index h' r) s

      field_of :
          (ignore : Bool) (d : OutBlock t)
          → f.ignore ≡ ignore
          → (if ignore
              then ok b
              else field_at vs f.reflect.index >>= λ v.
                  if f.optional && can_be_skipped c f v
                  then ok b
                  else encoder_at es f.reflect.index >>= λ e.
                      if f.multiple then e.multiple f.name v b else e.single f.name none v b)
            ≡ ok d
          → (ms : List Bytes) × Grows b d ms
            × ((ns : List Bytes) → Emitted c vs fs ns → Emitted c vs (f ∷ fs) (ms ++ ns))
      field_of true d p h = ([], Grows-same b d h, λ ns w. emitted_none (inl p) w)
      field_of false d p h =
          let (v, r, s) = ok_of_bind (field_at vs f.reflect.index) _ h in
          skipped f.optional (can_be_skipped c f v) v d p r refl refl s
