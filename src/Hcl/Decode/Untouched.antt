-- ===== src/Hcl/Decode/Untouched.antt =====
-- The fields that hcl/decode.go leaves as they are.
use mathlib.Core.Path.{subst}
use go_utils.Hcl.Field.{Fields, StructFieldMeta}
use go_utils.Hcl.Meta.{StructFieldsMeta, StructMeta, get_named, get_struct_meta}
use go_utils.Hcl.Result.{ok, or_err, bad_label, ok_of_bind, ok_inj}
use go_utils.Hcl.Value.{
  Types, Block, Attribute, BodyContent, Value, Values, Calls, Decoder, update_at, set_field,
  set_remain, body_value, content_value, schema_value, range_value,
}
use go_utils.Hcl.Decode.{
  set_fields, decode_labels, decode_into, decode_blocks, decode_attribute, attribute_into,
  decode_attributes, decode_struct,
}
use go_utils.Hcl.Decode.Runs.{value_at, update_at-other, decode_into-other}
use go_utils.Hcl.Decode.Struct.{Decoded, decode_struct-Decoded}
use go_utils.Prelude.{
  ℕ, ◌≡◌, refl, sym, ap, ◌∙◌, ◌≢◌, inl, inr, Option, none, some, List, [], ◌∷◌, Bool-cases, All,
  Bytes, bytes_eq,
}

-- The field is at another place.
abbrev pub NotAt : ℕ → StructFieldMeta → Type 0
NotAt i f = f.reflect.index ≢ i

abbrev pub NoneAt : ℕ → Option StructFieldMeta → Type 0
NoneAt i none = Unit
NoneAt i (some f) = NotAt i f

-- No tag "remain", "body", "content", "schema" or "range" names the field at the place.
pub record NoSpecial (i : ℕ) (m : StructMeta) : Type 0 where
  pub remain : NoneAt i m.remain
  pub body : NoneAt i m.body
  pub content : NoneAt i m.content
  pub schema : NoneAt i m.schema
  pub range : NoneAt i m.range

-- No tag names the field at the place.
pub record IsUntagged (i : ℕ) (m : StructMeta) : Type 0 where
  pub labels : All (NotAt i) m.labels
  pub attrs : All (NotAt i) m.attrs
  pub blocks : All (NotAt i) m.blocks
  pub special : NoSpecial i m

get_named-NotAt :
    (i : ℕ) (fs : StructFieldsMeta) (name : Bytes) (f : StructFieldMeta)
    → All (NotAt i) fs
    → get_named fs name ≡ some f
    → NotAt i f
unfolding get_named
get_named-NotAt i [] name f a h = cc
get_named-NotAt i (g ∷ fs) name f (n, a) h = elim (Bool-cases (bytes_eq g.name name)) [
  | inl same ↦
      let e : some g ≡ some f = rw same at h in let one : g ≡ f = cc (e) in subst (NotAt i) one n
  | inr other ↦ get_named-NotAt i fs name f a (rw other at h)
]

none_at :
    {i : ℕ} (o : Option StructFieldMeta)
    → ((f : StructFieldMeta) → o ≡ some f → NotAt i f)
    → NoneAt i o
none_at none h = tt
none_at (some f) h = h f refl

module _ {t : Types} (i : ℕ) where
  abbrev pub Same : Values t → Values t → Type 0
  Same vs ws = value_at ws i ≡ value_at vs i

  same_of_ok : {vs ws : Values t} → ok vs ≡ ok ws → Same vs ws
  same_of_ok h = ap (λ (x : Values t). value_at x i) (sym (ok_inj h))

  set_field-Same :
      (o : Option StructFieldMeta) (v : Value t) (vs : Values t) {ws : Values t}
      → NoneAt i o
      → set_field o v vs ≡ ok ws
      → Same vs ws
  unfolding set_field
  set_field-Same none v vs n h = same_of_ok h
  set_field-Same (some f) v vs n h = elim (Bool-cases f.reflect.is_exported) [
    | inl exported ↦ update_at-other vs f.reflect.index i (λ w. ok v) n (rw exported at h)
    | inr private ↦ absurd (cc (rw private at h))
  ]

  set_remain-Same :
      (o : Option StructFieldMeta) (r : Option t.Body) (vs : Values t) {ws : Values t}
      → NoneAt i o
      → set_remain o r vs ≡ ok ws
      → Same vs ws
  unfolding set_remain
  set_remain-Same o none vs n h = same_of_ok h
  set_remain-Same o (some b) vs n h = set_field-Same o (body_value b) vs n h

module _ {t : Types} (c : Calls t) (i : ℕ) where
  pub set_fields-Same :
      (m : StructMeta) (b : Block t) (content : BodyContent t) (remain : Option t.Body)
      (vs : Values t) {ws : Values t}
      → NoSpecial i m
      → set_fields c m b content remain vs ≡ ok ws
      → Same i vs ws
  unfolding set_fields
  set_fields-Same m b content remain vs u h =
      let (v1, e1, h1) = ok_of_bind (set_remain m.remain remain vs) _ h in
      let (v2, e2, h2) = ok_of_bind (set_field m.body (body_value b.body) v1) _ h1 in
      let (v3, e3, h3) = ok_of_bind (set_field m.content (content_value content) v2) _ h2 in
      let (v4, e4, h4) = ok_of_bind (set_field m.schema (schema_value m.body_schema) v3) _ h3 in
      set_field-Same i m.range (range_value b.def_range) v4 u.range h4
      ∙ set_field-Same i m.schema (schema_value m.body_schema) v3 u.schema e4
      ∙ set_field-Same i m.content (content_value content) v2 u.content e3
      ∙ set_field-Same i m.body (body_value b.body) v1 u.body e2
      ∙ set_remain-Same i m.remain remain vs u.remain e1

  pub decode_labels-Same :
      (labels : List Bytes) (fs : StructFieldsMeta) (vs : Values t) {ws : Values t}
      → All (NotAt i) fs
      → decode_labels c labels fs vs ≡ ok ws
      → Same i vs ws
  unfolding decode_labels
  decode_labels-Same [] fs vs a h = same_of_ok i h
  decode_labels-Same (l ∷ ls) [] vs a h = cc
  decode_labels-Same (l ∷ ls) (f ∷ fs) vs (n, a) h =
      let step = λ (v : Value t). or_err (c.map_refl (c.string_val l) f.reflect v) (bad_label l) in
      let (us, g, g') = ok_of_bind (update_at vs f.reflect.index step) _ h in
      decode_labels-Same ls fs us a g' ∙ update_at-other vs f.reflect.index i step n g

  decode_blocks-Same :
      (fs : StructFieldsMeta) (ds : List (Decoder t)) (bs : List (Block t)) (vs : Values t)
      {ws : Values t}
      → All (NotAt i) fs
      → decode_blocks c fs ds bs vs ≡ ok ws
      → Same i vs ws
  unfolding decode_blocks
  decode_blocks-Same fs ds [] vs a h = same_of_ok i h
  decode_blocks-Same fs ds (b ∷ bs) vs a h =
      let (us, g, g') = ok_of_bind (decode_into c ds (get_named fs b.type) b vs) _ h in
      decode_blocks-Same fs ds bs us a g'
      ∙ decode_into-other c ds (get_named fs b.type) i b vs
          (λ f q. get_named-NotAt i fs b.type f a q) g

  attribute_into-Same :
      (o : Option StructFieldMeta) (a : Attribute t) (vs : Values t) {ws : Values t}
      → NoneAt i o
      → attribute_into c o a vs ≡ ok ws
      → Same i vs ws
  unfolding attribute_into
  attribute_into-Same none a vs n h = same_of_ok i h
  attribute_into-Same (some f) a vs n h = elim (Bool-cases f.ignore) [
    | inl ignored ↦ same_of_ok i (rw ignored at h)
    | inr used ↦
        update_at-other vs f.reflect.index i (decode_attribute c f.reflect a) n (rw used at h)
  ]

  pub decode_attributes-Same :
      (fs : StructFieldsMeta) (as' : List (Attribute t)) (vs : Values t) {ws : Values t}
      → All (NotAt i) fs
      → decode_attributes c fs as' vs ≡ ok ws
      → Same i vs ws
  unfolding decode_attributes
  decode_attributes-Same fs [] vs a h = same_of_ok i h
  decode_attributes-Same fs (x ∷ xs) vs a h =
      let (us, g, g') = ok_of_bind (attribute_into c (get_named fs x.name) x vs) _ h in
      decode_attributes-Same fs xs us a g'
      ∙ attribute_into-Same (get_named fs x.name) x vs
          (none_at (get_named fs x.name) (λ f q. get_named-NotAt i fs x.name f a q)) g

  -- The hooks of a struct type, if it has them, keep the field at the place.
  pub record KeepsAt (fs : Fields) (m : StructMeta) (b : Block t) : Type 0 where
    pub before :
        (content : BodyContent t) (vs ws : Values t)
        → c.pre_decode_block fs m.body_schema b content vs ≡ ok ws
        → Same i vs ws
    pub after :
        (content : BodyContent t) (vs ws : Values t)
        → c.post_decode_block fs m.body_schema b content vs ≡ ok ws
        → Same i vs ws

  kept :
      (fs : Fields) (ds : List (Decoder t)) (b : Block t) (vs ws : Values t) (m : StructMeta)
      → IsUntagged i m
      → KeepsAt fs m b
      → Decoded c fs ds b vs ws m
      → Same i vs ws
  kept fs ds b vs ws m u k d =
      k.after d.content d.v5 ws d.after
      ∙ decode_attributes-Same m.attrs d.content.attributes d.v4 u.attrs d.attributes
      ∙ decode_blocks-Same m.blocks ds d.content.blocks d.v3 u.blocks d.blocks
      ∙ decode_labels-Same b.labels m.labels d.v2 u.labels d.labels
      ∙ k.before d.content d.v1 d.v2 d.before
      ∙ set_fields-Same m b d.content d.remain vs u.special d.fields

  -- A decoding into a struct leaves a field as it is that no tag names, if the hooks do.
  pub decode_struct_untagged :
      (fs : Fields) (ds : List (Decoder t)) (b : Block t) (vs ws : Values t) (m : StructMeta)
      → get_struct_meta fs ≡ ok m
      → IsUntagged i m
      → KeepsAt fs m b
      → decode_struct c fs ds b vs ≡ ok ws
      → value_at ws i ≡ value_at vs i
  decode_struct_untagged fs ds b vs ws m e u k h =
      let (n, e', d) = decode_struct-Decoded c fs ds b vs ws h in
      let same : n ≡ m = ok_inj (sym e' ∙ e) in
      kept fs ds b vs ws m u k (subst (λ x. Decoded c fs ds b vs ws x) same d)
