-- ===== src/Hcl/Meta/Adds.antt =====
-- What a field adds to the metadata of a struct, by getStructMeta of hcl/decode.go.
use mathlib.Core.List.{map, map-append}
use mathlib.Core.Path.{subst}
use go_utils.Hcl.Field.{
  FieldKind, field_attr, field_block, field_label, StructFieldMeta, is_attr, is_block, is_label,
}
use go_utils.Hcl.Result.{ok, ok_of_bind, ok_inj}
use go_utils.Hcl.Meta.{
  StructMeta, BlockHeaderSchema, attribute_schema, StructFieldsMeta, has_name, add_named,
  struct_labels, add_attr, add_label, add_block, add_field_of, add_field,
}
use go_utils.Prelude.{
  ◌≡◌, refl, sym, ap, ◌∙◌, inl, inr, Bool, true, false, ◌&&◌, some, [], ◌∷◌, ◌++◌, if◌then◌else◌,
  Bool-cases, Option-cases, Bytes, bytes_eq, bytes_eq_iff,
}

abbrev pub DistinctNames : StructFieldsMeta → Type 0
DistinctNames [] = Unit
DistinctNames (f ∷ s) = (has_name s f.name ≡ false) × DistinctNames s

-- The names of a list are distinct, and the schema has what the lists have.
pub record Agrees (m : StructMeta) : Type 0 where
  pub attr_names : DistinctNames m.attrs
  pub label_names : DistinctNames m.labels
  pub block_names : DistinctNames m.blocks
  pub attributes : m.body_schema.attributes ≡ map attribute_schema m.attrs
  pub blocks :
      map (λ (b : BlockHeaderSchema). b.type) m.body_schema.blocks
      ≡ map (λ (f : StructFieldMeta). f.name) m.blocks

has_name-append :
    (s : StructFieldsMeta) (f : StructFieldMeta) (name : Bytes)
    → has_name s name ≡ false
    → bytes_eq f.name name ≡ false
    → has_name (s ++ f ∷ []) name ≡ false
unfolding has_name
has_name-append [] f name h e = rw e refl
has_name-append (g ∷ s) f name h e = elim (Bool-cases (bytes_eq g.name name)) [
  | inl same ↦ absurd (cc (rw same at h))
  | inr other ↦ rw other (has_name-append s f name (rw other at h) e)
]

pub different_sym : (a b : Bytes) → bytes_eq a b ≡ false → bytes_eq b a ≡ false
different_sym a b h = elim (Bool-cases (bytes_eq b a)) [
  | inl same ↦ absurd (cc (h, (bytes_eq_iff a b).1 (sym ((bytes_eq_iff b a).0 same))))
  | inr other ↦ other
]

DistinctNames-append :
    (s : StructFieldsMeta) (f : StructFieldMeta)
    → DistinctNames s
    → has_name s f.name ≡ false
    → DistinctNames (s ++ f ∷ [])
unfolding has_name
DistinctNames-append [] f d h = (refl, tt)
DistinctNames-append (g ∷ s) f (n, d) h = elim (Bool-cases (bytes_eq g.name f.name)) [
  | inl same ↦ absurd (cc (rw same at h))
  | inr other ↦ (
    has_name-append s f g.name n (different_sym g.name f.name other),
    DistinctNames-append s f d (rw other at h),
  )
]

add_named-cases :
    (s : StructFieldsMeta) (f : StructFieldMeta) {t : StructFieldsMeta}
    → add_named s f ≡ some t
    → (t ≡ s ++ f ∷ []) × (DistinctNames s → DistinctNames (s ++ f ∷ []))
unfolding add_named
add_named-cases s f h = elim (Bool-cases (has_name s f.name)) [
  | inl known ↦ absurd (cc (rw known at h))
  | inr new ↦
      let e : some (s ++ f ∷ []) ≡ some _ = rw new at h in
      (cc (e), λ d. DistinctNames-append s f d new)
]

abbrev pub grown : Bool → StructFieldsMeta → StructFieldMeta → StructFieldsMeta
grown true s f = s ++ f ∷ []
grown false s f = s

abbrev Grown : FieldKind → StructMeta → StructFieldMeta → StructMeta → Type 0
Grown k m f n =
    (n.attrs ≡ grown (is_attr k) m.attrs f)
    × (n.labels ≡ grown (is_label k) m.labels f)
    × (n.blocks ≡ grown (is_block k) m.blocks f)
    × (Agrees m → Agrees n)

add_attr-Grown :
    (m : StructMeta) (f : StructFieldMeta) {n : StructMeta}
    → add_attr m f ≡ ok n
    → Grown field_attr m f n
unfolding add_attr
add_attr-Grown m f h = elim (Option-cases (add_named m.attrs f)) [
  | inl known ↦ absurd (cc (rw (known, add_attr) at h))
  | inr (t, e) ↦
      let (grows, distinct) = add_named-cases m.attrs f e in
      subst (λ (x : StructMeta). Grown field_attr m f x) (ok_inj (rw (e, add_attr) at h))
        (
          grows,
          refl,
          refl,
          λ a. record {
            attr_names = subst DistinctNames (sym grows) (distinct a.attr_names);
            label_names = a.label_names;
            block_names = a.block_names;
            attributes = rw grows (simp (a.attributes, map-append));
            blocks = a.blocks;
          },
        )
]

add_label-Grown :
    (m : StructMeta) (f : StructFieldMeta) {n : StructMeta}
    → add_label m f ≡ ok n
    → Grown field_label m f n
unfolding add_label
add_label-Grown m f h = elim (Option-cases (add_named m.labels f)) [
  | inl known ↦ absurd (cc (rw (known, add_label) at h))
  | inr (t, e) ↦
      let (grows, distinct) = add_named-cases m.labels f e in
      subst (λ (x : StructMeta). Grown field_label m f x) (ok_inj (rw (e, add_label) at h))
        (
          refl,
          grows,
          refl,
          λ a. record {
            attr_names = a.attr_names;
            label_names = subst DistinctNames (sym grows) (distinct a.label_names);
            block_names = a.block_names;
            attributes = a.attributes;
            blocks = a.blocks;
          },
        )
]

add_block-Grown :
    (m : StructMeta) (f : StructFieldMeta) {n : StructMeta}
    → add_block m f ≡ ok n
    → Grown field_block m f n
unfolding add_block
add_block-Grown m f h =
    let (names, _, g) = ok_of_bind (struct_labels f.struct_reflect) _ h in
    elim (Option-cases (add_named m.blocks f)) [
      | inl known ↦ absurd (cc (rw known at g))
      | inr (t, e) ↦
          let (grows, distinct) = add_named-cases m.blocks f e in
          subst (λ (x : StructMeta). Grown field_block m f x) (ok_inj (rw e at g))
            (
              refl,
              refl,
              grows,
              λ a. record {
                attr_names = a.attr_names;
                label_names = a.label_names;
                block_names = subst DistinctNames (sym grows) (distinct a.block_names);
                attributes = a.attributes;
                blocks = rw grows (simp (a.blocks, map-append));
              },
            )
    ]

-- The other kinds leave the lists and the schema as they are.
add_field_of-Grown :
    (k : FieldKind) (m : StructMeta) (f : StructFieldMeta) {n : StructMeta}
    → add_field_of k m f ≡ ok n
    → Grown k m f n
unfolding add_field_of
add_field_of-Grown field_attr m f h = add_attr-Grown m f h
add_field_of-Grown field_label m f h = add_label-Grown m f h
add_field_of-Grown field_block m f h = add_block-Grown m f h
add_field_of-Grown k m f h =
    subst (λ (x : StructMeta). Grown k m f x) (ok_inj h)
      (
        refl,
        refl,
        refl,
        λ a. record {
          attr_names = a.attr_names;
          label_names = a.label_names;
          block_names = a.block_names;
          attributes = a.attributes;
          blocks = a.blocks;
        },
      )

-- What a field that may be untagged, or of another kind, adds to a list.
abbrev pub taken : (FieldKind → Bool) → StructFieldMeta → Bool
taken kind f = f.tagged && kind f.type

abbrev pub Extended : StructMeta → StructFieldMeta → StructMeta → Type 0
Extended m f n =
    (n.attrs ≡ grown (taken is_attr f) m.attrs f)
    × (n.labels ≡ grown (taken is_label f) m.labels f)
    × (n.blocks ≡ grown (taken is_block f) m.blocks f)
    × (Agrees m → Agrees n)

pub add_field-Extended :
    (m : StructMeta) (f : StructFieldMeta) {n : StructMeta} → add_field m f ≡ ok n → Extended m f n
unfolding add_field
add_field-Extended m f {n} h =
    let at : Bool → StructFieldsMeta → Bool → StructFieldsMeta =
      λ (k : Bool) (s : StructFieldsMeta) (t : Bool). grown (t && k) s f in
    elim (Bool-cases f.tagged) [
      | inl yes_tag ↦
          let (a, l, b, g) = add_field_of-Grown f.type m f (
            subst (λ (t : Bool). (if t then add_field_of f.type m f else ok m) ≡ ok n) yes_tag h) in
          (
            a ∙ ap (at (is_attr f.type) m.attrs) (sym yes_tag),
            l ∙ ap (at (is_label f.type) m.labels) (sym yes_tag),
            b ∙ ap (at (is_block f.type) m.blocks) (sym yes_tag),
            g,
          )
      | inr no_tag ↦
          let e : m ≡ n =
            ok_inj (
              subst (λ (t : Bool). (if t then add_field_of f.type m f else ok m) ≡ ok n) no_tag
                h) in
          subst (λ (x : StructMeta). Extended m f x) e
            (
              ap (at (is_attr f.type) m.attrs) (sym no_tag),
              ap (at (is_label f.type) m.labels) (sym no_tag),
              ap (at (is_block f.type) m.blocks) (sym no_tag),
              λ a. a,
            )
    ]
