-- ===== src/Hcl/Meta/Collected.antt =====
-- What getStructMeta of hcl/decode.go collects.
use mathlib.Core.Path.{subst}
use go_utils.Hcl.Field.{
  Fields, StructField, visible_fields, FieldKind, StructFieldMeta, get_struct_field_meta, is_attr,
  is_block, is_label,
}
use go_utils.Hcl.Result.{Result, ok, ◌>>=◌, ok_of_bind, ok_inj}
use go_utils.Hcl.Meta.{
  StructMeta, no_meta, StructFieldsMeta, add_field, add_fields, get_struct_meta,
}
use go_utils.Hcl.Meta.Adds.{Agrees, grown, taken, add_field-Extended}
use go_utils.Prelude.{
  ◌≡◌, refl, sym, ap, ◌∙◌, Bool, true, false, List, [], ◌∷◌, ◌++◌, append_assoc, append-nil,
}

-- What getStructFieldMeta makes of each field.
abbrev pub field_metas : List StructField → Result (List StructFieldMeta)
field_metas [] = ok []
field_metas (f ∷ fs) = get_struct_field_meta f >>= λ m. field_metas fs >>= λ ms. ok (m ∷ ms)

abbrev pub pick : Bool → StructFieldMeta → StructFieldsMeta → StructFieldsMeta
pick true f s = f ∷ s
pick false f s = s

-- The tagged ones of a kind, in their order.
abbrev pub of_kind : (FieldKind → Bool) → List StructFieldMeta → StructFieldsMeta
of_kind kind [] = []
of_kind kind (f ∷ fs) = pick (taken kind f) f (of_kind kind fs)

grown-pick :
    (b : Bool) (s : StructFieldsMeta) (f : StructFieldMeta) (t : StructFieldsMeta)
    → grown b s f ++ t ≡ s ++ pick b f t
grown-pick true s f t = append_assoc s (f ∷ []) t
grown-pick false s f t = refl

abbrev Collects : StructMeta → List StructField → StructMeta → Type 0
Collects m fs n =
    (ms : List StructFieldMeta) × (field_metas fs ≡ ok ms)
    × (n.attrs ≡ m.attrs ++ of_kind is_attr ms)
    × (n.labels ≡ m.labels ++ of_kind is_label ms)
    × (n.blocks ≡ m.blocks ++ of_kind is_block ms)
    × (Agrees m → Agrees n)

add_fields-Collects :
    (fs : List StructField) (m : StructMeta) {n : StructMeta}
    → add_fields m fs ≡ ok n
    → Collects m fs n
unfolding add_fields
add_fields-Collects [] m h =
    subst (λ (x : StructMeta). Collects m [] x) (ok_inj h)
      (
        [],
        refl,
        sym (append-nil m.attrs),
        sym (append-nil m.labels),
        sym (append-nil m.blocks),
        λ a. a,
      )
add_fields-Collects (f ∷ fs) m h =
    let (fm, e, g) = ok_of_bind (get_struct_field_meta f) _ h in
    let (k, e', g') = ok_of_bind (add_field m fm) _ g in
    let (a, l, b, keep) = add_field-Extended m fm e' in
    let (ms, e'', a', l', b', keep') = add_fields-Collects fs k g' in
    (
      fm ∷ ms,
      rw (e, e'') refl,
      a' ∙ ap (λ s. s ++ of_kind is_attr ms) a ∙ grown-pick _ m.attrs fm _,
      l' ∙ ap (λ s. s ++ of_kind is_label ms) l ∙ grown-pick _ m.labels fm _,
      b' ∙ ap (λ s. s ++ of_kind is_block ms) b ∙ grown-pick _ m.blocks fm _,
      λ x. keep' (keep x),
    )

-- The metadata of a struct has its tagged attributes, labels and blocks, each in the order of the fields
-- and no two of a kind of one name; the schema of the body has the attributes with whether they are
-- required, and the blocks, in that order.
pub get_struct_meta-Collects :
    (fs : Fields) (m : StructMeta)
    → get_struct_meta fs ≡ ok m
    → ((ms : List StructFieldMeta) × (field_metas (visible_fields 0 fs) ≡ ok ms)
        × (m.attrs ≡ of_kind is_attr ms)
        × (m.labels ≡ of_kind is_label ms)
        × (m.blocks ≡ of_kind is_block ms))
      × Agrees m
unfolding get_struct_meta
get_struct_meta-Collects fs m h =
    let (ms, e, a, l, b, keep) = add_fields-Collects (visible_fields 0 fs) no_meta h in
    (
      (ms, e, a, l, b),
      keep (record {
        attr_names = tt;
        label_names = tt;
        block_names = tt;
        attributes = refl;
        blocks = refl;
      }),
    )
