-- ===== src/Hcl/Field/Valid.antt =====
-- What holds of the tags that getStructFieldMeta of hcl/decode.go accepts.
use mathlib.Core.Path.{subst}
use go_utils.Hcl.Field.{
  GoType, slice_type, map_type, pointer_type, interface_type, body_type, StructField,
  StructFieldMeta, set_option, set_options, parse_tag, untagged, deref_type, is_struct, block_type,
  block_is_struct, is_block, is_attr, find_struct, has_type, validate_tag, parse_field_meta,
  get_struct_field_meta,
}
use go_utils.Hcl.Result.{ok, no_struct_block, ok_of_bind, require-eq-ok, ok_inj}
use go_utils.Prelude.{
  ◌≡◌, refl, sym, ap, ◌∙◌, ◌⊎◌, inl, inr, true, false, ◌&&◌, ◌||◌, not, Bool, Option, none, some,
  List, [], ◌∷◌, arith, Bool-cases, Bytes,
}
use go_utils.Timeutil.Spec.{split}

-- The type behind the pointers.
abbrev pub bare : GoType → GoType
bare (pointer_type T) = bare T
bare T = T

-- The type, behind pointers, is this struct; or, for a block that can be repeated, a slice or a map whose
-- elements are, behind pointers, this struct.
pub data IsBlockOf (T S : GoType) : Bool → Type 0 where
  one_struct : bare T ≡ S → IsBlockOf T S false
  slice_of : {U : GoType} → bare T ≡ slice_type U → bare U ≡ S → IsBlockOf T S true
  map_of : {U : GoType} → bare T ≡ map_type U → bare U ≡ S → IsBlockOf T S true

pub record IsValid (m : StructFieldMeta) : Type 0 where
  pub optional_only :
      m.optional ≡ true
      → (is_attr m.type ≡ true) ⊎ ((is_block m.type ≡ true) × (m.multiple ≡ false))
  pub block_struct :
      is_block m.type ≡ true
      → (S : GoType) × (m.struct_reflect ≡ some S)
        × (is_struct S ≡ true)
        × IsBlockOf m.reflect.type S m.multiple
  pub no_block : is_block m.type ≡ false → (m.multiple ≡ false) × (m.struct_reflect ≡ none)
  pub fitting : has_type m.type m.reflect.type ≡ true
  pub usable : m.reflect.is_exported || m.ignore ≡ true

-- What the options of a tag leave alone.
abbrev Left : StructFieldMeta → StructFieldMeta → Type 0
Left m n =
    (n.reflect ≡ m.reflect) × (n.multiple ≡ m.multiple) × (n.struct_reflect ≡ m.struct_reflect)

set_option-Left :
    (m : StructFieldMeta) (part : Bytes) {n : StructFieldMeta} → set_option m part ≡ ok n → Left m n
unfolding set_option
set_option-Left m part h = (ground arith, ground arith, ground arith)

set_options-Left :
    (m : StructFieldMeta) (parts : List Bytes) {n : StructFieldMeta}
    → set_options m parts ≡ ok n
    → Left m n
unfolding set_options
set_options-Left m [] h = let e = ok_inj h in (cc, cc, cc)
set_options-Left m (part ∷ parts) h =
    let (k, e, g) = ok_of_bind (set_option m part) (λ n. set_options n parts) h in
    let (p, q, r) = set_options-Left k parts g in
    let (p', q', r') = set_option-Left m part e in (p ∙ p', q ∙ q', r ∙ r')

parse_tag-Left :
    (f : StructField) (parts : List Bytes) {m : StructFieldMeta}
    → parse_tag f parts ≡ ok m
    → Left (untagged f) m
unfolding parse_tag
parse_tag-Left f [] h = cc
parse_tag-Left f (n ∷ parts) h = set_options-Left _ parts h

deref_type-bare : (T : GoType) {S : GoType} → deref_type T ≡ ok S → bare T ≡ S
unfolding deref_type
deref_type-bare (pointer_type T) h = deref_type-bare T h
deref_type-bare interface_type h = cc
deref_type-bare body_type h = cc
deref_type-bare T h = ok_inj h

-- What the search for the struct leaves alone.
abbrev Kept : StructFieldMeta → StructFieldMeta → Type 0
Kept m n =
    (n.type ≡ m.type) × (n.optional ≡ m.optional) × (n.ignore ≡ m.ignore) × (n.reflect ≡ m.reflect)

block_type-Kept :
    (m : StructFieldMeta) (T : GoType) {n : StructFieldMeta} → block_type m T ≡ ok n → Kept m n
unfolding block_type
block_type-Kept m (slice_type T) h =
    let (S, e, g) = ok_of_bind (deref_type T) _ h in ground (arith, g)
block_type-Kept m (map_type T) h =
    let (S, e, g) = ok_of_bind (deref_type T) _ h in ground (arith, g)
block_type-Kept m T h = ground arith

-- The struct of a field of this type.
abbrev HasStruct : GoType → StructFieldMeta → Type 0
HasStruct T n = (S : GoType) × (n.struct_reflect ≡ some S) × IsBlockOf T S n.multiple

block_type-HasStruct :
    (T : GoType) (m : StructFieldMeta) (U : GoType) {n : StructFieldMeta}
    → m.multiple ≡ false
    → bare T ≡ U
    → block_type m U ≡ ok n
    → HasStruct T n
unfolding block_type
block_type-HasStruct T m (slice_type U) o b h =
    let (S, e, g) = ok_of_bind (deref_type U) _ h in
    subst (HasStruct T) (ok_inj g) (S, refl, slice_of b (deref_type-bare U e))
block_type-HasStruct T m (map_type U) o b h =
    let (S, e, g) = ok_of_bind (deref_type U) _ h in
    subst (HasStruct T) (ok_inj g) (S, refl, map_of b (deref_type-bare U e))
block_type-HasStruct T m U o b h =
    subst (HasStruct T) (ok_inj h) (U, refl, subst (IsBlockOf T U) (sym o) (one_struct b))

block_is_struct-some :
    (m : StructFieldMeta) {S : GoType}
    → m.struct_reflect ≡ some S
    → block_is_struct m ≡ true
    → is_struct S ≡ true
unfolding block_is_struct
block_is_struct-some m q b = rw (q, block_is_struct) at b

-- What is found is a struct.
abbrev Found : StructFieldMeta → StructFieldMeta → Type 0
Found m n =
    Kept m n
    × (is_block n.type ≡ true
        → (S : GoType) × (n.struct_reflect ≡ some S)
          × (is_struct S ≡ true)
          × IsBlockOf n.reflect.type S n.multiple)
    × (is_block n.type ≡ false → (n.multiple ≡ m.multiple) × (n.struct_reflect ≡ m.struct_reflect))

find_struct-found :
    (m : StructFieldMeta) {n : StructFieldMeta}
    → m.multiple ≡ false
    → find_struct m ≡ ok n
    → Found m n
unfolding find_struct block_is_struct
find_struct-found m o h = elim (Bool-cases (is_block m.type)) [
  | inl block ↦
      let (T, e, g) = ok_of_bind (deref_type m.reflect.type) _ (rw block at h) in
      let (k, e', g') = ok_of_bind (block_type m T) _ g in
      let (b, g'') = require-eq-ok (block_is_struct k) (no_struct_block k.name) (ok k) g' in
      let (t, p, i, r) = block_type-Kept m T e' in
      let (S, q, s) =
        block_type-HasStruct m.reflect.type m T o (deref_type-bare m.reflect.type e) e' in
      subst (Found m) (ok_inj g'') (
        (t, p, i, r),
        λ _. (
          S,
          q,
          block_is_struct-some k q b,
          subst (λ (f : StructField). IsBlockOf f.type S k.multiple) (sym r) s,
        ),
        λ w. absurd (cc),
      )
  | inr other ↦
      subst (Found m) (ok_inj (rw other at h))
        ((refl, refl, refl, refl), λ b. absurd (cc), λ _. (refl, refl))
]

validate_tag-facts :
    (m : StructFieldMeta) {n : StructFieldMeta}
    → validate_tag m ≡ ok n
    → (n ≡ m)
      × (m.optional ≡ true
          → (is_attr m.type ≡ true) ⊎ ((is_block m.type ≡ true) × (m.multiple ≡ false)))
      × (has_type m.type m.reflect.type ≡ true)
unfolding validate_tag
validate_tag-facts m h =
    let (a, g) = require-eq-ok (not m.optional || is_attr m.type || is_block m.type) _ _ h in
    let (b, g') = require-eq-ok (not (is_block m.type && m.multiple && m.optional)) _ _ g in
    let (c, g'') = require-eq-ok (has_type m.type m.reflect.type) _ _ g' in
    (sym (ok_inj g''), λ o. ground arith, c)

parse_field_meta-IsValid :
    (f : StructField) (tag : Option Bytes) (m : StructFieldMeta)
    → parse_field_meta f tag ≡ ok m
    → m.tagged ≡ true
    → IsValid m × (m.reflect ≡ f)
unfolding parse_field_meta
parse_field_meta-IsValid f none m h t =
    absurd (cc (ap (λ (x : StructFieldMeta). x.tagged) (ok_inj h)))
parse_field_meta-IsValid f (some tag) m h t =
    let (k, e', g) = ok_of_bind (parse_tag f (split b',' tag)) _ h in
    let (usable, g') = require-eq-ok (f.is_exported || k.ignore) _ _ g in
    let (n, e'', g'') = ok_of_bind (find_struct k) _ g' in
    let (left, left', left'') = parse_tag-Left f (split b',' tag) e' in
    let ((t, o, i, r), s, s') = find_struct-found k left' e'' in
    let (same, o', fit) = validate_tag-facts n g'' in
    let whole : n.reflect ≡ f = r ∙ left in
    subst (λ (x : StructFieldMeta). IsValid x × (x.reflect ≡ f)) (sym same)
      (
        record {
          optional_only = o';
          block_struct = s;
          no_block = λ w. let (p, q) = s' w in (p ∙ left', q ∙ left'');
          fitting = fit;
          usable = rw (whole, i) usable;
        },
        whole,
      )

-- A tag that is accepted makes a field optional only if it is an attribute or a block that is not
-- repeated. The type of a block is, behind pointers, a struct, or a slice or map of such, and the metadata
-- has this struct and whether the block can be repeated, which it is exactly if it is a slice or a map. A
-- field for the rest of the body or the body is an hcl.Body, and one for its content, its schema or its
-- range an hcl.BodyContent, hcl.BodySchema or hcl.Range. A field that is not exported is ignored.
pub get_struct_field_meta-IsValid :
    (f : StructField) (m : StructFieldMeta)
    → get_struct_field_meta f ≡ ok m
    → m.tagged ≡ true
    → IsValid m × (m.reflect ≡ f)
unfolding get_struct_field_meta
get_struct_field_meta-IsValid f m h t = parse_field_meta-IsValid f f.tag m h t
