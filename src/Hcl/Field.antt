-- ===== src/Hcl/Field.antt =====
-- getStructFieldMeta of hcl/decode.go: what the hcl tag of a struct's field says. A Go type is a tree of
-- the types that the code tells apart; a struct has no embedded fields, so VisibleFields are its fields.
pub mod Valid
use go_utils.Hcl.Result.{
  Result, ok, err, panics, ◌>>=◌, ◌>>◌, require, Diagnostic, invalid_tag, not_exported,
  no_struct_block, optional_misplaced, optional_repeated, remain_no_body, body_no_body,
  content_no_content, schema_no_schema, range_no_range,
}
use go_utils.Prelude.{
  ℕ, suc, Bool, true, false, ◌&&◌, ◌||◌, not, Option, none, some, List, [], ◌∷◌, if◌then◌else◌,
  Bytes, codes, bytes_eq,
}
use go_utils.Timeutil.Spec.{split}

mutual
  pub data GoType : Type 0 where
    struct_type : Fields → GoType
    slice_type map_type pointer_type : GoType → GoType
    interface_type body_type body_content_type body_schema_type range_type : GoType
    other_type : ℕ → GoType

  -- The fields of a struct: their names, whether they are exported, their hcl tags and types.
  pub data Fields : Type 0 where
    no_fields : Fields
    field : Bytes → Bool → Option Bytes → GoType → Fields → Fields

-- reflect.StructField
pub record StructField : Type 0 where
  pub name : Bytes
  pub is_exported : Bool
  pub tag : Option Bytes
  pub type : GoType
  pub index : ℕ

unfoldable pub visible_fields : ℕ → Fields → List StructField
visible_fields i no_fields = []
visible_fields i (field n e t T fs) =
    record { name = n; is_exported = e; tag = t; type = T; index = i } ∷ visible_fields (suc i) fs

pub data FieldKind : Type 0 where
  field_attr field_block field_label field_remain : FieldKind
  field_body field_content field_schema field_range : FieldKind

pub record StructFieldMeta : Type 0 where
  pub name : Bytes
  pub tagged : Bool
  pub type : FieldKind
  pub optional : Bool
  pub multiple : Bool
  pub ignore : Bool
  pub reflect : StructField
  pub struct_reflect : Option GoType

-- derefType; Elem of an interface type, as hcl.Body is one, panics.
unfoldable pub deref_type : GoType → Result GoType
deref_type (pointer_type T) = deref_type T
deref_type interface_type = panics
deref_type body_type = panics
deref_type T = ok T

abbrev pub with_type : FieldKind → StructFieldMeta → Result StructFieldMeta
with_type k m = ok (record m { type = k })

-- The switch on a part of the tag.
unfoldable pub set_option : StructFieldMeta → Bytes → Result StructFieldMeta
set_option m part =
    if bytes_eq part (codes "attr")
    then with_type field_attr m
    else if bytes_eq part (codes "label")
    then with_type field_label m
    else if bytes_eq part (codes "block")
    then with_type field_block m
    else if bytes_eq part (codes "remain")
    then with_type field_remain m
    else if bytes_eq part (codes "body")
    then with_type field_body m
    else if bytes_eq part (codes "content")
    then with_type field_content m
    else if bytes_eq part (codes "schema")
    then with_type field_schema m
    else if bytes_eq part (codes "range")
    then with_type field_range m
    else if bytes_eq part (codes "optional")
    then ok (record m { optional = true })
    else if bytes_eq part (codes "ignore")
    then ok (record m { ignore = true })
    else err (invalid_tag part)

unfoldable pub set_options : StructFieldMeta → List Bytes → Result StructFieldMeta
unfolding set_option
set_options m [] = ok m
set_options m (part ∷ parts) = set_option m part >>= λ n. set_options n parts

-- The name of the tag, or that of the field if the tag has none.
abbrev pub name_or : Bytes → Bytes → Bytes
name_or [] name = name
name_or (c ∷ s) name = c ∷ s

abbrev pub untagged : StructField → StructFieldMeta
untagged f = record {
  name = [];
  tagged = false;
  type = field_attr;
  optional = false;
  multiple = false;
  ignore = false;
  reflect = f;
  struct_reflect = none;
}

unfoldable pub parse_tag : StructField → List Bytes → Result StructFieldMeta
unfolding set_options
parse_tag f [] = panics
parse_tag f (n ∷ parts) =
    set_options (record (untagged f) { name = name_or n f.name; tagged = true }) parts

-- hcl.BodyContent, hcl.BodySchema and hcl.Range are structs without hcl tags.
unfoldable pub is_struct : GoType → Bool
is_struct (struct_type fs) = true
is_struct body_content_type = true
is_struct body_schema_type = true
is_struct range_type = true
is_struct T = false

-- The type of the block, behind the slice or map that makes it a repeated one.
unfoldable pub block_type : StructFieldMeta → GoType → Result StructFieldMeta
unfolding deref_type
block_type m (slice_type T) =
    deref_type T >>= λ S. ok (record m { multiple = true; struct_reflect = some S })
block_type m (map_type T) =
    deref_type T >>= λ S. ok (record m { multiple = true; struct_reflect = some S })
block_type m T = ok (record m { struct_reflect = some T })

unfoldable pub block_is_struct : StructFieldMeta → Bool
unfolding is_struct
block_is_struct m = elim m.struct_reflect [ none ↦ false | some T ↦ is_struct T ]

abbrev pub is_block : FieldKind → Bool
is_block field_block = true
is_block k = false

abbrev pub is_attr : FieldKind → Bool
is_attr field_attr = true
is_attr k = false

abbrev pub is_label : FieldKind → Bool
is_label field_label = true
is_label k = false

-- `if sfm.Type == fieldBlock { … }`
unfoldable pub find_struct : StructFieldMeta → Result StructFieldMeta
unfolding deref_type block_type block_is_struct
find_struct m =
    if is_block m.type
    then (do
      T ← deref_type m.reflect.type
      n ← block_type m T
      require (block_is_struct n) (no_struct_block n.name)
      ok n)
    else ok m

-- The type that a field of the kind must have.
unfoldable pub has_type : FieldKind → GoType → Bool
has_type field_remain body_type = true
has_type field_body body_type = true
has_type field_content body_content_type = true
has_type field_schema body_schema_type = true
has_type field_range range_type = true
has_type field_attr T = true
has_type field_block T = true
has_type field_label T = true
has_type k T = false

abbrev pub misfit : FieldKind → Diagnostic
misfit field_remain = remain_no_body
misfit field_body = body_no_body
misfit field_content = content_no_content
misfit field_schema = schema_no_schema
misfit k = range_no_range

-- The checks at the end.
unfoldable pub validate_tag : StructFieldMeta → Result StructFieldMeta
unfolding has_type
validate_tag m = do
  require (not m.optional || is_attr m.type || is_block m.type) optional_misplaced
  require (not (is_block m.type && m.multiple && m.optional)) optional_repeated
  require (has_type m.type m.reflect.type) (misfit m.type)
  ok m

-- With the tag that Lookup returns.
unfoldable pub parse_field_meta : StructField → Option Bytes → Result StructFieldMeta
unfolding parse_tag find_struct validate_tag split
parse_field_meta f none = ok (untagged f)
parse_field_meta f (some tag) = do
  m ← parse_tag f (split b',' tag)
  require (f.is_exported || m.ignore) (not_exported f.name)
  n ← find_struct m
  validate_tag n

unfoldable pub get_struct_field_meta : StructField → Result StructFieldMeta
unfolding parse_field_meta
get_struct_field_meta f = parse_field_meta f f.tag
