-- ===== src/Hcl/Meta.antt =====
-- getStructMeta of hcl/decode.go: the fields of a struct by their kinds, and the schema of its body.
pub mod Adds
pub mod Collected
use go_utils.Hcl.Field.{
  GoType, struct_type, body_content_type, body_schema_type, range_type, Fields, StructField,
  visible_fields, FieldKind, field_attr, field_block, field_label, field_remain, field_body,
  field_content, field_schema, field_range, StructFieldMeta, get_struct_field_meta, is_label,
}
use go_utils.Hcl.Result.{
  Result, ok, err, panics, ◌>>=◌, duplicate_attribute, duplicate_label, duplicate_block,
}
use go_utils.Prelude.{
  ℕ, Bool, true, false, not, Option, none, some, List, [], ◌∷◌, ◌++◌, if◌then◌else◌, Bytes,
  bytes_eq,
}

-- hcl.AttributeSchema, hcl.BlockHeaderSchema and hcl.BodySchema
pub record AttributeSchema : Type 0 where
  pub name : Bytes
  pub required : Bool

pub record BlockHeaderSchema : Type 0 where
  pub type : Bytes
  pub label_names : List Bytes

pub record BodySchema : Type 0 where
  pub attributes : List AttributeSchema
  pub blocks : List BlockHeaderSchema

abbrev pub StructFieldsMeta : Type 0
StructFieldsMeta = List StructFieldMeta

unfoldable pub has_name : StructFieldsMeta → Bytes → Bool
has_name [] name = false
has_name (f ∷ s) name = if bytes_eq f.name name then true else has_name s name

-- structFieldsMeta.get; `none` is its false.
unfoldable pub get_named : StructFieldsMeta → Bytes → Option StructFieldMeta
get_named [] name = none
get_named (f ∷ s) name = if bytes_eq f.name name then some f else get_named s name

-- structFieldsMeta.add; `none` is its false.
unfoldable pub add_named : StructFieldsMeta → StructFieldMeta → Option StructFieldsMeta
unfolding has_name
add_named s f = if has_name s f.name then none else some (s ++ f ∷ [])

pub record StructMeta : Type 0 where
  pub body_schema : BodySchema
  pub labels : StructFieldsMeta
  pub attrs : StructFieldsMeta
  pub blocks : StructFieldsMeta
  pub remain : Option StructFieldMeta
  pub body : Option StructFieldMeta
  pub content : Option StructFieldMeta
  pub schema : Option StructFieldMeta
  pub range : Option StructFieldMeta

abbrev pub no_meta : StructMeta
no_meta = record {
  body_schema = record { attributes = []; blocks = [] };
  labels = [];
  attrs = [];
  blocks = [];
  remain = none;
  body = none;
  content = none;
  schema = none;
  range = none;
}

-- The loop over the fields of the block's struct that extracts its labels.
unfoldable pub label_names : List StructField → Result (List Bytes)
label_names [] = ok []
label_names (f ∷ fs) = do
  m ← get_struct_field_meta f
  names ← label_names fs
  ok (if m.tagged then (if is_label m.type then m.name ∷ names else names) else names)

unfoldable pub struct_labels : Option GoType → Result (List Bytes)
unfolding label_names visible_fields
struct_labels (some (struct_type fs)) = label_names (visible_fields 0 fs)
struct_labels (some body_content_type) = ok []
struct_labels (some body_schema_type) = ok []
struct_labels (some range_type) = ok []
struct_labels T = panics

abbrev pub attribute_schema : StructFieldMeta → AttributeSchema
attribute_schema f = record { name = f.name; required = not f.optional }

unfoldable pub add_attr : StructMeta → StructFieldMeta → Result StructMeta
unfolding add_named
add_attr m f = elim (add_named m.attrs f) [
  | none ↦ err (duplicate_attribute f.name)
  | some attrs ↦ ok (record m {
    attrs = attrs;
    body_schema = record m.body_schema {
      attributes = m.body_schema.attributes ++ attribute_schema f ∷ [];
    };
  })
]

unfoldable pub add_label : StructMeta → StructFieldMeta → Result StructMeta
unfolding add_named
add_label m f = elim (add_named m.labels f) [
  | none ↦ err (duplicate_label f.name)
  | some labels ↦ ok (record m { labels = labels })
]

unfoldable pub add_block : StructMeta → StructFieldMeta → Result StructMeta
unfolding add_named struct_labels
add_block m f = do
  names ← struct_labels f.struct_reflect
  elim (add_named m.blocks f) [
    | none ↦ err (duplicate_block f.name)
    | some blocks ↦ ok (record m {
      blocks = blocks;
      body_schema = record m.body_schema {
        blocks = m.body_schema.blocks ++ record { type = f.name; label_names = names } ∷ [];
      };
    })
  ]

-- The switch on the kind of the field.
unfoldable pub add_field_of : FieldKind → StructMeta → StructFieldMeta → Result StructMeta
unfolding add_attr add_label add_block
add_field_of field_attr m f = add_attr m f
add_field_of field_label m f = add_label m f
add_field_of field_block m f = add_block m f
add_field_of field_remain m f = ok (record m { remain = some f })
add_field_of field_body m f = ok (record m { body = some f })
add_field_of field_content m f = ok (record m { content = some f })
add_field_of field_schema m f = ok (record m { schema = some f })
add_field_of field_range m f = ok (record m { range = some f })

unfoldable pub add_field : StructMeta → StructFieldMeta → Result StructMeta
unfolding add_field_of
add_field m f = if f.tagged then add_field_of f.type m f else ok m

-- The loop over the fields.
unfoldable pub add_fields : StructMeta → List StructField → Result StructMeta
unfolding add_field
add_fields m [] = ok m
add_fields m (f ∷ fs) = do fm ← get_struct_field_meta f; n ← add_field m fm; add_fields n fs

unfoldable pub get_struct_meta : Fields → Result StructMeta
unfolding add_fields visible_fields
get_struct_meta fs = add_fields no_meta (visible_fields 0 fs)
