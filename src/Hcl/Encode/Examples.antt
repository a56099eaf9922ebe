-- ===== src/Hcl/Encode/Examples.antt =====
-- A struct with a repeated block and an attribute, encoded as a block.
use go_utils.Hcl.Encode.{
  OutBlock, out_block, no_blocks, blocks_and, Encoding, add_out, append_block, append_attribute,
  field_at, encoder_at, can_be_skipped, encode_labels, encode_attribute, encode_attributes,
  encode_block_field, encode_blocks, fill, labels_or, encode_struct, encode_items,
  encode_single_block, encode_block,
}
use go_utils.Hcl.Encode.Whole.{NewBlock, encode_block-NewBlock}
use go_utils.Hcl.Field.{
  struct_type, slice_type, other_type, Fields, no_fields, field, get_struct_field_meta,
}
use go_utils.Hcl.Meta.{get_struct_meta}
use go_utils.Hcl.Result.{ok, ok_inj}
use go_utils.Hcl.Value.{Types, Value, Values, struct_value, slice_value, leaf, no_values, value}
use go_utils.Prelude.{◌≡◌, refl, sym, true, false, Option, none, some, [], ◌∷◌, Bytes, codes}

abbrev plain_types : Types
plain_types = record {
  Body = Bytes;
  Expression = Bytes;
  CtyValue = Bytes;
  Range = Bytes;
  Leaf = Bytes;
}

-- type Item struct { Name string `hcl:"name,label"` }
abbrev item : Fields
item = field (codes "Name") true (some (codes "name,label")) (other_type 0) no_fields

-- type Config struct { Nodes []Item `hcl:"node,block"`; Count int `hcl:"count"` }
abbrev config : Fields
config =
    field (codes "Nodes") true (some (codes "node,block")) (slice_type (struct_type item))
      (field (codes "Count") true (some (codes "count")) (other_type 1) no_fields)

abbrev text_label : Value plain_types → Option Bytes
text_label (leaf s) = some s
text_label v = none

abbrev encoding : Encoding plain_types
encoding = record {
  map_label = λ f v. text_label v;
  has_pkg_path = λ T. false;
  is_zero = λ v. false;
  on_encode_block = λ fs b. ok b;
}

abbrev node : Bytes → Value plain_types
node s = struct_value (value (leaf s) no_values)

abbrev config_values : Values plain_types
config_values =
    value (slice_value (value (node (codes "a")) (value (node (codes "b")) no_values)))
      (value (leaf (codes "2")) no_values)

abbrev node_block : Bytes → OutBlock plain_types
node_block s = out_block (codes "node") (s ∷ []) [] no_blocks

abbrev root : OutBlock plain_types
root = out_block [] [] [] no_blocks

abbrev encoded : OutBlock plain_types
encoded = out_block [] [] [] (
    blocks_and
      (out_block (codes "config") [] ((codes "count", leaf (codes "2")) ∷ [])
        (blocks_and (node_block (codes "a")) (blocks_and (node_block (codes "b")) no_blocks)))
      no_blocks)

config_runs :
    encode_block encoding
      (struct_type config)
      (struct_value config_values)
      root
      (codes "config")
      none
    ≡ ok encoded
unfolding encode_block encode_single_block encode_struct get_struct_meta get_struct_field_meta fill
    labels_or encode_labels encode_attributes encode_attribute encode_blocks encode_block_field
    encode_items append_block append_attribute field_at encoder_at can_be_skipped add_out
config_runs = refl

encode_block-NewBlock_example : NewBlock encoding config config_values (codes "config") root encoded
encode_block-NewBlock_example =
    encode_block-NewBlock encoding config config_values root encoded (codes "config") none
      (λ gs x y h. sym (ok_inj h)) config_runs
