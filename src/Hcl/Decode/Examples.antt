-- ===== src/Hcl/Decode/Examples.antt =====
-- A struct with a repeated block, an attribute and a field without a tag, and its decoding.
use go_utils.Hcl.Field.{
  struct_type, slice_type, other_type, Fields, no_fields, field, StructField, StructFieldMeta,
  visible_fields, untagged, get_struct_field_meta, is_attr, is_block, is_label,
}
use go_utils.Hcl.Field.Valid.{IsValid, get_struct_field_meta-IsValid}
use go_utils.Hcl.Meta.{StructMeta, no_meta, get_named, get_struct_meta}
use go_utils.Hcl.Meta.Adds.{Agrees, different_sym}
use go_utils.Hcl.Meta.Collected.{field_metas, of_kind, get_struct_meta-Collects}
use go_utils.Hcl.Result.{Result, ok, ok_inj}
use go_utils.Hcl.Value.{
  Types, Block, BodyContent, Value, struct_value, nil_slice, slice_value, nil_map, map_value, leaf,
  Values, no_values, value, Entries, no_entries, entry, Calls, Decoder, of_type,
}
use go_utils.Hcl.Decode.{
  read_body, decode_struct, decode_single_block, decode_multiple_blocks, decoders,
}
use go_utils.Hcl.Decode.Runs.{value_at, run_blocks, step_of}
use go_utils.Hcl.Decode.Repeated.{Becomes, Filled, run_blocks_map}
use go_utils.Hcl.Decode.Struct.{Fits, decode_struct-Fits}
use go_utils.Hcl.Decode.Untouched.{IsUntagged, KeepsAt, decode_struct_untagged}
use go_utils.Hcl.Decode.Whole.{IsBlock, decode_struct_run}
use go_utils.Prelude.{
  ℕ, ◌≤◌, ◌≡◌, refl, sym, ap, true, Option, none, some, List, [], ◌∷◌, All, arith, Bytes, codes,
  length, nat_beq, if◌then◌else◌,
}

abbrev value_or {ℓ} : {A : Type ℓ} → A → Result A → A
value_or d (ok a) = a
value_or d r = d

-- type Item struct { Name string `hcl:"name,label"` }
abbrev item : Fields
item = field (codes "Name") true (some (codes "name,label")) (other_type 0) no_fields

-- type Config struct { Nodes []Item `hcl:"node,block"`; Count int `hcl:"count"`; Note string }
abbrev config : Fields
config = field (codes "Nodes") true (some (codes "node,block")) (slice_type (struct_type item)) (
    field (codes "Count") true (some (codes "count")) (other_type 1)
      (field (codes "Note") true none (other_type 0) no_fields))

abbrev nodes : StructField
nodes = record {
  name = codes "Nodes";
  is_exported = true;
  tag = some (codes "node,block");
  type = slice_type (struct_type item);
  index = 0;
}

nodes_meta : StructFieldMeta
unfolding get_struct_field_meta
nodes_meta = value_or (untagged nodes) (get_struct_field_meta nodes)

config_meta : StructMeta
unfolding get_struct_meta
config_meta = value_or no_meta (get_struct_meta config)

get_struct_field_meta-IsValid_example : IsValid nodes_meta × (nodes_meta.reflect ≡ nodes)
unfolding nodes_meta get_struct_field_meta
get_struct_field_meta-IsValid_example = get_struct_field_meta-IsValid nodes nodes_meta refl refl

get_struct_meta-Collects_example :
    ((ms : List StructFieldMeta) × (field_metas (visible_fields 0 config) ≡ ok ms)
      × (config_meta.attrs ≡ of_kind is_attr ms)
      × (config_meta.labels ≡ of_kind is_label ms)
      × (config_meta.blocks ≡ of_kind is_block ms))
    × Agrees config_meta
unfolding config_meta get_struct_meta get_struct_field_meta
get_struct_meta-Collects_example = get_struct_meta-Collects config config_meta refl

-- A body is a number, an expression and a cty value are one too.
abbrev numbers : Types
numbers = record { Body = ℕ; Expression = ℕ; CtyValue = ℕ; Range = ℕ; Leaf = ℕ }

abbrev node : Bytes → Block numbers
node label = record { type = codes "node"; labels = label ∷ []; body = 1; def_range = 0 }

abbrev two_nodes : List (Block numbers)
two_nodes = node (codes "a") ∷ node (codes "bc") ∷ []

abbrev content_of : ℕ → BodyContent numbers
content_of n =
    if nat_beq n 0
    then record { blocks = two_nodes; attributes = record { name = codes "count"; expr = 7 } ∷ [] }
    else record { blocks = []; attributes = [] }

-- The mapper sets any field, and there are no hooks.
abbrev calls : Calls numbers
calls = record {
  body_content = λ b s. ok (content_of b);
  partial_content = λ b s. ok (content_of b, some b);
  expr_value = λ e. ok e;
  string_val = λ s. length s;
  map_refl = λ x f v. some (leaf x);
  zero_leaf = λ T. 0;
  pre_decode_block = λ fs s b k vs. ok vs;
  post_decode_block = λ fs s b k vs. ok vs;
  pre_decode_attribute = λ f a v. ok v;
  post_decode_attribute = λ f a v. ok v;
}

abbrev root : Block numbers
root = record { type = []; labels = []; body = 0; def_range = 0 }

abbrev before : Values numbers
before = value nil_slice (value (leaf 0) (value (leaf 5) no_values))

abbrev decoded_item : ℕ → Value numbers
decoded_item n = struct_value (value (leaf n) no_values)

abbrev after : Values numbers
after =
    value (slice_value (value (decoded_item 1) (value (decoded_item 2) no_values)))
      (value (leaf 7) (value (leaf 5) no_values))

decoded : decode_struct calls config (decoders calls config) root before ≡ ok after
unfolding decode_struct decode_single_block get_struct_field_meta
decoded = refl

decode_struct-Fits_example :
    (m : StructMeta) × (content : BodyContent numbers) × (remain : Option ℕ) × (get_struct_meta
        config
      ≡ ok m)
    × (read_body calls m root ≡ ok (content, remain))
    × All (λ (f : StructFieldMeta). Fits f (of_type f.name content.blocks)) m.blocks
    × (length root.labels ≤ length m.labels)
decode_struct-Fits_example =
    decode_struct-Fits calls config (decoders calls config) root before after decoded

config_read : get_struct_meta config ≡ ok config_meta
unfolding config_meta get_struct_meta get_struct_field_meta
config_read = refl

note-IsUntagged : IsUntagged 2 config_meta
unfolding config_meta get_struct_meta get_struct_field_meta
note-IsUntagged = record {
  labels = tt;
  attrs = (λ e. absurd (omega (arith, e)), tt);
  blocks = (λ e. absurd (omega (arith, e)), tt);
  special = record { remain = tt; body = tt; content = tt; schema = tt; range = tt };
}

no_hooks : (i : ℕ) → KeepsAt calls i config config_meta root
no_hooks i = record {
  before = λ k vs ws h. ap (λ (x : Values numbers). value_at x i) (sym (ok_inj h));
  after = λ k vs ws h. ap (λ (x : Values numbers). value_at x i) (sym (ok_inj h));
}

decode_struct_untagged_example : value_at after 2 ≡ value_at before 2
decode_struct_untagged_example =
    decode_struct_untagged calls 2 config (decoders calls config) root before after config_meta
      config_read note-IsUntagged (no_hooks 2) decoded

nodes_decoder : Decoder numbers
nodes_decoder = record {
  single = decode_single_block calls (slice_type (struct_type item));
  multiple = decode_multiple_blocks calls (slice_type (struct_type item));
}

nodes-IsBlock :
    IsBlock calls config (decoders calls config) config_meta (codes "node") nodes_meta nodes_decoder
unfolding config_meta nodes_meta nodes_decoder get_struct_meta get_struct_field_meta
    decode_single_block get_named
nodes-IsBlock = record {
  named = refl;
  used = refl;
  decoder = refl;
  apart = λ other g q e. absurd (cc (rw (different_sym other (codes "node") e) at q));
  labels = tt;
  attrs = (λ e. absurd (omega (arith, e)), tt);
  special = record { remain = tt; body = tt; content = tt; schema = tt; range = tt };
}

decode_struct_run_example :
    (content : BodyContent numbers) × (remain : Option ℕ) × (w : Value numbers) × (read_body calls
        config_meta root
      ≡ ok (content, remain))
    × (run_blocks
          (step_of nodes_meta nodes_decoder)
          (of_type (codes "node") content.blocks)
          nil_slice
        ≡ ok w)
    × (value_at after nodes_meta.reflect.index ≡ some w)
unfolding nodes_meta get_struct_field_meta
decode_struct_run_example =
    decode_struct_run calls config (decoders calls config) config_meta (codes "node") nodes_meta
      nodes_decoder root nil_slice before after config_read nodes-IsBlock (no_hooks 0) refl decoded

two_entries : Entries numbers
two_entries = entry (codes "a") (decoded_item 1) (entry (codes "bc") (decoded_item 2) no_entries)

run_blocks_map_example :
    (fs : Entries numbers) × Becomes calls
      (struct_type item)
      two_nodes
      nil_map
      fs
      (map_value two_entries)
    × Filled calls (struct_type item) two_nodes no_entries fs
unfolding two_entries decode_single_block decode_struct get_struct_field_meta
run_blocks_map_example =
    run_blocks_map calls (struct_type item) two_nodes no_entries nil_map (map_value two_entries)
      refl tt refl
