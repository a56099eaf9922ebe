-- ===== src/Hcl/Decode/Whole.antt =====
-- What a block type's field of a struct holds after the whole decoding, by hcl/decode.go.
use mathlib.Core.Path.{subst}
use go_utils.Hcl.Field.{Fields, StructFieldMeta}
use go_utils.Hcl.Meta.{StructMeta, get_named, get_struct_meta}
use go_utils.Hcl.Result.{ok, ok_inj}
use go_utils.Hcl.Value.{
  Types, Block, BodyContent, Value, Values, Calls, Decoder, of_type, decoder_at,
}
use go_utils.Hcl.Decode.{read_body, decode_struct}
use go_utils.Hcl.Decode.Runs.{value_at, run_blocks, step_of, IsApart, decode_blocks_run}
use go_utils.Hcl.Decode.Struct.{Decoded, decode_struct-Decoded}
use go_utils.Hcl.Decode.Untouched.{
  NotAt, NoSpecial, KeepsAt, set_fields-Same, decode_labels-Same, decode_attributes-Same,
}
use go_utils.Prelude.{◌≡◌, sym, ◌∙◌, false, Option, some, List, All, Bytes}

module _ {t : Types} (c : Calls t) (fs : Fields) (ds : List (Decoder t)) (m : StructMeta) where
  -- The field is one of the blocks of the struct, and no other tag names the field at its place.
  pub record IsBlock (name : Bytes) (f : StructFieldMeta) (d : Decoder t) : Type 0 where
    pub named : get_named m.blocks name ≡ some f
    pub used : f.ignore ≡ false
    pub decoder : decoder_at ds f.reflect.index ≡ some d
    pub apart : IsApart c m.blocks ds name f.reflect.index
    pub labels : All (NotAt f.reflect.index) m.labels
    pub attrs : All (NotAt f.reflect.index) m.attrs
    pub special : NoSpecial f.reflect.index m

  -- After the decoding of a struct the field of a type of block holds what the blocks of that type in the
  -- body make of it, one after the other in the order of the body, if no other tag names the field and
  -- the hooks keep it.
  pub decode_struct_run :
      (name : Bytes) (f : StructFieldMeta) (d : Decoder t) (b : Block t) (v : Value t)
      (vs ws : Values t)
      → get_struct_meta fs ≡ ok m
      → IsBlock name f d
      → KeepsAt c f.reflect.index fs m b
      → value_at vs f.reflect.index ≡ some v
      → decode_struct c fs ds b vs ≡ ok ws
      → (content : BodyContent t) × (remain : Option t.Body) × (w : Value t) × (read_body c m b
          ≡ ok (content, remain))
        × (run_blocks (step_of f d) (of_type name content.blocks) v ≡ ok w)
        × (value_at ws f.reflect.index ≡ some w)
  decode_struct_run name f d b v vs ws e u k at h =
      let (n, e', dn) = decode_struct-Decoded c fs ds b vs ws h in
      let x : Decoded c fs ds b vs ws m =
        subst (λ y. Decoded c fs ds b vs ws y) (ok_inj (sym e' ∙ e)) dn in
      let i = f.reflect.index in
      let start : value_at x.v3 i ≡ some v =
        decode_labels-Same c i b.labels m.labels x.v2 u.labels x.labels
        ∙ k.before x.content x.v1 x.v2 x.before
        ∙ set_fields-Same c i m b x.content x.remain vs u.special x.fields
        ∙ at in
      let (w, r, q) =
        decode_blocks_run c m.blocks ds name f d x.content.blocks v x.v3 x.v4 u.named u.used
          u.decoder u.apart start x.blocks in
      (
        x.content,
        x.remain,
        w,
        x.read,
        r,
        k.after x.content x.v5 ws x.after
            ∙ decode_attributes-Same c i m.attrs x.content.attributes x.v4 u.attrs x.attributes
            ∙ q,
      )
