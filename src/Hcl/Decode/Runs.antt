-- ===== src/Hcl/Decode/Runs.antt =====
-- What the blocks of a body do to the field of one type of block, by hcl/decode.go.
use mathlib.Core.Path.{subst}
use go_utils.Hcl.Field.{StructFieldMeta}
use go_utils.Hcl.Meta.{StructFieldsMeta, get_named}
use go_utils.Hcl.Result.{Result, ok, ◌>>=◌, ok_of_bind, ok_inj}
use go_utils.Hcl.Value.{
  Types, Block, Value, Values, no_values, value, Calls, Decoder, update_at, of_type, decoder_at,
}
use go_utils.Hcl.Decode.{decode_into, decode_blocks}
use go_utils.Prelude.{
  ℕ, zero, suc, ◌≡◌, refl, sym, ap, ◌∙◌, ◌≢◌, inl, inr, Bool, true, false, Option, none, some, List,
  [], ◌∷◌, if◌then◌else◌, Bool-cases, Option-cases, Bytes, bytes_eq, bytes_eq_iff,
}

module _ {t : Types} where
  abbrev pub value_at : Values t → ℕ → Option (Value t)
  value_at no_values i = none
  value_at (value v vs) zero = some v
  value_at (value v vs) (suc i) = value_at vs i

  written : {ws us : Values t} (i : ℕ) → ok us ≡ ok ws → value_at ws i ≡ value_at us i
  written i h = ap (λ (x : Values t). value_at x i) (sym (ok_inj h))

  pub update_at_self :
      (vs : Values t) (i : ℕ) (f : Value t → Result (Value t)) (v : Value t) {ws : Values t}
      → value_at vs i ≡ some v
      → update_at vs i f ≡ ok ws
      → (w : Value t) × (f v ≡ ok w) × (value_at ws i ≡ some w)
  unfolding update_at
  update_at_self no_values i f v e h = cc
  update_at_self (value u vs) zero f v e h =
      let (w, g, g') = ok_of_bind (f u) _ h in
      let same : u ≡ v = cc in (w, subst (λ x. f x ≡ ok w) same g, written 0 g')
  update_at_self (value u vs) (suc i) f v e h =
      let (us, g, g') = ok_of_bind (update_at vs i f) _ h in
      let (w, a, b) = update_at_self vs i f v e g in (w, a, written (suc i) g' ∙ b)

  pub update_at-other :
      (vs : Values t) (i j : ℕ) (f : Value t → Result (Value t)) {ws : Values t}
      → i ≢ j
      → update_at vs i f ≡ ok ws
      → value_at ws j ≡ value_at vs j
  unfolding update_at
  update_at-other no_values i j f ne h = cc
  update_at-other (value u vs) zero zero f ne h = absurd (ne refl)
  update_at-other (value u vs) zero (suc j) f ne h =
      let (w, g, g') = ok_of_bind (f u) _ h in written (suc j) g'
  update_at-other (value u vs) (suc i) zero f ne h =
      let (us, g, g') = ok_of_bind (update_at vs i f) _ h in written 0 g'
  update_at-other (value u vs) (suc i) (suc j) f ne h =
      let (us, g, g') = ok_of_bind (update_at vs i f) _ h in
      written (suc j) g' ∙ update_at-other vs i j f (λ e. ne (ap suc e)) g

module _ {t : Types} where
  -- One block after the other.
  abbrev pub run_blocks :
      (Block t → Value t → Result (Value t)) → List (Block t) → Value t → Result (Value t)
  run_blocks step [] v = ok v
  run_blocks step (b ∷ bs) v = step b v >>= λ w. run_blocks step bs w

  -- What decodes a block into the field.
  abbrev pub step_of : StructFieldMeta → Decoder t → Block t → Value t → Result (Value t)
  step_of f d b = if f.multiple then d.multiple b else d.single b

  of_type-same :
      (name : Bytes) (b : Block t) (bs : List (Block t))
      → bytes_eq b.type name ≡ true
      → of_type name (b ∷ bs) ≡ b ∷ of_type name bs
  unfolding of_type
  of_type-same name b bs e = ap (λ (x : Bool). if x then b ∷ of_type name bs else of_type name bs) e

  of_type-other :
      (name : Bytes) (b : Block t) (bs : List (Block t))
      → bytes_eq b.type name ≡ false
      → of_type name (b ∷ bs) ≡ of_type name bs
  unfolding of_type
  of_type-other name b bs e =
      ap (λ (x : Bool). if x then b ∷ of_type name bs else of_type name bs) e

module _ {t : Types} (c : Calls t) (ds : List (Decoder t)) where
  decode_into_self :
      (f : StructFieldMeta) (d : Decoder t) (b : Block t) (v : Value t) (vs : Values t)
      {ws : Values t}
      → f.ignore ≡ false
      → decoder_at ds f.reflect.index ≡ some d
      → value_at vs f.reflect.index ≡ some v
      → decode_into c ds (some f) b vs ≡ ok ws
      → (w : Value t) × (step_of f d b v ≡ ok w) × (value_at ws f.reflect.index ≡ some w)
  unfolding decode_into
  decode_into_self f d b v vs ignored found e h =
      update_at_self vs f.reflect.index (step_of f d b) v e (rw (ignored, found, decode_into) at h)

  pub decode_into-other :
      (o : Option StructFieldMeta) (i : ℕ) (b : Block t) (vs : Values t) {ws : Values t}
      → ((f : StructFieldMeta) → o ≡ some f → f.reflect.index ≢ i)
      → decode_into c ds o b vs ≡ ok ws
      → value_at ws i ≡ value_at vs i
  unfolding decode_into
  decode_into-other none i b vs apart h = ap (λ (x : Values t). value_at x i) (sym (ok_inj h))
  decode_into-other (some f) i b vs apart h = elim (Bool-cases f.ignore) [
    | inl ignored ↦ ap (λ (x : Values t). value_at x i) (sym (ok_inj (rw ignored at h)))
    | inr used ↦ elim (Option-cases (decoder_at ds f.reflect.index)) [
      | inl no_decoder ↦ absurd (cc (rw (used, no_decoder) at h))
      | inr (d, found) ↦
          update_at-other vs f.reflect.index i (step_of f d b) (apart f refl)
            (rw (used, found, decode_into) at h)
    ]
  ]

module _ {t : Types} (c : Calls t) (fs : StructFieldsMeta) (ds : List (Decoder t)) where
  -- The fields of other types of block stand at other places.
  abbrev pub IsApart : Bytes → ℕ → Type 0
  IsApart name i =
      (other : Bytes) (g : StructFieldMeta)
      → get_named fs other ≡ some g
      → bytes_eq other name ≡ false
      → g.reflect.index ≢ i

  -- After all blocks of a body the field of one type of block holds what the blocks of that type make of
  -- it, one after the other in the order of the body; blocks of other types, of fields at other places,
  -- do not touch it.
  pub decode_blocks_run :
      (name : Bytes) (f : StructFieldMeta) (d : Decoder t) (bs : List (Block t)) (v : Value t)
      (vs ws : Values t)
      → get_named fs name ≡ some f
      → f.ignore ≡ false
      → decoder_at ds f.reflect.index ≡ some d
      → IsApart name f.reflect.index
      → value_at vs f.reflect.index ≡ some v
      → decode_blocks c fs ds bs vs ≡ ok ws
      → (w : Value t) × (run_blocks (step_of f d) (of_type name bs) v ≡ ok w)
        × (value_at ws f.reflect.index ≡ some w)
  unfolding decode_blocks of_type
  decode_blocks_run name f d [] v vs ws named used found apart e h =
      (v, refl, ap (λ (x : Values t). value_at x f.reflect.index) (sym (ok_inj h)) ∙ e)
  decode_blocks_run name f d (b ∷ bs) v vs ws named used found apart e h =
      let (us, g, g') = ok_of_bind (decode_into c ds (get_named fs b.type) b vs) _ h in
      elim (Bool-cases (bytes_eq b.type name)) [
        | inl same ↦
            let is_f : get_named fs b.type ≡ some f =
              ap (get_named fs) ((bytes_eq_iff b.type name).0 same) ∙ named in
            let (u, a, k) =
              decode_into_self c ds f d b v vs used found e
                (subst (λ o. decode_into c ds o b vs ≡ ok us) is_f g) in
            let (w, r, at_end) =
              decode_blocks_run name f d bs u us ws named used found apart k g' in
            (w, rw (of_type-same name b bs same, a) r, at_end)
        | inr other ↦
            let kept : value_at us f.reflect.index ≡ value_at vs f.reflect.index =
              decode_into-other c ds (get_named fs b.type) f.reflect.index b vs
                (λ k q. apart b.type k q other) g in
            let (w, r, at_end) =
              decode_blocks_run name f d bs v us ws named used found apart (kept ∙ e) g' in
            (w, rw (of_type-other name b bs other) r, at_end)
      ]
