-- ===== src/Hcl/Decode/Repeated.antt =====
-- What repeated blocks make of a slice and of a map, by hcl/decode.go.
use mathlib.Core.Path.{subst}
use go_utils.Hcl.Field.{GoType, slice_type, map_type}
use go_utils.Hcl.Meta.Adds.{different_sym}
use go_utils.Hcl.Result.{Result, ok, ◌>>=◌, ok_of_bind, ok_inj, >>=-assoc, >>=-congr}
use go_utils.Hcl.Value.{
  Types, Block, Value, slice_value, map_value, Values, no_values, value, Entries, no_entries, entry,
  Calls, has_key, add_entry, key_of, append_value, map_entries,
}
use go_utils.Hcl.Decode.{zero_value, decode_single_block, decode_multiple_blocks}
use go_utils.Hcl.Decode.Runs.{run_blocks}
use go_utils.Prelude.{
  ◌≡◌, refl, sym, ap, ◌∙◌, inl, inr, false, some, List, [], ◌∷◌, ◌++◌, append-nil, append_assoc,
  Bool-cases, Bytes, bytes_eq,
}

module _ {t : Types} where
  abbrev pub append_values : Values t → Values t → Values t
  append_values no_values ws = ws
  append_values (value v vs) ws = value v (append_values vs ws)

  append_values-append_value :
      (vs : Values t) (w : Value t) (ws : Values t)
      → append_values (append_value vs w) ws ≡ append_values vs (value w ws)
  unfolding append_value
  append_values-append_value no_values w ws = refl
  append_values-append_value (value v vs) w ws = ap (value v) (append_values-append_value vs w ws)

  append_values-nil : (vs : Values t) → append_values vs no_values ≡ vs
  append_values-nil no_values = refl
  append_values-nil (value v vs) = ap (value v) (append_values-nil vs)

  append_values-cons :
      (vs : Values t) (w : Value t) (ws : Values t)
      → append_values (append_values vs (value w no_values)) ws ≡ append_values vs (value w ws)
  append_values-cons no_values w ws = refl
  append_values-cons (value v vs) w ws = ap (value v) (append_values-cons vs w ws)

  abbrev pub keys : Entries t → List Bytes
  keys no_entries = []
  keys (entry k v es) = k ∷ keys es

  abbrev pub values_of : Entries t → Values t
  values_of no_entries = no_values
  values_of (entry k v es) = value v (values_of es)

  abbrev pub DistinctKeys : Entries t → Type 0
  DistinctKeys no_entries = Unit
  DistinctKeys (entry k v es) = (has_key k es ≡ false) × DistinctKeys es

  -- Each block has one label, which is this.
  abbrev pub Labelled : List (Block t) → List Bytes → Type 0
  Labelled [] [] = Unit
  Labelled (b ∷ bs) (k ∷ ks) = (b.labels ≡ k ∷ []) × Labelled bs ks
  Labelled bs ks = ⊥

  keys-add_entry :
      (es : Entries t) (k : Bytes) (w : Value t) → keys (add_entry es k w) ≡ keys es ++ k ∷ []
  unfolding add_entry
  keys-add_entry no_entries k w = refl
  keys-add_entry (entry j v es) k w = ap (λ s. j ∷ s) (keys-add_entry es k w)

  values_of-add_entry :
      (es : Entries t) (k : Bytes) (w : Value t)
      → values_of (add_entry es k w) ≡ append_values (values_of es) (value w no_values)
  unfolding add_entry
  values_of-add_entry no_entries k w = refl
  values_of-add_entry (entry j v es) k w = ap (value v) (values_of-add_entry es k w)

  has_key-add_entry :
      (es : Entries t) (j k : Bytes) (w : Value t)
      → has_key j es ≡ false
      → bytes_eq k j ≡ false
      → has_key j (add_entry es k w) ≡ false
  unfolding has_key add_entry
  has_key-add_entry no_entries j k w h e = rw e refl
  has_key-add_entry (entry i v es) j k w h e = elim (Bool-cases (bytes_eq i j)) [
    | inl same ↦ absurd (cc (rw same at h))
    | inr other ↦ rw other (has_key-add_entry es j k w (rw other at h) e)
  ]

  DistinctKeys-add_entry :
      (es : Entries t) (k : Bytes) (w : Value t)
      → DistinctKeys es
      → has_key k es ≡ false
      → DistinctKeys (add_entry es k w)
  unfolding has_key add_entry
  DistinctKeys-add_entry no_entries k w d h = (refl, tt)
  DistinctKeys-add_entry (entry i v es) k w (n, d) h = elim (Bool-cases (bytes_eq i k)) [
    | inl same ↦ absurd (cc (rw same at h))
    | inr other ↦ (
      has_key-add_entry es i k w n (different_sym i k other),
      DistinctKeys-add_entry es k w d (rw other at h),
    )
  ]

  -- A key for a block is its only label, which the map does not have yet.
  key_of-shape :
      (type : Bytes) (labels : List Bytes) (es : Entries t) {k : Bytes}
      → key_of type labels es ≡ ok k
      → (labels ≡ k ∷ []) × (has_key k es ≡ false)
  unfolding key_of
  key_of-shape type [] es h = cc
  key_of-shape type (label ∷ []) es {k} h = elim (Bool-cases (has_key label es)) [
    | inl known ↦ absurd (cc (rw known at h))
    | inr new ↦
        let e : label ≡ k = ok_inj (rw new at h) in
        (ap (λ l. l ∷ []) e, ap (λ l. has_key l es) (sym e) ∙ new)
  ]
  key_of-shape type (label ∷ l ∷ ls) es h = cc

module _ {t : Types} (c : Calls t) (T : GoType) where
  -- The blocks, each decoded into a new value of the element type.
  abbrev pub decode_each : List (Block t) → Result (Values t)
  decode_each [] = ok no_values
  decode_each (b ∷ bs) =
      decode_single_block c T b (zero_value c T) >>= λ w. decode_each bs >>= λ ws. ok (value w ws)

  -- Blocks decoded into a slice stand behind its elements in their order, each as it is decoded by itself;
  -- the first one that cannot be decoded is the error of them all.
  pub run_blocks_slice :
      (bs : List (Block t)) (vs : Values t)
      → run_blocks (decode_multiple_blocks c (slice_type T)) bs (slice_value vs)
        ≡ (decode_each bs >>= λ ws. ok (slice_value (append_values vs ws)))
  unfolding decode_multiple_blocks
  run_blocks_slice [] vs = ap (λ (ws : Values t). ok (slice_value ws)) (sym (append_values-nil vs))
  run_blocks_slice (b ∷ bs) vs =
      let one = decode_single_block c T b (zero_value c T) in
      >>=-assoc one (λ w. ok (slice_value (append_value vs w))) _
      ∙ >>=-congr one _ _ (λ w.
        run_blocks_slice bs (append_value vs w)
        ∙ >>=-congr (decode_each bs) _ _
            (λ ws. ap (λ (us : Values t). ok (slice_value us)) (append_values-append_value vs w ws))
        ∙ sym (>>=-assoc (decode_each bs) (λ ws. ok (value w ws)) _))
      ∙ sym (>>=-assoc one (λ w. decode_each bs >>= λ ws. ok (value w ws)) _)

  decode_each-cons :
      (b : Block t) (bs : List (Block t)) (x : Value t) (ws : Values t)
      → decode_single_block c T b (zero_value c T) ≡ ok x
      → decode_each bs ≡ ok ws
      → decode_each (b ∷ bs) ≡ ok (value x ws)
  decode_each-cons b bs x ws one each = rw (one, each) refl

  -- What one block adds to a map.
  record Adds (b : Block t) (es : Entries t) (v : Value t) : Type 0 where
    key : Bytes
    decoded : Value t
    only : b.labels ≡ key ∷ []
    new : has_key key es ≡ false
    one : decode_single_block c T b (zero_value c T) ≡ ok decoded
    made : v ≡ map_value (add_entry es key decoded)

  decode_multiple_blocks-Adds :
      (b : Block t) (es : Entries t) (u v : Value t)
      → map_entries u ≡ some es
      → decode_multiple_blocks c (map_type T) b u ≡ ok v
      → Adds b es v
  unfolding decode_multiple_blocks
  decode_multiple_blocks-Adds b es u v m h =
      let (k, q, r) = ok_of_bind (key_of b.type b.labels es) _ (rw m at h) in
      let (x, one, made) = ok_of_bind (decode_single_block c T b (zero_value c T)) _ r in
      let (label, new) = key_of-shape b.type b.labels es q in
      record { key = k; decoded = x; only = label; new = new; one = one; made = sym (ok_inj made) }

  -- The entries are those of before and, behind them, one for each block, by its only label.
  abbrev pub Filled : List (Block t) → Entries t → Entries t → Type 0
  Filled bs es fs =
      (ws : Values t) × (ks : List Bytes) × (decode_each bs ≡ ok ws)
      × Labelled bs ks
      × (keys fs ≡ keys es ++ ks)
      × (values_of fs ≡ append_values (values_of es) ws)
      × DistinctKeys fs

  -- The value is as it was if there was no block, and else a map with the entries.
  abbrev pub Becomes : List (Block t) → Value t → Entries t → Value t → Type 0
  Becomes [] v fs w = w ≡ v
  Becomes (b ∷ bs) v fs w = w ≡ map_value fs

  Filled-cons :
      (b : Block t) (bs : List (Block t)) (es fs : Entries t) (v : Value t) (a : Adds b es v)
      → Filled bs (add_entry es a.key a.decoded) fs
      → Filled (b ∷ bs) es fs
  Filled-cons b bs es fs v a (ws, ls, each, labelled, ks, us, d) = (
    value a.decoded ws,
    a.key ∷ ls,
    decode_each-cons b bs a.decoded ws a.one each,
    (a.only, labelled),
    ks
        ∙ ap (λ s. s ++ ls) (keys-add_entry es a.key a.decoded)
        ∙ append_assoc (keys es) (a.key ∷ []) ls,
    us
        ∙ ap (λ s. append_values s ws) (values_of-add_entry es a.key a.decoded)
        ∙ append_values-cons (values_of es) a.decoded ws,
    d,
  )

  Filled-none : (es : Entries t) → DistinctKeys es → Filled [] es es
  Filled-none es d = (
    no_values,
    [],
    refl,
    tt,
    sym (append-nil (keys es)),
    sym (append_values-nil (values_of es)),
    d,
  )

  run_blocks-Filled :
      (bs : List (Block t)) (es : Entries t) (w : Value t)
      → DistinctKeys es
      → run_blocks (decode_multiple_blocks c (map_type T)) bs (map_value es) ≡ ok w
      → (fs : Entries t) × (w ≡ map_value fs) × Filled bs es fs
  run_blocks-Filled [] es w d h = (es, sym (ok_inj h), Filled-none es d)
  run_blocks-Filled (b ∷ bs) es w d h =
      let (v, g, g') = ok_of_bind (decode_multiple_blocks c (map_type T) b (map_value es)) _ h in
      let a = decode_multiple_blocks-Adds b es (map_value es) v refl g in
      let (fs, made, filled) =
        run_blocks-Filled bs (add_entry es a.key a.decoded) w
          (DistinctKeys-add_entry es a.key a.decoded d a.new)
          (subst (λ y. run_blocks (decode_multiple_blocks c (map_type T)) bs y ≡ ok w) a.made g') in
      (fs, made, Filled-cons b bs es fs v a filled)

  -- Blocks decoded into a map, which may be nil, have one label each, and no two of them one label, nor one
  -- that is a key already; the map has the labels as keys behind the old ones in that order, with the
  -- decoded blocks as values. Without blocks the value is left as it was.
  pub run_blocks_map :
      (bs : List (Block t)) (es : Entries t) (v w : Value t)
      → map_entries v ≡ some es
      → DistinctKeys es
      → run_blocks (decode_multiple_blocks c (map_type T)) bs v ≡ ok w
      → (fs : Entries t) × Becomes bs v fs w × Filled bs es fs
  run_blocks_map [] es v w m d h = (es, sym (ok_inj h), Filled-none es d)
  run_blocks_map (b ∷ bs) es v w m d h =
      let (x, g, g') = ok_of_bind (decode_multiple_blocks c (map_type T) b v) _ h in
      let a = decode_multiple_blocks-Adds b es v x m g in
      let (fs, made, filled) =
        run_blocks-Filled bs (add_entry es a.key a.decoded) w
          (DistinctKeys-add_entry es a.key a.decoded d a.new)
          (subst (λ y. run_blocks (decode_multiple_blocks c (map_type T)) bs y ≡ ok w) a.made g') in
      (fs, made, Filled-cons b bs es fs x a filled)
