-- ===== src/Hcl/Encode/Grown.antt =====
-- What a block has more after steps of encodeSingleBlock and encodeMultipleBlocks of hcl/encode.go.
use mathlib.Core.Path.{subst}
use go_utils.Hcl.Encode.{
  OutBlock, OutBlocks, out_block, no_blocks, blocks_and, Encoder, add_out, append_block,
  append_attribute, encoder_at, encode_items, encode_keys,
}
use go_utils.Hcl.Result.{Result, ok, ok_of_bind, ok_inj}
use go_utils.Hcl.Value.{
  Types, Value, Values, Entries, pointer_to, slice_value, map_value, no_values, value, no_entries,
  entry,
}
use go_utils.Prelude.{
  ℕ, zero, suc, ◌≡◌, ◌≢◌, refl, sym, ap, ◌∙◌, Option, List, [], ◌∷◌, ◌++◌, append-nil, append_assoc,
  Bytes, All, replicate,
}

abbrev count_values : {t : Types} → Values t → ℕ
count_values no_values = 0
count_values (value v vs) = suc (count_values vs)

abbrev count_entries : {t : Types} → Entries t → ℕ
count_entries no_entries = 0
count_entries (entry key v es) = suc (count_entries es)

-- How many items the slice or map has that a value is or points to.
abbrev pub item_count : {t : Types} → Value t → ℕ
item_count (pointer_to v) = item_count v
item_count (slice_value vs) = count_values vs
item_count (map_value es) = count_entries es
item_count v = 0

module _ {t : Types} where
  abbrev pub type_of : OutBlock t → Bytes
  type_of (out_block type labels attrs bs) = type

  abbrev pub types_of : OutBlocks t → List Bytes
  types_of no_blocks = []
  types_of (blocks_and b bs) = type_of b ∷ types_of bs

  -- The types of the blocks in a block.
  abbrev pub inner_types : OutBlock t → List Bytes
  inner_types (out_block type labels attrs bs) = types_of bs

  -- The block has these blocks more, behind those it had, and the type that it had.
  abbrev pub Grows : OutBlock t → OutBlock t → List Bytes → Type 0
  Grows b d ns = (type_of d ≡ type_of b) × (inner_types d ≡ inner_types b ++ ns)

  pub Grows-trans :
      (b d e : OutBlock t) (ns ms : List Bytes) → Grows b d ns → Grows d e ms → Grows b e (ns ++ ms)
  Grows-trans b d e ns ms (p, q) (r, s) =
      (r ∙ p, s ∙ ap (λ l. l ++ ms) q ∙ append_assoc (inner_types b) ns ms)

  pub Grows-same : (b d : OutBlock t) → ok b ≡ ok d → Grows b d []
  Grows-same b d h =
      subst (λ (x : OutBlock t). Grows b x []) (ok_inj h) (refl, sym (append-nil (inner_types b)))

  add_out-types :
      (bs : OutBlocks t) (b : OutBlock t)
      → types_of (add_out bs b) ≡ types_of bs ++ (type_of b ∷ [])
  unfolding add_out
  add_out-types no_blocks b = refl
  add_out-types (blocks_and c cs) b = ap (λ l. type_of c ∷ l) (add_out-types cs b)

  pub append_block-Grows : (b d : OutBlock t) → Grows b (append_block b d) (type_of d ∷ [])
  unfolding append_block
  append_block-Grows (out_block type labels attrs bs) d = (refl, add_out-types bs d)

  pub append_attribute-Grows :
      (b : OutBlock t) (name : Bytes) (v : Value t) → Grows b (append_attribute b name v) []
  unfolding append_attribute
  append_attribute-Grows (out_block type labels attrs bs) name v =
      (refl, sym (append-nil (types_of bs)))

  -- One block of the name is appended, or, for an empty name, any.
  abbrev pub One : Bytes → OutBlock t → OutBlock t → Type 0
  One name b d = (ns : List Bytes) × Grows b d ns × (name ≢ [] → ns ≡ name ∷ [])

  -- So many blocks of the name.
  abbrev pub Several : Bytes → ℕ → OutBlock t → OutBlock t → Type 0
  Several name k b d = (ns : List Bytes) × Grows b d ns × (name ≢ [] → ns ≡ replicate k name)

  pub Several-none : (name : Bytes) (b d : OutBlock t) → ok b ≡ ok d → Several name 0 b d
  Several-none name b d q = ([], Grows-same b d q, λ w. refl)

  Several-more :
      (name : Bytes) (k : ℕ) (b d e : OutBlock t)
      → One name b d
      → Several name k d e
      → Several name (suc k) b e
  Several-more name k b d e (ns, g, p) (ms, h, q) = (
    ns ++ ms,
    Grows-trans b d e ns ms g h,
    λ w. ap (λ l. l ++ ms) (p w) ∙ ap (λ l. name ∷ l) (q w),
  )

  -- The loops over the items append one block for each.
  pub encode_items-Several :
      (name : Bytes) (single : Value t → OutBlock t → Result (OutBlock t)) (vs : Values t)
      (b d : OutBlock t)
      → ((v : Value t) (x y : OutBlock t) → single v x ≡ ok y → One name x y)
      → encode_items single vs b ≡ ok d
      → Several name (item_count (slice_value vs)) b d
  unfolding encode_items
  encode_items-Several name single no_values b d h q = Several-none name b d q
  encode_items-Several name single (value v vs) b d h q =
      let (e, r, s) = ok_of_bind (single v b) _ q in
      Several-more name (count_values vs) b e d (h v b e r)
        (encode_items-Several name single vs e d h s)

  pub encode_keys-Several :
      (name : Bytes) (single : Bytes → Value t → OutBlock t → Result (OutBlock t)) (es : Entries t)
      (b d : OutBlock t)
      → ((key : Bytes) (v : Value t) (x y : OutBlock t) → single key v x ≡ ok y → One name x y)
      → encode_keys single es b ≡ ok d
      → Several name (item_count (map_value es)) b d
  unfolding encode_keys
  encode_keys-Several name single no_entries b d h q = Several-none name b d q
  encode_keys-Several name single (entry key v es) b d h q =
      let (e, r, s) = ok_of_bind (single key v b) _ q in
      Several-more name (count_entries es) b e d (h key v b e r)
        (encode_keys-Several name single es e d h s)

  -- The encoder of a field appends a block of its name, or as many as it has items.
  abbrev pub Appends : Encoder t → Type 0
  Appends e =
      ((name : Bytes) (ls : Option (List Bytes)) (v : Value t) (b d : OutBlock t)
        → e.single name ls v b ≡ ok d
        → One name b d)
      × ((name : Bytes) (v : Value t) (b d : OutBlock t)
          → e.multiple name v b ≡ ok d
          → Several name (item_count v) b d)

  pub encoder_at-Appends :
      (es : List (Encoder t)) (i : ℕ) {e : Encoder t}
      → All Appends es
      → encoder_at es i ≡ ok e
      → Appends e
  unfolding encoder_at
  encoder_at-Appends [] i h q = cc
  encoder_at-Appends (e ∷ es) zero (h, hs) q = subst Appends (ok_inj q) h
  encoder_at-Appends (e ∷ es) (suc i) (h, hs) q = encoder_at-Appends es i hs q
