-- ===== src/Hcl/Mapper/Steps.antt =====
-- The single steps of a round trip through toCtyMapper and fromCtyMapper of hcl/mapper.go.
use go_utils.Hcl.Mapper.{
  Number, whole, string_kind, number_kind, bool_kind, list_kind, map_kind, dynamic_kind, Outcome,
  panics, fails, done, ◌>>=◌, GoType, string_type, int_type, uint_type, slice_type, Go, too_large,
  string_go, bool_go, int_go, uint_go, slice_go, map_go, Gos, no_gos, cons_go, Entries, entry, Cty,
  Mapper, int64, uint64, whole_number,
}
use go_utils.Hcl.Mapper.From.{
  of_kind, of_sequence, of_entries, from_elements, from_entries, from_slice, from_map, from_number,
  from_string, from_bool, from_cty,
}
use go_utils.Hcl.Mapper.To.{add_key, slice_val, to_cty, to_ctys, to_cty_entries}
use go_utils.Hcl.Mapper.Typed.{
  IsInt, IsUint, values_of, keys_of, as_elements, Laws, texts_of, HasType, has_string, has_bool,
  has_int, has_uint, has_big_int, has_big_float, has_slice, has_map, HaveType, have_none, have_one,
  EntriesHave, have_no_entry, have_entry,
}
use mathlib.Core.Path.{subst}
use go_utils.Prelude.Int.{ℤ, pos, negsuc}
use go_utils.Prelude.Powers.{pow_mono}
use go_utils.Prelude.{
  ℕ, ◌-◌, ◌^◌, ◌<◌, ◌≤◌, ◌≡◌, ◌≢◌, refl, sym, ap, ◌∙◌, Bool, List, ◌∷◌, if◌then◌else◌, Bytes, All,
  arith, lt→ltb,
}

pub done_of_bind :
    {A B : Type 0} (m : Outcome A) (next : A → Outcome B) {b : B}
    → (m >>= next) ≡ done b
    → (a : A) × (m ≡ done a) × (next a ≡ done b)
done_of_bind panics next h = cc
done_of_bind (fails e) next h = cc
done_of_bind (done a) next h = (a, refl, h)

pub bind-done :
    {A B : Type 0} {m : Outcome A} {a : A} (next : A → Outcome B)
    → m ≡ done a
    → (m >>= next) ≡ next a
bind-done next h = ap (λ o. o >>= next) h

pub done_inj : {A : Type 0} {a b : A} → done a ≡ done b → a ≡ b
done_inj h = cc

below_64 : (w n : ℕ) → w ≤ 64 → n < 2 ^ (w - 1) → n < 2 ^ 63
below_64 w n l h = omega (arith, pow_mono 2 (w - 1) 63 (omega arith) (omega arith))

int64-IsInt : (w : ℕ) (z : ℤ) → IsInt w z → int64 z ≡ done z
unfolding int64
int64-IsInt w (pos n) (l, h) =
    ap (λ (t : Bool). if t then done (pos n) else fails too_large)
      (lt→ltb n (2 ^ 63) (below_64 w n l h))
int64-IsInt w (negsuc n) (l, h) =
    ap (λ (t : Bool). if t then done (negsuc n) else fails too_large)
      (lt→ltb n (2 ^ 63) (below_64 w n l h))

uint64-IsUint : (w n : ℕ) → IsUint w n → uint64 (pos n) ≡ done n
unfolding uint64
uint64-IsUint w n (l, h) =
    ap (λ (t : Bool). if t then done n else fails too_large)
      (lt→ltb n (2 ^ 64) (omega (arith, pow_mono 2 w 64 (omega arith) l)))

-- An entry whose key is not empty is kept.
module _ (IsNormal : Bytes → Type 0) (InOrder : List Bytes → Type 0) {V : Type 0} (cty : Cty V)
    (m : Mapper V) (laws : Laws IsNormal InOrder cty m) where
  pub number-back :
      (n : Number) (go : Number → Outcome (Go V)) → from_number cty m (cty.number_val n) go ≡ go n
  unfolding from_number of_kind
  number-back n go =
      ap (λ k. of_kind number_kind k (cty.as_big_float (cty.number_val n) >>= go))
        (laws.number_is n)
      ∙ bind-done go (laws.number_has n)

  pub string-back :
      (s : Bytes) → IsNormal s → from_string cty m (cty.string_val s) ≡ done (string_go s)
  unfolding from_string of_kind
  string-back s n =
      ap (λ k. of_kind string_kind k (cty.as_string (cty.string_val s) >>= λ t. done (string_go t)))
        (laws.string_is s)
      ∙ bind-done (λ t. done (string_go t)) (laws.string_has s n)

  pub bool-back : (b : Bool) → from_bool cty m (cty.bool_val b) ≡ done (bool_go b)
  unfolding from_bool of_kind
  bool-back b =
      ap (λ k. of_kind bool_kind k (cty.is_true (cty.bool_val b) >>= λ t. done (bool_go t)))
        (laws.bool_is b)
      ∙ bind-done (λ t. done (bool_go t)) (laws.bool_has b)

  pub int-back :
      (w : ℕ) (z : ℤ)
      → IsInt w z
      → from_cty cty m (int_type w) (cty.number_val (whole z)) ≡ done (int_go z)
  unfolding from_cty whole_number
  int-back w z i =
      number-back (whole z) _
      ∙ bind-done (λ k. m.map_int w k >>= λ j. done (int_go j)) (int64-IsInt w z i)
      ∙ bind-done (λ j. done (int_go j)) (laws.int_fits w z i)

  pub uint-back :
      (w n : ℕ)
      → IsUint w n
      → from_cty cty m (uint_type w) (cty.number_val (whole (pos n))) ≡ done (uint_go n)
  unfolding from_cty whole_number
  uint-back w n i =
      number-back (whole (pos n)) _
      ∙ bind-done (λ k. m.map_uint w k >>= λ j. done (uint_go j)) (uint64-IsUint w n i)
      ∙ bind-done (λ j. done (uint_go j)) (laws.uint_fits w n i)

  pub slice-back :
      (from : V → Outcome (Go V)) (c : V) {es : List (V × V)} {gs : Gos V}
      → cty.kind c ≡ list_kind
      → cty.elements c ≡ done es
      → from_elements cty m from es ≡ done gs
      → from_slice cty m from c ≡ done (slice_go gs)
  unfolding from_slice of_sequence
  slice-back from c k e f =
      ap
        (λ o.
          of_sequence o
            (cty.elements c >>= λ es. from_elements cty m from es >>= λ gs. done (slice_go gs)))
        k
      ∙ bind-done (λ es. from_elements cty m from es >>= λ gs. done (slice_go gs)) e
      ∙ bind-done (λ gs. done (slice_go gs)) f

  pub map-back :
      (from_key from : V → Outcome (Go V)) (c : V) {es : List (V × V)} {gs : Entries V}
      → cty.kind c ≡ map_kind
      → cty.elements c ≡ done es
      → from_entries cty m from_key from es ≡ done gs
      → from_map cty m from_key from c ≡ done (map_go gs)
  unfolding from_map of_entries
  map-back from_key from c k e f =
      ap
        (λ o.
          of_entries o (
            cty.elements c >>= λ es.
            from_entries cty m from_key from es >>= λ gs. done (map_go gs)))
        k
      ∙ bind-done (λ es. from_entries cty m from_key from es >>= λ gs. done (map_go gs)) e
      ∙ bind-done (λ gs. done (map_go gs)) f

  -- The value that a value is mapped to is the one that is mapped back.
  pub at :
      (T : GoType) (g : Go V) (c : V) {d : V}
      → done d ≡ done c
      → from_cty cty m T d ≡ done g
      → from_cty cty m T c ≡ done g
  at T g c h q = subst (λ x. from_cty cty m T x ≡ done g) (done_inj h) q

  pub at_entries :
      (T : GoType) (es : Entries V) (us vs : List (Bytes × V))
      → us ≡ vs
      → (keys_of us ≡ texts_of IsNormal InOrder es)
        × (from_entries cty m
              (from_cty cty m string_type)
              (from_cty cty m T)
              (as_elements cty.string_val us)
            ≡ done es)
      → (keys_of vs ≡ texts_of IsNormal InOrder es)
        × (from_entries cty m
              (from_cty cty m string_type)
              (from_cty cty m T)
              (as_elements cty.string_val vs)
            ≡ done es)
  at_entries T es us vs q w =
      subst
        (λ (l : List (Bytes × V)).
          (keys_of l ≡ texts_of IsNormal InOrder es)
          × (from_entries cty m (from_cty cty m string_type) (from_cty cty m T)
                (as_elements cty.string_val l)
              ≡ done es))
        q w

  -- What a value of a type is mapped to is of a known type.
  pub static :
      (T : GoType) (g : Go V) (c : V)
      → HasType IsNormal InOrder T g
      → to_cty cty m g ≡ done c
      → cty.kind c ≢ dynamic_kind
  unfolding to_cty to_ctys slice_val
  static T g c (has_string {s = s} n) h = let k = laws.string_is s in let e = done_inj h in λ q. cc
  static T g c (has_bool {b = b}) h = let k = laws.bool_is b in let e = done_inj h in λ q. cc
  static T g c (has_int {z = z} i) h =
      let k = laws.number_is (whole z) in let e = done_inj h in λ q. cc
  static T g c (has_uint {n = n} i) h =
      let k = laws.number_is (whole (pos n)) in let e = done_inj h in λ q. cc
  static T g c (has_big_int {z = z}) h =
      let k = laws.number_is (whole z) in let e = done_inj h in λ q. cc
  static T g c (has_big_float {n = n}) h = let k = laws.number_is n in let e = done_inj h in λ q. cc
  static T g c (has_slice {gs = no_gos} w) h =
      let k = laws.empty_is in let e = done_inj h in λ q. cc
  static T g c (has_slice {gs = cons_go x xs} w) h =
      let (cs, q, r) = done_of_bind (to_ctys cty m (cons_go x xs)) (λ ds. cty.list_val ds) h in
      let k = laws.list_is cs c r in λ s. cc
  static T g c (has_map {es = es} w o) h =
      let (vs, q, r) = done_of_bind (to_cty_entries cty m es) (λ ws. cty.map_val ws) h in
      let k = laws.map_is vs c r in λ s. cc

  pub all_static :
      (T : GoType) (gs : Gos V) (cs : List V)
      → HaveType IsNormal InOrder T gs
      → to_ctys cty m gs ≡ done cs
      → All (λ (d : V). cty.kind d ≢ dynamic_kind) cs
  unfolding to_ctys
  all_static T gs cs have_none h =
      subst (All (λ (d : V). cty.kind d ≢ dynamic_kind)) (done_inj h) tt
  all_static T gs cs (have_one {g = g} {gs = hs} t ts) h =
      let (d, r, n) = done_of_bind (to_cty cty m g) _ h in
      let (ds, u, l) = done_of_bind (to_ctys cty m hs) (λ xs. done (d ∷ xs)) n in
      subst (All (λ (x : V). cty.kind x ≢ dynamic_kind)) (done_inj l)
        (static T g d t r, all_static T hs ds ts u)

  -- An entry that is kept is of what its key and its value are mapped to.
  pub kept_entry :
      (k : ℕ) (ks : Bytes) (g : Go V) (es : Entries V) (vs : List (Bytes × V))
      → to_cty_entries cty m (entry (string_go (k ∷ ks)) g es) ≡ done vs
      → (v : V) × (ws : List (Bytes × V)) × (to_cty cty m g ≡ done v)
        × (to_cty_entries cty m es ≡ done ws)
        × ((k ∷ ks, v) ∷ ws ≡ vs)
  unfolding to_cty_entries add_key
  kept_entry k ks g es vs h =
      let kept =
        sym (
          bind-done (λ key. add_key key (to_cty cty m g) (to_cty_entries cty m es))
            (laws.key_is (k ∷ ks)))
        ∙ h in
      let (v, q, r) = done_of_bind (to_cty cty m g) _ kept in
      let (ws, u, l) = done_of_bind (to_cty_entries cty m es) (λ xs. done ((k ∷ ks, v) ∷ xs)) r in
      (v, ws, q, u, done_inj l)

  pub entries_static :
      (T : GoType) (es : Entries V) (vs : List (Bytes × V))
      → EntriesHave IsNormal InOrder T es
      → to_cty_entries cty m es ≡ done vs
      → All (λ (e : Bytes × V). IsNormal (e.0) × (cty.kind (e.1) ≢ dynamic_kind)) vs
  unfolding to_cty_entries
  entries_static T es vs have_no_entry h =
      subst (All (λ (e : Bytes × V). IsNormal (e.0) × (cty.kind (e.1) ≢ dynamic_kind))) (done_inj h)
        tt
  entries_static T es vs (have_entry {c = c} {cs = cs} {g = g} {es = fs} n t ts) h =
      let (v, ws, q, u, same) = kept_entry c cs g fs vs h in
      subst (All (λ (e : Bytes × V). IsNormal (e.0) × (cty.kind (e.1) ≢ dynamic_kind))) same
        ((n, static T g v t q), entries_static T fs ws ts u)

  pub back_slice :
      (T : GoType) (gs : Gos V) (c : V)
      → HaveType IsNormal InOrder T gs
      → to_cty cty m (slice_go gs) ≡ done c
      → ((cs : List V) (es : List (V × V))
          → to_ctys cty m gs ≡ done cs
          → values_of es ≡ cs
          → from_elements cty m (from_cty cty m T) es ≡ done gs)
      → from_cty cty m (slice_type T) c ≡ done (slice_go gs)
  unfolding to_cty to_ctys slice_val from_cty from_elements
  back_slice T no_gos c w h ih =
      at (slice_type T) (slice_go no_gos) c h
        (slice-back (from_cty cty m T) cty.list_val_empty laws.empty_is laws.empty_has refl)
  back_slice T (cons_go g hs) c w h ih =
      let (cs, q, r) = done_of_bind (to_ctys cty m (cons_go g hs)) (λ ds. cty.list_val ds) h in
      let (es, e, vs) = laws.list_has cs c (all_static T (cons_go g hs) cs w q) r in
      slice-back (from_cty cty m T) c (laws.list_is cs c r) e (ih cs es q vs)
