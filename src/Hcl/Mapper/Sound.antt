-- ===== src/Hcl/Mapper/Sound.antt =====
-- What fromCtyMapper of hcl/mapper.go makes of a cty value, and of which cty values it makes anything.
use go_utils.Hcl.Mapper.{
  Number, whole, Kind, string_kind, number_kind, bool_kind, list_kind, set_kind, tuple_kind,
  map_kind, object_kind, Outcome, done, ◌>>=◌, GoType, string_type, bool_type, big_int_type,
  big_float_type, value_type, any_type, other_type, int_type, uint_type, float_type, named_type,
  slice_type, map_type, Go, string_go, bool_go, int_go, uint_go, float_go, big_int_go, big_float_go,
  value_go, slice_go, map_go, Gos, no_gos, cons_go, Entries, no_entries, entry, Cty, Mapper, int64,
  uint64, whole_number,
}
use go_utils.Hcl.Mapper.From.{
  of_kind, of_sequence, of_entries, from_elements, from_entries, from_slice, from_map, from_number,
  from_string, from_bool, from_float, from_cty,
}
use go_utils.Hcl.Mapper.Steps.{done_of_bind, done_inj}
use go_utils.Hcl.Mapper.Typed.{IsInt, IsUint}
use mathlib.Core.Path.{subst}
use go_utils.Prelude.Int.{ℤ, pos, negsuc}
use go_utils.Prelude.{ℕ, ◌≡◌, refl, ◌⊎◌, inl, inr, Bool, List, [], ◌∷◌, Bytes, arith}

of_kind-done :
    {A : Type 0} (wanted k : Kind) (go : Outcome A) {a : A}
    → of_kind wanted k go ≡ done a
    → (k ≡ wanted) × (go ≡ done a)
unfolding of_kind
of_kind-done wanted k go h = (ground arith, ground arith)

abbrev pub IsSequence : Kind → Type 0
IsSequence k = (k ≡ list_kind) ⊎ ((k ≡ set_kind) ⊎ (k ≡ tuple_kind))

abbrev pub IsMapping : Kind → Type 0
IsMapping k = (k ≡ map_kind) ⊎ (k ≡ object_kind)

of_sequence-done :
    {A : Type 0} (k : Kind) (go : Outcome A) {a : A}
    → of_sequence k go ≡ done a
    → IsSequence k × (go ≡ done a)
unfolding of_sequence
of_sequence-done list_kind go h = (inl refl, h)
of_sequence-done set_kind go h = (inr (inl refl), h)
of_sequence-done tuple_kind go h = (inr (inr refl), h)
of_sequence-done k go h = cc

of_entries-done :
    {A : Type 0} (k : Kind) (go : Outcome A) {a : A}
    → of_entries k go ≡ done a
    → IsMapping k × (go ≡ done a)
unfolding of_entries
of_entries-done map_kind go h = (inl refl, h)
of_entries-done object_kind go h = (inr refl, h)
of_entries-done k go h = cc

-- A whole number that an integer of 64 bits holds.
int64-done : (z i : ℤ) → int64 z ≡ done i → (i ≡ z) × IsInt 64 z
unfolding int64
int64-done (pos n) i h = (ground arith, (omega arith, ground arith))
int64-done (negsuc n) i h = (ground arith, (omega arith, ground arith))

uint64-done : (z : ℤ) (n : ℕ) → uint64 z ≡ done n → (z ≡ pos n) × IsUint 64 n
unfolding uint64
uint64-done (pos k) n h = (ground arith, (omega arith, ground arith))
uint64-done (negsuc k) n h = cc

whole_number-done : (n : Number) (z : ℤ) → whole_number n ≡ done z → n ≡ whole z
unfolding whole_number
whole_number-done (whole y) z h = cc
whole_number-done n z h = cc

-- The value that the last step makes.
made_of :
    {A B : Type 0} (P : B → Type 0) (m : Outcome A) (f : A → B) {b : B}
    → (m >>= λ a. done (f a)) ≡ done b
    → ((a : A) → m ≡ done a → P (f a))
    → P b
made_of P m f h p =
    let (a, q, r) = done_of_bind m (λ x. done (f x)) h in subst P (done_inj r) (p a q)

-- The Go value is what the type's mapping of the cty value is: the cty value is of the kind of the type and
-- has the value's content in it. An integer is a whole number of 64 bits that the mapper makes one of the
-- type's width; a list, set or tuple is a slice of its elements in their order, and a map or object has an
-- entry for each of its elements. What a value for an `any` is, and one of a type with methods, is open.
module _ {V : Type 0} (cty : Cty V) (m : Mapper V) where
  mutual
    pub data Fits : GoType → V → Go V → Type 0 where
      fits_string :
          {c : V} {s : Bytes}
          → cty.kind c ≡ string_kind
          → cty.as_string c ≡ done s
          → Fits string_type c (string_go s)
      fits_bool :
          {c : V} {b : Bool}
          → cty.kind c ≡ bool_kind
          → cty.is_true c ≡ done b
          → Fits bool_type c (bool_go b)
      fits_int :
          {c : V} {w : ℕ} {z j : ℤ}
          → cty.kind c ≡ number_kind
          → cty.as_big_float c ≡ done (whole z)
          → IsInt 64 z
          → m.map_int w z ≡ done j
          → Fits (int_type w) c (int_go j)
      fits_uint :
          {c : V} {w n j : ℕ}
          → cty.kind c ≡ number_kind
          → cty.as_big_float c ≡ done (whole (pos n))
          → IsUint 64 n
          → m.map_uint w n ≡ done j
          → Fits (uint_type w) c (uint_go j)
      fits_float :
          {c : V} {w x : ℕ} {n : Number}
          → cty.kind c ≡ number_kind
          → cty.as_big_float c ≡ done n
          → m.map_float w n ≡ done x
          → Fits (float_type w) c (float_go x)
      fits_big_int :
          {c : V} {z : ℤ}
          → cty.kind c ≡ number_kind
          → cty.as_big_float c ≡ done (whole z)
          → Fits big_int_type c (big_int_go z)
      fits_big_float :
          {c : V} {n : Number}
          → cty.kind c ≡ number_kind
          → cty.as_big_float c ≡ done n
          → Fits big_float_type c (big_float_go n)
      fits_value : {c : V} → Fits value_type c (value_go c)
      fits_any : {c : V} {g : Go V} → Fits any_type c g
      fits_named : {c : V} {n : ℕ} {g : Go V} → Fits (named_type n) c g
      fits_slice :
          {c : V} {T : GoType} {es : List (V × V)} {gs : Gos V}
          → IsSequence (cty.kind c)
          → cty.elements c ≡ done es
          → AllFit T es gs
          → Fits (slice_type T) c (slice_go gs)
      fits_map :
          {c : V} {K T : GoType} {es : List (V × V)} {gs : Entries V}
          → IsMapping (cty.kind c)
          → cty.elements c ≡ done es
          → EntriesFit K T es gs
          → Fits (map_type K T) c (map_go gs)

    pub data AllFit : GoType → List (V × V) → Gos V → Type 0 where
      fit_none : {T : GoType} → AllFit T [] no_gos
      fit_one :
          {T : GoType} {k v : V} {es : List (V × V)} {g : Go V} {gs : Gos V}
          → Fits T v g
          → AllFit T es gs
          → AllFit T ((k, v) ∷ es) (cons_go g gs)

    pub data EntriesFit : GoType → GoType → List (V × V) → Entries V → Type 0 where
      fit_no_entry : {K T : GoType} → EntriesFit K T [] no_entries
      fit_entry :
          {K T : GoType} {k v : V} {es : List (V × V)} {a g : Go V} {gs : Entries V}
          → Fits K k a
          → Fits T v g
          → EntriesFit K T es gs
          → EntriesFit K T ((k, v) ∷ es) (entry a g gs)

  elements_fit :
      (T : GoType) (es : List (V × V)) (gs : Gos V)
      → ((c : V) (g : Go V) → from_cty cty m T c ≡ done g → Fits T c g)
      → from_elements cty m (from_cty cty m T) es ≡ done gs
      → AllFit T es gs
  unfolding from_elements
  elements_fit T [] gs ih h = subst (AllFit T []) (done_inj h) fit_none
  elements_fit T ((k, v) ∷ es) gs ih h =
      let (g, q, r) = done_of_bind (from_cty cty m T v) _ h in
      made_of (AllFit T ((k, v) ∷ es)) (from_elements cty m (from_cty cty m T) es)
        (λ hs. cons_go g hs) r (λ hs s. fit_one (ih v g q) (elements_fit T es hs ih s))

  entries_fit :
      (K T : GoType) (es : List (V × V)) (gs : Entries V)
      → ((c : V) (g : Go V) → from_cty cty m K c ≡ done g → Fits K c g)
      → ((c : V) (g : Go V) → from_cty cty m T c ≡ done g → Fits T c g)
      → from_entries cty m (from_cty cty m K) (from_cty cty m T) es ≡ done gs
      → EntriesFit K T es gs
  unfolding from_entries
  entries_fit K T [] gs ik ih h = subst (EntriesFit K T []) (done_inj h) fit_no_entry
  entries_fit K T ((k, v) ∷ es) gs ik ih h =
      let (key, p, n) = done_of_bind (from_cty cty m K k) _ h in
      let (g, q, r) = done_of_bind (from_cty cty m T v) _ n in
      made_of (EntriesFit K T ((k, v) ∷ es))
        (from_entries cty m (from_cty cty m K) (from_cty cty m T) es) (λ hs. entry key g hs) r
        (λ hs s. fit_entry (ik k key p) (ih v g q) (entries_fit K T es hs ik ih s))

  number_of :
      (c : V) (go : Number → Outcome (Go V)) {g : Go V}
      → from_number cty m c go ≡ done g
      → (n : Number) × (cty.kind c ≡ number_kind) × (cty.as_big_float c ≡ done n) × (go n ≡ done g)
  unfolding from_number
  number_of c go h =
      let (k, l) = of_kind-done number_kind (cty.kind c) _ h in
      let (n, q, r) = done_of_bind (cty.as_big_float c) go l in (n, k, q, r)

  whole_of :
      (c : V) (go : ℤ → Outcome (Go V)) {g : Go V}
      → from_number cty m c (λ n. whole_number n >>= go) ≡ done g
      → (z : ℤ) × (cty.kind c ≡ number_kind)
        × (cty.as_big_float c ≡ done (whole z))
        × (go z ≡ done g)
  whole_of c go h =
      let (n, k, q, r) = number_of c _ h in
      let (z, s, t) = done_of_bind (whole_number n) go r in
      (z, k, subst (λ (x : Number). cty.as_big_float c ≡ done x) (whole_number-done n z s) q, t)

  -- What a cty value is mapped into a type, for every type but `any` and those with methods, tells what the
  -- value was: of the type's kind, with that content, a whole number of 64 bits for an integer, and with
  -- elements that were mapped one by one, in their order. Any other value is an error or a panic.
  pub from_cty-Fits : (T : GoType) (c : V) (g : Go V) → from_cty cty m T c ≡ done g → Fits T c g
  unfolding from_cty from_string from_bool from_float from_slice from_map
  from_cty-Fits string_type c g h =
      let (k, l) = of_kind-done string_kind (cty.kind c) _ h in
      made_of (Fits string_type c) (cty.as_string c) _ l (λ s q. fits_string k q)
  from_cty-Fits bool_type c g h =
      let (k, l) = of_kind-done bool_kind (cty.kind c) _ h in
      made_of (Fits bool_type c) (cty.is_true c) _ l (λ b q. fits_bool k q)
  from_cty-Fits any_type c g h = fits_any
  from_cty-Fits (named_type n) c g h = fits_named
  from_cty-Fits value_type c g h = subst (Fits value_type c) (done_inj h) fits_value
  from_cty-Fits other_type c g h = cc
  from_cty-Fits big_int_type c g h =
      let (z, k, q, r) = whole_of c _ h in
      subst (Fits big_int_type c) (done_inj r) (fits_big_int k q)
  from_cty-Fits big_float_type c g h =
      let (n, k, q, r) = number_of c _ h in
      subst (Fits big_float_type c) (done_inj r) (fits_big_float k q)
  from_cty-Fits (int_type w) c g h =
      let (z, k, q, r) = whole_of c _ h in
      let (i, t, u) = done_of_bind (int64 z) _ r in
      let (same, fits) = int64-done z i t in
      made_of (Fits (int_type w) c) (m.map_int w i) (λ j. int_go j) u
        (λ j v. fits_int k q fits (subst (λ (x : ℤ). m.map_int w x ≡ done j) same v))
  from_cty-Fits (uint_type w) c g h =
      let (z, k, q, r) = whole_of c _ h in
      let (i, t, u) = done_of_bind (uint64 z) _ r in
      let (same, fits) = uint64-done z i t in
      made_of (Fits (uint_type w) c) (m.map_uint w i) (λ j. uint_go j) u
        (λ j v. fits_uint k (subst (λ (x : ℤ). cty.as_big_float c ≡ done (whole x)) same q) fits v)
  from_cty-Fits (float_type w) c g h =
      let (n, k, q, r) = number_of c _ h in
      made_of (Fits (float_type w) c) (m.map_float w n) (λ x. float_go x) r
        (λ x s. fits_float k q s)
  from_cty-Fits (slice_type T) c g h =
      let (k, l) = of_sequence-done (cty.kind c) _ h in
      let (es, q, r) = done_of_bind (cty.elements c) _ l in
      made_of (Fits (slice_type T) c) (from_elements cty m (from_cty cty m T) es)
        (λ gs. slice_go gs) r (λ gs s. fits_slice k q (elements_fit T es gs (from_cty-Fits T) s))
  from_cty-Fits (map_type K T) c g h =
      let (k, l) = of_entries-done (cty.kind c) _ h in
      let (es, q, r) = done_of_bind (cty.elements c) _ l in
      made_of (Fits (map_type K T) c) (from_entries cty m (from_cty cty m K) (from_cty cty m T) es)
        (λ gs. map_go gs) r
        (λ gs s. fits_map k q (entries_fit K T es gs (from_cty-Fits K) (from_cty-Fits T) s))
