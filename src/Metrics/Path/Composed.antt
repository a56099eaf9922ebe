-- ===== src/Metrics/Path/Composed.antt =====
-- Paths of byPath in log/metrics/log.go, element by element.
use go_utils.Prelude.Int.{ℤ, pos, negsuc}
use go_utils.Timeutil.Spec.Values.{atoi}
use go_utils.Metrics.Path.{
  Value, Values, Fields, plain, slice, map, other_map, struct, pointer, nil_pointer, no_values,
  more_values, no_fields, more_fields, Found, found, invalid, panicked, Split, split_path, at_index,
  by_path, nth_by_path, field_by_path,
}
use go_utils.Prelude.{
  ℕ, zero, suc, ◌≡◌, refl, sym, ap, ◌∙◌, ◌≢◌, inl, inr, Option, none, some, [], ◌∷◌, ◌++◌, arith,
  Bool-cases, All, Bytes, bytes_eq,
}

-- A path on what another path has found.
unfoldable pub then_by_path : Found → Bytes → Found
then_by_path (found v) path = by_path v path
then_by_path invalid path = invalid
then_by_path panicked path = panicked

abbrev pub HasNoDot : Bytes → Type 0
HasNoDot name = All (λ c. c ≢ b'.') name

split_path-append :
    (name path : Bytes)
    → HasNoDot name
    → split_path (name ++ b'.' ∷ path) ≡ record { first = name; rest = path }
unfolding split_path
split_path-append [] path h = ground arith
split_path-append (c ∷ name) path (n, h) = rw (split_path-append name path h) (ground arith)

split_path_last :
    (name : Bytes) → HasNoDot name → split_path name ≡ record { first = name; rest = [] }
unfolding split_path
split_path_last [] h = refl
split_path_last (c ∷ name) (n, h) = rw (split_path_last name h) (ground arith)

-- The empty path only follows pointers.
then_by_path_empty : (v : Value) (path : Bytes) → then_by_path (by_path v []) path ≡ by_path v path
unfolding then_by_path by_path
then_by_path_empty (plain v) path = refl
then_by_path_empty (slice vs) path = refl
then_by_path_empty (map fs) path = refl
then_by_path_empty other_map path = refl
then_by_path_empty (struct fs) path = refl
then_by_path_empty (pointer v) path = then_by_path_empty v path
then_by_path_empty nil_pointer path = refl

nth_by_path_empty :
    (vs : Values) (i : ℕ) (path : Bytes)
    → then_by_path (nth_by_path vs i []) path ≡ nth_by_path vs i path
unfolding then_by_path by_path nth_by_path
nth_by_path_empty no_values i path = refl
nth_by_path_empty (more_values v vs) zero path = then_by_path_empty v path
nth_by_path_empty (more_values v vs) (suc i) path = nth_by_path_empty vs i path

field_by_path_empty :
    (fs : Fields) (name path : Bytes)
    → then_by_path (field_by_path fs name []) path ≡ field_by_path fs name path
unfolding then_by_path by_path field_by_path
field_by_path_empty no_fields name path = refl
field_by_path_empty (more_fields f v fs) name path = elim (Bool-cases (bytes_eq f name)) [
  | inl c ↦ rw c (then_by_path_empty v path)
  | inr c ↦ rw c (field_by_path_empty fs name path)
]

at_index_empty :
    (o : Option ℤ) (vs : Values) (path : Bytes)
    → at_index o (λ i. nth_by_path vs i path)
      ≡ then_by_path (at_index o (λ i. nth_by_path vs i [])) path
unfolding at_index then_by_path
at_index_empty none vs path = refl
at_index_empty (some (negsuc i)) vs path = refl
at_index_empty (some (pos i)) vs path = sym (nth_by_path_empty vs i path)

abbrev field_at : Fields → Split → Found
field_at fs s = field_by_path fs s.first s.rest

fields_append :
    (fs : Fields) (name path : Bytes)
    → HasNoDot name
    → field_at fs (split_path (name ++ b'.' ∷ path))
      ≡ then_by_path (field_at fs (split_path name)) path
fields_append fs name path h =
    ap (field_at fs) (split_path-append name path h)
    ∙ sym (field_by_path_empty fs name path)
    ∙ ap (λ s. then_by_path (field_at fs s) path) (sym (split_path_last name h))

-- The path of an element and of what follows it is the path of what follows, on what the element's path
-- finds: for an element that is not empty and has no dot, whatever follows.
pub by_path-append :
    (v : Value) (name path : Bytes)
    → name ≢ []
    → HasNoDot name
    → by_path v (name ++ b'.' ∷ path) ≡ then_by_path (by_path v name) path
unfolding then_by_path by_path
by_path-append v [] path n h = absurd (n refl)
by_path-append (plain v) (c ∷ name) path n h = refl
by_path-append (slice vs) (c ∷ name) path n h =
    ap (λ s. at_index (atoi s.first) (λ i. nth_by_path vs i s.rest))
      (split_path-append (c ∷ name) path h)
    ∙ at_index_empty (atoi (c ∷ name)) vs path
    ∙ ap (λ s. then_by_path (at_index (atoi s.first) (λ i. nth_by_path vs i s.rest)) path)
        (sym (split_path_last (c ∷ name) h))
by_path-append (map fs) (c ∷ name) path n h = fields_append fs (c ∷ name) path h
by_path-append other_map (c ∷ name) path n h = refl
by_path-append (struct fs) (c ∷ name) path n h = fields_append fs (c ∷ name) path h
by_path-append (pointer v) (c ∷ name) path n h = by_path-append v (c ∷ name) path n h
by_path-append nil_pointer (c ∷ name) path n h = refl
