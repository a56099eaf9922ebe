-- ===== src/Scoring/Scores.antt =====
-- The score of a value after each operation of scoring/scoring.go.
use go_utils.Prelude.{
  ◌≡◌, refl, sym, inl, inr, Bool, true, false, Option, none, some, List, [], ◌∷◌, arith,
  if◌then◌else◌, Option-cases, Comparable, ◌==◌,
}
use go_utils.Maputil.{Entry, lookup}
use go_utils.Maputil.Lookup.{or_else, or_else-none, lookup-put}
use go_utils.Scoring.{delete, add_one, add_scores, remove_scores, get_score, change_score, decay}
use go_utils.Sliceutil.{contains}

abbrev pub applied {ℓ} : {F : Type ℓ} → (F → F) → Option F → Option F
applied f none = none
applied f (some v) = some (f v)

module _ {ℓ} {T F : Type ℓ} ⦃c : Comparable T⦄ where
  get-delete :
      (items : List (Entry T F)) (k x : T)
      → lookup (delete items k) x ≡ (if k == x then none else lookup items x)
  unfolding lookup delete
  get-delete [] k x = ground arith
  get-delete (e ∷ items) k x =
      ground (arith, get-delete items k x, c.decides e.key k, c.decides e.key x, c.decides k x)

  get-remove_scores :
      (values : List T) (items : List (Entry T F)) (x : T)
      → lookup (remove_scores values items) x ≡ (if contains values x then none else lookup items x)
  unfolding remove_scores contains
  get-remove_scores [] items x = refl
  get-remove_scores (v ∷ values) items x =
      ground (arith, get-remove_scores values (delete items v) x, get-delete items v x)

  get-add_one :
      (score : F) (v : T) (items : List (Entry T F)) (x : T)
      → lookup (add_one score v items) x
        ≡ or_else (lookup items x) (if v == x then some score else none)
  unfolding add_one
  get-add_one score v items x = elim (Option-cases (lookup items v)) [
    | inl missing ↦
        rw (missing, add_one)
          (ground (
            arith,
            lookup-put items v score x,
            c.decides v x,
            missing,
            or_else-none (lookup items x),
          ))
    | inr (old, known) ↦
        rw (known, add_one) (ground (arith, c.decides v x, known, or_else-none (lookup items x)))
  ]

  get-add_scores :
      (score : F) (values : List T) (items : List (Entry T F)) (x : T)
      → lookup (add_scores score values items) x
        ≡ or_else (lookup items x) (if contains values x then some score else none)
  unfolding add_scores contains
  get-add_scores score [] items x = sym (or_else-none (lookup items x))
  get-add_scores score (v ∷ values) items x =
      rw (get-add_scores score values (add_one score v items) x, get-add_one score v items x)
        (either (lookup items x) (v == x) (contains values x))
    where
      either :
          (o : Option F) (a b : Bool)
          → or_else (or_else o (if a then some score else none)) (if b then some score else none)
            ≡ or_else o (if (if a then true else b) then some score else none)
      either (some f) a b = refl
      either none true b = refl
      either none false b = refl

  get-change_score :
      (op : F → F → F) (v : T) (score : F) (items : List (Entry T F)) (x : T)
      → lookup (change_score op v score items) x
        ≡ (if v == x then applied (λ old. op old score) (lookup items x) else lookup items x)
  unfolding change_score
  get-change_score op v score items x = elim (Option-cases (lookup items v)) [
    | inl missing ↦ rw (missing, change_score) (ground (arith, c.decides v x, missing))
    | inr (old, known) ↦
        rw (known, change_score)
          (ground (arith, lookup-put items v (op old score) x, c.decides v x, known))
  ]

  get-decay :
      (f : F → F) (items : List (Entry T F)) (x : T)
      → lookup (decay f items) x ≡ applied f (lookup items x)
  unfolding lookup decay
  get-decay f [] x = refl
  get-decay f (e ∷ items) x = ground (arith, get-decay f items x)

  -- `Add` gives the score to the listed values that have none, and keeps every other score; `Remove` leaves
  -- the listed values without a score; `Increase` and `Decrease` change the score of one value, if it has
  -- one; the decay is applied to every score. No operation changes another value's score.
  pub get_score_after :
      (op : F → F → F) (f : F → F) (score : F) (values : List T) (v : T) (items : List (Entry T F))
      (x : T)
      → (get_score (add_scores score values items) x
          ≡ or_else (get_score items x) (if contains values x then some score else none))
        × (get_score (remove_scores values items) x
            ≡ (if contains values x then none else get_score items x))
        × (get_score (change_score op v score items) x ≡ (
            if v == x
            then applied (λ old. op old score) (get_score items x)
            else get_score items x))
        × (get_score (decay f items) x ≡ applied f (get_score items x))
  unfolding get_score
  get_score_after op f score values v items x = (
    get-add_scores score values items x,
    get-remove_scores values items x,
    get-change_score op v score items x,
    get-decay f items x,
  )
