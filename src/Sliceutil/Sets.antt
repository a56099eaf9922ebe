-- ===== src/Sliceutil/Sets.antt =====
-- Unique, IsUnique and Intersect of sliceutil/sliceutil.go, as sets.
use go_utils.Prelude.{
  ◌≡◌, refl, sym, ◌∙◌, ◌↔◌, inl, inr, Bool, true, false, ◌&&◌, ◌||◌, List, [], ◌∷◌, ◌++◌,
  append-nil, append_assoc, arith, ltb, Bool-cases, length, All, Comparable, ◌==◌,
}
use go_utils.Sliceutil.{
  UniqueState, contains, mark, is_unique, is_unique_loop, unique, unique_step, unique_slice,
  unique_slices, intersect, in_every, keep_common, smallest,
}
use go_utils.Sliceutil.Membership.{contains-append}

module _ {ℓ} {A : Type ℓ} ⦃c : Comparable A⦄ where
  -- No element stands twice.
  abbrev pub IsDistinct : List A → Type 0
  IsDistinct [] = Unit
  IsDistinct (x ∷ s) = (contains s x ≡ false) × IsDistinct s

  -- An element is in one of the slices.
  abbrev pub in_some : List (List A) → A → Bool
  in_some [] e = false
  in_some (s ∷ ss) e = contains s e || in_some ss e

  pub IsDistinct-concat :
      (s : List A) (x : A) → IsDistinct s → contains s x ≡ false → IsDistinct (s ++ x ∷ [])
  unfolding contains
  IsDistinct-concat [] x d h = (refl, tt)
  IsDistinct-concat (y ∷ s) x d h = (
    ground (arith, contains-append s (x ∷ []) y, c.decides x y, c.decides y x),
    IsDistinct-concat s x d.1 (ground arith),
  )

  -- The invariant of `Unique`: `seen` is membership in `out`, and `out` has no repeats.
  pub record Tracks (st : UniqueState A) : Type ℓ where
    pub tracked : (x : A) → st.seen x ≡ contains st.out x
    pub distinct : IsDistinct st.out

  unique_step-Tracks : (x : A) (st : UniqueState A) → Tracks st → Tracks (unique_step x st)
  unfolding unique_step mark contains
  unique_step-Tracks x st t = elim (Bool-cases (st.seen x)) [
    | inl old ↦ rw old t
    | inr new ↦ rw new (record {
      tracked = λ y. ground (arith, t.tracked y, contains-append st.out (x ∷ []) y);
      distinct = IsDistinct-concat st.out x t.distinct (ground (arith, t.tracked x));
    })
  ]

  unique_step_keeps :
      (x : A) (st : UniqueState A) (e : A)
      → Tracks st
      → contains (unique_step x st).out e ≡ contains st.out e || x == e
  unfolding unique_step contains
  unique_step_keeps x st e t =
      ground (arith, t.tracked x, t.tracked e, contains-append st.out (x ∷ []) e, c.decides x e)

  unique_slice-Tracks : (s : List A) (st : UniqueState A) → Tracks st → Tracks (unique_slice s st)
  unfolding unique_slice
  unique_slice-Tracks [] st t = t
  unique_slice-Tracks (x ∷ s) st t =
      unique_slice-Tracks s (unique_step x st) (unique_step-Tracks x st t)

  unique_slice_keeps :
      (s : List A) (st : UniqueState A) (e : A)
      → Tracks st
      → contains (unique_slice s st).out e ≡ contains st.out e || contains s e
  unfolding unique_slice contains
  unique_slice_keeps [] st e t = ground arith
  unique_slice_keeps (x ∷ s) st e t = ground (
    arith,
    unique_slice_keeps s (unique_step x st) e (unique_step-Tracks x st t),
    unique_step_keeps x st e t,
  )

  unique_slices-Tracks :
      (ss : List (List A)) (st : UniqueState A) → Tracks st → Tracks (unique_slices ss st)
  unfolding unique_slices
  unique_slices-Tracks [] st t = t
  unique_slices-Tracks (s ∷ ss) st t =
      unique_slices-Tracks ss (unique_slice s st) (unique_slice-Tracks s st t)

  unique_slices_keeps :
      (ss : List (List A)) (st : UniqueState A) (e : A)
      → Tracks st
      → contains (unique_slices ss st).out e ≡ contains st.out e || in_some ss e
  unfolding unique_slices
  unique_slices_keeps [] st e t = ground arith
  unique_slices_keeps (s ∷ ss) st e t = ground (
    arith,
    unique_slices_keeps ss (unique_slice s st) e (unique_slice-Tracks s st t),
    unique_slice_keeps s st e t,
  )

  initial-Tracks : Tracks (record { seen = λ (x : A). false; out = [] })
  unfolding contains
  initial-Tracks = record { tracked = λ x. refl; distinct = tt }

  -- A slice of distinct elements that have not been seen is added as it is.
  mark_others :
      (x : A) (seen : A → Bool) (s : List A)
      → contains s x ≡ false
      → All (λ y. seen y ≡ false) s
      → All (λ y. mark x seen y ≡ false) s
  unfolding mark contains
  mark_others x seen [] h u = tt
  mark_others x seen (y ∷ s) h (e, u) =
      (ground (arith, c.decides x y, c.decides y x), mark_others x seen s (ground arith) u)

  unique_slice_distinct :
      (s : List A) (st : UniqueState A)
      → IsDistinct s
      → All (λ x. st.seen x ≡ false) s
      → (unique_slice s st).out ≡ st.out ++ s
  unfolding unique_slice unique_step
  unique_slice_distinct [] st d u = sym (append-nil st.out)
  unique_slice_distinct (x ∷ s) st (n, d) (e, u) =
      rw (e, unique_slice, unique_step)
        (unique_slice_distinct s (record { seen = mark x st.seen; out = st.out ++ x ∷ [] }) d
            (mark_others x st.seen s n u)
          ∙ append_assoc st.out (x ∷ []) s)

  unseen : (s : List A) → All (λ x. ◌≡◌ {A = Bool} false false) s
  unseen [] = tt
  unseen (x ∷ s) = (refl, unseen s)

  pub unique_distinct : (s : List A) → IsDistinct s → unique (s ∷ []) ≡ s
  unfolding unique unique_slices
  unique_distinct s d =
      unique_slice_distinct s (record { seen = λ x. false; out = [] }) d (unseen s)

  -- `Unique` returns the elements of all slices, each of them once.
  pub unique_lem :
      (ss : List (List A))
      → IsDistinct (unique ss) × ((e : A) → contains (unique ss) e ≡ in_some ss e)
  unfolding unique contains
  unique_lem ss = (
    (unique_slices-Tracks ss _ initial-Tracks).distinct,
    λ e. unique_slices_keeps ss _ e initial-Tracks,
  )

  abbrev AreUnseen : (A → Bool) → List A → Type 0
  AreUnseen seen s = All (λ (x : A). seen x ≡ false) s

  mark-AreUnseen :
      (x : A) (seen : A → Bool) (s : List A)
      → AreUnseen (mark x seen) s ↔ ((contains s x ≡ false) × AreUnseen seen s)
  unfolding mark contains
  mark-AreUnseen x seen [] = ground arith
  mark-AreUnseen x seen (y ∷ s) =
      ground (arith, mark-AreUnseen x seen s, c.decides x y, c.decides y x)

  is_unique_loop_iff :
      (s : List A) (seen : A → Bool)
      → (is_unique_loop s seen ≡ true) ↔ (IsDistinct s × AreUnseen seen s)
  unfolding is_unique_loop
  is_unique_loop_iff [] seen = ground arith
  is_unique_loop_iff (x ∷ s) seen =
      ground (arith, is_unique_loop_iff s (mark x seen), mark-AreUnseen x seen s)

  all-AreUnseen : (s : List A) → AreUnseen (λ x. false) s
  all-AreUnseen [] = tt
  all-AreUnseen (x ∷ s) = (refl, all-AreUnseen s)

  -- `IsUnique` holds exactly when no element of the slice stands twice.
  pub is_unique_iff : (s : List A) → (is_unique s ≡ true) ↔ IsDistinct s
  unfolding is_unique
  is_unique_iff s = ground (arith, is_unique_loop_iff s (λ x. false), all-AreUnseen s)

  keep_common_lem :
      (ss : List (List A)) (m out : List A) (e : A)
      → contains (keep_common ss m out) e ≡ contains out e || contains m e && in_every ss e
  unfolding keep_common contains
  keep_common_lem ss [] out e = ground arith
  keep_common_lem ss (x ∷ m) out e = elim (Bool-cases (in_every ss x)) [
    | inl h ↦ rw h (
        ground (
          arith,
          keep_common_lem ss m (out ++ x ∷ []) e,
          contains-append out (x ∷ []) e,
          c.decides x e,
        ))
    | inr h ↦ rw h (ground (arith, keep_common_lem ss m out e, c.decides x e))
  ]

  -- The smallest slice is one of the slices, so what is in every slice is in it.
  in_every-smallest :
      (ss : List (List A)) (min : List A) (e : A)
      → in_every ss e ≡ true
      → contains min e ≡ true
      → contains (smallest ss min) e ≡ true
  unfolding in_every smallest
  in_every-smallest [] min e h k = k
  in_every-smallest (s ∷ ss) min e h k = elim (Bool-cases (ltb (length s) (length min))) [
    | inl l ↦ rw l (in_every-smallest ss s e (ground arith) (ground arith))
    | inr l ↦ rw l (in_every-smallest ss min e (ground arith) k)
  ]

  -- For at least one slice, `Intersect` returns what is in every slice, whichever is the smallest.
  pub contains-intersect :
      (s : List A) (ss : List (List A)) (e : A)
      → contains (intersect (s ∷ ss)) e ≡ contains s e && in_every ss e
  unfolding intersect contains in_every
  contains-intersect s ss e =
      ground
        (arith, keep_common_lem (s ∷ ss) (smallest (s ∷ ss) s) [] e, in_every-smallest (s ∷ ss) s e)
