-- ===== src/Sliceutil/Membership.antt =====
-- Contains of sliceutil/sliceutil.go, on the results of Filter and AppendUnique.
use go_utils.Prelude.{
  Bool, true, List, [], ◌∷◌, ◌++◌, ◌||◌, ◌&&◌, Comparable, ◌==◌, ◌≡◌, arith, Bool-cases, inl, inr,
  refl, In, ◌↔◌,
}
use go_utils.Sliceutil.{contains, filter, filter_loop, append_unique}

module _ {ℓ} {A : Type ℓ} ⦃c : Comparable A⦄ where
  pub contains-append :
      (xs ys : List A) (e : A) → contains (xs ++ ys) e ≡ contains xs e || contains ys e
  unfolding contains
  contains-append [] ys e = refl
  contains-append (x ∷ xs) ys e = ground (arith, contains-append xs ys e)

  pub contains-filter_loop :
      (f : A → Bool) (s out : List A) (e : A)
      → contains (filter_loop f s out) e ≡ contains out e || contains s e && f e
  unfolding contains filter_loop
  contains-filter_loop f [] out e = ground arith
  contains-filter_loop f (x ∷ s) out e = elim (Bool-cases (f x)) [
    | inl h ↦ rw h (
        ground (
          arith,
          contains-filter_loop f s (out ++ x ∷ []) e,
          contains-append out (x ∷ []) e,
          c.decides x e,
        ))
    | inr h ↦ rw h (ground (arith, contains-filter_loop f s out e, c.decides x e))
  ]

  -- An element is in the filtered slice exactly when it is in the slice and satisfies the predicate.
  pub contains-filter :
      (f : A → Bool) (s : List A) (e : A) → contains (filter f s) e ≡ contains s e && f e
  unfolding filter contains
  contains-filter f s e = contains-filter_loop f s [] e

  -- `AppendUnique` adds the element, keeps the others, and keeps a slice that has it.
  pub contains-append_unique :
      (s : List A) (e x : A) → contains (append_unique s e) x ≡ contains s x || e == x
  unfolding append_unique contains
  contains-append_unique s e x = ground (arith, contains-append s (e ∷ []) x, c.decides e x)

module _ {A : Type 0} ⦃c : Comparable A⦄ where
  pub contains_iff : (s : List A) (e : A) → (contains s e ≡ true) ↔ In e s
  unfolding contains
  contains_iff [] e = ground arith
  contains_iff (x ∷ s) e = ground (arith, contains_iff s e, c.decides x e)
