-- ===== src/Sliceutil/Positions.antt =====
-- IndexOf of sliceutil/sliceutil.go.
use go_utils.Prelude.{
  ℕ, zero, suc, ◌-◌, ◌≤◌, ◌<◌, ◌≡◌, refl, ap, ◌≢◌, inl, inr, some, List, [], ◌∷◌, arith, Bool-cases,
  get_elem?, Comparable, ◌==◌,
}
use go_utils.Prelude.Int.{ℤ, pos, negsuc}
use go_utils.Sliceutil.{index_of, index_of_loop}

module _ {ℓ} {A : Type ℓ} ⦃c : Comparable A⦄ where
  -- What the result of `IndexOf` has to be, by its sign.
  abbrev pub IsFirstIndex : List A → A → ℤ → Type ℓ
  IsFirstIndex s e (pos i) = (get_elem? s i ≡ some e) × ((j : ℕ) → j < i → get_elem? s j ≢ some e)
  IsFirstIndex s e (negsuc n) = (n ≡ 0) × ((j : ℕ) → get_elem? s j ≢ some e)

  -- The same for the rest of a slice that begins at position `i`.
  abbrev IsFirstFrom : ℕ → List A → A → ℤ → Type ℓ
  IsFirstFrom i s e (pos k) =
      (i ≤ k) × (get_elem? s (k - i) ≡ some e) × ((j : ℕ) → j < k - i → get_elem? s j ≢ some e)
  IsFirstFrom i s e (negsuc n) = (n ≡ 0) × ((j : ℕ) → get_elem? s j ≢ some e)

  IsFirstFrom-step :
      (i : ℕ) (x : A) (s : List A) (e : A) (r : ℤ)
      → x ≢ e
      → IsFirstFrom (suc i) s e r
      → IsFirstFrom i (x ∷ s) e r
  IsFirstFrom-step i x s e (pos k) ne h =
      let shift : k - i ≡ suc (k - suc i) = omega arith in (omega arith, rw shift (h.1), later)
    where
      later : (j : ℕ) → j < k - i → get_elem? (x ∷ s) j ≢ some e
      later zero l p = ne (cc)
      later (suc j) l p = h.2 j (omega arith) p
  IsFirstFrom-step i x s e (negsuc n) ne h = (h.0, later)
    where
      later : (j : ℕ) → get_elem? (x ∷ s) j ≢ some e
      later zero p = ne (cc)
      later (suc j) p = h.1 j p

  index_of_loop_lem : (s : List A) (e : A) (i : ℕ) → IsFirstFrom i s e (index_of_loop s e i)
  unfolding index_of_loop
  index_of_loop_lem [] e i = (refl, λ j p. cc)
  index_of_loop_lem (x ∷ s) e i = elim (Bool-cases (x == e)) [
    | inl h ↦ rw h (
        let here : i - i ≡ 0 = omega arith in
        (omega arith, rw here (ap some ((c.decides x e).0 h)), λ j l. absurd (omega arith)))
    | inr h ↦
        rw h (
          IsFirstFrom-step i x s e _ (λ p. cc ((c.decides x e).1 p))
            (index_of_loop_lem s e (suc i)))
  ]

  IsFirstFrom-zero : (s : List A) (e : A) (r : ℤ) → IsFirstFrom 0 s e r → IsFirstIndex s e r
  IsFirstFrom-zero s e (pos k) h =
      let whole : k - 0 ≡ k = omega arith in (rw whole at (h.1), λ j l. h.2 j (omega arith))
  IsFirstFrom-zero s e (negsuc n) h = h

  -- `IndexOf` returns the first position of the element, and -1 exactly when it is at none.
  pub index_of_lem : (s : List A) (e : A) → IsFirstIndex s e (index_of s e)
  unfolding index_of
  index_of_lem s e = IsFirstFrom-zero s e _ (index_of_loop_lem s e 0)
