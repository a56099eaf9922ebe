-- ===== src/Rpcsplitter/Errors/MostCommon.antt =====
-- The element that mostCommon of rpcsplitter/errors.go returns, by how often it stands in the slice.
use go_utils.Prelude.{
  ℕ, ◌≤◌, ◌≡◌, refl, ◌⊎◌, inl, inr, Bool, true, false, List, [], ◌∷◌, arith, ltb, if◌then◌else◌,
  All, Comparable,
}
use go_utils.Rpcsplitter.Errors.{count_of, most_common_loop, most_common}

module _ {A : Type 0} ⦃c : Comparable A⦄ where
  -- No key is more common than the result, and it is as common as the maximum so far.
  abbrev Tops : List A → List A → ℕ → A → Type 0
  Tops s keys max_count r = (max_count ≤ count_of s r) × All (λ k. count_of s k ≤ count_of s r) keys

  Tops-if :
      (b : Bool) (s keys : List A) (max_count : ℕ) (x y : A)
      → (b ≡ true → Tops s keys max_count x)
      → (b ≡ false → Tops s keys max_count y)
      → Tops s keys max_count (if b then x else y)
  Tops-if true s keys max_count x y f g = f refl
  Tops-if false s keys max_count x y f g = g refl

  -- The maximum so far is the one at the start, with no element counted, or has been counted.
  most_common_loop-Tops :
      (s keys : List A) (max : A) (max_count : ℕ)
      → ((max_count ≡ 0) ⊎ (count_of s max ≡ max_count))
      → Tops s keys max_count (most_common_loop s keys max max_count)
  unfolding most_common_loop
  most_common_loop-Tops s [] max max_count h = (ground arith, tt)
  most_common_loop-Tops s (k ∷ keys) max max_count h =
      Tops-if (ltb max_count (count_of s k)) s (k ∷ keys) max_count _ _
        (λ more.
          let (l, a) = most_common_loop-Tops s keys k (count_of s k) (inr refl) in
          (ground arith, (l, a)))
        (λ same.
          let (l, a) = most_common_loop-Tops s keys max max_count h in (l, (ground arith, a)))

  -- Whatever the order of the keys, no key is more common in a slice that is not empty than the element
  -- returned.
  pub most_common_lem :
      (zero_value : A) (keys : List A) (x : A) (s : List A)
      → All (λ k. count_of (x ∷ s) k ≤ count_of (x ∷ s) (most_common zero_value keys (x ∷ s))) keys
  unfolding most_common
  most_common_lem zero_value keys x s =
      let (l, a) = most_common_loop-Tops (x ∷ s) keys zero_value 0 (inl refl) in a
