-- ===== src/Timeutil/Next/Ahead.antt =====
-- How far the next value of a list is ahead, on a clock of `base` units.
use go_utils.Prelude.{
  ℕ, ◌+◌, ◌-◌, ◌%◌, ◌≤◌, ◌<◌, ◌≡◌, refl, sym, ap, ◌∙◌, inl, inr, false, none, some, List, [], ◌∷◌,
  arith, ltb, Bool-cases, Option-cases, All,
}
use go_utils.Prelude.Sorted.{IsSorted}
use go_utils.Timeutil.Schedule.{is_listed, match_value}
use go_utils.Timeutil.Next.{first_above, units_ahead}

abbrev pub AreBelow : ℕ → List ℕ → Type 0
AreBelow base xs = All (λ x. x < base) xs

is_listed_below : (xs : List ℕ) (x m : ℕ) → All (λ y. x < y) xs → m ≤ x → is_listed xs m ≡ false
unfolding is_listed
is_listed_below [] x m h l = refl
is_listed_below (y ∷ xs) x m (h, k) l = ground (arith, is_listed_below xs x m k)

first_above-some :
    (base : ℕ) (xs : List ℕ) (n v : ℕ)
    → IsSorted xs
    → AreBelow base xs
    → first_above xs n ≡ some v
    → (n < v) × (v < base) × ((m : ℕ) → n < m → m < v → is_listed xs m ≡ false)
unfolding first_above is_listed
first_above-some base [] n v s b e = cc
first_above-some base (x ∷ xs) n v (l, s) (k, b) e = elim (Bool-cases (ltb n x)) [
  | inl above ↦
      let here : x ≡ v = ground arith in
      (ground arith, ground arith, λ m p q. ground (arith, is_listed_below xs x m l))
  | inr under ↦
      let (p, q, r) = first_above-some base xs n v s b (rw under at e) in
      (p, q, λ m i j. ground (arith, r m i j))
]

first_above-none :
    (xs : List ℕ) (n m : ℕ) → first_above xs n ≡ none → n < m → is_listed xs m ≡ false
unfolding first_above is_listed
first_above-none [] n m e l = refl
first_above-none (x ∷ xs) n m e l = ground (arith, first_above-none xs n m)

module _ (base n : ℕ) (inside : n < base) where
  -- What is not matched on the way ahead: `d` units on, before and after the clock begins anew.
  pub units_ahead_skips :
      (xs : List ℕ) (d : ℕ)
      → IsSorted xs
      → AreBelow base xs
      → 0 < d
      → d < units_ahead base xs n
      → (n + d < base → match_value xs (n + d) ≡ false)
        × (base ≤ n + d → (n + d < base + base) × (match_value xs (n + d - base) ≡ false))
  unfolding units_ahead match_value
  units_ahead_skips [] d s b p q = absurd (omega arith)
  units_ahead_skips (w ∷ ws) d s b p q = elim (Option-cases (first_above (w ∷ ws) n)) [
    | inr (v, e) ↦
        let (i, j, k) = first_above-some base (w ∷ ws) n v s b e in
        let near : d < v - n = rw (e, units_ahead) at q in
        (λ l. k (n + d) (omega arith) (omega arith), λ l. absurd (omega arith))
    | inl e ↦
        let near : d < base - n + w = rw (e, units_ahead) at q in
        (
          λ l. first_above-none (w ∷ ws) n (n + d) e (omega arith),
          λ l. (
            omega arith,
            unfold is_listed in ground (arith, is_listed_below ws w (n + d - base) s.0),
          ),
        )
  ]

  pub units_ahead_pos : (xs : List ℕ) → IsSorted xs → AreBelow base xs → 0 < units_ahead base xs n
  unfolding units_ahead
  units_ahead_pos [] s b = omega arith
  units_ahead_pos (w ∷ ws) s b = elim (Option-cases (first_above (w ∷ ws) n)) [
    | inr (v, e) ↦
        let (i, j, k) = first_above-some base (w ∷ ws) n v s b e in
        rw (e, units_ahead) (omega arith)
    | inl e ↦ rw (e, units_ahead) (omega arith)
  ]

-- What a clock of `base` units shows after `d` of them, if they are fewer than twice `base`.
abbrev pub IsBase : ℕ → Type 0
IsBase base =
    (a d : ℕ)
    → (a % base < base)
      × (a % base + d < base → (a + d) % base ≡ a % base + d)
      × (base ≤ a % base + d → a % base + d < base + base → (a + d) % base ≡ a % base + d - base)

pub sixty : IsBase 60
sixty a d = (omega arith, λ h. omega (arith, h), λ h k. omega (arith, h, k))

pub twenty_four : IsBase 24
twenty_four a d = (omega arith, λ h. omega (arith, h), λ h k. omega (arith, h, k))

module _ (base : ℕ) (is_base : IsBase base) (xs : List ℕ) (s : IsSorted xs)
    (b : AreBelow base xs) where
  -- Between a reading of the clock and the one that is gone to, no reading matches.
  pub between_unmatched :
      (a e : ℕ) → a < e → e < a + units_ahead base xs (a % base) → match_value xs (e % base) ≡ false
  between_unmatched a e l h =
      let (inside, plain, around) = is_base a (e - a) in
      let same : a + (e - a) ≡ e = omega arith in
      let (near, far) =
        units_ahead_skips base (a % base) inside xs (e - a) s b (omega arith) (omega arith) in
      elim (Bool-cases (ltb (a % base + (e - a)) base)) [
        | inl under ↦
            let u : a % base + (e - a) < base = ground arith in
            ap (match_value xs) (ap (λ t. t % base) (sym same) ∙ plain u) ∙ near u
        | inr over ↦
            let u : base ≤ a % base + (e - a) = ground arith in
            let (small, out) = far u in
            ap (match_value xs) (ap (λ t. t % base) (sym same) ∙ around u small) ∙ out
      ]

  -- The same from the reading that is left, if that one does not match either.
  pub from_unmatched :
      (a e : ℕ)
      → a ≤ e
      → e < a + units_ahead base xs (a % base)
      → match_value xs (a % base) ≡ false
      → match_value xs (e % base) ≡ false
  from_unmatched a e l h no_match = elim (Bool-cases (ltb a e)) [
    | inl later ↦ between_unmatched a e (ground arith) h
    | inr now ↦
        let same : a ≡ e = ground arith in ap (λ t. match_value xs (t % base)) (sym same) ∙ no_match
  ]
