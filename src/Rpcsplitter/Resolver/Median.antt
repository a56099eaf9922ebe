-- ===== src/Rpcsplitter/Resolver/Median.antt =====
-- gasValueResolver of rpcsplitter/resolver.go, with some of the nodes out of a range.
use go_utils.Prelude.Int.{
  ℤ, pos, negsuc, ltb_ℤ, ◌≤ℤ◌, ◌+ℤ◌, +ℤ_parts, neg_of_parts, pos_part, neg_part,
}
use go_utils.Prelude.{
  ℕ, zero, suc, ◌+◌, ◌-◌, ◌*◌, ◌/◌, ◌%◌, ◌≤◌, ◌<◌, ◌≡◌, refl, ◌∙◌, inl, inr, Bool, true, List, [],
  ◌∷◌, arith, nat_beq, nat_beq_iff, if◌then◌else◌, Bool-cases, length, get_or, All,
}
use go_utils.Bn.IntNumber.{euclid_div}
use go_utils.Rpcsplitter.Resolver.{
  Response, number, resolved, successes, numbers, insert_sorted, sort, median, gas_value,
  resolve_gas_value,
}

-- How many numbers pass a test.
abbrev pub count : (ℤ → Bool) → List ℤ → ℕ
count f [] = 0
count f (n ∷ ns) = (if f n then 1 else 0) + count f ns

-- Each number is at most the next.
abbrev pub IsSorted : List ℤ → Type 0
IsSorted [] = Unit
IsSorted (n ∷ ns) = All (λ m. n ≤ℤ m) ns × IsSorted ns

count-insert_sorted :
    (f : ℤ → Bool) (n : ℤ) (ns : List ℤ) → count f (insert_sorted n ns) ≡ count f (n ∷ ns)
unfolding insert_sorted
count-insert_sorted f n [] = refl
count-insert_sorted f n (m ∷ ms) = ground (arith, count-insert_sorted f n ms)

count-sort : (f : ℤ → Bool) (ns : List ℤ) → count f (sort ns) ≡ count f ns
unfolding sort
count-sort f [] = refl
count-sort f (n ∷ ns) = omega (arith, count-insert_sorted f n (sort ns), count-sort f ns)

length-insert_sorted : (n : ℤ) (ns : List ℤ) → length (insert_sorted n ns) ≡ suc (length ns)
unfolding insert_sorted
length-insert_sorted n [] = refl
length-insert_sorted n (m ∷ ms) = ground (arith, length-insert_sorted n ms)

length-sort : (ns : List ℤ) → length (sort ns) ≡ length ns
unfolding sort
length-sort [] = refl
length-sort (n ∷ ns) = omega (arith, length-insert_sorted n (sort ns), length-sort ns)

All-insert_sorted :
    (P : ℤ → Type 0) (n : ℤ) (ns : List ℤ) → P n → All P ns → All P (insert_sorted n ns)
unfolding insert_sorted
All-insert_sorted P n [] p h = (p, tt)
All-insert_sorted P n (m ∷ ms) p h = elim (Bool-cases (ltb_ℤ m n)) [
  | inl e ↦ rw e (h.0, All-insert_sorted P n ms p h.1)
  | inr e ↦ rw e (p, h)
]

All-le : (a b : ℤ) (ns : List ℤ) → a ≤ℤ b → All (λ m. b ≤ℤ m) ns → All (λ m. a ≤ℤ m) ns
All-le a b [] l h = tt
All-le a b (n ∷ ns) l h = (omega (arith, h.0), All-le a b ns l h.1)

insert_sorted-IsSorted : (n : ℤ) (ns : List ℤ) → IsSorted ns → IsSorted (insert_sorted n ns)
unfolding insert_sorted
insert_sorted-IsSorted n [] h = (tt, tt)
insert_sorted-IsSorted n (m ∷ ms) h = elim (Bool-cases (ltb_ℤ m n)) [
  | inl e ↦
      rw e
        (All-insert_sorted (λ k. m ≤ℤ k) n ms (ground arith) h.0, insert_sorted-IsSorted n ms h.1)
  | inr e ↦ let l : n ≤ℤ m = ground arith in rw e ((l, All-le n m ms l h.0), h)
]

sort-IsSorted : (ns : List ℤ) → IsSorted (sort ns)
unfolding sort
sort-IsSorted [] = tt
sort-IsSorted (n ∷ ns) = insert_sorted-IsSorted n (sort ns) (sort-IsSorted ns)

count-all : (f : ℤ → Bool) (ns : List ℤ) → All (λ n. f n ≡ true) ns → count f ns ≡ length ns
count-all f [] h = refl
count-all f (n ∷ ns) h = ground (arith, count-all f ns h.1)

above_all :
    (hi a : ℤ) (ns : List ℤ)
    → ltb_ℤ hi a ≡ true
    → All (λ m. a ≤ℤ m) ns
    → All (λ m. ltb_ℤ hi m ≡ true) ns
above_all hi a [] l h = tt
above_all hi a (n ∷ ns) l h = (ground (arith, h.0), above_all hi a ns l h.1)

-- If the number at position i is above `hi`, so are those behind it.
count-above :
    (hi : ℤ) (ns : List ℤ) (i : ℕ)
    → IsSorted ns
    → i < length ns
    → ltb_ℤ hi (get_or ns i (pos 0)) ≡ true
    → length ns ≤ count (λ n. ltb_ℤ hi n) ns + i
count-above hi [] i s l h = absurd (omega arith)
count-above hi (n ∷ ns) zero s l h =
    ground (arith, count-all (λ m. ltb_ℤ hi m) ns (above_all hi n ns h s.0))
count-above hi (n ∷ ns) (suc i) s l h = ground (arith, count-above hi ns i s.1 (omega arith) h)

-- If it is below `lo`, so are those before it.
le-get_or :
    (a : ℤ) (ns : List ℤ) (i : ℕ) → All (λ m. a ≤ℤ m) ns → i < length ns → a ≤ℤ get_or ns i (pos 0)
le-get_or a [] i h l = absurd (omega arith)
le-get_or a (n ∷ ns) zero h l = h.0
le-get_or a (n ∷ ns) (suc i) h l = le-get_or a ns i h.1 (omega arith)

count-below :
    (lo : ℤ) (ns : List ℤ) (i : ℕ)
    → IsSorted ns
    → i < length ns
    → ltb_ℤ (get_or ns i (pos 0)) lo ≡ true
    → suc i ≤ count (λ n. ltb_ℤ n lo) ns
count-below lo [] i s l h = absurd (omega arith)
count-below lo (n ∷ ns) zero s l h = ground arith
count-below lo (n ∷ ns) (suc i) s l h =
    ground (arith, count-below lo ns i s.1 (omega arith) h, le-get_or n ns i s.0 (omega arith))

abbrev pub below : ℤ → ℤ → Bool
below lo n = ltb_ℤ n lo

abbrev pub above : ℤ → ℤ → Bool
above hi n = ltb_ℤ hi n

-- How many numbers are out of a range.
abbrev pub outliers : ℤ → ℤ → List ℤ → ℕ
outliers lo hi ns = count (below lo) ns + count (above hi) ns

module _ (lo hi : ℤ) where
  in_range :
      (ns : List ℤ) (i : ℕ)
      → IsSorted ns
      → i < length ns
      → count (below lo) ns ≤ i
      → count (above hi) ns + i < length ns
      → (lo ≤ℤ get_or ns i (pos 0)) × (get_or ns i (pos 0) ≤ℤ hi)
  in_range ns i s l b a =
      (ground (arith, count-below lo ns i s l), ground (arith, count-above hi ns i s l))

  -- big.Int's Div by two rounds down.
  half_bounds :
      (s : ℤ)
      → (2 * pos_part (euclid_div s (pos 2)) + neg_part s
          ≤ pos_part s + 2 * neg_part (euclid_div s (pos 2)))
        × (pos_part s + 2 * neg_part (euclid_div s (pos 2))
            ≤ 2 * pos_part (euclid_div s (pos 2)) + neg_part s + 1)
  unfolding euclid_div
  half_bounds (pos n) = omega arith
  half_bounds (negsuc n) = omega (arith, neg_of_parts ((suc n + (2 - 1)) / 2))

  average_within :
      (x y : ℤ)
      → lo ≤ℤ x
      → x ≤ℤ hi
      → lo ≤ℤ y
      → y ≤ℤ hi
      → (lo ≤ℤ euclid_div (x +ℤ y) (pos 2)) × (euclid_div (x +ℤ y) (pos 2) ≤ℤ hi)
  average_within x y a b c d = omega (arith, half_bounds (x +ℤ y), +ℤ_parts x y)

  median_within :
      (ns : List ℤ)
      → IsSorted ns
      → 2 * outliers lo hi ns < length ns
      → (lo ≤ℤ median ns) × (median ns ≤ℤ hi)
  unfolding median
  median_within ns s few = elim (Bool-cases (nat_beq (length ns % 2) 0)) [
    | inl even ↦ rw even (
        let even' : length ns % 2 ≡ 0 = (nat_beq_iff (length ns % 2) 0).0 even in
        let (a, b) = in_range ns (length ns / 2 - 1) s (omega arith) (omega arith) (omega arith) in
        let (c, d) = in_range ns (length ns / 2) s (omega arith) (omega arith) (omega arith) in
        average_within _ _ a b c d)
    | inr odd ↦ rw odd (in_range ns (length ns / 2) s (omega arith) (omega arith) (omega arith))
  ]

  gas_value_within :
      (rs : List Response) (ns : List ℤ)
      → 2 ≤ length ns
      → 2 * outliers lo hi ns < length ns
      → (x : ℤ) × (gas_value rs ns ≡ resolved (number x)) × (lo ≤ℤ x) × (x ≤ℤ hi)
  unfolding gas_value
  gas_value_within rs [] two few = absurd (omega arith)
  gas_value_within rs (n ∷ []) two few = absurd (omega arith)
  gas_value_within rs (a ∷ b ∷ []) two few =
      ((if ltb_ℤ b a then b else a), refl, ground arith, ground arith)
  gas_value_within rs (a ∷ b ∷ c ∷ ns) two few =
      let all : List ℤ = a ∷ b ∷ c ∷ ns in
      let (l, u) = median_within (sort all) (sort-IsSorted all) (
        omega
          (arith, few, length-sort all, count-sort (below lo) all, count-sort (above hi) all)) in
      (median (sort all), refl, l, u)

-- With enough numbers, and one at least, the tests of the resolver pass.
enough_numbers :
    (min_responses : ℕ) (resps : List Response)
    → min_responses ≤ length (numbers (successes resps))
    → 1 ≤ length (numbers (successes resps))
    → resolve_gas_value min_responses resps
      ≡ gas_value (successes resps) (numbers (successes resps))
unfolding resolve_gas_value
enough_numbers min_responses resps enough one = ground arith

-- If fewer than half of at least two numbers lie outside a range, the gas value resolver answers
-- with a number of that range: a minority of the nodes cannot move the answer out of it.
pub resolve_gas_value_within :
    (min_responses : ℕ) (resps : List Response) (lo hi : ℤ)
    → min_responses ≤ length (numbers (successes resps))
    → 2 ≤ length (numbers (successes resps))
    → 2 * outliers lo hi (numbers (successes resps)) < length (numbers (successes resps))
    → (x : ℤ) × (resolve_gas_value min_responses resps ≡ resolved (number x))
      × (lo ≤ℤ x)
      × (x ≤ℤ hi)
resolve_gas_value_within min_responses resps lo hi enough two few =
    let (x, e, l, u) =
      gas_value_within lo hi (successes resps) (numbers (successes resps)) two few in
    (x, enough_numbers min_responses resps enough (omega arith) ∙ e, l, u)
