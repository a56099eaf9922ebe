-- ===== src/Timeutil/Spec/Sorting.antt =====
-- The order that parsePart of timeutil/scheduler.go gives to its values.
use go_utils.Prelude.{ℕ, ◌≤◌, inl, inr, List, [], ◌∷◌, arith, ltb, Bool-cases, All}
use go_utils.Prelude.Sorted.{IsSorted, IsOrdered}
use go_utils.Sliceutil.Ordered.{unique-IsSorted, unique_all}
use go_utils.Timeutil.Spec.{insert_sorted, sort_nums, tidy}
use go_utils.Prelude.{nat_comparable}

insert_all {κ} :
    (P : ℕ → Type κ) (n : ℕ) (ms : List ℕ) → P n → All P ms → All P (insert_sorted n ms)
unfolding insert_sorted
insert_all P n [] p h = (p, tt)
insert_all P n (m ∷ ms) p (q, h) = elim (Bool-cases (ltb m n)) [
  | inl c ↦ rw (c, insert_sorted, All) (q, insert_all P n ms p h)
  | inr c ↦ rw (c, insert_sorted, All) (p, (q, h))
]

all_le : (n m : ℕ) (ms : List ℕ) → n ≤ m → All (λ y. m ≤ y) ms → All (λ y. n ≤ y) ms
all_le n m [] l h = tt
all_le n m (k ∷ ms) l (q, h) = (omega arith, all_le n m ms l h)

insert-IsOrdered : (n : ℕ) (ms : List ℕ) → IsOrdered ms → IsOrdered (insert_sorted n ms)
unfolding insert_sorted
insert-IsOrdered n [] h = (tt, tt)
insert-IsOrdered n (m ∷ ms) (l, h) = elim (Bool-cases (ltb m n)) [
  | inl c ↦
      rw (c, insert_sorted, IsOrdered)
        (insert_all (λ y. m ≤ y) n ms (ground arith) l, insert-IsOrdered n ms h)
  | inr c ↦
      let under : n ≤ m = ground arith in
      rw (c, insert_sorted, IsOrdered) ((under, all_le n m ms under l), (l, h))
]

sort-IsOrdered : (ns : List ℕ) → IsOrdered (sort_nums ns)
unfolding sort_nums
sort-IsOrdered [] = tt
sort-IsOrdered (n ∷ ns) = insert-IsOrdered n (sort_nums ns) (sort-IsOrdered ns)

sort_all {κ} : (P : ℕ → Type κ) (ns : List ℕ) → All P ns → All P (sort_nums ns)
unfolding sort_nums
sort_all P [] h = tt
sort_all P (n ∷ ns) (p, h) = insert_all P n (sort_nums ns) p (sort_all P ns h)

pub tidy-IsSorted : (ns : List ℕ) → IsSorted (tidy ns)
unfolding tidy
tidy-IsSorted [] = unique-IsSorted (sort_nums []) (sort-IsOrdered [])
tidy-IsSorted (n ∷ []) = (tt, tt)
tidy-IsSorted (n ∷ m ∷ ns) = unique-IsSorted (sort_nums (n ∷ m ∷ ns)) (sort-IsOrdered (n ∷ m ∷ ns))

pub tidy_all {κ} : (P : ℕ → Type κ) (ns : List ℕ) → All P ns → All P (tidy ns)
unfolding tidy
tidy_all P [] h = unique_all P (sort_nums []) (sort_all P [] h)
tidy_all P (n ∷ []) h = h
tidy_all P (n ∷ m ∷ ns) h = unique_all P (sort_nums (n ∷ m ∷ ns)) (sort_all P (n ∷ m ∷ ns) h)
