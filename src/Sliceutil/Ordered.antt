-- ===== src/Sliceutil/Ordered.antt =====
-- Unique of sliceutil/sliceutil.go on a slice of ordered numbers.
use mathlib.Core.Path.{subst}
use go_utils.Prelude.Sorted.{IsSorted, IsOrdered}
use go_utils.Sliceutil.{
  UniqueState, contains, mark, unique, unique_step, unique_slice, unique_slices,
}
use go_utils.Sliceutil.Membership.{contains-append}
use go_utils.Prelude.{
  ℕ, ◌≤◌, ◌<◌, ◌≡◌, refl, sym, ◌∙◌, inl, inr, true, false, List, [], ◌∷◌, ◌++◌, arith, Bool-cases,
  All, All-append,
}
use go_utils.Prelude.{nat_comparable}

append-IsSorted :
    (out : List ℕ) (x : ℕ) → IsSorted out → All (λ y. y < x) out → IsSorted (out ++ x ∷ [])
append-IsSorted [] x h k = (tt, tt)
append-IsSorted (y ∷ out) x (l, h) (k, m) =
    (All-append (λ z. y < z) out (x ∷ []) l (k, tt), append-IsSorted out x h m)

below_new :
    (out : List ℕ) (x : ℕ) → All (λ y. y ≤ x) out → contains out x ≡ false → All (λ y. y < x) out
unfolding contains
below_new [] x h n = tt
below_new (y ∷ out) x (l, h) n = (ground arith, below_new out x h (ground arith))

-- No value of `out` is above one that comes.
abbrev AreUnder : List ℕ → List ℕ → Type 0
AreUnder out s = All (λ r. All (λ y. y ≤ r) out) s

AreUnder-end :
    (s out : List ℕ) (x : ℕ) → All (λ r. x ≤ r) s → AreUnder out s → AreUnder (out ++ x ∷ []) s
AreUnder-end [] out x l h = tt
AreUnder-end (r ∷ s) out x (k, l) (g, h) =
    (All-append (λ y. y ≤ r) out (x ∷ []) g (k, tt), AreUnder-end s out x l h)

mark_tracked :
    (x : ℕ) (st : UniqueState ℕ)
    → ((y : ℕ) → st.seen y ≡ contains st.out y)
    → (y : ℕ) → mark x st.seen y ≡ contains (st.out ++ x ∷ []) y
unfolding mark contains
mark_tracked x st t y = ground (arith, t y, contains-append st.out (x ∷ []) y)

step_old : (x : ℕ) (st : UniqueState ℕ) → st.seen x ≡ true → unique_step x st ≡ st
unfolding unique_step
step_old x st e = rw e refl

step_new :
    (x : ℕ) (st : UniqueState ℕ)
    → st.seen x ≡ false
    → unique_step x st ≡ record { seen = mark x st.seen; out = st.out ++ x ∷ [] }
unfolding unique_step
step_new x st e = rw e refl

unique_slice-IsSorted :
    (s : List ℕ) (st : UniqueState ℕ)
    → IsOrdered s
    → ((y : ℕ) → st.seen y ≡ contains st.out y)
    → IsSorted st.out
    → AreUnder st.out s
    → IsSorted (unique_slice s st).out
unfolding unique_slice unique_step
unique_slice-IsSorted [] st o t h u = h
unique_slice-IsSorted (x ∷ s) st (l, o) t h (g, u) = elim (Bool-cases (st.seen x)) [
  | inl old ↦
      subst (λ k. IsSorted (unique_slice s k).out) (sym (step_old x st old))
        (unique_slice-IsSorted s st o t h u)
  | inr new ↦
      subst (λ k. IsSorted (unique_slice s k).out) (sym (step_new x st new))
        (unique_slice-IsSorted s (record { seen = mark x st.seen; out = st.out ++ x ∷ [] }) o
          (mark_tracked x st t)
          (append-IsSorted st.out x h (below_new st.out x g (sym (t x) ∙ new)))
          (AreUnder-end s st.out x l u))
]

unique_slice_all {κ} :
    (P : ℕ → Type κ) (s : List ℕ) (st : UniqueState ℕ)
    → All P s
    → All P st.out
    → All P (unique_slice s st).out
unfolding unique_slice unique_step
unique_slice_all P [] st h k = k
unique_slice_all P (x ∷ s) st (g, h) k = elim (Bool-cases (st.seen x)) [
  | inl old ↦
      subst (λ q. All P (unique_slice s q).out) (sym (step_old x st old))
        (unique_slice_all P s st h k)
  | inr new ↦
      subst (λ q. All P (unique_slice s q).out) (sym (step_new x st new))
        (unique_slice_all P s _ h (All-append P st.out (x ∷ []) k (g, tt)))
]

all_under_none : (s : List ℕ) → AreUnder [] s
all_under_none [] = tt
all_under_none (x ∷ s) = (tt, all_under_none s)

-- Of ordered numbers Unique makes strictly increasing ones.
pub unique-IsSorted : (s : List ℕ) → IsOrdered s → IsSorted (unique (s ∷ []))
unfolding unique unique_slices contains
unique-IsSorted s o =
    unique_slice-IsSorted s (record { seen = λ x. false; out = [] }) o (λ y. refl) tt
      (all_under_none s)

pub unique_all {κ} : (P : ℕ → Type κ) (s : List ℕ) → All P s → All P (unique (s ∷ []))
unfolding unique unique_slices
unique_all P s h = unique_slice_all P s (record { seen = λ x. false; out = [] }) h tt
