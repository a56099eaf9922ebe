-- ===== src/Sliceutil.antt =====
-- sliceutil/sliceutil.go. A slice is the list of its elements, and Go's map[T]bool is a function that
-- is false on a missing key. Capacities are not modelled, so neither is `Copy`, which is the identity.
pub mod Membership
pub mod Sets
pub mod Ordered
pub mod Positions
use go_utils.Prelude.{
  ℕ, suc, Bool, true, false, List, [], ◌∷◌, ◌++◌, ◌||◌, Comparable, ◌==◌, if◌then◌else◌, length,
  ltb,
}
use go_utils.Prelude.Int.{ℤ, pos, negsuc}

-- The variables of `Unique`.
pub record UniqueState {ℓ} (A : Type ℓ) : Type ℓ where
  pub seen : A → Bool
  pub out : List A

module _ {ℓ} {A : Type ℓ} ⦃c : Comparable A⦄ where
  unfoldable pub contains : List A → A → Bool
  contains [] e = false
  contains (x ∷ s) e = if x == e then true else contains s e

  unfoldable pub contains_all : List A → List A → Bool
  unfolding contains
  contains_all s [] = true
  contains_all s (x ∷ e) = if contains s x then contains_all s e else false

  -- seen[x] = true
  unfoldable pub mark : A → (A → Bool) → A → Bool
  mark x seen y = if x == y then true else seen y

  pub is_unique_loop : List A → (A → Bool) → Bool
  unfolding mark
  is_unique_loop [] seen = true
  is_unique_loop (x ∷ s) seen = if seen x then false else is_unique_loop s (mark x seen)

  unfoldable pub is_unique : List A → Bool
  unfolding is_unique_loop
  is_unique s = is_unique_loop s (λ x. false)

  -- The loop that finds the smallest slice.
  pub smallest : List (List A) → List A → List A
  smallest [] min = min
  smallest (s ∷ ss) min = smallest ss (if ltb (length s) (length min) then s else min)

  -- The inner loop: `found` after all slices are looked at.
  pub in_every : List (List A) → A → Bool
  unfolding contains
  in_every [] x = true
  in_every (s ∷ ss) x = if contains s x then in_every ss x else false

  pub keep_common : List (List A) → List A → List A → List A
  unfolding in_every
  keep_common ss [] out = out
  keep_common ss (x ∷ m) out = keep_common ss m (if in_every ss x then out ++ x ∷ [] else out)

  unfoldable pub intersect : List (List A) → List A
  unfolding smallest keep_common
  intersect [] = []
  intersect (s ∷ ss) = keep_common (s ∷ ss) (smallest (s ∷ ss) s) []

  -- The body of the inner loop of `Unique`.
  pub unique_step : A → UniqueState A → UniqueState A
  unfolding mark
  unique_step x st =
      if st.seen x then st else record { seen = mark x st.seen; out = st.out ++ x ∷ [] }

  pub unique_slice : List A → UniqueState A → UniqueState A
  unfolding unique_step
  unique_slice [] st = st
  unique_slice (x ∷ s) st = unique_slice s (unique_step x st)

  pub unique_slices : List (List A) → UniqueState A → UniqueState A
  unfolding unique_slice
  unique_slices [] st = st
  unique_slices (s ∷ ss) st = unique_slices ss (unique_slice s st)

  unfoldable pub unique : List (List A) → List A
  unfolding unique_slices
  unique ss = (unique_slices ss (record { seen = λ x. false; out = [] })).out

  pub index_of_loop : List A → A → ℕ → ℤ
  index_of_loop [] e i = negsuc 0
  index_of_loop (x ∷ s) e i = if x == e then pos i else index_of_loop s e (suc i)

  unfoldable pub index_of : List A → A → ℤ
  unfolding index_of_loop
  index_of s e = index_of_loop s e 0

  unfoldable pub append_unique : List A → A → List A
  unfolding contains
  append_unique s e = if contains s e then s else s ++ e ∷ []

module _ {ℓ κ} {A : Type ℓ} {B : Type κ} (f : A → B) where
  -- Map: out[i] = f(s[i])
  unfoldable pub map : List A → List B
  map [] = []
  map (x ∷ s) = f x ∷ map s

module _ {ℓ} {A : Type ℓ} (f : A → Bool) where
  pub filter_loop : List A → List A → List A
  filter_loop [] out = out
  filter_loop (x ∷ s) out = filter_loop s (if f x then out ++ x ∷ [] else out)

  unfoldable pub filter : List A → List A
  unfolding filter_loop
  filter s = filter_loop s []
