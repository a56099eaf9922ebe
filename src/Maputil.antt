-- ===== src/Maputil.antt =====
-- maputil/maputil.go. A Go map is a list of entries, in the order in which `range` goes through them, with
-- each key once. SortedKeys, which is Keys and the caller's own function, is not modelled.
pub mod Lookup
pub mod Examples
use go_utils.Prelude.{Bool, Option, none, some, List, [], ◌∷◌, if◌then◌else◌, Comparable, ◌==◌}

pub record Entry {ℓ κ} (K : Type ℓ) (V : Type κ) : Type (ℓ ⊔ κ) where
  pub key : K
  pub value : V

module _ {ℓ} {K V : Type ℓ} ⦃c : Comparable K⦄ where
  -- m[k]
  unfoldable pub lookup : List (Entry K V) → K → Option V
  lookup [] k = none
  lookup (e ∷ m) k = if e.key == k then some e.value else lookup m k

  -- m[k] = v
  unfoldable pub put : List (Entry K V) → K → V → List (Entry K V)
  put [] k v = record { key = k; value = v } ∷ []
  put (e ∷ m) k v =
      let rest = put m k v in if e.key == k then record { key = k; value = v } ∷ m else e ∷ rest

  unfoldable pub keys : List (Entry K V) → List K
  keys [] = []
  keys (e ∷ m) = e.key ∷ keys m

  -- Slice
  unfoldable pub values : List (Entry K V) → List V
  values [] = []
  values (e ∷ m) = e.value ∷ values m

  -- `for k, v := range m { newMap[k] = v }`
  unfoldable pub put_all : List (Entry K V) → List (Entry K V) → List (Entry K V)
  unfolding put
  put_all new [] = new
  put_all new (e ∷ m) = put_all (put new e.key e.value) m

  unfoldable pub copy : List (Entry K V) → List (Entry K V)
  unfolding put_all
  copy m = put_all [] m

  unfoldable pub merge : List (Entry K V) → List (Entry K V) → List (Entry K V)
  unfolding put_all
  merge m1 m2 = put_all (put_all [] m1) m2

  -- The loop of Filter.
  unfoldable pub filter_into : (V → Bool) → List (Entry K V) → List (Entry K V) → List (Entry K V)
  unfolding put
  filter_into f new [] = new
  filter_into f new (e ∷ m) = filter_into f (if f e.value then put new e.key e.value else new) m

  unfoldable pub filter_values : (V → Bool) → List (Entry K V) → List (Entry K V)
  unfolding filter_into
  filter_values f m = filter_into f [] m

  -- The loop of Select; `none` is the error for a key that is not present.
  unfoldable pub select_into :
      List (Entry K V) → List K → List (Entry K V) → Option (List (Entry K V))
  unfolding put lookup
  select_into m [] new = some new
  select_into m (k ∷ kk) new = elim (lookup m k) [
    | none ↦ none
    | some v ↦ select_into m kk (put new k v)
  ]

  unfoldable pub select : List (Entry K V) → List K → Option (List (Entry K V))
  unfolding select_into
  select m kk = select_into m kk []
