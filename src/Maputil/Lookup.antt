-- ===== src/Maputil/Lookup.antt =====
-- What is found under a key in the maps that maputil/maputil.go makes.
use go_utils.Prelude.{
  ◌≡◌, refl, sym, ap, ◌∙◌, inl, inr, true, Option, none, some, List, [], ◌∷◌, arith, if◌then◌else◌,
  Bool-cases, Option-cases, Comparable, ◌==◌, ==_refl,
}
use go_utils.Maputil.{Entry, lookup, put, put_all, merge, select_into, select}
use go_utils.Sliceutil.{contains}

abbrev pub or_else {ℓ} : {V : Type ℓ} → Option V → Option V → Option V
or_else none o = o
or_else (some v) o = some v

pub or_else-none {ℓ} : {V : Type ℓ} (o : Option V) → or_else o none ≡ o
or_else-none none = refl
or_else-none (some v) = refl

module _ {ℓ} {K V : Type ℓ} ⦃c : Comparable K⦄ where
  -- A Go map has each key once.
  abbrev pub IsMap : List (Entry K V) → Type ℓ
  IsMap [] = Unit
  IsMap (e ∷ m) = (lookup m e.key ≡ none) × IsMap m

  pub lookup-put :
      (m : List (Entry K V)) (k : K) (v : V) (x : K)
      → lookup (put m k v) x ≡ (if k == x then some v else lookup m x)
  unfolding lookup put
  lookup-put [] k v x = refl
  lookup-put (e ∷ m) k v x = elim (Bool-cases (e.key == k)) [
    | inl same ↦ rw same (ground (arith, c.decides e.key k))
    | inr other ↦
        rw other
          (ground (arith, lookup-put m k v x, c.decides e.key k, c.decides e.key x, c.decides k x))
  ]

  lookup-put_all :
      (new m : List (Entry K V)) (x : K)
      → IsMap m
      → lookup (put_all new m) x ≡ or_else (lookup m x) (lookup new x)
  unfolding lookup put_all
  lookup-put_all new [] x h = refl
  lookup-put_all new (e ∷ m) x (n, h) = elim (Bool-cases (e.key == x)) [
    | inl same ↦
        let e_key : e.key ≡ x = (c.decides e.key x).0 same in
        let missing : lookup m x ≡ none = ap (lookup m) (sym e_key) ∙ n in
        rw
          (
            same,
            lookup-put_all (put new e.key e.value) m x h,
            lookup-put new e.key e.value x,
            same,
            missing,
          )
          refl
    | inr other ↦ rw other (
        ground
          (arith, lookup-put_all (put new e.key e.value) m x h, lookup-put new e.key e.value x))
  ]

  -- `Merge` finds under a key what the second map has, or else what the first has.
  pub lookup-merge :
      (m1 m2 : List (Entry K V)) (x : K)
      → IsMap m1
      → IsMap m2
      → lookup (merge m1 m2) x ≡ or_else (lookup m2 x) (lookup m1 x)
  unfolding merge lookup
  lookup-merge m1 m2 x h k =
      lookup-put_all (put_all [] m1) m2 x k
      ∙ ap (or_else (lookup m2 x)) (lookup-put_all [] m1 x h ∙ or_else-none (lookup m1 x))

  -- What `Select` is asked for: a map with exactly the keys that are listed, with their values, or an
  -- error, when a key that is listed is missing.
  abbrev pub IsSelection : List (Entry K V) → List K → Option (List (Entry K V)) → Type ℓ
  IsSelection m kk (some new) =
      (x : K) → lookup new x ≡ (if contains kk x then lookup m x else none)
  IsSelection m kk none = (k : K) × (contains kk k ≡ true) × (lookup m k ≡ none)

  -- The same from a map that has been filled so far.
  abbrev Selects : List (Entry K V) → List K → List (Entry K V) → Option (List (Entry K V)) → Type ℓ
  Selects m kk new (some out) =
      (x : K) → lookup out x ≡ (if contains kk x then lookup m x else lookup new x)
  Selects m kk new none = (k : K) × (contains kk k ≡ true) × (lookup m k ≡ none)

  Selects-found :
      (m : List (Entry K V)) (k : K) (kk : List K) (v : V) (new : List (Entry K V))
      (o : Option (List (Entry K V)))
      → lookup m k ≡ some v
      → Selects m kk (put new k v) o
      → Selects m (k ∷ kk) new o
  unfolding contains
  Selects-found m k kk v new none q (x, i, l) = (x, ground (arith, i), l)
  Selects-found m k kk v new (some out) q h =
      λ x. ground (arith, h x, lookup-put new k v x, c.decides k x, q)

  select_into-Selects :
      (m : List (Entry K V)) (kk : List K) (new : List (Entry K V))
      → Selects m kk new (select_into m kk new)
  unfolding select_into contains
  select_into-Selects m [] new = λ x. refl
  select_into-Selects m (k ∷ kk) new = elim (Option-cases (lookup m k)) [
    | inl missing ↦ rw (missing, select_into) (k, rw (==_refl k) refl, missing)
    | inr (v, q) ↦
        Selects-found m k kk v new _ q
          (rw (q, select_into) (select_into-Selects m kk (put new k v)))
  ]

  IsSelection-Selects :
      (m : List (Entry K V)) (kk : List K) (o : Option (List (Entry K V)))
      → Selects m kk [] o
      → IsSelection m kk o
  unfolding lookup
  IsSelection-Selects m kk none h = h
  IsSelection-Selects m kk (some out) h = h

  -- `Select` returns a map that has exactly the listed keys, with the values that they have in the given
  -- map, or it fails, and then some listed key is missing from the given map.
  pub select-IsSelection : (m : List (Entry K V)) (kk : List K) → IsSelection m kk (select m kk)
  unfolding select
  select-IsSelection m kk = IsSelection-Selects m kk _ (select_into-Selects m kk [])
