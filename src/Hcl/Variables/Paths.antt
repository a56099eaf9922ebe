-- ===== src/Hcl/Variables/Paths.antt =====
-- path and closest of hcl/ext/variables/variables.go.
use go_utils.Hcl.Variables.{
  Cty, Variables, variable, Children, no_more, kv, Closest, empty_variable, new_path, path,
  path_children, closest, closest_child,
}
use go_utils.Prelude.{◌≡◌, refl, ap, ◌∙◌, Bool, true, false, List, [], ◌∷◌, if◌then◌else◌}

module _ {c : Cty} where
  -- The variable at a path; one that does not exist is as `path` creates it.
  mutual
    pub at : Variables c → List c.Value → Variables c
    at v [] = v
    at (variable e r s cs) (k ∷ ks) = at_child cs k ks

    pub at_child : Children c → c.Value → List c.Value → Variables c
    at_child no_more k ks = empty_variable
    at_child (kv j v cs) k ks =
        let here = at v ks in let rest = at_child cs k ks in if c.key_eq j k then here else rest

module _ {c : Cty} (same : (k : c.Value) → c.key_eq k k ≡ true)
    (f : Variables c → Variables c) where
  abbrev exactly : Variables c → Closest c
  exactly v = record { distance = 0; found = v }

  closest-new_path : (ks : List c.Value) → closest (new_path ks f) ks ≡ exactly (f empty_variable)
  unfolding closest new_path
  closest-new_path [] = refl
  closest-new_path (k ∷ ks) = rw (same k) (closest-new_path ks)

  -- The child of the first key that equals, or the next ones.
  closest_kv :
      (j k : c.Value) (v : Variables c) (cs : Children c) (ks : List c.Value) (this : Closest c)
      → closest (path v ks f) ks ≡ exactly (f (at v ks))
      → closest_child (path_children cs k ks f) k ks this ≡ exactly (f (at_child cs k ks))
      → (b : Bool) → c.key_eq j k ≡ b
      → closest_child
          (if b then kv j (path v ks f) cs else kv j v (path_children cs k ks f))
          k
          ks
          this
        ≡ exactly (f (if b then at v ks else at_child cs k ks))
  unfolding closest_child
  closest_kv j k v cs ks this here rest true q =
      ap (λ b. if b then closest (path v ks f) ks else closest_child cs k ks this) q ∙ here
  closest_kv j k v cs ks this here rest false q =
      ap (λ b. if b then closest v ks else closest_child (path_children cs k ks f) k ks this) q
      ∙ rest

  mutual
    unfolding closest path at

    finds_path :
        (v : Variables c) (ks : List c.Value) → closest (path v ks f) ks ≡ exactly (f (at v ks))
    finds_path v [] = refl
    finds_path (variable e r s cs) (k ∷ ks) = finds_child cs k ks _

    finds_child :
        (cs : Children c) (k : c.Value) (ks : List c.Value) (this : Closest c)
        → closest_child (path_children cs k ks f) k ks this ≡ exactly (f (at_child cs k ks))
    finds_child no_more k ks this = rw (same k) (closest-new_path ks)
    finds_child (kv j v cs) k ks this =
        closest_kv j k v cs ks this (finds_path v ks) (finds_child cs k ks this) (c.key_eq j k) refl

  -- If each key equals itself, then closest finds what was done by way of path: at no distance, and from
  -- the variable that stood at this path, or from an empty one.
  pub closest-path :
      (v : Variables c) (ks : List c.Value) → closest (path v ks f) ks ≡ exactly (f (at v ks))
  closest-path v ks = finds_path v ks
