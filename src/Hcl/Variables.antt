-- ===== src/Hcl/Variables.antt =====
-- The tree of variables of hcl/ext/variables/variables.go. Keys and values are those of cty, a parameter.
pub mod Paths
pub mod Optimized
use Prim.Native.String.{String}
use go_utils.Prelude.Int.{ℤ, pos, eq_ℤ}
use go_utils.Maputil.{Entry, put}
use go_utils.Prelude.{
  ℕ, suc, Bool, true, false, not, Option, none, some, List, [], ◌∷◌, ◌++◌, if◌then◌else◌, length,
}
use go_utils.Prelude.{string_comparable}

-- What the code uses of cty: Equals of two keys, Convert of a key to a string, and its values.
pub record Cty : Type 1 where
  pub Value : Type 0
  pub key_eq : Value → Value → Bool
  pub key_text : Value → Option String
  pub nil_val : Value
  pub tuple_val : List Value → Value
  pub object_val : List (Entry String Value) → Value

-- An expression, told apart by a number, with the interface that it has: exprList, exprMap or neither.
pub data Expression : Type 0 where
  expr_list expr_map other_expr : ℕ → Expression

module _ (c : Cty) where
  -- The fields expression, resolved, size and variables; `visited` is not read here.
  mutual
    pub data Variables : Type 0 where
      variable : Option Expression → Option c.Value → ℤ → Children → Variables

    pub data Children : Type 0 where
      no_more : Children
      kv : c.Value → Variables → Children → Children

  pub record Closest : Type 0 where
    pub distance : ℕ
    pub found : Variables

  -- The diagnostic for a key that is no text: the key, and the expression of its variable.
  pub record BadKey : Type 0 where
    pub key : c.Value
    pub expression : Expression

  -- What a conversion does: it panics, fails with diagnostics, or returns a value.
  pub data Converted (A : Type 0) : Type 0 where
    panicked : Converted A
    failed : List BadKey → Converted A
    valued : A → Converted A

  pub record OptimizedTree : Type 0 where
    pub tree : Variables
    pub outcome : Converted Unit

  pub record OptimizedAll : Type 0 where
    pub children : Children
    pub outcome : Converted Unit

module _ {c : Cty} where
  abbrev pub empty_variable : Variables c
  empty_variable = variable none none (pos 0) no_more

  unfoldable pub count_children : Children c → ℕ
  count_children no_more = 0
  count_children (kv k v cs) = suc (count_children cs)

  -- A new variable, with what is then done to the one at the end of the path.
  unfoldable pub new_path : List c.Value → (Variables c → Variables c) → Variables c
  new_path [] f = f empty_variable
  new_path (k ∷ ks) f = variable none none (pos 0) (kv k (new_path ks f) no_more)

  -- `path`, and what is done to the variable that it returns.
  unfoldable mutual
    unfolding new_path

    pub path : Variables c → List c.Value → (Variables c → Variables c) → Variables c
    path v [] f = f v
    path (variable e r s cs) (k ∷ ks) f = variable e r s (path_children cs k ks f)

    pub path_children :
        Children c → c.Value → List c.Value → (Variables c → Variables c) → Children c
    path_children no_more k ks f = kv k (new_path ks f) no_more
    path_children (kv j v cs) k ks f =
        let here = path v ks f in
        let rest = path_children cs k ks f in if c.key_eq j k then kv j here cs else kv j v rest

  unfoldable mutual
    pub closest : Variables c → List c.Value → Closest c
    closest v [] = record { distance = 0; found = v }
    closest (variable e r s cs) (k ∷ ks) =
        closest_child cs k ks (record { distance = suc (length ks); found = variable e r s cs })

    pub closest_child : Children c → c.Value → List c.Value → Closest c → Closest c
    closest_child no_more k ks this = this
    closest_child (kv j v cs) k ks this =
        let here = closest v ks in
        let rest = closest_child cs k ks this in if c.key_eq j k then here else rest

  unfoldable pub all_resolved : Children c → Bool
  all_resolved no_more = true
  all_resolved (kv k (variable e none s cs) more) = false
  all_resolved (kv k (variable e (some r) s cs) more) = all_resolved more

  abbrev pub expression_of : Variables c → Option Expression
  expression_of (variable e r s cs) = e

  -- Both results; the diagnostics of both, one after the other.
  abbrev pub both :
      {A B : Type 0} → Converted c A → Converted c (List B) → (A → B) → Converted c (List B)
  both panicked more f = panicked
  both (failed ds) panicked f = panicked
  both (failed ds) (failed es) f = failed (ds ++ es)
  both (failed ds) (valued bs) f = failed ds
  both (valued a) panicked f = panicked
  both (valued a) (failed es) f = failed es
  both (valued a) (valued bs) f = valued (f a ∷ bs)

  abbrev pub map_converted : {A B : Type 0} → (A → B) → Converted c A → Converted c B
  map_converted f panicked = panicked
  map_converted f (failed ds) = failed ds
  map_converted f (valued a) = valued (f a)

  -- toValue. A tuple has the diagnostics of all its items. In an object, the keys behind an error are still
  -- converted, but no values are; the range of the expression of a variable that has none panics.
  unfoldable mutual
    unfolding put

    pub to_value : Variables c → Converted c c.Value
    to_value (variable e (some r) s cs) = valued r
    to_value (variable none none s no_more) = valued c.nil_val
    to_value (variable none none s (kv k v cs)) =
        map_converted c.object_val (object_values (kv k v cs) [] [])
    to_value (variable (some (expr_list n)) none s cs) = map_converted c.tuple_val (tuple_values cs)
    to_value (variable (some (expr_map n)) none s cs) =
        map_converted c.object_val (object_values cs [] [])
    to_value (variable (some (other_expr n)) none s cs) = valued c.nil_val

    pub tuple_values : Children c → Converted c (List c.Value)
    tuple_values no_more = valued []
    tuple_values (kv k v cs) = both (to_value v) (tuple_values cs) (λ x. x)

    pub object_values :
        Children c
        → List (BadKey c)
        → List (Entry String c.Value)
        → Converted c (List (Entry String c.Value))
    object_values no_more [] vals = valued vals
    object_values no_more (d ∷ ds) vals = failed (d ∷ ds)
    object_values (kv k v cs) ds vals = elim (c.key_text k) [
      | none ↦ elim (expression_of v) [
        | none ↦ panicked
        | some e ↦ object_values cs (ds ++ record { key = k; expression = e } ∷ []) vals
      ]
      | some t ↦ elim ds [
        | d ∷ es ↦ object_values cs (d ∷ es) vals
        | [] ↦ elim (to_value v) [
          | panicked ↦ panicked
          | failed es ↦ object_values cs es vals
          | valued x ↦ object_values cs [] (put vals t x)
        ]
      ]
    ]

  -- The end of optimize, for the optimized children of a variable that is not resolved.
  unfoldable pub resolve_if_whole : Option Expression → ℤ → Children c → OptimizedTree c
  unfolding count_children all_resolved to_value
  resolve_if_whole e s cs =
      if not (eq_ℤ s (pos (count_children cs)))
      then record { tree = variable e none s cs; outcome = valued tt }
      else if all_resolved cs
      then (elim (to_value (variable e none s cs)) [
        | panicked ↦ record { tree = variable e none s cs; outcome = panicked }
        | failed ds ↦ record { tree = variable e none s cs; outcome = failed ds }
        | valued x ↦ record { tree = variable e (some x) s no_more; outcome = valued tt }
      ])
      else record { tree = variable e none s cs; outcome = valued tt }

  unfoldable pub after_children : Option Expression → ℤ → OptimizedAll c → OptimizedTree c
  unfolding resolve_if_whole
  after_children e s o = elim o.outcome [
    | panicked ↦ record { tree = variable e none s o.children; outcome = panicked }
    | failed ds ↦ record { tree = variable e none s o.children; outcome = failed ds }
    | valued u ↦ resolve_if_whole e s o.children
  ]

  unfoldable pub with_child :
      c.Value → OptimizedTree c → OptimizedAll c → Children c → OptimizedAll c
  with_child k o more cs = elim o.outcome [
    | panicked ↦ record { children = kv k o.tree cs; outcome = panicked }
    | failed ds ↦ record { children = kv k o.tree cs; outcome = failed ds }
    | valued u ↦ record { children = kv k o.tree more.children; outcome = more.outcome }
  ]

  -- The loop over the children stops at the first error, and at a panic, which leaves the tree as it is then.
  unfoldable mutual
    unfolding after_children with_child

    pub optimize : Variables c → OptimizedTree c
    optimize (variable e (some r) s cs) = record {
      tree = variable e (some r) s cs;
      outcome = valued tt;
    }
    optimize (variable none none s no_more) = record {
      tree = variable none none s no_more;
      outcome = valued tt;
    }
    optimize (variable none none s (kv k v cs)) =
        after_children none s (optimize_children (kv k v cs))
    optimize (variable (some x) none s cs) = after_children (some x) s (optimize_children cs)

    pub optimize_children : Children c → OptimizedAll c
    optimize_children no_more = record { children = no_more; outcome = valued tt }
    optimize_children (kv k v cs) = with_child k (optimize v) (optimize_children cs) cs
