-- ===== src/Hcl/Variables/Optimized.antt =====
-- What optimize of hcl/ext/variables/variables.go does to the value of a variable.
use Prim.Native.String.{String}
use go_utils.Prelude.Int.{ℤ, pos, eq_ℤ}
use go_utils.Maputil.{Entry, put}
use go_utils.Hcl.Variables.{
  Cty, Expression, expr_list, expr_map, other_expr, Variables, variable, Children, no_more, kv,
  BadKey, Converted, panicked, failed, valued, OptimizedTree, OptimizedAll, count_children,
  all_resolved, expression_of, both, map_converted, to_value, tuple_values, object_values,
  resolve_if_whole, after_children, with_child, optimize, optimize_children,
}
use go_utils.Prelude.{
  ◌≡◌, refl, ap, ◌∙◌, ◌⊎◌, inl, inr, Bool, true, false, Option, none, some, List, [], ◌∷◌, ◌++◌,
  Bool-cases,
}
use go_utils.Prelude.{string_comparable}

Converted-cases :
    {c : Cty} {A : Type 0} (o : Converted c A)
    → (o ≡ panicked) ⊎ (((ds : List (BadKey c)) × (o ≡ failed ds)) ⊎ ((a : A) × (o ≡ valued a)))
Converted-cases panicked = inl refl
Converted-cases (failed ds) = inr (inl (ds, refl))
Converted-cases (valued a) = inr (inr (a, refl))

-- What one child of an object does, by its key, its expression and its value.
one_child :
    {c : Cty}
    → c.Value
    → Option String
    → Option Expression
    → Converted c c.Value
    → List (BadKey c)
    → List (Entry String c.Value)
    → (List (BadKey c) → List (Entry String c.Value) → Converted c (List (Entry String c.Value)))
    → Converted c (List (Entry String c.Value))
one_child k text e o ds vals go = elim text [
  | none ↦ elim e [
    | none ↦ panicked
    | some x ↦ go (ds ++ record { key = k; expression = x } ∷ []) vals
  ]
  | some t ↦ elim ds [
    | d ∷ es ↦ go (d ∷ es) vals
    | [] ↦ elim o [ panicked ↦ panicked | failed es ↦ go es vals | valued x ↦ go [] (put vals t x) ]
  ]
]

module _ {c : Cty} where
  -- Children with the same values and expressions under the same keys.
  record SameValues (cs ds : Children c) : Type 0 where
    tuple : tuple_values cs ≡ tuple_values ds
    object :
        (bad : List (BadKey c)) (vals : List (Entry String c.Value))
        → object_values cs bad vals ≡ object_values ds bad vals

  same_children : (cs : Children c) → SameValues cs cs
  same_children cs = record { tuple = refl; object = λ bad vals. refl }

  some_children : Children c → Bool
  some_children no_more = false
  some_children (kv k v cs) = true

  to_value-SameValues :
      (e : Option Expression) (s : ℤ) (cs ds : Children c)
      → SameValues cs ds
      → some_children cs ≡ some_children ds
      → to_value (variable e none s cs) ≡ to_value (variable e none s ds)
  unfolding to_value some_children
  to_value-SameValues none s no_more no_more h e = refl
  to_value-SameValues none s no_more (kv j w ds) h e = cc
  to_value-SameValues none s (kv k v cs) no_more h e = cc
  to_value-SameValues none s (kv k v cs) (kv j w ds) h e =
      ap (map_converted c.object_val) (h.object [] [])
  to_value-SameValues (some (expr_list n)) s cs ds h e = ap (map_converted c.tuple_val) h.tuple
  to_value-SameValues (some (expr_map n)) s cs ds h e =
      ap (map_converted c.object_val) (h.object [] [])
  to_value-SameValues (some (other_expr n)) s cs ds h e = refl

  resolve_if_whole-value :
      (e : Option Expression) (s : ℤ) (cs : Children c)
      → (to_value (resolve_if_whole e s cs).tree ≡ to_value (variable e none s cs))
        × (expression_of (resolve_if_whole e s cs).tree ≡ e)
  unfolding resolve_if_whole
  resolve_if_whole-value e s cs = elim (Bool-cases (eq_ℤ s (pos (count_children cs)))) [
    | inr d ↦ rw d (refl, refl)
    | inl d ↦ elim (Bool-cases (all_resolved cs)) [
      | inr a ↦ rw (d, a) (refl, refl)
      | inl a ↦ elim (Converted-cases (to_value (variable e none s cs))) [
        | inl x ↦ rw (d, a, x) (x, refl)
        | inr (inl (ds, x)) ↦ rw (d, a, x) (x, refl)
        | inr (inr (v, x)) ↦ rw (d, a, x) (refl, refl)
      ]
    ]
  ]

  after_children-value :
      (e : Option Expression) (s : ℤ) (o : OptimizedAll c) (cs : Children c)
      → SameValues o.children cs
      → some_children o.children ≡ some_children cs
      → (to_value (after_children e s o).tree ≡ to_value (variable e none s cs))
        × (expression_of (after_children e s o).tree ≡ e)
  unfolding after_children
  after_children-value e s o cs h k =
      let same = to_value-SameValues e s o.children cs h k in
      elim (Converted-cases o.outcome) [
        | inl f ↦ rw (f, after_children) (same, refl)
        | inr (inl (ds, f)) ↦ rw (f, after_children) (same, refl)
        | inr (inr (u, f)) ↦
            let (value, expression) = resolve_if_whole-value e s o.children in
            rw (f, after_children) (value ∙ same, expression)
      ]

  optimize_children-some :
      (cs : Children c) → some_children (optimize_children cs).children ≡ some_children cs
  unfolding optimize_children with_child some_children
  optimize_children-some no_more = refl
  optimize_children-some (kv k v cs) = elim (Converted-cases (optimize v).outcome) [
    | inl f ↦ rw (f, with_child) refl
    | inr (inl (ds, f)) ↦ rw (f, with_child) refl
    | inr (inr (u, f)) ↦ rw (f, with_child) refl
  ]

  kv-SameValues :
      (k : c.Value) (v w : Variables c) (cs ds : Children c)
      → to_value v ≡ to_value w
      → expression_of v ≡ expression_of w
      → SameValues cs ds
      → SameValues (kv k v cs) (kv k w ds)
  unfolding tuple_values object_values one_child
  kv-SameValues k v w cs ds e x h = record {
    tuple =
        ap (λ o. both o (tuple_values cs) (λ y. y)) e
        ∙ ap (λ os. both (to_value w) os (λ y. y)) h.tuple;
    object = λ bad vals i. one_child k (c.key_text k) (x i) (e i) bad vals (λ b l. h.object b l i);
  }

  with_child-SameValues :
      (k : c.Value) (v : Variables c) (cs : Children c) (o : OptimizedTree c)
      (more : OptimizedAll c)
      → to_value o.tree ≡ to_value v
      → expression_of o.tree ≡ expression_of v
      → SameValues more.children cs
      → SameValues (with_child k o more cs).children (kv k v cs)
  unfolding with_child
  with_child-SameValues k v cs o more e x h =
      let stopped = kv-SameValues k o.tree v cs cs e x (same_children cs) in
      elim (Converted-cases o.outcome) [
        | inl f ↦ rw (f, with_child) stopped
        | inr (inl (ds, f)) ↦ rw (f, with_child) stopped
        | inr (inr (u, f)) ↦ rw (f, with_child) (kv-SameValues k o.tree v more.children cs e x h)
      ]

  mutual
    unfolding optimize optimize_children

    optimize_value :
        (t : Variables c)
        → (to_value (optimize t).tree ≡ to_value t)
          × (expression_of (optimize t).tree ≡ expression_of t)
    optimize_value (variable e (some r) s cs) = (refl, refl)
    optimize_value (variable none none s no_more) = (refl, refl)
    optimize_value (variable none none s (kv k v cs)) =
        after_children-value none s (optimize_children (kv k v cs)) (kv k v cs)
          (optimize_children_values (kv k v cs)) (optimize_children-some (kv k v cs))
    optimize_value (variable (some x) none s cs) =
        after_children-value (some x) s (optimize_children cs) cs (optimize_children_values cs)
          (optimize_children-some cs)

    optimize_children_values : (cs : Children c) → SameValues (optimize_children cs).children cs
    optimize_children_values no_more = same_children no_more
    optimize_children_values (kv k v cs) =
        let (value, expression) = optimize_value v in
        with_child-SameValues k v cs (optimize v) (optimize_children cs) value expression
          (optimize_children_values cs)

  -- optimize does not change what toValue does with a variable, whatever is resolved in it, and also when
  -- optimize itself stops at an error or panics: the value, the diagnostics, each with its key and its
  -- expression and in their order, or the panic.
  pub to_value-optimize : (t : Variables c) → to_value (optimize t).tree ≡ to_value t
  to_value-optimize t = (optimize_value t).0
