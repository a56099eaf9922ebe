-- ===== src/Hcl/Examples.antt =====
-- Variables whose keys are numbers.
use go_utils.Prelude.Int.{pos, negsuc}
use go_utils.Hcl.Variables.{
  Cty, Variables, variable, expr_list, expr_map, other_expr, failed, no_more, kv, path, closest,
  to_value, optimize,
}
use go_utils.Hcl.Variables.Optimized.{to_value-optimize}
use go_utils.Hcl.Variables.Paths.{at, closest-path}
use go_utils.Prelude.{
  ℕ, ◌≡◌, refl, true, none, some, [], ◌∷◌, arith, nat_beq, length, if◌then◌else◌,
}

abbrev counted : Cty
counted = record {
  Value = ℕ;
  key_eq = nat_beq;
  key_text = λ k. if nat_beq k 5 then none else some "key";
  nil_val = 0;
  tuple_val = λ vs. length vs;
  object_val = λ es. length es;
}

abbrev pair : Variables counted
pair = variable (some (expr_list 0)) none (pos 2) (
    kv 0 (variable (some (other_expr 1)) (some 7) (negsuc 0) no_more)
      (kv 1 (variable (some (other_expr 2)) (some 8) (negsuc 0) no_more) no_more))

-- A map with a key that is no text, and a list behind it.
abbrev faulty : Variables counted
faulty =
    variable (some (expr_map 3)) none (pos 2)
      (kv 5 (variable (some (other_expr 4)) (some 1) (negsuc 0) no_more) (kv 6 pair no_more))

faulty_fails : to_value faulty ≡ failed (record { key = 5; expression = other_expr 4 } ∷ [])
unfolding to_value
faulty_fails = refl

to_value-optimize_example : to_value (optimize faulty).tree ≡ to_value faulty
to_value-optimize_example = to_value-optimize faulty

abbrev resolve : Variables counted → Variables counted
resolve (variable e r s cs) = variable e (some 9) s cs

equal_keys : (k : ℕ) → nat_beq k k ≡ true
equal_keys k = ground arith

closest-path_example :
    closest (path pair (1 ∷ 4 ∷ []) resolve) (1 ∷ 4 ∷ [])
    ≡ record { distance = 0; found = resolve (at pair (1 ∷ 4 ∷ [])) }
closest-path_example = closest-path equal_keys resolve pair (1 ∷ 4 ∷ [])
