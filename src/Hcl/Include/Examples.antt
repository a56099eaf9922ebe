-- ===== src/Hcl/Include/Examples.antt =====
-- Include of hcl/ext/include/include.go on bodies that are numbers: 0 includes nothing, 1 the files of a
-- pattern, and the others themselves.
use go_utils.Hcl.Include.{
  has_errors, Library, answered, fails, gives, too_many_nested, has_star, parse_source,
  parse_file_fs, decode_expression, glob, on_answer, on_option, on_decoded, unless_errors,
  then_load, load_file, load_files, load_patterns, merged, include_by, include_levels, include,
}
use go_utils.Hcl.Include.Deeper.{include_deeper}
use go_utils.Hcl.Include.Exact.{include-Whole}
use go_utils.Hcl.Include.Tree.{Succeeds, Whole}
use go_utils.Prelude.Int.{pos, negsuc}
use go_utils.Prelude.{
  ℕ, zero, suc, ◌+◌, ◌≡◌, ◌↔◌, refl, Option, none, some, List, [], ◌∷◌, arith, Bytes, codes,
  bytes_eq, if◌then◌else◌,
}

abbrev total : List ℕ → ℕ
total [] = 0
total (n ∷ ns) = n + total ns

abbrev attr_of : ℕ → Option ℕ
attr_of zero = none
attr_of (suc n) = some (suc n)

abbrev patterns_of : ℕ → List Bytes
patterns_of zero = []
patterns_of (suc zero) = codes "*" ∷ codes "x" ∷ []
patterns_of (suc (suc n)) = codes "self" ∷ []

abbrev first_of : Bytes → ℕ
first_of [] = 0
first_of (c ∷ cs) = c

abbrev files : Library ℕ ℕ ℕ ℕ
files = record {
  partial_content = λ body. record { attr = attr_of body; remain = body + 10; diags = [] };
  expr_value = λ expr. (expr, []);
  map_strings = λ value. answered (patterns_of value);
  parse_config = λ src filename. (first_of src, []);
  reads_file = λ f path. answered (if bytes_eq path (codes "self") then 2 ∷ [] else 0 ∷ []);
  globs = λ f pattern. answered (codes "y" ∷ codes "z" ∷ []);
  subs = λ f path. answered f;
  dir = λ path. path;
  base = λ path. path;
  merge_bodies = total;
}

include_three : include files 0 1 (pos 0) ≡ gives 11 []
unfolding include include_levels include_by load_patterns load_files load_file parse_file_fs
    parse_source decode_expression glob has_star has_errors on_answer on_option on_decoded
    unless_errors then_load merged
include_three = refl

include_no_depth : include files 0 1 (negsuc 0) ≡ fails (too_many_nested ∷ [])
unfolding include include_levels include_by decode_expression has_errors on_answer on_option
    on_decoded merged
include_no_depth = refl

include-Whole_example : Succeeds (include files 0 1 (pos 0)) 11 ↔ Whole files 1 0 1 11
include-Whole_example = include-Whole files 0 1 11 (pos 0)

include_deeper_example : Succeeds (include files 0 1 (pos 5)) 11
unfolding include include_levels include_by load_patterns load_files load_file parse_file_fs
    parse_source decode_expression glob has_star has_errors on_answer on_option on_decoded
    unless_errors then_load merged
include_deeper_example = include_deeper files 0 1 11 (pos 0) (pos 5) (omega arith) ([], refl, refl)
