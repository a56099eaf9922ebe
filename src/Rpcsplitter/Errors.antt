-- ===== src/Rpcsplitter/Errors.antt =====
-- rpcsplitter/errors.go. An error is its message, with the code that an rpc.Error has.
pub mod Merged
pub mod MostCommon
pub mod Text
use Prim.Native.String.{String}
use go_utils.Prelude.Int.{ℤ, pos, negsuc, int_comparable}
use go_utils.Prelude.{
  ℕ, suc, Bool, true, false, Option, none, some, List, [], ◌∷◌, ◌++◌, ltb, if◌then◌else◌,
  Comparable, ◌==◌, string_comparable,
}

pub record Fault : Type 0 where
  pub message : String
  pub code : Option ℤ

abbrev pub ErrorList : Type 0
ErrorList = List Fault

-- The first argument of addError: nil, one error, or an error list.
pub data Base : Type 0 where
  absent : Base
  single : Fault → Base
  several : ErrorList → Base

unfoldable pub has_message : String → ErrorList → Bool
has_message m [] = false
has_message m (e ∷ es) = if m == e.message then true else has_message m es

-- The loop over `errs`, where a nil error is skipped.
unfoldable pub add_loop : ErrorList → List (Option Fault) → ErrorList
unfolding has_message
add_loop list [] = list
add_loop list (none ∷ errs) = add_loop list errs
add_loop list (some e ∷ errs) =
    add_loop (if has_message e.message list then list else list ++ e ∷ []) errs

unfoldable pub base_list : Base → ErrorList
base_list absent = []
base_list (single e) = e ∷ []
base_list (several es) = es

unfoldable pub add_error : Base → List (Option Fault) → ErrorList
unfolding add_loop base_list
add_error base errs = add_loop (base_list base) errs

module _ {ℓ} {A : Type ℓ} ⦃c : Comparable A⦄ where
  -- m[v] after the loop that counts
  unfoldable pub count_of : List A → A → ℕ
  count_of [] v = 0
  count_of (x ∷ s) v = if x == v then suc (count_of s v) else count_of s v

  unfoldable pub most_common_loop : List A → List A → A → ℕ → A
  unfolding count_of
  most_common_loop s [] max max_count = max
  most_common_loop s (k ∷ keys) max max_count =
      let more = most_common_loop s keys k (count_of s k) in
      let same = most_common_loop s keys max max_count in
      if ltb max_count (count_of s k) then more else same

  -- mostCommon, with the order in which Go goes through the map's keys, and the zero value.
  unfoldable pub most_common : A → List A → List A → A
  unfolding most_common_loop
  most_common zero_value keys [] = zero_value
  most_common zero_value keys (x ∷ s) = most_common_loop (x ∷ s) keys zero_value 0

-- The codes of the errors that have one.
unfoldable pub codes_of : ErrorList → List ℤ
codes_of [] = []
codes_of (e ∷ es) = elim e.code [ none ↦ codes_of es | some c ↦ c ∷ codes_of es ]

-- errorList.ErrorCode, with the order in which Go goes through the map's keys
unfoldable pub code_or_most_common : List ℤ → List ℤ → ℤ
unfolding most_common
code_or_most_common keys [] = negsuc 31999
code_or_most_common keys (c ∷ cs) = most_common (pos 0) keys (c ∷ cs)

unfoldable pub error_code : List ℤ → ErrorList → ℤ
unfolding codes_of code_or_most_common
error_code keys es = code_or_most_common keys (codes_of es)
