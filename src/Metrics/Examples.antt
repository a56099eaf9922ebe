-- ===== src/Metrics/Examples.antt =====
-- One metric with a window, over whole numbers.
use go_utils.Interpolate.{literal}
use go_utils.Metrics.Window.{Number, sum}
use go_utils.Metrics.Path.{Value, Found, plain, map, struct, more_fields, no_fields, by_path}
use go_utils.Metrics.Path.Composed.{then_by_path, by_path-append}
use go_utils.Metrics.Collect.{Metric, collect}
use go_utils.Metrics.Collect.InOrder.{AreWindows, Returns, collect-AreWindows}
use go_utils.Prelude.{ℕ, ◌+◌, ◌≡◌, Option, none, [], ◌∷◌, ◌++◌, arith, ltb, Bytes, codes}

abbrev whole : Number
whole = record { Value = ℕ; zero_value = 0; plus = λ a b. a + b; less = ltb }

abbrev no_float : Found → Option ℕ
no_float = λ f. none

abbrev as_text : Value → Bytes
as_text (plain s) = s
as_text v = []

abbrev gas : Value
gas = map (
    more_fields (codes "tx") (struct (more_fields (codes "gas") (plain (codes "21")) no_fields))
      no_fields)

abbrev count_of_messages : Metric whole
count_of_messages = record {
  match_message = none;
  match_fields = [];
  value = [];
  parsed_name = literal (codes "count") ∷ [];
  window_length = 5;
  aggregate = sum;
  transform_func = none;
  parser_func = none;
}

collect-AreWindows_example : Returns (AreWindows whole) (
    collect whole no_float as_text 1 62135596800000000000 62135596800000000000
      (codes "sent")
      gas
      (count_of_messages ∷ [])
      [])
collect-AreWindows_example =
    collect-AreWindows whole no_float as_text 1 62135596800000000000 62135596800000000000
      (codes "sent") gas (count_of_messages ∷ []) [] tt

by_path-append_example :
    by_path gas (codes "tx" ++ b'.' ∷ codes "gas")
    ≡ then_by_path (by_path gas (codes "tx")) (codes "gas")
by_path-append_example =
    by_path-append gas (codes "tx") (codes "gas") (λ e. ground (arith, e))
      (λ e. ground (arith, e), (λ e. ground (arith, e), tt))
