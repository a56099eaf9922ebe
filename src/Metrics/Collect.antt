-- ===== src/Metrics/Collect.antt =====
-- collect of log/metrics/log.go: from a log message to the points of the metrics that match it. toFloat
-- and the text that toString makes of a value are parameters, as are the functions of a metric.
pub mod InOrder
use go_utils.Interpolate.{Variable, Part, literal, variable, Parsed}
use go_utils.Maputil.{Entry, lookup, put}
use go_utils.Metrics.Window.{Number, Aggregate, Point, Aggregated, add_point, get_point}
use go_utils.Metrics.Path.{Value, Fields, map, Found, found, invalid, panicked, by_path}
use go_utils.Prelude.{
  ℕ, Bool, true, false, not, Option, none, some, List, [], ◌∷◌, ◌++◌, if◌then◌else◌, Bytes,
}
use go_utils.Prelude.{bytes_comparable}

-- An index out of range panics.
pub data Try {ℓ} (A : Type ℓ) : Type ℓ where
  ok : A → Try A
  index_panic : Try A

unfoldable pub and_then {ℓ κ} : {A : Type ℓ} {B : Type κ} → Try A → (A → Try B) → Try B
and_then (ok a) k = k a
and_then index_panic k = index_panic

pub record Metric (n : Number) : Type 0 where
  pub match_message : Option (Bytes → Bool)
  pub match_fields : List (Entry Bytes (Bytes → Bool))
  pub value : Bytes
  pub parsed_name : Parsed
  pub window_length : ℕ
  pub aggregate : Aggregate
  pub transform_func : Option (n.Value → n.Value)
  pub parser_func : Option (Found → Option n.Value)

module _ (n : Number) (to_float : Found → Option n.Value) (text_of : Value → Bytes) where
  unfoldable pub match_loop : List (Entry Bytes (Bytes → Bool)) → Value → Try Bool
  match_loop [] fields = ok true
  match_loop (e ∷ es) fields =
      let rest = match_loop es fields in
      elim (by_path fields e.key) [
        | panicked ↦ index_panic
        | invalid ↦ ok false
        | found v ↦ if e.value (text_of v) then rest else ok false
      ]

  unfoldable pub matches_message : Option (Bytes → Bool) → Bytes → Bool
  matches_message none msg = true
  matches_message (some rx) msg = rx msg

  unfoldable pub matches : Metric n → Bytes → Value → Try Bool
  unfolding match_loop matches_message and_then
  matches m msg fields =
      and_then (match_loop m.match_fields fields)
        (λ b. ok (if b then matches_message m.match_message msg else false))

  unfoldable pub prepend : Bytes → Try (Option Bytes) → Try (Option Bytes)
  prepend s (ok (some t)) = ok (some (s ++ t))
  prepend s (ok none) = ok none
  prepend s index_panic = index_panic

  -- A variable without a value makes the name invalid, but those after it are still looked up.
  unfoldable pub not_valid : Try (Option Bytes) → Try (Option Bytes)
  not_valid (ok t) = ok none
  not_valid index_panic = index_panic

  unfoldable pub replace_vars : Parsed → Value → Try (Option Bytes)
  unfolding prepend not_valid
  replace_vars [] fields = ok (some [])
  replace_vars (literal s ∷ ps) fields = prepend s (replace_vars ps fields)
  replace_vars (variable v ∷ ps) fields =
      let rest = replace_vars ps fields in
      elim (by_path fields v.name) [
        | panicked ↦ index_panic
        | found x ↦ prepend (text_of x) rest
        | invalid ↦ if v.has_default then prepend v.default rest else not_valid rest
      ]

  -- The value of a point; `one` is 1.
  unfoldable pub metric_value : n.Value → Metric n → Value → Try (Option n.Value)
  metric_value one m fields = elim m.value [
    | [] ↦ ok (some one)
    | c ∷ path ↦ elim (by_path fields (c ∷ path)) [
      | panicked ↦ index_panic
      | invalid ↦ ok (elim m.parser_func [ some f ↦ f invalid | none ↦ to_float invalid ])
      | found v ↦ ok (elim m.parser_func [ some f ↦ f (found v) | none ↦ to_float (found v) ])
    ]
  ]

  unfoldable pub transformed : Metric n → n.Value → n.Value
  transformed m v = elim m.transform_func [ none ↦ v | some f ↦ f v ]

  abbrev pub MetricPoints : Type 0
  MetricPoints = List (Entry Bytes (Aggregated n))

module _ (n : Number) where
  -- The metric of a name, which is made when the name is new.
  unfoldable pub metric_of : Metric n → List (Entry Bytes (Aggregated n)) → Bytes → Aggregated n
  metric_of m points mk = elim (lookup points mk) [
    | some a ↦ a
    | none ↦ record { values = []; aggregate = m.aggregate; window_length = m.window_length }
  ]

  unfoldable pub put_point :
      ℕ
      → Point n
      → Metric n
      → List (Entry Bytes (Aggregated n))
      → Bytes
      → List (Entry Bytes (Aggregated n))
  unfolding metric_of add_point put
  put_point now p m points mk = put points mk (add_point now p (metric_of m points mk))

module _ (n : Number) (to_float : Found → Option n.Value) (text_of : Value → Bytes)
    (one : n.Value) where
  -- One round of the loop, at a time and the next reading of the clock.
  unfoldable pub collect_metric :
      ℕ
      → ℕ
      → Bytes
      → Value
      → Metric n
      → List (Entry Bytes (Aggregated n))
      → Try (List (Entry Bytes (Aggregated n)))
  unfolding matches replace_vars metric_value transformed put_point and_then
  collect_metric time now msg fields m points =
      and_then (matches n to_float text_of m msg fields) (λ is_match.
        if not is_match
        then ok points
        else and_then (replace_vars n to_float text_of m.parsed_name fields) (λ mk. elim mk [
          | none ↦ ok points
          | some k ↦ and_then (metric_value n to_float text_of one m fields) (λ v. elim v [
            | none ↦ ok points
            | some x ↦ ok (
                put_point n now (record { value = transformed n to_float text_of m x; time = time })
                  m points k)
          ])
        ]))

  unfoldable pub collect :
      ℕ
      → ℕ
      → Bytes
      → Value
      → List (Metric n)
      → List (Entry Bytes (Aggregated n))
      → Try (List (Entry Bytes (Aggregated n)))
  unfolding collect_metric and_then
  collect time now msg fields [] points = ok points
  collect time now msg fields (m ∷ ms) points =
      and_then (collect_metric time now msg fields m points)
        (λ more. collect time now msg fields ms more)
