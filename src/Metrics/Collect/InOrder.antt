-- ===== src/Metrics/Collect/InOrder.antt =====
-- The windows of all metrics of the logger of log/metrics/log.go, over the messages that come.
use go_utils.Maputil.{Entry, lookup, put}
use go_utils.Metrics.Window.{Number, Point, Aggregated}
use go_utils.Metrics.Window.Slots.{IsWindow, add_point-IsWindow}
use go_utils.Metrics.Path.{Value, Found}
use go_utils.Metrics.Collect.{
  Try, ok, index_panic, and_then, Metric, matches, replace_vars, metric_value, metric_of, put_point,
  collect_metric, collect,
}
use mathlib.Core.Path.{subst}
use go_utils.Prelude.{
  ℕ, ◌≡◌, refl, inl, inr, true, false, Option, none, some, List, [], ◌∷◌, arith, Bool-cases,
  Option-cases, All, ◌==◌, Bytes,
}
use go_utils.Prelude.{bytes_comparable}

-- What a call that may panic returns satisfies the predicate.
abbrev pub Returns {ℓ κ} : {A : Type ℓ} → (A → Type κ) → Try A → Type κ
Returns P (ok a) = P a
Returns P index_panic = Unit

and_then-Returns {ℓ κ ν} :
    {A : Type ℓ} {B : Type κ} (P : B → Type ν) (t : Try A) (k : A → Try B)
    → ((a : A) → Returns P (k a))
    → Returns P (and_then t k)
unfolding and_then
and_then-Returns P (ok a) k h = h a
and_then-Returns P index_panic k h = tt

returned {ℓ κ ν μ} :
    {A : Type ℓ} {B : Type κ} (Q : A → Type μ) (P : B → Type ν) (t : Try A) (k : A → Try B)
    → Returns Q t
    → ((a : A) → Q a → Returns P (k a))
    → Returns P (and_then t k)
unfolding and_then
returned Q P (ok a) k h g = g a h
returned Q P index_panic k h g = tt

module _ (n : Number) where
  abbrev pub AreWindows : List (Entry Bytes (Aggregated n)) → Type 0
  AreWindows points = All (λ e. IsWindow e.value) points

  put-AreWindows :
      (points : List (Entry Bytes (Aggregated n))) (k : Bytes) (a : Aggregated n)
      → AreWindows points
      → IsWindow a
      → AreWindows (put points k a)
  unfolding put
  put-AreWindows [] k a h w = (w, tt)
  put-AreWindows (e ∷ points) k a (g, h) w = elim (Bool-cases (e.key == k)) [
    | inl q ↦ rw (q, put) (w, h)
    | inr q ↦ rw (q, put) (g, put-AreWindows points k a h w)
  ]

  lookup-IsWindow :
      (points : List (Entry Bytes (Aggregated n))) (k : Bytes) (a : Aggregated n)
      → AreWindows points
      → lookup points k ≡ some a
      → IsWindow a
  unfolding lookup
  lookup-IsWindow [] k a h e = cc
  lookup-IsWindow (p ∷ points) k a (g, h) e = elim (Bool-cases (p.key == k)) [
    | inl q ↦ let same : some p.value ≡ some a = rw (q, lookup) at e in subst IsWindow (cc) g
    | inr q ↦ lookup-IsWindow points k a h (rw (q, lookup) at e)
  ]

  metric_of-IsWindow :
      (m : Metric n) (points : List (Entry Bytes (Aggregated n))) (k : Bytes)
      → AreWindows points
      → IsWindow (metric_of n m points k)
  unfolding metric_of
  metric_of-IsWindow m points k h = elim (Option-cases (lookup points k)) [
    | inl e ↦ rw (e, metric_of) (record { single = λ z. omega arith; slots = λ z. (inl refl, tt) })
    | inr (a, e) ↦ rw (e, metric_of) (lookup-IsWindow points k a h e)
  ]

  put_point-AreWindows :
      (now : ℕ) (p : Point n) (m : Metric n) (points : List (Entry Bytes (Aggregated n)))
      (k : Bytes)
      → AreWindows points
      → AreWindows (put_point n now p m points k)
  unfolding put_point
  put_point-AreWindows now p m points k h =
      put-AreWindows points k _ h
        (add_point-IsWindow n now p (metric_of n m points k) (metric_of-IsWindow m points k h))

module _ (n : Number) (to_float : Found → Option n.Value) (text_of : Value → Bytes)
    (one : n.Value) where
  collect_metric-AreWindows :
      (time now : ℕ) (msg : Bytes) (fields : Value) (m : Metric n)
      (points : List (Entry Bytes (Aggregated n)))
      → AreWindows n points
      → Returns (AreWindows n) (collect_metric n to_float text_of one time now msg fields m points)
  unfolding collect_metric
  collect_metric-AreWindows time now msg fields m points h =
      and_then-Returns (AreWindows n) (matches n to_float text_of m msg fields) _ (elim [
        | false ↦ h
        | true ↦
            and_then-Returns (AreWindows n) (replace_vars n to_float text_of m.parsed_name fields) _
              (elim [
                | none ↦ h
                | some k ↦
                    and_then-Returns (AreWindows n) (metric_value n to_float text_of one m fields) _
                      (elim [ none ↦ h | some x ↦ put_point-AreWindows n now _ m points k h ])
              ])
      ])

  -- Whatever message comes, unless an index panics, collect leaves all metrics' windows in order: those
  -- without a length hold at most one point, the others no slot or as many as they are minutes long, where a
  -- slot that is used holds a time of a minute that falls on it.
  pub collect-AreWindows :
      (time now : ℕ) (msg : Bytes) (fields : Value) (ms : List (Metric n))
      (points : List (Entry Bytes (Aggregated n)))
      → AreWindows n points
      → Returns (AreWindows n) (collect n to_float text_of one time now msg fields ms points)
  unfolding collect
  collect-AreWindows time now msg fields [] points h = h
  collect-AreWindows time now msg fields (m ∷ ms) points h =
      returned (AreWindows n) (AreWindows n)
        (collect_metric n to_float text_of one time now msg fields m points) _
        (collect_metric-AreWindows time now msg fields m points h)
        (λ more k. collect-AreWindows time now msg fields ms more k)
