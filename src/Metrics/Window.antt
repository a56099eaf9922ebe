-- ===== src/Metrics/Window.antt =====
-- The time window of a metric in log/metrics/log.go: metricAggregated. A time is the nanoseconds since the
-- zero time; float64 is a parameter, by its addition and its order.
pub mod Slots
use go_utils.Prelude.{
  ℕ, ◌-◌, ◌*◌, ◌/◌, ◌%◌, Bool, List, [], ◌∷◌, ltb, nat_beq, if◌then◌else◌, length, set, get_or,
  replicate,
}

pub record Number : Type 1 where
  pub Value : Type 0
  pub zero_value : Value
  pub plus : Value → Value → Value
  pub less : Value → Value → Bool

pub data Aggregate : Type 0 where
  replace : Aggregate
  ignore : Aggregate
  sum : Aggregate
  largest : Aggregate
  least : Aggregate

abbrev pub minute : ℕ
minute = 60000000000

-- `t.Unix() / 60` for a time of 1970 or later
unfoldable pub unix_minute : ℕ → ℕ
unix_minute t = t / minute - 1035593280

module _ (n : Number) where
  pub record Point : Type 0 where
    pub value : n.Value
    pub time : ℕ

  pub record Aggregated : Type 0 where
    pub values : List Point
    pub aggregate : Aggregate
    pub window_length : ℕ

unfoldable pub window_start : ℕ → ℕ → ℕ
window_start now w = now - w * minute

unfoldable pub aggregate_values : (n : Number) → Aggregate → n.Value → n.Value → n.Value
aggregate_values n replace a b = b
aggregate_values n ignore a b = a
aggregate_values n sum a b = n.plus a b
aggregate_values n largest a b = if n.less b a then a else b
aggregate_values n least a b = if n.less a b then a else b

module _ {n : Number} where
  abbrev pub zero_point : Point n
  zero_point = record { value = n.zero_value; time = 0 }

  -- What stands in the slot after a point has come, `t` being the start of the window.
  unfoldable pub into_slot : ℕ → Aggregate → Point n → Point n → Point n
  unfolding aggregate_values
  into_slot t a old new = if ltb old.time t then new else record {
    value = aggregate_values n a old.value new.value;
    time = if ltb old.time new.time then new.time else old.time;
  }

  -- The start of the window: `now.Add(-w * time.Minute)`, which comes after the zero time
  unfoldable pub sized : ℕ → List (Point n) → List (Point n)
  sized w ps = if nat_beq (length ps) w then ps else replicate w zero_point

  unfoldable pub add_point : ℕ → Point n → Aggregated n → Aggregated n
  unfolding into_slot window_start sized unix_minute
  add_point now p m =
      let t = window_start now m.window_length in
      let ps = sized m.window_length m.values in
      let s = unix_minute p.time % m.window_length in
      if nat_beq m.window_length 0
      then record m { values = p ∷ [] }
      else if ltb p.time t
      then record m { values = ps }
      else record m { values = set ps s (into_slot t m.aggregate (get_or ps s zero_point) p) }

  -- One round of the loop of get.
  unfoldable pub merge_point : ℕ → Aggregate → Point n → Point n → Point n
  unfolding aggregate_values
  merge_point t a mp p = if ltb p.time t then mp else if nat_beq mp.time 0 then p else record {
    value = aggregate_values n a mp.value p.value;
    time = if ltb mp.time p.time then p.time else mp.time;
  }

  -- The loop goes from the last slot to the first.
  unfoldable pub merge_points : ℕ → Aggregate → List (Point n) → Point n
  unfolding merge_point
  merge_points t a [] = zero_point
  merge_points t a (p ∷ ps) = merge_point t a (merge_points t a ps) p

  unfoldable pub get_point : ℕ → Aggregated n → Point n
  unfolding merge_points window_start
  get_point now m = elim m.values [
    | [] ↦ zero_point
    | p ∷ ps ↦
        if nat_beq m.window_length 0
        then p
        else merge_points (window_start now m.window_length) m.aggregate (p ∷ ps)
  ]
