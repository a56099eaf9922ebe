-- ===== src/Metrics/Window/Slots.antt =====
-- The slots of a metric's window in log/metrics/log.go.
use go_utils.Metrics.Window.{
  Number, Aggregate, unix_minute, Point, Aggregated, zero_point, into_slot, window_start, sized,
  add_point,
}
use mathlib.Core.Path.{subst}
use go_utils.Prelude.{
  ℕ, zero, suc, ◌+◌, ◌%◌, ◌≤◌, ◌≡◌, refl, sym, ◌∙◌, ◌≢◌, ◌⊎◌, inl, inr, List, [], ◌∷◌, arith, ltb,
  nat_beq, Bool-cases, length, set, length-set, get_or, replicate, length-replicate,
}

module _ {n : Number} where
  -- The slots from number `i` on are unused, or hold a time of a minute that falls on them.
  abbrev pub FallsOn : ℕ → ℕ → List (Point n) → Type 0
  FallsOn w i [] = Unit
  FallsOn w i (p ∷ ps) = ((p.time ≡ 0) ⊎ (unix_minute p.time % w ≡ i)) × FallsOn w (suc i) ps

  -- A metric without a window has at most its last point; one with a window has no slots yet, or a slot for
  -- each minute of it, which holds only points of such minutes.
  pub record IsWindow (m : Aggregated n) : Type 0 where
    pub single : m.window_length ≡ 0 → length m.values ≤ 1
    pub slots :
        m.window_length ≢ 0
        → ((length m.values ≡ 0) ⊎ (length m.values ≡ m.window_length))
          × FallsOn m.window_length 0 m.values

  FallsOn-set :
      (w i s : ℕ) (ps : List (Point n)) (q : Point n)
      → FallsOn w i ps
      → ((q.time ≡ 0) ⊎ (unix_minute q.time % w ≡ i + s))
      → FallsOn w i (set ps s q)
  FallsOn-set w i s [] q h k = tt
  FallsOn-set w i zero (p ∷ ps) q (g, h) k = (let e : i + 0 ≡ i = omega arith in rw e at k, h)
  FallsOn-set w i (suc s) (p ∷ ps) q (g, h) k =
      (g, FallsOn-set w (suc i) s ps q h (let e : i + suc s ≡ suc i + s = omega arith in rw e at k))

  FallsOn-get :
      (w i s : ℕ) (ps : List (Point n))
      → FallsOn w i ps
      → ((get_or ps s zero_point).time ≡ 0)
        ⊎ (unix_minute (get_or ps s zero_point).time % w ≡ i + s)
  FallsOn-get w i s [] h = inl refl
  FallsOn-get w i zero (p ∷ ps) (g, h) = let e : i ≡ i + 0 = omega arith in rw e at g
  FallsOn-get w i (suc s) (p ∷ ps) (g, h) =
      let e : suc i + s ≡ i + suc s = omega arith in
      let r = FallsOn-get w (suc i) s ps h in rw e at r

  into_slot_time :
      (t : ℕ) (a : Aggregate) (old new : Point n)
      → ((into_slot t a old new).time ≡ old.time) ⊎ ((into_slot t a old new).time ≡ new.time)
  unfolding into_slot
  into_slot_time t a old new = elim (Bool-cases (ltb old.time t)) [
    | inl c ↦ rw c (inr refl)
    | inr c ↦ elim (Bool-cases (ltb old.time new.time)) [
      | inl d ↦ rw (c, d) (inr refl)
      | inr d ↦ rw (c, d) (inl refl)
    ]
  ]

  into_slot_FallsOn :
      (t : ℕ) (a : Aggregate) (w s : ℕ) (old new : Point n)
      → ((old.time ≡ 0) ⊎ (unix_minute old.time % w ≡ s))
      → unix_minute new.time % w ≡ s
      → ((into_slot t a old new).time ≡ 0) ⊎ (unix_minute (into_slot t a old new).time % w ≡ s)
  into_slot_FallsOn t a w s old new h k = elim (into_slot_time t a old new) [
    | inl e ↦ subst (λ x. (x ≡ 0) ⊎ (unix_minute x % w ≡ s)) (sym e) h
    | inr e ↦ subst (λ x. (x ≡ 0) ⊎ (unix_minute x % w ≡ s)) (sym e) (inr k)
  ]

module _ (n : Number) where
  FallsOn-replicate : (w i k : ℕ) → FallsOn {n = n} w i (replicate k zero_point)
  FallsOn-replicate w i zero = tt
  FallsOn-replicate w i (suc k) = (inl refl, FallsOn-replicate w (suc i) k)

  sized-FallsOn : (w : ℕ) (ps : List (Point n)) → FallsOn w 0 ps → FallsOn w 0 (sized w ps)
  unfolding sized
  sized-FallsOn w ps h = elim (Bool-cases (nat_beq (length ps) w)) [
    | inl c ↦ rw c h
    | inr c ↦ rw c (FallsOn-replicate w 0 w)
  ]

  length-sized : (w : ℕ) (ps : List (Point n)) → length (sized w ps) ≡ w
  unfolding sized
  length-sized w ps = elim (Bool-cases (nat_beq (length ps) w)) [
    | inl c ↦ rw c (ground arith)
    | inr c ↦ rw c (length-replicate w zero_point)
  ]

  -- Adding a point keeps a metric's window in order.
  pub add_point-IsWindow :
      (now : ℕ) (p : Point n) (m : Aggregated n) → IsWindow m → IsWindow (add_point now p m)
  unfolding add_point
  add_point-IsWindow now p m h = elim (Bool-cases (nat_beq m.window_length 0)) [
    | inl z ↦ rw z (record { single = λ e. omega arith; slots = λ no. absurd (no (ground arith)) })
    | inr z ↦
        let w : m.window_length ≢ 0 = λ e. ground arith in
        let (len, falls) = h.slots w in
        let t = window_start now m.window_length in
        let ps = sized m.window_length m.values in
        let keeps = sized-FallsOn m.window_length m.values falls in
        elim (Bool-cases (ltb p.time t)) [
          | inl c ↦
              rw (z, c)
                (record {
                  single = λ e. absurd (w e);
                  slots = λ no. (inr (length-sized m.window_length m.values), keeps);
                })
          | inr c ↦
              let s = unix_minute p.time % m.window_length in
              let old = get_or ps s zero_point in
              let after = into_slot t m.aggregate old p in
              let time : (after.time ≡ 0) ⊎ (unix_minute after.time % m.window_length ≡ 0 + s) =
                into_slot_FallsOn t m.aggregate m.window_length (0 + s) old p
                  (FallsOn-get m.window_length 0 s ps keeps) (omega arith) in
              rw (z, c)
                (record {
                  single = λ e. absurd (w e);
                  slots = λ no. (
                    inr (length-set ps s _ ∙ length-sized m.window_length m.values),
                    FallsOn-set m.window_length 0 s ps _ keeps time,
                  );
                })
        ]
  ]
