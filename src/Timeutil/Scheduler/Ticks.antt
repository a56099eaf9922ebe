-- ===== src/Timeutil/Scheduler/Ticks.antt =====
-- What a Scheduler of timeutil/scheduler.go sends, and how long it sleeps.
use go_utils.Prelude.Int.{ℤ, ◌-ℤ◌, ltb_ℤ}
use go_utils.Timeutil.Scheduler.{
  schedule_max_sleep_time, Turn, Act, slept, cut_off, sent, blocked, Ticking, act_first,
  sleep_first, send_first, schedule_loop, scheduler,
}
use go_utils.Prelude.{
  ℕ, zero, suc, ◌≡◌, refl, ap, inl, inr, Bool, true, false, ◌||◌, List, [], ◌∷◌, Bool-cases, length,
  All,
}

-- The first `k` ticks after a time.
abbrev pub ticks_after : (ℤ → ℤ) → ℕ → ℤ → List ℤ
ticks_after next zero at = []
ticks_after next (suc k) at = next at ∷ ticks_after next k (next at)

-- The ticks that were received, and the sleeps.
abbrev pub ticks_of : List Act → List ℤ
ticks_of [] = []
ticks_of (sent n ∷ acts) = n ∷ ticks_of acts
ticks_of (slept now d ∷ acts) = ticks_of acts
ticks_of (cut_off now d ∷ acts) = ticks_of acts
ticks_of (blocked n ∷ acts) = ticks_of acts

abbrev pub sleeps_of : List Act → List ℤ
sleeps_of [] = []
sleeps_of (sent n ∷ acts) = sleeps_of acts
sleeps_of (slept now d ∷ acts) = d ∷ sleeps_of acts
sleeps_of (cut_off now d ∷ acts) = d ∷ sleeps_of acts
sleeps_of (blocked n ∷ acts) = sleeps_of acts

abbrev pub any_cancelled : List Turn → Bool
any_cancelled [] = false
any_cancelled (t ∷ turns) = t.cancelled || any_cancelled turns

-- Every tick is received.
abbrev pub AllReceived : List Turn → Type 0
AllReceived turns = All (λ (t : Turn). t.received ≡ true) turns

module _ (next : ℤ → ℤ) where
  -- The tick is nearer than the limit.
  abbrev pub is_near : ℤ → ℤ → Bool
  is_near n now = ltb_ℤ (n -ℤ now) schedule_max_sleep_time

  -- What is done with this next tick: if it is not near, a sleep of the limit, and the same again; if it is,
  -- a sleep until its time and, directly after it, the tick. A sleep that is cut off, and a tick that is
  -- not received, are the last act.
  pub data OnTime : ℤ → List Act → Type 0 where
    not_yet : {n : ℤ} → OnTime n []
    waits :
        {n now : ℤ} {acts : List Act}
        → is_near n now ≡ false
        → OnTime n acts
        → OnTime n (slept now schedule_max_sleep_time ∷ acts)
    ticks :
        {n now : ℤ} {acts : List Act}
        → is_near n now ≡ true
        → OnTime (next n) acts
        → OnTime n (slept now (n -ℤ now) ∷ sent n ∷ acts)
    blocks : {n now : ℤ} → is_near n now ≡ true → OnTime n (slept now (n -ℤ now) ∷ blocked n ∷ [])
    cut_short : {n now : ℤ} → is_near n now ≡ true → OnTime n (cut_off now (n -ℤ now) ∷ [])
    cut_wait :
        {n now : ℤ} → is_near n now ≡ false → OnTime n (cut_off now schedule_max_sleep_time ∷ [])

  -- Ticks that are the first ones after a time, in their order and with none left out, each at its time;
  -- and, as long as the ticks are received, a sleep in each turn until the context ends, and an end with
  -- the context.
  pub record IsTicking (at : ℤ) (turns : List Turn) (r : Ticking) : Type 0 where
    pub every_tick : ticks_of r.acts ≡ ticks_after next (length (ticks_of r.acts)) at
    pub on_time : OnTime (next at) r.acts
    pub ends : AllReceived turns → r.closed ≡ any_cancelled turns
    pub goes_on :
        AllReceived turns → any_cancelled turns ≡ false → length (sleeps_of r.acts) ≡ length turns

  schedule_loop-IsTicking :
      (turns : List Turn) (at : ℤ) → IsTicking at turns (schedule_loop next turns (next at))
  unfolding schedule_loop sleep_first send_first act_first
  schedule_loop-IsTicking [] at = record {
    every_tick = refl;
    on_time = not_yet;
    ends = λ w. refl;
    goes_on = λ w c. refl;
  }
  schedule_loop-IsTicking (t ∷ turns) at = elim (Bool-cases (is_near (next at) t.now)) [
    | inl near ↦ elim (Bool-cases t.cancelled) [
      | inl c ↦
          rw (near, c)
            (record {
              every_tick = refl;
              on_time = cut_short near;
              ends = λ w. refl;
              goes_on = λ w e. cc;
            })
      | inr c ↦ elim (Bool-cases t.received) [
        | inl r ↦
            let rest = schedule_loop-IsTicking turns (next at) in
            rw (near, c, r)
              (record {
                every_tick = ap (λ ns. next at ∷ ns) rest.every_tick;
                on_time = ticks near rest.on_time;
                ends = λ w. rest.ends (w.1);
                goes_on = λ w e. ap suc (rest.goes_on (w.1) e);
              })
        | inr r ↦
            rw (near, c, r)
              (record {
                every_tick = refl;
                on_time = blocks near;
                ends = λ w. absurd (let q = w.0 in cc);
                goes_on = λ w e. absurd (let q = w.0 in cc);
              })
      ]
    ]
    | inr far ↦ elim (Bool-cases t.cancelled) [
      | inl c ↦
          rw (far, c)
            (record {
              every_tick = refl;
              on_time = cut_wait far;
              ends = λ w. refl;
              goes_on = λ w e. cc;
            })
      | inr c ↦
          let rest = schedule_loop-IsTicking turns at in
          rw (far, c)
            (record {
              every_tick = rest.every_tick;
              on_time = waits far rest.on_time;
              ends = λ w. rest.ends (w.1);
              goes_on = λ w e. ap suc (rest.goes_on (w.1) e);
            })
    ]
  ]

  -- A Scheduler that is started at a time sends the ticks of its NextTick from this time on, in their order
  -- and without leaving one out. While the next tick is not nearer than the limit, it sleeps for the limit
  -- and looks again; else it sleeps until the tick's time and then sends it at once. A sleep that the
  -- context cuts off is the last act, and so is a tick that nobody receives. If all ticks are received, it
  -- sleeps in every turn until the context ends, and closes its channel exactly if the context ends.
  pub scheduler-IsTicking :
      (at : ℤ) (turns : List Turn) → IsTicking at turns (scheduler next at turns)
  unfolding scheduler
  scheduler-IsTicking at turns = schedule_loop-IsTicking turns at
