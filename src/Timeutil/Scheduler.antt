-- ===== src/Timeutil/Scheduler.antt =====
-- Scheduler and IntervalTicker of timeutil/scheduler.go. Times and durations are nanoseconds; a location
-- changes only how a time is shown.
pub mod Ticks
use go_utils.Prelude.Int.{ℤ, pos, ◌+ℤ◌, ◌-ℤ◌, ltb_ℤ}
use go_utils.Prelude.{Bool, true, false, not, List, [], ◌∷◌, if◌then◌else◌}

abbrev pub schedule_max_sleep_time : ℤ
schedule_max_sleep_time = pos 900000000000

-- Next of an IntervalTicker
unfoldable pub next_interval : ℤ → ℤ → ℤ
next_interval interval at = at +ℤ interval

-- One turn of the loop: what time.Now gives in it, whether the context ends before the sleep does, and
-- whether the tick is ever received if one is sent.
pub record Turn : Type 0 where
  pub now : ℤ
  pub cancelled : Bool
  pub received : Bool

-- What the loop does: a sleep for a duration, from a time on, that goes on to its end or is cut off by the
-- context; and a tick that is received, or one that the loop waits with for ever.
pub data Act : Type 0 where
  slept : ℤ → ℤ → Act
  cut_off : ℤ → ℤ → Act
  sent : ℤ → Act
  blocked : ℤ → Act

-- What the loop has done, and whether it has ended.
pub record Ticking : Type 0 where
  pub acts : List Act
  pub closed : Bool

unfoldable pub act_first : Act → Ticking → Ticking
act_first a r = record r { acts = a ∷ r.acts }

abbrev pub no_more : Bool → Ticking
no_more c = record { acts = []; closed = c }

-- `if !sleep(s.ctx, d) { return }`, and what follows
unfoldable pub sleep_first : Turn → ℤ → Ticking → Ticking
unfolding act_first
sleep_first t d r =
    if t.cancelled then act_first (cut_off t.now d) (no_more true) else act_first (slept t.now d) r

-- `s.c <- n`, and what follows
unfoldable pub send_first : Turn → ℤ → Ticking → Ticking
unfolding act_first
send_first t n r =
    if t.received then act_first (sent n) r else act_first (blocked n) (no_more false)

module _ (next : ℤ → ℤ) where
  -- The loop, with the next tick.
  unfoldable pub schedule_loop : List Turn → ℤ → Ticking
  unfolding sleep_first send_first
  schedule_loop [] n = no_more false
  schedule_loop (t ∷ turns) n =
      let d = n -ℤ t.now in
      let again = schedule_loop turns n in
      let ticked = send_first t n (schedule_loop turns (next n)) in
      if not (ltb_ℤ d schedule_max_sleep_time)
      then sleep_first t schedule_max_sleep_time again
      else sleep_first t d ticked

  unfoldable pub scheduler : ℤ → List Turn → Ticking
  unfolding schedule_loop
  scheduler started_at turns = schedule_loop turns (next started_at)
