-- ===== src/Timeutil/Ticker.antt =====
-- Ticker and VarTicker of timeutil/ticker.go. Times and durations are nanoseconds; what the select of a
-- ticker's goroutine receives is a list of events.
pub mod Lifecycle
pub mod Waits
use go_utils.Prelude.Int.{ℤ, pos, eq_ℤ, ltb_ℤ}
use go_utils.Prelude.{ℕ, suc, Option, none, some, List, [], ◌∷◌, if◌then◌else◌}

-- What Err of a context says.
pub data Context : Type 0 where
  live : Context
  done : Context

-- The fields of a Ticker or a VarTicker, with its durations, how many goroutines of it are in the loop or
-- before it, and how many have set ctx to nil and have still to call Stop and to return.
pub record Ticker (D : Type 0) : Type 0 where
  pub ctx : Option Context
  pub d : D
  pub routines : ℕ
  pub stopping : ℕ

pub data Started (D : Type 0) : Type 0 where
  already_started : Started D
  context_is_nil : Started D
  started : Ticker D → Started D

pub data Ticked : Type 0 where
  not_started : Ticked
  sends : ℤ → Ticked

module _ {D : Type 0} where
  unfoldable pub start : Option Context → Ticker D → Started D
  start c t = elim t.ctx [
    | some e ↦ already_started
    | none ↦ elim c [
      | none ↦ context_is_nil
      | some e ↦
          started
            (record { ctx = some e; d = t.d; routines = suc t.routines; stopping = t.stopping })
    ]
  ]

  unfoldable pub tick_at : Ticker D → ℤ → Ticked
  tick_at t at = elim t.ctx [ none ↦ not_started | some done ↦ not_started | some live ↦ sends at ]

  unfoldable pub copy_ticker : Ticker D → Ticker D
  copy_ticker t = record { ctx = none; d = t.d; routines = 0; stopping = 0 }

-- What the goroutine's select receives: the end of the context, or a tick of the timer at a time.
pub data Event : Type 0 where
  cancelled : Event
  fired : ℤ → Event

pub data End : Type 0 where
  waiting : End
  -- the context ended, and ctx is nil again
  stopped : End
  -- nothing to do for the durations given
  returned : End
  -- time.NewTicker panics
  crashed : End

-- The times sent, what the timer was set to before each of them and before the end, and the end.
pub record Ran : Type 0 where
  pub sent : List ℤ
  pub waits : List ℤ
  pub end : End

unfoldable pub set_timer : ℤ → Ran → Ran
set_timer d r = record r { waits = d ∷ r.waits }

unfoldable pub send_tick : ℤ → Ran → Ran
send_tick at r = record r { sent = at ∷ r.sent }

abbrev pub no_ticks : End → Ran
no_ticks e = record { sent = []; waits = []; end = e }

-- The loop over a time.Ticker.
unfoldable pub ticker_loop : ℤ → List Event → Ran
unfolding set_timer send_tick
ticker_loop d [] = set_timer d (no_ticks waiting)
ticker_loop d (cancelled ∷ es) = set_timer d (no_ticks stopped)
ticker_loop d (fired at ∷ es) = set_timer d (send_tick at (ticker_loop d es))

-- time.NewTicker and the loop
unfoldable pub new_ticker : ℤ → List Event → Ran
unfolding ticker_loop
new_ticker d es = if ltb_ℤ (pos 0) d then ticker_loop d es else no_ticks crashed

unfoldable pub ticker : ℤ → List Event → Ran
unfolding new_ticker
ticker d es = if eq_ℤ d (pos 0) then no_ticks returned else new_ticker d es

-- The ticker of a VarTicker: a timer for each duration but the last.
unfoldable pub var_ticker : List ℤ → List Event → Ran
unfolding new_ticker set_timer send_tick
var_ticker [] es = no_ticks returned
var_ticker (d ∷ []) es = new_ticker d es
var_ticker (d ∷ e ∷ ds) [] = set_timer d (no_ticks waiting)
var_ticker (d ∷ e ∷ ds) (cancelled ∷ es) = set_timer d (no_ticks stopped)
var_ticker (d ∷ e ∷ ds) (fired at ∷ es) = set_timer d (send_tick at (var_ticker (e ∷ ds) es))
