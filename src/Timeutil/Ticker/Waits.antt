-- ===== src/Timeutil/Ticker/Waits.antt =====
-- What the timers of a VarTicker of timeutil/ticker.go wait for.
use go_utils.Prelude.Int.{ℤ, pos, ltb_ℤ}
use go_utils.Timeutil.Ticker.{
  Event, cancelled, fired, End, waiting, stopped, Ran, set_timer, send_tick, ticker_loop,
  new_ticker, var_ticker,
}
use go_utils.Prelude.{ℕ, zero, suc, ◌≡◌, refl, ap, true, List, [], ◌∷◌, length}

-- The times of the ticks that come before the context ends.
abbrev pub fired_before : List Event → List ℤ
fired_before [] = []
fired_before (cancelled ∷ es) = []
fired_before (fired at ∷ es) = at ∷ fired_before es

abbrev pub ending : List Event → End
ending [] = waiting
ending (cancelled ∷ es) = stopped
ending (fired at ∷ es) = ending es

-- The first `n` of the durations, the last of which is repeated without end.
abbrev pub durations : ℕ → ℤ → List ℤ → List ℤ
durations zero d ds = []
durations (suc n) d [] = d ∷ durations n d []
durations (suc n) d (e ∷ ds) = d ∷ durations n e ds

abbrev pub last_of : ℤ → List ℤ → ℤ
last_of d [] = d
last_of d (e ∷ ds) = last_of e ds

abbrev pub expected : ℤ → List ℤ → List Event → Ran
expected d ds es = record {
  sent = fired_before es;
  waits = durations (suc (length (fired_before es))) d ds;
  end = ending es;
}

ticker_loop_lem : (d : ℤ) (es : List Event) → ticker_loop d es ≡ expected d [] es
unfolding ticker_loop set_timer send_tick
ticker_loop_lem d [] = refl
ticker_loop_lem d (cancelled ∷ es) = refl
ticker_loop_lem d (fired at ∷ es) = ap (λ r. set_timer d (send_tick at r)) (ticker_loop_lem d es)

-- If the last duration is positive, then a VarTicker sends the times of all ticks that come before the end
-- of its context, and stops there or still waits; before its ticks and at the end it waits for the given
-- durations in their order, the last of them again and again.
pub var_ticker-expected :
    (d : ℤ) (ds : List ℤ) (es : List Event)
    → ltb_ℤ (pos 0) (last_of d ds) ≡ true
    → var_ticker (d ∷ ds) es ≡ expected d ds es
unfolding var_ticker new_ticker set_timer send_tick
var_ticker-expected d [] es h = rw h (ticker_loop_lem d es)
var_ticker-expected d (e ∷ ds) [] h = refl
var_ticker-expected d (e ∷ ds) (cancelled ∷ es) h = refl
var_ticker-expected d (e ∷ ds) (fired at ∷ es) h =
    ap (λ r. set_timer d (send_tick at r)) (var_ticker-expected e ds es h)
