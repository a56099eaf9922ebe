-- ===== src/Chanutil/FanOut.antt =====
-- FanOut of chanutil/chainutil.go. What comes from the input channel, and the calls of Output and Close,
-- are a list of events; the mutex makes each of them one step.
pub mod Delivered
use go_utils.Prelude.{ℕ, zero, suc, Bool, true, false, List, [], ◌∷◌, ◌++◌, if◌then◌else◌}

-- An output channel: the values that were sent to it, and whether it is open. The map of outputs has the
-- open ones.
pub record Output (T : Type 0) : Type 0 where
  pub got : List T
  pub is_open : Bool

-- All output channels, in the order in which they were made.
pub record FanOut (T : Type 0) : Type 0 where
  pub has_input : Bool
  pub outputs : List (Output T)

pub data Event (T : Type 0) : Type 0 where
  output : Event T
  -- Close of a channel, also from closeRoutine when a context is done
  close : ℕ → Event T
  -- the loop of fanOutRoutine, and what comes after it
  value : T → Event T
  input_closes : Event T

module _ {T : Type 0} where
  unfoldable pub close_output : Output T → Output T
  close_output o = record o { is_open = false }

  unfoldable pub send_output : T → Output T → Output T
  send_output v o = if o.is_open then record { got = o.got ++ v ∷ []; is_open = true } else o

  unfoldable pub send_all : T → List (Output T) → List (Output T)
  unfolding send_output
  send_all v [] = []
  send_all v (o ∷ os) = send_output v o ∷ send_all v os

  unfoldable pub close_all : List (Output T) → List (Output T)
  unfolding close_output
  close_all [] = []
  close_all (o ∷ os) = close_output o ∷ close_all os

  unfoldable pub close_at : ℕ → List (Output T) → List (Output T)
  unfolding close_output
  close_at i [] = []
  close_at zero (o ∷ os) = close_output o ∷ os
  close_at (suc i) (o ∷ os) = o ∷ close_at i os

  -- A new output is closed at once if the input has been closed; after that fanOutRoutine does nothing.
  unfoldable pub fan_out_step : Event T → FanOut T → FanOut T
  unfolding close_at send_all close_all
  fan_out_step output f = record f {
    outputs = f.outputs ++ record { got = []; is_open = f.has_input } ∷ [];
  }
  fan_out_step (close i) f = record f { outputs = close_at i f.outputs }
  fan_out_step (value v) f = if f.has_input then record f { outputs = send_all v f.outputs } else f
  fan_out_step input_closes f = record { has_input = false; outputs = close_all f.outputs }

  unfoldable pub fan_out_run : List (Event T) → FanOut T → FanOut T
  unfolding fan_out_step
  fan_out_run [] f = f
  fan_out_run (e ∷ es) f = fan_out_run es (fan_out_step e f)

  unfoldable pub new_fan_out : FanOut T
  new_fan_out = record { has_input = true; outputs = [] }
