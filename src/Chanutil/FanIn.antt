-- ===== src/Chanutil/FanIn.antt =====
-- FanIn of chanutil/chainutil.go. An input channel is the values that it gives before it is closed; what
-- the callers and the goroutines do is a list of events in the order in which they happen.
pub mod Forwarded
use go_utils.Prelude.{
  ℕ, Bool, true, false, ◌&&◌, Option, none, some, List, [], ◌∷◌, ◌++◌, if◌then◌else◌, get_elem?,
  set,
}

-- A goroutine of fanInRoutine: its channel, what is left in it, and the value that it has received and not
-- sent yet.
pub record Routine (T : Type 0) : Type 0 where
  pub channel : List T
  pub rest : List T
  pub held : Option T
  pub is_done : Bool

-- Values are sent along with the number of the goroutine that sends them.
pub record FanIn (T : Type 0) : Type 0 where
  pub is_closed : Bool
  pub out : List (ℕ × T)
  pub routines : List (Routine T)

pub data Event (T : Type 0) : Type 0 where
  input : List (List T) → Event T
  close : Event T
  -- A goroutine receives a value, sends it, or ends.
  receives : ℕ → Event T
  sends : ℕ → Event T
  ends : ℕ → Event T

-- `stuck`: the event cannot happen in this state.
pub data Stepped (T : Type 0) : Type 0 where
  stepped : FanIn T → Stepped T
  stuck : Stepped T
  panicked : Stepped T

module _ {T : Type 0} where
  unfoldable pub new_routine : List T → Routine T
  new_routine ch = record { channel = ch; rest = ch; held = none; is_done = false }

  unfoldable pub new_routines : List (List T) → List (Routine T)
  unfolding new_routine
  new_routines [] = []
  new_routines (ch ∷ chs) = new_routine ch ∷ new_routines chs

  unfoldable pub set_routine : ℕ → Routine T → FanIn T → FanIn T
  set_routine i r f = record f { routines = set f.routines i r }

  unfoldable pub receive : ℕ → Routine T → FanIn T → Stepped T
  unfolding set_routine
  receive i r f = elim r.held [
    | some v ↦ stuck
    | none ↦ elim r.rest [
      | [] ↦ stuck
      | v ∷ vs ↦ stepped (set_routine i (record r { rest = vs; held = some v }) f)
    ]
  ]

  -- Sending to a closed channel panics.
  unfoldable pub send : ℕ → Routine T → FanIn T → Stepped T
  unfolding set_routine
  send i r f = elim r.held [
    | none ↦ stuck
    | some v ↦
        if f.is_closed
        then panicked
        else stepped
            (record (set_routine i (record r { held = none }) f) { out = f.out ++ (i, v) ∷ [] })
  ]

  unfoldable pub end_routine : ℕ → Routine T → FanIn T → Stepped T
  unfolding set_routine
  end_routine i r f = elim r.held [
    | some v ↦ stuck
    | none ↦ elim r.rest [
      | v ∷ vs ↦ stuck
      | [] ↦ if r.is_done then stuck else stepped (set_routine i (record r { is_done = true }) f)
    ]
  ]

  unfoldable pub with_routine : (ℕ → Routine T → FanIn T → Stepped T) → ℕ → FanIn T → Stepped T
  with_routine act i f = elim (get_elem? f.routines i) [ none ↦ stuck | some r ↦ act i r f ]

  unfoldable pub fan_in_step : Event T → FanIn T → Stepped T
  unfolding new_routines with_routine receive send end_routine
  fan_in_step (input chs) f =
      if f.is_closed
      then panicked
      else stepped (record f { routines = f.routines ++ new_routines chs })
  fan_in_step close f = stepped (record f { is_closed = true })
  fan_in_step (receives i) f = with_routine receive i f
  fan_in_step (sends i) f = with_routine send i f
  fan_in_step (ends i) f = with_routine end_routine i f

  unfoldable pub and_then : Stepped T → (FanIn T → Stepped T) → Stepped T
  and_then (stepped f) k = k f
  and_then stuck k = stuck
  and_then panicked k = panicked

  unfoldable pub fan_in_run : List (Event T) → FanIn T → Stepped T
  unfolding fan_in_step and_then
  fan_in_run [] f = stepped f
  fan_in_run (e ∷ es) f = and_then (fan_in_step e f) (λ g. fan_in_run es g)

  unfoldable pub new_fan_in : FanIn T
  new_fan_in = record { is_closed = false; out = []; routines = [] }

  -- Wait returns.
  unfoldable pub all_done : List (Routine T) → Bool
  all_done [] = true
  all_done (r ∷ rs) = r.is_done && all_done rs
