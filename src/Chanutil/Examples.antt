-- ===== src/Chanutil/Examples.antt =====
-- Runs with two input channels, and with two outputs.
use go_utils.Chanutil.FanIn.{FanIn, fan_in_run, new_fan_in, stepped, all_done}
use go_utils.Chanutil.FanIn.Forwarded.{from, inputs, fan_in_run-forwards}
use go_utils.Chanutil.FanOut.{FanOut, Output, fan_out_run, new_fan_out}
use go_utils.Chanutil.FanOut.Delivered.{values_until, stays_open, fan_out_run-output}
use go_utils.Chanutil.FanIn as FanIn
use go_utils.Chanutil.FanOut as FanOut
use go_utils.Prelude.{ℕ, ◌≡◌, refl, true, none, some, List, [], ◌∷◌, length, get_elem?, get_or}

abbrev two_inputs : List (FanIn.Event ℕ)
two_inputs =
    FanIn.input ((5 ∷ []) ∷ (7 ∷ []) ∷ [])
    ∷ FanIn.receives 1
    ∷ FanIn.receives 0
    ∷ FanIn.sends 0
    ∷ FanIn.ends 0
    ∷ FanIn.sends 1
    ∷ FanIn.ends 1
    ∷ FanIn.close
    ∷ []

abbrev both_done : FanIn ℕ
both_done = record {
  is_closed = true;
  out = (0, 5) ∷ (1, 7) ∷ [];
  routines =
      record { channel = 5 ∷ []; rest = []; held = none; is_done = true }
      ∷ record { channel = 7 ∷ []; rest = []; held = none; is_done = true }
      ∷ [];
}

two_inputs_done : fan_in_run two_inputs new_fan_in ≡ stepped both_done
unfolding fan_in_run new_fan_in
two_inputs_done = refl

both_are_done : all_done both_done.routines ≡ true
unfolding all_done
both_are_done = refl

fan_in_run-forwards_example : from 1 both_done.out ≡ get_or (inputs two_inputs) 1 []
fan_in_run-forwards_example =
    fan_in_run-forwards two_inputs both_done two_inputs_done both_are_done 1

abbrev some_values : List (FanOut.Event ℕ)
some_values = FanOut.value 5 ∷ FanOut.output ∷ FanOut.value 6 ∷ FanOut.close 0 ∷ FanOut.value 7 ∷ []

has_input_first : (new_fan_out {T = ℕ}).has_input ≡ true
unfolding new_fan_out
has_input_first = refl

fan_out_run-output_example :
    get_elem?
      (fan_out_run (FanOut.output ∷ some_values) new_fan_out).outputs
      (length (new_fan_out {T = ℕ}).outputs)
    ≡ some (record {
      got = values_until (length (new_fan_out {T = ℕ}).outputs) some_values;
      is_open = stays_open (length (new_fan_out {T = ℕ}).outputs) some_values;
    })
fan_out_run-output_example = fan_out_run-output some_values new_fan_out has_input_first
