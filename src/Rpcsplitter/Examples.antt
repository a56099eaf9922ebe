-- ===== src/Rpcsplitter/Examples.antt =====
-- Runs of the proxy on concrete responses.
use Prim.Native.String.{String}
use go_utils.Prelude.Int.{ℤ, pos, negsuc, ◌≤ℤ◌, int_comparable}
use go_utils.Prelude.{
  ℕ, ◌≤◌, ◌≡◌, refl, ◌≢◌, ◌⊎◌, false, some, List, [], ◌∷◌, arith, if◌then◌else◌, length, ◌==◌,
  string_comparable,
}
use go_utils.Rpcsplitter.Compare.{text, compare}
use go_utils.Rpcsplitter.Resolver.{
  Response, failure, number, result, resolved, successes, numbers, resolve_default,
  resolve_gas_value, resolve_block_number, poll, poll_loop, decide_poll, same,
}
use go_utils.Rpcsplitter.Resolver.Unanimous.{resolve_default_unanimous}
use go_utils.Rpcsplitter.Resolver.Plurality.{IsPlurality, resolve_default-IsPlurality}
use go_utils.Rpcsplitter.Resolver.Median.{resolve_gas_value_within}
use go_utils.Rpcsplitter.Resolver.Numbers.{IsBlock, resolve_block_number-IsBlock}
use go_utils.Rpcsplitter.Server.{
  Server, Arg, Event, response, graceful_timeout, waiting, conclude, call_loop, call,
  tagged_block_to_number, is_tag,
}
use go_utils.Rpcsplitter.Server.Call.{Justified, call_loop-Justified, call_loop_returns}
use go_utils.Rpcsplitter.Server.Agreement.{first, call-IsPlurality, tagged_block_to_number-IsBlock}

abbrev refused : Response
refused = failure (record { message = "refused"; code = some (negsuc 31999) })

abbrev yes : Response
yes = result (text 0 "yes")

abbrev no : Response
no = result (text 0 "no")

abbrev answers : List Response
answers = refused ∷ yes ∷ no ∷ yes ∷ []

abbrev heights : List Response
heights = number (pos 100) ∷ refused ∷ number (pos 97) ∷ number (pos 60) ∷ []

abbrev node_events : String → List Arg → List Event
node_events method args =
    if method == "eth_blockNumber"
    then response (number (pos 100)) ∷ response (number (pos 97)) ∷ response (number (pos 60)) ∷ []
    else response yes ∷ response no ∷ graceful_timeout ∷ response yes ∷ []

abbrev three_nodes : Server
three_nodes = record {
  callers = 3;
  min_responses = 2;
  max_blocks_behind = pos 5;
  nodes = node_events;
}

resolve_default-IsPlurality_example :
    (2 ≤ length (successes answers))
    × ((successes answers ≡ yes ∷ []) ⊎ IsPlurality 2 (successes answers) yes)
unfolding resolve_default poll poll_loop decide_poll
resolve_default-IsPlurality_example = resolve_default-IsPlurality 2 answers refl

resolve_default_unanimous_example : resolve_default 2 (refused ∷ yes ∷ yes ∷ []) ≡ resolved yes
unfolding successes same compare
resolve_default_unanimous_example =
    resolve_default_unanimous 2 (refused ∷ yes ∷ yes ∷ []) yes (yes ∷ []) refl
      ((refl, (refl, tt)), ((refl, (refl, tt)), tt)) (omega arith)

resolve_gas_value_within_example :
    (x : ℤ) × (resolve_gas_value 2 heights ≡ resolved (number x)) × (pos 90 ≤ℤ x) × (x ≤ℤ pos 100)
unfolding successes numbers
resolve_gas_value_within_example =
    resolve_gas_value_within 2 heights (pos 90) (pos 100) (omega arith) (omega arith) (ground arith)

resolve_block_number-IsBlock_example :
    (b : ℤ) × (resolve_block_number 2 (pos 5) heights ≡ resolved (number b))
    × IsBlock (pos 5) (numbers (successes heights)) b
unfolding successes numbers
resolve_block_number-IsBlock_example =
    resolve_block_number-IsBlock 2 (pos 5) heights (omega arith) (omega arith)

call-IsPlurality_example :
    (k : ℕ) × (2 ≤ length (successes (first three_nodes k "eth_getCode" [])))
    × ((successes (first three_nodes k "eth_getCode" []) ≡ yes ∷ [])
        ⊎ IsPlurality 2 (successes (first three_nodes k "eth_getCode" [])) yes)
unfolding call call_loop conclude resolve_default poll poll_loop decide_poll
call-IsPlurality_example = call-IsPlurality three_nodes "eth_getCode" [] refl

tagged_block_to_number-IsBlock_example :
    ((pos 97 ≡ negsuc 1) × ((three_nodes.callers ≡ 1) ⊎ (is_tag (negsuc 1) ≡ false)))
    ⊎ ((k : ℕ) × IsBlock
          (pos 5)
          (numbers (successes (first three_nodes k "eth_blockNumber" [])))
          (pos 97))
unfolding tagged_block_to_number call call_loop conclude resolve_block_number
tagged_block_to_number-IsBlock_example =
    tagged_block_to_number-IsBlock three_nodes (negsuc 1) (pos 97) (omega arith) refl

call_loop-Justified_example :
    Justified
      (resolve_default 2)
      3
      (response yes ∷ graceful_timeout ∷ response yes ∷ response no ∷ [])
      []
      (call_loop
        (resolve_default 2)
        3
        (response yes ∷ graceful_timeout ∷ response yes ∷ response no ∷ [])
        [])
call_loop-Justified_example =
    call_loop-Justified (resolve_default 2) 3
      (response yes ∷ graceful_timeout ∷ response yes ∷ response no ∷ []) []

call_loop_returns_example :
    call_loop (resolve_default 2) 2 (response yes ∷ graceful_timeout ∷ response no ∷ []) []
    ≢ waiting
call_loop_returns_example =
    call_loop_returns (resolve_default 2) 2 (response yes ∷ graceful_timeout ∷ response no ∷ []) []
      (omega arith) (omega arith)

abbrev error_codes : List ℤ
error_codes = pos 3 ∷ negsuc 0 ∷ pos 3 ∷ []
