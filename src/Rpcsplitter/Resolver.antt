-- ===== src/Rpcsplitter/Resolver.antt =====
-- rpcsplitter/resolver.go. A response is an error, a *types.Number, or a pointer to another result.
pub mod Numbers
pub mod Plurality
pub mod Median
pub mod Unanimous
use go_utils.Prelude.Int.{ℤ, pos, negsuc, ltb_ℤ, eq_ℤ, ◌≤ℤ◌, ◌+ℤ◌, ◌-ℤ◌}
use go_utils.Prelude.{
  ℕ, suc, ◌-◌, ◌/◌, ◌%◌, Bool, true, false, ◌&&◌, ◌||◌, not, Option, none, some, List, [], ◌∷◌, ltb,
  nat_beq, if◌then◌else◌, length, get_or,
}
use go_utils.Bn.IntNumber.{euclid_div}
use go_utils.Rpcsplitter.Compare.{Value, compare}
use go_utils.Rpcsplitter.Errors.{Fault, ErrorList, Base, single, add_error}

pub data Response : Type 0 where
  failure : Fault → Response
  number : ℤ → Response
  result : Value → Response

pub data Resolved : Type 0 where
  resolved : Response → Resolved
  unresolved : ErrorList → Resolved
  -- resps[0] of no responses
  panicked : Resolved

abbrev pub not_enough_responses : Fault
not_enough_responses = record { message = "not enough responses from RPC servers"; code = none }

abbrev pub different_responses : Fault
different_responses = record { message = "RPC servers returned different responses"; code = none }

-- extractErrors: the responses that are no errors
unfoldable pub successes : List Response → List Response
successes [] = []
successes (failure e ∷ rs) = successes rs
successes (r ∷ rs) = r ∷ successes rs

-- extractErrors: the errors
unfoldable pub failures : List Response → List (Option Fault)
failures [] = []
failures (failure e ∷ rs) = some e ∷ failures rs
failures (r ∷ rs) = failures rs

-- filterByNumberType
unfoldable pub numbers : List Response → List ℤ
numbers [] = []
numbers (number n ∷ rs) = n ∷ numbers rs
numbers (r ∷ rs) = numbers rs

-- compare of two responses. Numbers are structs of one type, and equal integers are stored alike.
unfoldable pub same : Response → Response → Bool
unfolding compare
same (number a) (number b) = eq_ℤ a b
same (result v) (result w) = compare v w
same _ _ = false

-- The inner loop: `counter`.
unfoldable pub votes : Response → List Response → ℕ
unfolding same
votes a [] = 0
votes a (b ∷ rs) = let more = votes a rs in if same a b then suc more else more

-- The variables of the outer loop.
pub record Poll : Type 0 where
  pub most_common : Response
  pub counter : ℕ
  pub multiple : Bool

-- The first test of a round, and then the second.
unfoldable pub poll_raise : Response → ℕ → Poll → Poll
poll_raise a counter s =
    if ltb s.counter counter
    then record { most_common = a; counter = counter; multiple = false }
    else s

unfoldable pub poll_tie : Response → ℕ → Poll → Poll
unfolding same
poll_tie a counter s =
    if nat_beq counter s.counter && not (same s.most_common a)
    then record s { multiple = true }
    else s

unfoldable pub poll_loop : List Response → List Response → Poll → Poll
unfolding poll_raise poll_tie votes
poll_loop all [] s = s
poll_loop all (a ∷ rs) s =
    poll_loop all rs (poll_tie a (votes a all) (poll_raise a (votes a all) s))

-- The poll of responses that are no errors, of which there is one at least.
unfoldable pub decide_poll : ℕ → List (Option Fault) → Poll → Resolved
decide_poll min_responses errs s =
    if s.multiple || ltb s.counter min_responses
    then unresolved (add_error (single different_responses) errs)
    else resolved s.most_common

unfoldable pub poll : ℕ → List (Option Fault) → List Response → Resolved
unfolding poll_loop decide_poll
poll min_responses errs [] = panicked
poll min_responses errs (r ∷ []) = resolved r
poll min_responses errs (r ∷ q ∷ rs) = decide_poll min_responses errs (
    poll_loop (r ∷ q ∷ rs) (r ∷ q ∷ rs) (record { most_common = r; counter = 0; multiple = false }))

-- defaultResolver.resolve. A requirement below zero acts as zero.
unfoldable pub resolve_default : ℕ → List Response → Resolved
unfolding poll successes failures
resolve_default min_responses resps =
    if ltb (length (successes resps)) min_responses
    then unresolved (add_error (single not_enough_responses) (failures resps))
    else poll min_responses (failures resps) (successes resps)

-- sort.Slice by `<` on the numbers
unfoldable pub insert_sorted : ℤ → List ℤ → List ℤ
insert_sorted n [] = n ∷ []
insert_sorted n (m ∷ ms) =
    let rest = insert_sorted n ms in if ltb_ℤ m n then m ∷ rest else n ∷ m ∷ ms

unfoldable pub sort : List ℤ → List ℤ
unfolding insert_sorted
sort [] = []
sort (n ∷ ns) = insert_sorted n (sort ns)

-- The median of sorted numbers; for an even count the middle two are averaged, by big.Int's Div.
unfoldable pub median : List ℤ → ℤ
unfolding euclid_div ◌+ℤ◌
median ns =
    if nat_beq (length ns % 2) 0
    then euclid_div (get_or ns (length ns / 2 - 1) (pos 0) +ℤ get_or ns (length ns / 2) (pos 0))
        (pos 2)
    else get_or ns (length ns / 2) (pos 0)

-- resps[0]
abbrev pub first_response : List Response → Resolved
first_response [] = panicked
first_response (r ∷ rs) = resolved r

unfoldable pub gas_value : List Response → List ℤ → Resolved
unfolding median sort
gas_value resps (n ∷ []) = first_response resps
gas_value resps (a ∷ b ∷ []) = resolved (number (if ltb_ℤ b a then b else a))
gas_value resps ns = resolved (number (median (sort ns)))

-- gasValueResolver.resolve. With no numbers and no requirement, `ns[len(ns)/2-1]` panics.
unfoldable pub resolve_gas_value : ℕ → List Response → Resolved
unfolding gas_value successes numbers failures
resolve_gas_value min_responses resps =
    let ns = numbers (successes resps) in
    if ltb (length ns) min_responses
    then unresolved (add_error (single not_enough_responses) (failures resps))
    else if nat_beq (length ns) 0
    then panicked
    else gas_value (successes resps) ns

-- The first loop of blockNumberResolver: the highest number.
unfoldable pub highest : List ℤ → ℤ → ℤ
highest [] high = high
highest (n ∷ ns) high = highest ns (if ltb_ℤ high n then n else high)

abbrev pub leb_ℤ : ℤ → ℤ → Bool
leb_ℤ a b = not (ltb_ℤ b a)

-- The second: the lowest number that is not too far behind.
unfoldable pub lowest_near : List ℤ → ℤ → ℤ → ℤ → ℤ
unfolding ◌-ℤ◌
lowest_near [] high behind block = block
lowest_near (n ∷ ns) high behind block =
    lowest_near ns high behind (if leb_ℤ (high -ℤ n) behind && ltb_ℤ n block then n else block)

unfoldable pub block_number : ℤ → List ℤ → Resolved
unfolding highest lowest_near
block_number behind [] = panicked
block_number behind (n ∷ []) = resolved (number n)
block_number behind (n ∷ m ∷ ns) =
    let high = highest (n ∷ m ∷ ns) n in
    resolved (number (lowest_near (n ∷ m ∷ ns) high behind high))

-- blockNumberResolver.resolve, with maxBlocksBehind
unfoldable pub resolve_block_number : ℕ → ℤ → List Response → Resolved
unfolding block_number successes numbers failures
resolve_block_number min_responses max_blocks_behind resps =
    let ns = numbers (successes resps) in
    if ltb (length ns) min_responses
    then unresolved (add_error (single not_enough_responses) (failures resps))
    else block_number max_blocks_behind ns
