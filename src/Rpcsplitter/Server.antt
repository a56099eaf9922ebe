-- ===== src/Rpcsplitter/Server.antt =====
-- The proxy of rpcsplitter/server.go: its call of all nodes, and the handlers made from it.
-- What the nodes answer, and when the graceful timeout passes, is a list of events for each call. The
-- logger, and the total timeout, which cancels the calls of the nodes, are not modelled.
pub mod Call
pub mod Handlers
pub mod Agreement
use Prim.Native.String.{String}
use go_utils.Prelude.Int.{ℤ, pos, negsuc, sign, neg, magnitude, ltb_ℤ, eq_ℤ}
use go_utils.Prelude.{
  ℕ, suc, ◌-◌, ◌%◌, ◌^◌, Bool, not, none, List, [], ◌∷◌, ◌++◌, ltb, leb, nat_beq, if◌then◌else◌,
  length,
}
use go_utils.Rpcsplitter.Errors.{Fault, ErrorList}
use go_utils.Rpcsplitter.Resolver.{
  Response, number, Resolved, resolved, unresolved, panicked, resolve_default, resolve_gas_value,
  resolve_block_number,
}

-- What the select statement of `call` receives.
pub data Event : Type 0 where
  response : Response → Event
  graceful_timeout : Event

pub data Outcome : Type 0 where
  returned : Response → Outcome
  failed : ErrorList → Outcome
  -- The resolver panicked: `call` recovers, and returns no error with the zero value of the result.
  returned_zero : Outcome
  -- The events are used up, and `call` waits.
  waiting : Outcome

-- The switch on what the resolver says of the responses `rs`; `more` is the next round.
unfoldable pub conclude : ℕ → List Response → Resolved → Outcome → Outcome
conclude callers rs (resolved r) more = returned r
conclude callers rs (unresolved errs) more = if leb callers (length rs) then failed errs else more
conclude callers rs panicked more = returned_zero

-- The loop of `call` over the responses that have come.
unfoldable pub call_loop : (List Response → Resolved) → ℕ → List Event → List Response → Outcome
unfolding conclude
call_loop resolve callers [] rs = waiting
call_loop resolve callers (response r ∷ events) rs =
    let more = call_loop resolve callers events (rs ++ r ∷ []) in
    if nat_beq (length (rs ++ r ∷ [])) callers
    then conclude callers (rs ++ r ∷ []) (resolve (rs ++ r ∷ [])) more
    else more
call_loop resolve callers (graceful_timeout ∷ events) rs =
    let more = call_loop resolve callers events rs in conclude callers rs (resolve rs) more

-- An argument of a call: a value that is passed on, a block, or nil.
pub data Arg : Type 0 where
  value : ℕ → Arg
  block : ℤ → Arg
  null : Arg

-- A nil argument goes if nothing is left behind it.
unfoldable pub drop_nil : Arg → List Arg → List Arg
drop_nil null [] = []
drop_nil a args = a ∷ args

-- removeTrailingNilArgs, with isNil
unfoldable pub remove_trailing_nil_args : List Arg → List Arg
unfolding drop_nil
remove_trailing_nil_args [] = []
remove_trailing_nil_args (a ∷ args) = drop_nil a (remove_trailing_nil_args args)

-- The fields of the server, with what its nodes answer to a method and its arguments.
pub record Server : Type 0 where
  pub callers : ℕ
  pub min_responses : ℕ
  pub max_blocks_behind : ℤ
  pub nodes : String → List Arg → List Event

-- call
unfoldable pub call : Server → (List Response → Resolved) → String → List Arg → Outcome
unfolding call_loop remove_trailing_nil_args
call s resolve method args =
    call_loop resolve s.callers (s.nodes method (remove_trailing_nil_args args)) []

abbrev pub by_default : Server → List Response → Resolved
by_default s = resolve_default s.min_responses

abbrev pub by_gas_value : Server → List Response → Resolved
by_gas_value s = resolve_gas_value s.min_responses

abbrev pub by_block_number : Server → List Response → Resolved
by_block_number s = resolve_block_number s.min_responses s.max_blocks_behind

-- big.Int's Int64: the low 64 bits of the magnitude as an int64, negated for a negative number
abbrev pub int64_bits : ℕ → ℤ
int64_bits m =
    if ltb (m % 2 ^ 64) (2 ^ 63) then pos (m % 2 ^ 64) else negsuc (2 ^ 64 - m % 2 ^ 64 - 1)

abbrev pub to_int64 : ℤ → ℤ
to_int64 (pos n) = int64_bits n
to_int64 (negsuc n) =
    if eq_ℤ (int64_bits (suc n)) (negsuc (2 ^ 63 - 1))
    then int64_bits (suc n)
    else neg (int64_bits (suc n))

-- IsTag and IsEarliest of a BlockNumber
unfoldable pub is_tag : ℤ → Bool
is_tag x = ltb_ℤ x (pos 0)

unfoldable pub is_earliest : ℤ → Bool
is_earliest x = eq_ℤ (to_int64 x) (negsuc 0)

-- A block number, or the outcome that ends the handler.
pub data Block : Type 0 where
  at : ℤ → Block
  stopped : Outcome → Block

abbrev pub earliest_not_supported : Fault
earliest_not_supported = record { message = "earliest tag is not supported"; code = none }

-- The block number that a call returned, read into a *types.Number, which is 0 before that.
unfoldable pub block_of : Outcome → Block
block_of (returned (number n)) = at n
block_of returned_zero = at (pos 0)
block_of o = stopped o

-- taggedBlockToNumber
unfoldable pub tagged_block_to_number : Server → ℤ → Block
unfolding is_tag is_earliest block_of call
tagged_block_to_number s block_id =
    if nat_beq s.callers 1
    then at block_id
    else if not (is_tag block_id)
    then at block_id
    else if is_earliest block_id
    then stopped (failed (earliest_not_supported ∷ []))
    else block_of (call s (by_block_number s) "eth_blockNumber" [])

-- `if err != nil { return nil, err }`
abbrev pub with_block : Block → (ℤ → Outcome) → Outcome
with_block (at n) f = f n
with_block (stopped o) f = o
