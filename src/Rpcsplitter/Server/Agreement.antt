-- ===== src/Rpcsplitter/Server/Agreement.antt =====
-- Whole calls and handlers of rpcsplitter/server.go, with the resolvers that they are made with.
use Prim.Native.String.{String}
use mathlib.Core.Path.{subst}
use go_utils.Prelude.Int.{ℤ, negsuc}
use go_utils.Prelude.{
  ℕ, ◌≤◌, ◌<◌, ◌≡◌, refl, ◌≢◌, ◌⊎◌, inl, inr, false, Option, some, List, [], ◌∷◌, arith, nat_beq,
  Bool-cases, length, take,
}
use go_utils.Rpcsplitter.Resolver.{
  Response, number, Resolved, resolved, panicked, successes, numbers, resolve_block_number,
  block_number,
}
use go_utils.Rpcsplitter.Resolver.Plurality.{IsPlurality, resolve_default-IsPlurality}
use go_utils.Rpcsplitter.Resolver.Numbers.{IsBlock, resolve_block_number-IsBlock}
use go_utils.Rpcsplitter.Server.{
  Server, Arg, Outcome, returned, failed, returned_zero, waiting, call, by_default, by_block_number,
  remove_trailing_nil_args, tagged_block_to_number, block_of, at, stopped, is_tag, is_earliest,
  earliest_not_supported,
}
use go_utils.Rpcsplitter.Server.Handlers.{
  get_transaction_count, get_balance, get_code, get_storage_at, eth_call, estimate_gas, fee_history,
  get_logs,
}
use go_utils.Rpcsplitter.Server.Call.{responses, Justified, call_loop-Justified}

-- The first k responses of the nodes to a call.
abbrev pub first : Server → ℕ → String → List Arg → List Response
first s k method args = take k (responses (s.nodes method (remove_trailing_nil_args args)))

call-Justified :
    (s : Server) (resolve : List Response → Resolved) (method : String) (args : List Arg)
    (o : Outcome)
    → call s resolve method args ≡ o
    → Justified resolve s.callers (s.nodes method (remove_trailing_nil_args args)) [] o
unfolding call
call-Justified s resolve method args o e =
    subst (Justified resolve s.callers (s.nodes method (remove_trailing_nil_args args)) []) e
      (call_loop-Justified resolve s.callers (s.nodes method (remove_trailing_nil_args args)) [])

-- A call with the default resolver returns the only response that is no error among those that came
-- first, or the one of them that has the required votes, that no other has more votes than, and that
-- those with as many votes are the same as.
pub call-IsPlurality :
    (s : Server) (method : String) (args : List Arg) {r : Response}
    → call s (by_default s) method args ≡ returned r
    → (k : ℕ) × (s.min_responses ≤ length (successes (first s k method args)))
      × ((successes (first s k method args) ≡ r ∷ [])
          ⊎ IsPlurality s.min_responses (successes (first s k method args)) r)
call-IsPlurality s method args {r = r} e =
    let (k, q) = call-Justified s (by_default s) method args (returned r) e in
    let (enough, chosen) = resolve_default-IsPlurality s.min_responses (first s k method args) q in
    (k, enough, chosen)

-- A block number is found in enough numbers only.
resolve_block_number_enough :
    (min_responses : ℕ) (behind : ℤ) (resps : List Response) {r : Response}
    → resolve_block_number min_responses behind resps ≡ resolved r
    → (min_responses ≤ length (numbers (successes resps)))
      × (0 < length (numbers (successes resps)))
unfolding resolve_block_number block_number
resolve_block_number_enough min_responses behind resps e = ground arith

resolved-IsBlock :
    (min_responses : ℕ) (behind : ℤ) (resps : List Response) {r : Response}
    → resolve_block_number min_responses behind resps ≡ resolved r
    → (b : ℤ) × (r ≡ number b) × IsBlock behind (numbers (successes resps)) b
resolved-IsBlock min_responses behind resps {r = r} e =
    let (enough, some_number) = resolve_block_number_enough min_responses behind resps e in
    let (b, q, h) = resolve_block_number-IsBlock min_responses behind resps enough some_number in
    (b, ground arith, h)

block_number_panics :
    (min_responses : ℕ) (behind : ℤ) (resps : List Response)
    → 0 < min_responses
    → resolve_block_number min_responses behind resps ≢ panicked
unfolding resolve_block_number block_number
block_number_panics min_responses behind resps h e = ground arith

-- The number that a call for the block number leaves in its result.
block_of-IsBlock :
    (s : Server) (n : ℤ) (o : Outcome)
    → 0 < s.min_responses
    → call s (by_block_number s) "eth_blockNumber" [] ≡ o
    → block_of o ≡ at n
    → (k : ℕ) × IsBlock s.max_blocks_behind (numbers (successes (first s k "eth_blockNumber" []))) n
unfolding block_of
block_of-IsBlock s n (returned r) h e q =
    let (k, f) = call-Justified s (by_block_number s) "eth_blockNumber" [] (returned r) e in
    let (b, g, i) =
      resolved-IsBlock s.min_responses s.max_blocks_behind (first s k "eth_blockNumber" []) f in
    let same_block : b ≡ n = ground arith in
    (
      k,
      subst (IsBlock s.max_blocks_behind (numbers (successes (first s k "eth_blockNumber" []))))
          same_block i,
    )
block_of-IsBlock s n returned_zero h e q =
    let (k, f) = call-Justified s (by_block_number s) "eth_blockNumber" [] returned_zero e in
    absurd
      (block_number_panics s.min_responses s.max_blocks_behind (first s k "eth_blockNumber" []) h f)
block_of-IsBlock s n (failed errs) h e q = ground arith
block_of-IsBlock s n waiting h e q = ground arith

-- If one response at least is required, the block that replaces a block number or tag is the same, for
-- one node or a number that is no tag, or the latest block of the responses that came first to
-- `eth_blockNumber`: the lowest that is near enough to the highest.
pub tagged_block_to_number-IsBlock :
    (s : Server) (block_id n : ℤ)
    → 0 < s.min_responses
    → tagged_block_to_number s block_id ≡ at n
    → ((n ≡ block_id) × ((s.callers ≡ 1) ⊎ (is_tag block_id ≡ false)))
      ⊎ ((k : ℕ) × IsBlock s.max_blocks_behind
            (numbers (successes (first s k "eth_blockNumber" [])))
            n)
unfolding tagged_block_to_number
tagged_block_to_number-IsBlock s block_id n h e = elim (Bool-cases (nat_beq s.callers 1)) [
  | inl one ↦ inl (ground arith)
  | inr more ↦ elim (Bool-cases (is_tag block_id)) [
    | inr plain ↦ inl (ground arith)
    | inl tag ↦ elim (Bool-cases (is_earliest block_id)) [
      | inl earliest ↦ absurd (ground arith)
      | inr other ↦ inr (
          block_of-IsBlock s n (call s (by_block_number s) "eth_blockNumber" []) h refl
            (ground arith))
    ]
  ]
]

stopped_at_earliest :
    (s : Server)
    → s.callers ≢ 1
    → tagged_block_to_number s (negsuc 0) ≡ stopped (failed (earliest_not_supported ∷ []))
unfolding tagged_block_to_number is_tag is_earliest
stopped_at_earliest s more = ground arith

-- With more nodes than one, a call at the earliest block fails in every procedure that takes a block.
pub earliest_fails :
    (s : Server) (a b : ℕ) (c : Arg)
    → s.callers ≢ 1
    → (get_transaction_count s a (negsuc 0) ≡ failed (earliest_not_supported ∷ []))
      × (get_balance s a (negsuc 0) ≡ failed (earliest_not_supported ∷ []))
      × (get_code s a (negsuc 0) ≡ failed (earliest_not_supported ∷ []))
      × (get_storage_at s a b (negsuc 0) ≡ failed (earliest_not_supported ∷ []))
      × (eth_call s a (negsuc 0) c ≡ failed (earliest_not_supported ∷ []))
      × (estimate_gas s a (negsuc 0) ≡ failed (earliest_not_supported ∷ []))
      × (fee_history s a (negsuc 0) b ≡ failed (earliest_not_supported ∷ []))
      × ((to : Option ℤ) → get_logs s (some (negsuc 0)) to a ≡ failed (earliest_not_supported ∷ []))
unfolding get_transaction_count get_balance get_code get_storage_at eth_call estimate_gas
    fee_history get_logs
earliest_fails s a b c more =
    let e = stopped_at_earliest s more in (rw e, rw e, rw e, rw e, rw e, rw e, rw e, λ to. rw e)
