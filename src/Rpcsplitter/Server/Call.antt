-- ===== src/Rpcsplitter/Server/Call.antt =====
-- The select loop of `call` in rpcsplitter/server.go, over the events that it receives.
use go_utils.Prelude.{
  ℕ, suc, ◌+◌, ◌≤◌, ◌<◌, ◌≡◌, refl, ◌≢◌, inl, inr, List, [], ◌∷◌, ◌++◌, append-nil, append_assoc,
  arith, leb, nat_beq, Bool-cases, length, length-append, take,
}
use go_utils.Rpcsplitter.Resolver.{Response, Resolved, resolved, unresolved, panicked}
use go_utils.Rpcsplitter.Server.{
  Event, response, graceful_timeout, Outcome, returned, failed, returned_zero, waiting, conclude,
  call_loop,
}

-- The responses among events, in order.
abbrev pub responses : List Event → List Response
responses [] = []
responses (response r ∷ events) = r ∷ responses events
responses (graceful_timeout ∷ events) = responses events

-- No timeout is among the events.
abbrev pub NoTimeout : List Event → Type 0
NoTimeout [] = Unit
NoTimeout (response r ∷ events) = NoTimeout events
NoTimeout (graceful_timeout ∷ events) = ⊥

module _ (resolve : List Response → Resolved) (callers : ℕ) where
  length-concat : (rs : List Response) (r : Response) → length (rs ++ r ∷ []) ≡ suc (length rs)
  length-concat rs r = omega (arith, length-append rs (r ∷ []))

  -- Once the last node has answered, the call has returned.
  pub call_loop_returns :
      (events : List Event) (rs : List Response)
      → length rs < callers
      → callers ≤ length rs + length (responses events)
      → call_loop resolve callers events rs ≢ waiting
  unfolding call_loop conclude
  call_loop_returns [] rs l h = absurd (omega arith)
  call_loop_returns (response r ∷ events) rs l h =
      ground (arith, length-concat rs r, call_loop_returns events (rs ++ r ∷ []))
  call_loop_returns (graceful_timeout ∷ events) rs l h = ground (arith, call_loop_returns events rs)

  -- With no timeout to come, the call waits for every node, whatever the resolver would say of the
  -- responses that are there.
  pub call_loop_waits :
      (events : List Event) (rs : List Response)
      → NoTimeout events
      → length rs + length events < callers
      → call_loop resolve callers events rs ≡ waiting
  unfolding call_loop
  call_loop_waits [] rs n h = refl
  call_loop_waits (response r ∷ events) rs n h =
      ground (arith, length-concat rs r, call_loop_waits events (rs ++ r ∷ []) n)
  call_loop_waits (graceful_timeout ∷ events) rs n h = absurd n

  -- What the outcome of a call says of the responses that had come.
  abbrev pub Justified : List Event → List Response → Outcome → Type 0
  Justified events rs (returned r) =
      (k : ℕ) × (resolve (rs ++ take k (responses events)) ≡ resolved r)
  Justified events rs (failed errs) =
      (k : ℕ) × (resolve (rs ++ take k (responses events)) ≡ unresolved errs)
      × (callers ≤ length (rs ++ take k (responses events)))
  Justified events rs returned_zero =
      (k : ℕ) × (resolve (rs ++ take k (responses events)) ≡ panicked)
  Justified events rs waiting = Unit

  Justified-later :
      (r : Response) (events : List Event) (rs : List Response) (o : Outcome)
      → Justified events (rs ++ r ∷ []) o
      → Justified (response r ∷ events) rs o
  Justified-later r events rs (returned x) (k, e) = (suc k, rw append_assoc at e)
  Justified-later r events rs (failed errs) (k, e, h) =
      (suc k, rw append_assoc at e, rw append_assoc at h)
  Justified-later r events rs returned_zero (k, e) = (suc k, rw append_assoc at e)
  Justified-later r events rs waiting h = tt

  Justified-conclude :
      (events : List Event) (rs now : List Response) (k : ℕ) (v : Resolved) (more : Outcome)
      → rs ++ take k (responses events) ≡ now
      → resolve now ≡ v
      → Justified events rs more
      → Justified events rs (conclude callers now v more)
  unfolding conclude
  Justified-conclude events rs now k (resolved r) more e q h = (k, rw e q)
  Justified-conclude events rs now k (unresolved errs) more e q h =
      elim (Bool-cases (leb callers (length now))) [
        | inl all ↦ rw all (k, rw e q, rw e (ground arith))
        | inr some_left ↦ rw some_left h
      ]
  Justified-conclude events rs now k panicked more e q h = (k, rw e q)

  -- A call returns what its resolver says of the responses that had come first, in their order; it
  -- fails only when that is of the responses of all nodes.
  pub call_loop-Justified :
      (events : List Event) (rs : List Response)
      → Justified events rs (call_loop resolve callers events rs)
  unfolding call_loop
  call_loop-Justified [] rs = tt
  call_loop-Justified (response r ∷ events) rs =
      let later = Justified-later r events rs _ (call_loop-Justified events (rs ++ r ∷ [])) in
      elim (Bool-cases (nat_beq (length (rs ++ r ∷ [])) callers)) [
        | inl last ↦
            rw last
              (Justified-conclude (response r ∷ events) rs (rs ++ r ∷ []) 1 _ _ refl refl later)
        | inr first ↦ rw first later
      ]
  call_loop-Justified (graceful_timeout ∷ events) rs =
      Justified-conclude (graceful_timeout ∷ events) rs rs 0 _ _ (append-nil rs) refl
        (skip (call_loop resolve callers events rs) (call_loop-Justified events rs))
    where
      skip : (o : Outcome) → Justified events rs o → Justified (graceful_timeout ∷ events) rs o
      skip (returned r) h = h
      skip (failed errs) h = h
      skip returned_zero h = h
      skip waiting h = h
