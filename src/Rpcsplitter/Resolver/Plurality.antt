-- ===== src/Rpcsplitter/Resolver/Plurality.antt =====
-- defaultResolver of rpcsplitter/resolver.go, as a poll of the responses.
use mathlib.Core.Path.{subst}
use go_utils.Prelude.{
  ℕ, ◌≤◌, ◌≡◌, refl, sym, ◌∙◌, ◌⊎◌, inl, inr, true, false, Option, List, [], ◌∷◌, ◌++◌,
  append_assoc, arith, ltb, Bool-cases, length, All, In,
}
use go_utils.Rpcsplitter.Errors.{Fault}
use go_utils.Rpcsplitter.Resolver.{
  Response, resolved, successes, failures, same, votes, Poll, poll_raise, poll_tie, poll_loop,
  decide_poll, poll, resolve_default,
}

-- What the poll `s` of the responses `all` knows of a response that it has seen.
record IsSeen (all : List Response) (s : Poll) (a : Response) : Type 0 where
  outvoted : votes a all ≤ s.counter
  unrivalled : s.multiple ≡ false → votes a all ≡ s.counter → same s.most_common a ≡ true

abbrev step : List Response → Response → Poll → Poll
step all a s = poll_tie a (votes a all) (poll_raise a (votes a all) s)

step-IsSeen : (all : List Response) (s : Poll) (a : Response) → IsSeen all (step all a s) a
unfolding poll_raise poll_tie
step-IsSeen all s a = record { outvoted = ground arith; unrivalled = λ m v. ground arith }

step-keeps :
    (all : List Response) (s : Poll) (a b : Response) → IsSeen all s b → IsSeen all (step all a s) b
unfolding poll_raise poll_tie
step-keeps all s a b h = record {
  outvoted = ground (arith, h.outvoted);
  unrivalled = λ m v. ground (arith, h.outvoted, h.unrivalled);
}

poll_loop-keeps :
    (all rs : List Response) (s : Poll) (b : Response)
    → IsSeen all s b
    → IsSeen all (poll_loop all rs s) b
unfolding poll_loop
poll_loop-keeps all [] s b h = h
poll_loop-keeps all (a ∷ rs) s b h =
    poll_loop-keeps all rs (step all a s) b (step-keeps all s a b h)

poll_loop-IsSeen : (all rs : List Response) (s : Poll) → All (IsSeen all (poll_loop all rs s)) rs
unfolding poll_loop
poll_loop-IsSeen all [] s = tt
poll_loop-IsSeen all (a ∷ rs) s = (
  poll_loop-keeps all rs (step all a s) a (step-IsSeen all s a),
  poll_loop-IsSeen all rs (step all a s),
)

-- The leader of a poll is a response, with the votes that are counted for it.
record IsLeader (all : List Response) (s : Poll) : Type 0 where
  member : In s.most_common all
  earned : s.counter ≤ votes s.most_common all

step-IsLeader :
    (all : List Response) (s : Poll) (a : Response)
    → In a all
    → IsLeader all s
    → IsLeader all (step all a s)
unfolding poll_raise poll_tie
step-IsLeader all s a i h = elim (Bool-cases (ltb s.counter (votes a all))) [
  | inl e ↦ rw e (record { member = ground arith; earned = ground arith })
  | inr e ↦ rw e (record { member = ground (arith, h.member); earned = ground (arith, h.earned) })
]

poll_loop-IsLeader :
    (all rs : List Response) (s : Poll)
    → All (λ a. In a all) rs
    → IsLeader all s
    → IsLeader all (poll_loop all rs s)
unfolding poll_loop
poll_loop-IsLeader all [] s i h = h
poll_loop-IsLeader all (a ∷ rs) s i h =
    poll_loop-IsLeader all rs (step all a s) i.1 (step-IsLeader all s a i.0 h)

All-In : (P : Response → Type 0) (rs : List Response) {a : Response} → All P rs → In a rs → P a
All-In P [] h i = absurd i
All-In P (r ∷ rs) h (inl e) = subst P (sym e) h.0
All-In P (r ∷ rs) h (inr i) = All-In P rs h.1 i

All-self : (pre rs all : List Response) → pre ++ rs ≡ all → All (λ a. In a all) rs
All-self pre [] all e = tt
All-self pre (r ∷ rs) all e = (
  subst (λ (l : List Response). In r l) e (In-middle pre),
  All-self (pre ++ r ∷ []) rs all (append_assoc pre (r ∷ []) rs ∙ e),
)
  where
    In-middle : (l : List Response) → In r (l ++ r ∷ rs)
    In-middle [] = inl refl
    In-middle (x ∷ l) = inr (In-middle l)

-- The answer `r` to the responses `all`: it has the votes that are required, no response has more,
-- and every response with as many is the same as it.
pub record IsPlurality (min_responses : ℕ) (all : List Response) (r : Response) : Type 0 where
  pub member : In r all
  pub supported : min_responses ≤ votes r all
  pub outvoted : All (λ a. votes a all ≤ votes r all) all
  pub unrivalled : All (λ a. votes a all ≡ votes r all → same r a ≡ true) all

All-map :
    (P Q : Response → Type 0) (rs : List Response)
    → ((a : Response) → P a → Q a)
    → All P rs
    → All Q rs
All-map P Q [] f h = tt
All-map P Q (r ∷ rs) f h = (f r h.0, All-map P Q rs f h.1)

decide_poll-IsPlurality :
    (min_responses : ℕ) (errs : List (Option Fault)) (all : List Response) (s : Poll) {r : Response}
    → All (IsSeen all s) all
    → IsLeader all s
    → decide_poll min_responses errs s ≡ resolved r
    → IsPlurality min_responses all r
unfolding decide_poll
decide_poll-IsPlurality min_responses errs all s {r} seen lead e =
    let chosen : s.most_common ≡ r = ground arith in
    let enough : min_responses ≤ s.counter = ground arith in
    let alone : s.multiple ≡ false = ground arith in
    let own : IsSeen all s s.most_common = All-In (IsSeen all s) all seen lead.member in
    subst (IsPlurality min_responses all) chosen (record {
      member = lead.member;
      supported = omega (arith, lead.earned);
      outvoted = All-map (IsSeen all s) _ all (λ a h. omega (arith, h.outvoted, lead.earned)) seen;
      unrivalled =
          All-map (IsSeen all s) _ all
            (λ a h v. h.unrivalled alone (omega (arith, lead.earned, own.outvoted))) seen;
    })

poll-IsPlurality :
    (min_responses : ℕ) (errs : List (Option Fault)) (all : List Response) {r : Response}
    → poll min_responses errs all ≡ resolved r
    → (all ≡ r ∷ []) ⊎ IsPlurality min_responses all r
unfolding poll
poll-IsPlurality min_responses errs [] e = cc
poll-IsPlurality min_responses errs (a ∷ []) e = inl (ground arith)
poll-IsPlurality min_responses errs (a ∷ b ∷ rs) e =
    let all : List Response = a ∷ b ∷ rs in
    let start : Poll = record { most_common = a; counter = 0; multiple = false } in
    inr (
      decide_poll-IsPlurality min_responses errs all (poll_loop all all start)
        (poll_loop-IsSeen all all start)
        (poll_loop-IsLeader all all start (All-self [] all all refl)
          (record { member = inl refl; earned = omega arith }))
        e)

-- When the default resolver answers, the answer is the only response that is no error, or it has
-- the required votes, no response has more, and every response with as many is the same as it.
pub resolve_default-IsPlurality :
    (min_responses : ℕ) (resps : List Response) {r : Response}
    → resolve_default min_responses resps ≡ resolved r
    → (min_responses ≤ length (successes resps))
      × ((successes resps ≡ r ∷ []) ⊎ IsPlurality min_responses (successes resps) r)
unfolding resolve_default
resolve_default-IsPlurality min_responses resps e =
    (ground arith, poll-IsPlurality min_responses (failures resps) (successes resps) (ground arith))
