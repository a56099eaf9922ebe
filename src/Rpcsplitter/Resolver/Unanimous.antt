-- ===== src/Rpcsplitter/Resolver/Unanimous.antt =====
-- defaultResolver of rpcsplitter/resolver.go, on responses that are all the same.
use go_utils.Prelude.{
  ℕ, suc, ◌≤◌, ◌<◌, ◌≡◌, refl, sym, ap, ◌∙◌, true, false, Option, List, [], ◌∷◌, arith, ltb, length,
  All,
}
use go_utils.Rpcsplitter.Errors.{Fault}
use go_utils.Rpcsplitter.Resolver.{
  Response, resolved, successes, failures, same, votes, Poll, poll_raise, poll_tie, poll_loop,
  decide_poll, poll, resolve_default,
}

-- `compare` holds between any two of the responses.
abbrev pub AreSame : List Response → Type 0
AreSame rs = All (λ a. All (λ b. same a b ≡ true) rs) rs

votes_all :
    (a : Response) (rs : List Response) → All (λ b. same a b ≡ true) rs → votes a rs ≡ length rs
unfolding votes
votes_all a [] h = refl
votes_all a (b ∷ rs) (e, h) = rw e (ap suc (votes_all a rs h))

raise_keeps : (a : Response) (n : ℕ) (s : Poll) → s.counter ≡ n → poll_raise a n s ≡ s
unfolding poll_raise
raise_keeps a n s c = let e : ltb s.counter n ≡ false = ground arith in rw e refl

tie_keeps : (a : Response) (n : ℕ) (s : Poll) → same s.most_common a ≡ true → poll_tie a n s ≡ s
unfolding poll_tie
tie_keeps a n s e = rw e (ground arith)

-- One round that finds as many votes as the leader has, for a response that is the same.
round_keeps :
    (a : Response) (n : ℕ) (s : Poll)
    → s.counter ≡ n
    → same s.most_common a ≡ true
    → poll_tie a n (poll_raise a n s) ≡ s
round_keeps a n s c e = ap (poll_tie a n) (raise_keeps a n s c) ∙ tie_keeps a n s e

-- The poll that the first response leads with n votes.
abbrev led_by : Response → ℕ → Poll
led_by r n = record { most_common = r; counter = n; multiple = false }

raise_first : (r : Response) (n : ℕ) → 0 < n → poll_raise r n (led_by r 0) ≡ led_by r n
unfolding poll_raise
raise_first r n h = let less : ltb 0 n ≡ true = ground arith in rw less refl

first_round :
    (r : Response) (n : ℕ)
    → 0 < n
    → same r r ≡ true
    → poll_tie r n (poll_raise r n (led_by r 0)) ≡ led_by r n
first_round r n h e = ap (poll_tie r n) (raise_first r n h) ∙ tie_keeps r n (led_by r n) e

loop_keeps :
    (all xs : List Response) (s : Poll)
    → s.counter ≡ length all
    → All (λ a. votes a all ≡ length all) xs
    → All (λ a. same s.most_common a ≡ true) xs
    → poll_loop all xs s ≡ s
unfolding poll_loop
loop_keeps all [] s c v h = refl
loop_keeps all (a ∷ xs) s c (q, v) (e, h) =
    ap (poll_loop all xs) (round_keeps a (votes a all) s (c ∙ sym q) e) ∙ loop_keeps all xs s c v h

All-votes :
    (all xs : List Response)
    → All (λ a. All (λ b. same a b ≡ true) all) xs
    → All (λ a. votes a all ≡ length all) xs
All-votes all [] h = tt
All-votes all (a ∷ xs) (e, h) = (votes_all a all e, All-votes all xs h)

loop_unanimous :
    (r : Response) (rs : List Response)
    → AreSame (r ∷ rs)
    → poll_loop (r ∷ rs) (r ∷ rs) (led_by r 0) ≡ led_by r (length (r ∷ rs))
unfolding poll_loop
loop_unanimous r rs h =
    let all_votes = All-votes (r ∷ rs) (r ∷ rs) h in
    let first =
      ap (λ n. poll_tie r n (poll_raise r n (led_by r 0))) all_votes.0
      ∙ first_round r (length (r ∷ rs)) (omega arith) h.0.0 in
    ap (poll_loop (r ∷ rs) rs) first
    ∙ loop_keeps (r ∷ rs) rs (led_by r (length (r ∷ rs))) refl all_votes.1 h.0.1

decide_led_by :
    (min_responses : ℕ) (errs : List (Option Fault)) (r : Response) (n : ℕ)
    → min_responses ≤ n
    → decide_poll min_responses errs (led_by r n) ≡ resolved r
unfolding decide_poll
decide_led_by min_responses errs r n l =
    let e : ltb n min_responses ≡ false = ground arith in rw e refl

poll_unanimous :
    (min_responses : ℕ) (errs : List (Option Fault)) (r : Response) (rs : List Response)
    → AreSame (r ∷ rs)
    → min_responses ≤ length (r ∷ rs)
    → poll min_responses errs (r ∷ rs) ≡ resolved r
unfolding poll
poll_unanimous min_responses errs r [] h l = refl
poll_unanimous min_responses errs r (q ∷ rs) h l =
    ap (decide_poll min_responses errs) (loop_unanimous r (q ∷ rs) h)
    ∙ decide_led_by min_responses errs r (length (r ∷ q ∷ rs)) l

-- If there are enough responses that are no errors, and they are all the same, the default resolver answers
-- with the first of them.
pub resolve_default_unanimous :
    (min_responses : ℕ) (resps : List Response) (r : Response) (rs : List Response)
    → successes resps ≡ r ∷ rs
    → AreSame (r ∷ rs)
    → min_responses ≤ length (r ∷ rs)
    → resolve_default min_responses resps ≡ resolved r
unfolding resolve_default
resolve_default_unanimous min_responses resps r rs e h l =
    let e_enough : ltb (length (r ∷ rs)) min_responses ≡ false = ground arith in
    rw (e, e_enough) (poll_unanimous min_responses (failures resps) r rs h l)
