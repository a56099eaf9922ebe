-- ===== src/Retry/Attempts.antt =====
-- The three ways in which Try of retry/retry.go ends.
use mathlib.Core.Path.{subst}
use go_utils.Prelude.Int.{pos}
use go_utils.Prelude.{
  ℕ, zero, suc, ◌+◌, ◌<◌, ◌≡◌, refl, ap, ◌∙◌, ◌≢◌, inl, inr, Option, none, arith, ltb,
  if◌then◌else◌, Bool-cases, Option-cases,
}
use go_utils.Errutil.{Error}
use go_utils.Retry.{Tried, try_loop, try_times, waits_after}

module _ (ctx f : ℕ → Option Error) where
  -- Every round before round i has found the context alive, and its call has failed.
  abbrev pub AllFailed : ℕ → Type 0
  AllFailed i = (j : ℕ) → j < i → (ctx j ≡ none) × (f j ≢ none)

  -- What the result is after a call that succeeds, with a cancelled context, and after n failures.
  pub data IsTried (n : ℕ) (r : Tried) : Type 0 where
    succeeded :
        (k : ℕ)
        → k < n
        → AllFailed k
        → ctx k ≡ none
        → f k ≡ none
        → r ≡ record { err = none; calls = suc k; waits = k }
        → IsTried n r
    cancelled :
        (k : ℕ)
        → k < n
        → AllFailed k
        → ctx k ≢ none
        → r ≡ record { err = ctx k; calls = k; waits = k }
        → IsTried n r
    exhausted :
        (last : Option Error)
        → AllFailed n
        → ((k : ℕ) → n ≡ suc k → last ≡ f k)
        → (n ≡ 0 → last ≡ none)
        → r ≡ record { err = last; calls = n; waits = n }
        → IsTried n r

  AllFailed-suc : (i : ℕ) → AllFailed i → ctx i ≡ none → f i ≢ none → AllFailed (suc i)
  AllFailed-suc i a c h j l = elim (Bool-cases (ltb j i)) [
    | inl less ↦ a j (ground arith)
    | inr last ↦
        let e : i ≡ j = ground arith in subst (λ (k : ℕ). (ctx k ≡ none) × (f k ≢ none)) e (c, h)
  ]

  waits_after_round : (n i w : ℕ) → i < n → (if waits_after (pos n) i then suc w else w) ≡ suc w
  unfolding waits_after
  waits_after_round n i w l = ground arith

  try_loop-IsTried :
      (n left i : ℕ) (err : Option Error)
      → i + left ≡ n
      → AllFailed i
      → ((k : ℕ) → i ≡ suc k → err ≡ f k)
      → (i ≡ 0 → err ≡ none)
      → IsTried n (try_loop ctx f (pos n) left i err i)
  unfolding try_loop waits_after
  try_loop-IsTried n zero i err s a h z =
      let e : i ≡ n = omega arith in
      exhausted err (subst AllFailed e a) (λ k q. h k (e ∙ q)) (λ q. z (e ∙ q))
        (ap (λ (m : ℕ). record { err = err; calls = m; waits = m }) e)
  try_loop-IsTried n (suc left) i err s a h z =
      let l : i < n = omega arith in
      elim (Option-cases (ctx i)) [
        | inr (e, dead) ↦
            rw (dead, try_loop) (cancelled i l a (λ q. ground (arith, q, dead)) (rw dead refl))
        | inl alive ↦ elim (Option-cases (f i)) [
          | inl done ↦ rw (alive, done, try_loop) (succeeded i l a alive done refl)
          | inr (e, failed) ↦
              rw (alive, failed, try_loop, waits_after_round n i i l)
                (try_loop-IsTried n left (suc i) (f i) (omega arith)
                  (AllFailed-suc i a alive (λ q. ground (arith, q, failed)))
                  (λ k q. ap f (ground (arith, q))) (λ q. absurd (omega (arith, q))))
        ]
      ]

  -- With n attempts, `Try` returns nil after the first call that succeeds, the error of a context that is
  -- found cancelled before that, or the error of the last call if all n fail; nil if n is zero. It has
  -- waited after every call that failed, the last one too.
  pub try_times-IsTried : (n : ℕ) → IsTried n (try_times ctx f (pos n))
  unfolding try_times
  try_times-IsTried n =
      try_loop-IsTried n n 0 none (omega arith) (λ j l. absurd (omega (arith, l)))
        (λ k q. absurd (omega (arith, q))) (λ q. refl)
