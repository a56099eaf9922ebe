-- ===== src/Retry/Forever.antt =====
-- How TryForever of retry/retry.go ends.
use mathlib.Core.Path.{subst}
use go_utils.Errutil.{Error}
use go_utils.Prelude.{
  ℕ, zero, suc, ◌+◌, ◌<◌, ◌≤◌, ◌≡◌, refl, ◌≢◌, ◌⊎◌, inl, inr, true, false, Option, none, some,
  arith, ltb, Bool-cases, Option-cases,
}
use go_utils.Retry.{Ended, forever_loop, try_forever}

module _ (ctx f : ℕ → Option Error) where
  -- A round finds the context alive and its call fails.
  abbrev GoesOn : ℕ → Type 0
  GoesOn i = (ctx i ≡ none) × (f i ≢ none)

  -- What the round does that ends the loop.
  abbrev end_of : ℕ → Ended
  end_of i = elim (ctx i) [
    | some e ↦ record { calls = i; waits = i; succeeded = false }
    | none ↦ record { calls = suc i; waits = i; succeeded = true }
  ]

  forever_loop_last :
      (left i : ℕ)
      → (ctx i ≢ none) ⊎ (f i ≡ none)
      → forever_loop ctx f (suc left) i ≡ some (end_of i)
  unfolding forever_loop
  forever_loop_last left i e = elim (Option-cases (ctx i)) [
    | inr (c, dead) ↦ rw (dead, forever_loop) (rw (dead, end_of) refl)
    | inl alive ↦ elim e [
      | inl dead ↦ absurd (dead alive)
      | inr done ↦ rw (alive, done, forever_loop) (rw (alive, end_of) refl)
    ]
  ]

  forever_loop_next :
      (left i : ℕ) → GoesOn i → forever_loop ctx f (suc left) i ≡ forever_loop ctx f left (suc i)
  unfolding forever_loop
  forever_loop_next left i (alive, fails) = elim (Option-cases (f i)) [
    | inl done ↦ absurd (fails done)
    | inr (e, failed) ↦ rw (alive, failed, forever_loop) refl
  ]

  forever_loop_ends :
      (m left i : ℕ)
      → i ≤ m
      → m < i + left
      → ((j : ℕ) → j < m → GoesOn j)
      → (ctx m ≢ none) ⊎ (f m ≡ none)
      → forever_loop ctx f left i ≡ some (end_of m)
  forever_loop_ends m zero i l b a e = absurd (omega arith)
  forever_loop_ends m (suc left) i l b a e = elim (Bool-cases (ltb i m)) [
    | inl less ↦
        rw (forever_loop_next left i (a i (ground arith)))
          (forever_loop_ends m left (suc i) (ground arith) (omega arith) a e)
    | inr last ↦
        let q : m ≡ i = ground arith in
        rw q (forever_loop_last left i (subst (λ (n : ℕ). (ctx n ≢ none) ⊎ (f n ≡ none)) q e))
  ]

  -- When every round before round `m` finds the context alive and its call fails, and round `m` finds the
  -- context cancelled or its call succeeds, TryForever ends in round `m`: it has waited after each of the
  -- `m` calls that failed, and it makes one more call, the one that succeeds, only if the context is alive
  -- then. Every bound on the rounds above `m` is enough.
  try_forever_ends :
      (m bound : ℕ)
      → ((j : ℕ) → j < m → GoesOn j)
      → (ctx m ≢ none) ⊎ (f m ≡ none)
      → m < bound
      → try_forever ctx f bound ≡ some (end_of m)
  unfolding try_forever
  try_forever_ends m bound a e l = forever_loop_ends m bound 0 (omega arith) (omega arith) a e
