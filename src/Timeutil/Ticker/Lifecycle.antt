-- ===== src/Timeutil/Ticker/Lifecycle.antt =====
-- Starts and ends of a Ticker of timeutil/ticker.go.
use go_utils.Prelude.Int.{ℤ, pos, eq_ℤ}
use go_utils.Timeutil.Ticker.{Context, live, done, Ticker, started, start}
use go_utils.Prelude.{
  ℕ, suc, ◌≤◌, ◌≡◌, refl, ◌⊎◌, inl, inr, true, false, Option, none, some, arith, Option-cases,
}

-- A call of Start, the end of the context, a goroutine that sees it and sets ctx to nil, one that has done
-- so, stops its time.Ticker and returns, and one that has no duration to tick at and returns.
pub data Step (t u : Ticker ℤ) : Type 0 where
  starts : (c : Option Context) → start c t ≡ started u → Step t u
  cancels :
      t.ctx ≡ some live
      → u ≡ record { ctx = some done; d = t.d; routines = t.routines; stopping = t.stopping }
      → Step t u
  leaves :
      (n : ℕ)
      → eq_ℤ t.d (pos 0) ≡ false
      → t.ctx ≡ some done
      → t.routines ≡ suc n
      → u ≡ record { ctx = none; d = t.d; routines = n; stopping = suc t.stopping }
      → Step t u
  stops :
      (n : ℕ)
      → t.stopping ≡ suc n
      → u ≡ record { ctx = t.ctx; d = t.d; routines = t.routines; stopping = n }
      → Step t u
  returns :
      (n : ℕ)
      → eq_ℤ t.d (pos 0) ≡ true
      → t.routines ≡ suc n
      → u ≡ record { ctx = t.ctx; d = t.d; routines = n; stopping = t.stopping }
      → Step t u

pub data Reach (s : Ticker ℤ) : Ticker ℤ → Type 0 where
  here : Reach s s
  next : {t u : Ticker ℤ} → Reach s t → Step t u → Reach s u

-- A ticker with a duration has one goroutine in its loop as long as it has a context, and none without a
-- context; a ticker without a duration has at most one.
abbrev pub IsSingle : Ticker ℤ → Type 0
IsSingle t = elim t.ctx [
  | none ↦ t.routines ≡ 0
  | some c ↦ (t.routines ≤ 1) × (eq_ℤ t.d (pos 0) ≡ false → t.routines ≡ 1)
]

context_cases : (t : Ticker ℤ) → (t.ctx ≡ none) ⊎ ((c : Context) × (t.ctx ≡ some c))
context_cases t = Option-cases t.ctx

Step-IsSingle : (t u : Ticker ℤ) → IsSingle t → Step t u → IsSingle u
unfolding start
Step-IsSingle t u h (starts c e) = elim (context_cases t) [
  | inr (k, f) ↦ absurd (cc (rw (f, start) at e))
  | inl f ↦
      elim c as (λ c. start c t ≡ started u → IsSingle u) [
        | none ↦ λ e. absurd (cc (rw (f, start) at e))
        | some k ↦ λ e.
            let r : t.routines ≡ 0 = rw f at h in
            let same : record {
              ctx = some k;
              d = t.d;
              routines = suc t.routines;
              stopping = t.stopping;
            }
                ≡ u =
              cc (rw (f, start) at e) in
            rw (← same) (omega arith, λ b. omega arith)
      ]
        e
]
Step-IsSingle t u h (cancels f e) = rw e (let g = rw f at h in g)
Step-IsSingle t u h (leaves n b f r e) = rw e (let g = rw f at h in let one = g.1 b in omega arith)
Step-IsSingle t u h (stops n r e) = rw e h
Step-IsSingle t u h (returns n b r e) = elim (context_cases t) [
  | inl f ↦ absurd (let g : t.routines ≡ 0 = rw f at h in omega arith)
  | inr (c, f) ↦ let g = rw f at h in rw (e, f) (let l = g.0 in omega arith, λ q. cc)
]

-- From a new ticker no order of calls of Start, ends of contexts and steps of goroutines leads to two
-- goroutines at a time that can still tick, that is, that have not set ctx to nil, and a ticker with a
-- duration has one exactly as long as it has a context. (Any number can be between setting ctx to nil and
-- their return.)
pub Reach-IsSingle :
    (d : ℤ) (t : Ticker ℤ)
    → Reach (record { ctx = none; d = d; routines = 0; stopping = 0 }) t
    → IsSingle t
Reach-IsSingle d t here = refl
Reach-IsSingle d t (next r st) = Step-IsSingle _ t (Reach-IsSingle d _ r) st
