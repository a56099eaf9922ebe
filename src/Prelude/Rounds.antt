-- ===== src/Prelude/Rounds.antt =====
-- Loops whose rounds make a measure fall. They run on the measure as fuel.
use go_utils.Prelude.{ℕ, zero, suc, ◌<◌, ◌≡◌, refl, ◌⊎◌, inl, inr, arith}

-- What one round of a loop does: go on with new variables, or leave the loop with a result.
pub data Round {ℓ} (S R : Type ℓ) : Type ℓ where
  again : S → Round S R
  stop : R → Round S R

unfoldable pub iterate {ℓ} : {S R : Type ℓ} → (S → Round S R) → (S → R) → ℕ → S → R
iterate round out zero s = out s
iterate round out (suc n) s = elim (round s) [ again t ↦ iterate round out n t | stop r ↦ r ]

-- `out` would be the result of a loop that runs out of fuel.
unfoldable pub run {ℓ} : {S R : Type ℓ} → (S → Round S R) → (S → R) → (S → ℕ) → S → R
unfolding iterate
run round out measure s = iterate round out (suc (measure s)) s

-- The rest of a loop behind one round.
abbrev pub go_on {ℓ} : {S R : Type ℓ} → (S → Round S R) → (S → R) → (S → ℕ) → Round S R → R
go_on round out measure (again t) = run round out measure t
go_on round out measure (stop r) = r

-- Every round that goes on makes the measure fall.
abbrev pub Falls {ℓ} : {S R : Type ℓ} → (S → Round S R) → (S → ℕ) → Type ℓ
Falls {S = S} round measure = (s t : S) → round s ≡ again t → measure t < measure s

module _ {ℓ} {S R : Type ℓ} (round : S → Round S R) (out : S → R) (measure : S → ℕ) where
  Round-cases : (r : Round S R) → ((t : S) × (r ≡ again t)) ⊎ ((x : R) × (r ≡ stop x))
  Round-cases (again t) = inl (t, refl)
  Round-cases (stop x) = inr (x, refl)

  -- Any two amounts of fuel above the measure give the same result.
  iterate_enough :
      Falls round measure
      → (n m : ℕ) (s : S) → measure s < n
      → measure s < m
      → iterate round out n s ≡ iterate round out m s
  unfolding iterate
  iterate_enough falls zero m s h k = absurd (omega arith)
  iterate_enough falls (suc n) zero s h k = absurd (omega arith)
  iterate_enough falls (suc n) (suc m) s h k = elim (Round-cases (round s)) [
    | inl (t, e) ↦
        rw (e, iterate)
          (let less : measure t < measure s = falls s t e in
            iterate_enough falls n m t (omega arith) (omega arith))
    | inr (x, e) ↦ rw (e, iterate)
  ]

  -- The loop is its first round and the rest: with a falling measure, fuel plays no part.
  pub run_lem :
      Falls round measure → (s : S) → run round out measure s ≡ go_on round out measure (round s)
  unfolding run iterate
  run_lem falls s = elim (Round-cases (round s)) [
    | inl (t, e) ↦
        rw (e, iterate, run)
          (let less : measure t < measure s = falls s t e in
            iterate_enough falls (measure s) (suc (measure t)) t less (omega arith))
    | inr (x, e) ↦ rw (e, iterate, run)
  ]

  -- The invariant rule: what every round keeps holds at the loop's own end.
  pub run_inv {κ} :
      (P : S → Type κ) (Q : R → Type κ)
      → Falls round measure
      → ((s t : S) → P s → round s ≡ again t → P t)
      → ((s : S) (x : R) → P s → round s ≡ stop x → Q x)
      → (s : S) → P s
      → Q (run round out measure s)
  unfolding run iterate
  run_inv P Q falls keep end s h = go (suc (measure s)) s (omega arith) h
    where
      go : (n : ℕ) (u : S) → measure u < n → P u → Q (iterate round out n u)
      go zero u l g = absurd (omega arith)
      go (suc n) u l g = elim (Round-cases (round u)) [
        | inl (t, e) ↦
            rw (e, iterate)
              (let less : measure t < measure u = falls u t e in
                go n t (omega arith) (keep u t g e))
        | inr (x, e) ↦ rw (e, iterate) (end u x g e)
      ]
