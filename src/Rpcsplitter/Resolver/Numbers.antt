-- ===== src/Rpcsplitter/Resolver/Numbers.antt =====
-- blockNumberResolver of rpcsplitter/resolver.go, and what it is asked for.
use mathlib.Core.Path.{subst}
use go_utils.Prelude.Int.{ℤ, ltb_ℤ, ◌≤ℤ◌, ◌-ℤ◌}
use go_utils.Prelude.{
  ℕ, ◌≤◌, ◌<◌, ◌≡◌, refl, sym, ◌⊎◌, inl, inr, true, ◌&&◌, List, [], ◌∷◌, arith, Bool-cases, length,
  All, In,
}
use go_utils.Rpcsplitter.Resolver.{
  Response, number, resolved, successes, numbers, highest, lowest_near, leb_ℤ, block_number,
  resolve_block_number,
}

-- The answer `b` to the block numbers `ns`, of which none may be `behind` blocks behind the highest.
pub record IsBlock (behind : ℤ) (ns : List ℤ) (b : ℤ) : Type 0 where
  pub high : ℤ
  pub high_in : In high ns
  pub high_top : All (λ n. n ≤ℤ high) ns
  pub member : In b ns
  pub near : (high -ℤ b ≤ℤ behind) ⊎ (b ≡ high)
  pub least : All (λ n. high -ℤ n ≤ℤ behind → b ≤ℤ n) ns

record IsHighest (ns : List ℤ) (start h : ℤ) : Type 0 where
  above_start : start ≤ℤ h
  above : All (λ n. n ≤ℤ h) ns
  source : In h (start ∷ ns)

highest-IsHighest : (ns : List ℤ) (start : ℤ) → IsHighest ns start (highest ns start)
unfolding highest
highest-IsHighest [] start = record { above_start = omega arith; above = tt; source = inl refl }
highest-IsHighest (n ∷ ns) start = elim (Bool-cases (ltb_ℤ start n)) [
  | inl e ↦ rw e (
      let h = highest-IsHighest ns n in
      record {
        above_start = ground (arith, h.above_start);
        above = (h.above_start, h.above);
        source = inr h.source;
      })
  | inr e ↦ rw e (
      let h = highest-IsHighest ns start in
      record {
        above_start = h.above_start;
        above = (ground (arith, h.above_start), h.above);
        source = skip h.source;
      })
]
  where
    skip : {x : ℤ} → In x (start ∷ ns) → In x (start ∷ n ∷ ns)
    skip (inl e) = inl e
    skip (inr i) = inr (inr i)

record IsLowest (high behind : ℤ) (ns : List ℤ) (start b : ℤ) : Type 0 where
  below_start : b ≤ℤ start
  least : All (λ n. high -ℤ n ≤ℤ behind → b ≤ℤ n) ns
  source : (b ≡ start) ⊎ (In b ns × (high -ℤ b ≤ℤ behind))

lowest_near-IsLowest :
    (ns : List ℤ) (high behind start : ℤ)
    → IsLowest high behind ns start (lowest_near ns high behind start)
unfolding lowest_near
lowest_near-IsLowest [] high behind start = record {
  below_start = omega arith;
  least = tt;
  source = inl refl;
}
lowest_near-IsLowest (n ∷ ns) high behind start =
    elim (Bool-cases (leb_ℤ (high -ℤ n) behind && ltb_ℤ n start)) [
      | inl e ↦ rw e (
          let h = lowest_near-IsLowest ns high behind n in
          record {
            below_start = ground (arith, h.below_start);
            least = (λ l. h.below_start, h.least);
            source = taken e h.source;
          })
      | inr e ↦ rw e (
          let h = lowest_near-IsLowest ns high behind start in
          record {
            below_start = h.below_start;
            least = (λ l. ground (arith, h.below_start), h.least);
            source = skipped h.source;
          })
    ]
  where
    taken :
        (leb_ℤ (high -ℤ n) behind && ltb_ℤ n start) ≡ true
        → {b : ℤ} → (b ≡ n) ⊎ (In b ns × (high -ℤ b ≤ℤ behind))
        → (b ≡ start) ⊎ (In b (n ∷ ns) × (high -ℤ b ≤ℤ behind))
    taken e (inl q) = inr (inl q, rw q (ground arith))
    taken e (inr (i, l)) = inr (inr i, l)

    skipped :
        {b : ℤ}
        → (b ≡ start) ⊎ (In b ns × (high -ℤ b ≤ℤ behind))
        → (b ≡ start) ⊎ (In b (n ∷ ns) × (high -ℤ b ≤ℤ behind))
    skipped (inl q) = inl q
    skipped (inr (i, l)) = inr (inr i, l)

block_number-IsBlock :
    (behind : ℤ) (ns : List ℤ)
    → 0 < length ns
    → (b : ℤ) × (block_number behind ns ≡ resolved (number b)) × IsBlock behind ns b
unfolding block_number
block_number-IsBlock behind [] e = absurd (omega arith)
block_number-IsBlock behind (n ∷ []) e = (
  n,
  refl,
  record {
    high = n;
    high_in = inl refl;
    high_top = (omega arith, tt);
    member = inl refl;
    near = inr refl;
    least = (λ l. omega arith, tt);
  },
)
block_number-IsBlock behind (n ∷ m ∷ ns) e =
    let all : List ℤ = n ∷ m ∷ ns in
    let h = highest-IsHighest all n in
    let l = lowest_near-IsLowest all (highest all n) behind (highest all n) in
    let top : In (highest all n) all = in_list h.source in
    (
      lowest_near all (highest all n) behind (highest all n),
      refl,
      record {
        high = highest all n;
        high_in = top;
        high_top = h.above;
        member = in_all top l.source;
        near = close l.source;
        least = l.least;
      },
    )
  where
    in_list : {x : ℤ} → In x (n ∷ n ∷ m ∷ ns) → In x (n ∷ m ∷ ns)
    in_list (inl q) = inl q
    in_list (inr i) = i

    in_all :
        {x b : ℤ}
        → In x (n ∷ m ∷ ns)
        → (b ≡ x) ⊎ (In b (n ∷ m ∷ ns) × (x -ℤ b ≤ℤ behind))
        → In b (n ∷ m ∷ ns)
    in_all i (inl q) = subst (λ (y : ℤ). In y (n ∷ m ∷ ns)) (sym q) i
    in_all i (inr (j, l)) = j

    close :
        {x b : ℤ}
        → (b ≡ x) ⊎ (In b (n ∷ m ∷ ns) × (x -ℤ b ≤ℤ behind))
        → (x -ℤ b ≤ℤ behind) ⊎ (b ≡ x)
    close (inl q) = inr q
    close (inr (j, l)) = inl l

-- With enough numbers, and one at least, the block number resolver answers with the lowest of them
-- that is within `maxBlocksBehind` of the highest, or else with the highest.
pub resolve_block_number-IsBlock :
    (min_responses : ℕ) (behind : ℤ) (resps : List Response)
    → min_responses ≤ length (numbers (successes resps))
    → 0 < length (numbers (successes resps))
    → (b : ℤ) × (resolve_block_number min_responses behind resps ≡ resolved (number b))
      × IsBlock behind (numbers (successes resps)) b
unfolding resolve_block_number
resolve_block_number-IsBlock min_responses behind resps enough some_number =
    let (b, e, h) = block_number-IsBlock behind (numbers (successes resps)) some_number in
    (b, ground arith, h)
