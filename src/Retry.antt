-- ===== src/Retry.antt =====
-- Try and TryForever of retry/retry.go. The context is what its Err returns at each test of the loop, and `f` is what its
-- calls return, both by the number of the round; waiting for the timer is counted.
pub mod Attempts
pub mod Forever
pub mod Examples
use go_utils.Prelude.Int.{ℤ, pos, negsuc, ltb_ℤ}
use go_utils.Prelude.{ℕ, zero, suc, Bool, true, false, ◌||◌, Option, none, some, if◌then◌else◌}
use go_utils.Errutil.{Error}

pub record Tried : Type 0 where
  pub err : Option Error
  pub calls : ℕ
  pub waits : ℕ

-- `attempts < 0 || i < attempts`, the test before the wait
unfoldable pub waits_after : ℤ → ℕ → Bool
waits_after attempts i = ltb_ℤ attempts (pos 0) || ltb_ℤ (pos i) attempts

module _ (ctx f : ℕ → Option Error) (attempts : ℤ) where
  -- The rounds that are left, the number of the next one, and the variables of the loop.
  unfoldable pub try_loop : ℕ → ℕ → Option Error → ℕ → Tried
  unfolding waits_after
  try_loop zero i err waits = record { err = err; calls = i; waits = waits }
  try_loop (suc left) i err waits =
      let next =
        try_loop left (suc i) (f i) (if waits_after attempts i then suc waits else waits) in
      elim (ctx i) [
        | some e ↦ record { err = some e; calls = i; waits = waits }
        | none ↦ elim (f i) [
          | none ↦ record { err = none; calls = suc i; waits = waits }
          | some e ↦ next
        ]
      ]

-- The rounds of `for i := 0; i < attempts; i++`
abbrev pub rounds : ℤ → ℕ
rounds (pos n) = n
rounds (negsuc n) = 0

unfoldable pub try_times : (ctx f : ℕ → Option Error) → ℤ → Tried
unfolding try_loop
try_times ctx f attempts = try_loop ctx f attempts (rounds attempts) 0 none 0

-- How TryForever ends: how often f was called, how often it waited, and whether the last call succeeded.
pub record Ended : Type 0 where
  pub calls : ℕ
  pub waits : ℕ
  pub succeeded : Bool

module _ (ctx f : ℕ → Option Error) where
  -- The loop of TryForever with a bound on its rounds, from round `i` on; `none` if the bound is reached.
  unfoldable pub forever_loop : ℕ → ℕ → Option Ended
  forever_loop zero i = none
  forever_loop (suc rounds) i =
      let next = forever_loop rounds (suc i) in
      elim (ctx i) [
        | some e ↦ some (record { calls = i; waits = i; succeeded = false })
        | none ↦ elim (f i) [
          | none ↦ some (record { calls = suc i; waits = i; succeeded = true })
          | some e ↦ next
        ]
      ]

  unfoldable pub try_forever : ℕ → Option Ended
  unfolding forever_loop
  try_forever rounds = forever_loop rounds 0
