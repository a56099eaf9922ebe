-- ===== src/Retry/Examples.antt =====
-- A run of Try.
use go_utils.Prelude.Int.{pos}
use go_utils.Prelude.{ℕ, Option, none, some, nat_beq, if◌then◌else◌}
use go_utils.Errutil.{Error, plain}
use go_utils.Retry.{try_times}
use go_utils.Retry.Attempts.{IsTried, try_times-IsTried}

abbrev alive : ℕ → Option Error
alive n = none

-- The third call succeeds.
abbrev third : ℕ → Option Error
third n = if nat_beq n 2 then none else some (plain "refused")

try_times-IsTried_example : IsTried alive third 5 (try_times alive third (pos 5))
try_times-IsTried_example = try_times-IsTried alive third 5
