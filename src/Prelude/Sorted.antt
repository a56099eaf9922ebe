-- ===== src/Prelude/Sorted.antt =====
-- Orders of numbers in a list.
use Prim.Native.Nat.{ℕ, ◌≤◌, ◌<◌}
use mathlib.Core.List.{List, [], ◌∷◌}
use go_utils.Prelude.Lists.{All}

-- Each value is above those before it.
abbrev pub IsSorted : List ℕ → Type 0
IsSorted [] = Unit
IsSorted (x ∷ xs) = All (λ y. x < y) xs × IsSorted xs

-- Each value is not below those before it.
abbrev pub IsOrdered : List ℕ → Type 0
IsOrdered [] = Unit
IsOrdered (x ∷ xs) = All (λ y. x ≤ y) xs × IsOrdered xs
