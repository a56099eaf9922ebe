-- ===== src/Prelude/Text.antt =====
-- Text as the list of its bytes.
use Prim.Native.Char.{code}
use Prim.Native.Nat.{ℕ}
use Prim.Native.String.{String}
use mathlib.Core.Bool.{Bool, true, false, ◌&&◌}
use mathlib.Core.List.{List, [], ◌∷◌, ◌++◌}
use go_utils.Prelude.Tests.{nat_beq}

abbrev pub Bytes : Type 0
Bytes = List ℕ

-- The code points of a literal: its bytes, if it is ASCII. `String` has its own `[]` and `∷`.
abbrev pub codes : String → Bytes
codes String.[] = []
codes (String.◌∷◌ c s) = code c ∷ codes s

-- bytes.Equal, and == of two strings
abbrev pub bytes_eq : Bytes → Bytes → Bool
bytes_eq [] [] = true
bytes_eq (a ∷ s) (b ∷ t) = nat_beq a b && bytes_eq s t
bytes_eq _ _ = false

-- The texts, each with the separator before it.
abbrev pub separated : Bytes → List Bytes → Bytes
separated sep [] = []
separated sep (t ∷ ts) = sep ++ (t ++ separated sep ts)

-- strings.Join
abbrev pub joined : Bytes → List Bytes → Bytes
joined sep [] = []
joined sep (t ∷ ts) = t ++ separated sep ts
