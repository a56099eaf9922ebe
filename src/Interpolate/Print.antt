-- ===== src/Interpolate/Print.antt =====
-- An independent printer of parsed texts: the syntax that Parse reads, with every byte escaped that
-- could end a run.
use go_utils.Prelude.{ℕ, ◌≡◌, ◌≢◌, false, [], ◌∷◌, ◌++◌, if◌then◌else◌, Bytes}
use go_utils.Interpolate.{literal, variable, Variable, Parsed, is_any_of}

unfoldable pub escape : Bytes → Bytes → Bytes
escape stops [] = []
escape stops (c ∷ s) = (if is_any_of stops c then b'\\' ∷ c ∷ [] else c ∷ []) ++ escape stops s

unfoldable pub print_default : Variable → Bytes
unfolding escape
print_default v = if v.has_default then b'-' ∷ escape (b'}' ∷ b'\\' ∷ []) v.default else []

unfoldable pub print_variable : ℕ → Variable → Bytes
unfolding escape print_default
print_variable sigil v =
    sigil ∷ b'{' ∷ escape (b'}' ∷ b'-' ∷ b'\\' ∷ []) v.name ++ (print_default v ++ b'}' ∷ [])

unfoldable pub print : ℕ → Parsed → Bytes
unfolding print_variable
print sigil [] = []
print sigil (literal s ∷ ps) = escape (sigil ∷ b'\\' ∷ []) s ++ print sigil ps
print sigil (variable v ∷ ps) = print_variable sigil v ++ print sigil ps

-- A default that is not announced is empty.
abbrev pub IsVariable : Variable → Type 0
IsVariable v = v.has_default ≡ false → v.default ≡ []

-- No literal is empty, and no two literals are neighbours.
abbrev pub IsNormal : Parsed → Type 0
IsNormal [] = Unit
IsNormal (literal s ∷ literal t ∷ ps) = ⊥
IsNormal (literal s ∷ ps) = (s ≢ []) × IsNormal ps
IsNormal (variable v ∷ ps) = IsVariable v × IsNormal ps
