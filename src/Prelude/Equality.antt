-- ===== src/Prelude/Equality.antt =====
-- Go's `comparable`: a type with a Boolean `==` that decides equality.
use Prim.Native.Nat.{ℕ}
use Prim.Native.String.{String}
use mathlib.Core.Bool.{Bool, true}
use mathlib.Core.Logic.{◌↔◌}
use mathlib.Core.Path.{◌≡◌, refl}
use text.Mathlib.Text.{◌==◌ as str_eq}
use text.Mathlib.TextEquality.{eq_iff}
use go_utils.Prelude.Tests.{nat_beq, nat_beq_iff}
use go_utils.Prelude.Text.{Bytes, bytes_eq}
use mathlib.Core.List.{[], ◌∷◌}
use native.Mathlib.Omega.{arith}

infix 50 ◌==◌
pub record Comparable {ℓ} (A : Type ℓ) : Type ℓ where
  pub equals : A → A → Bool
  pub decides : (a b : A) → (equals a b ≡ true) ↔ (a ≡ b)

abbrev pub ◌==◌ {ℓ} : {A : Type ℓ} ⦃c : Comparable A⦄ → A → A → Bool
◌==◌ ⦃c⦄ = c.equals

instance abbrev pub nat_comparable : Comparable ℕ
nat_comparable = record { equals = nat_beq; decides = nat_beq_iff }

instance abbrev pub string_comparable : Comparable String
string_comparable = record { equals = str_eq; decides = eq_iff }

pub bytes_eq_iff : (s t : Bytes) → (bytes_eq s t ≡ true) ↔ (s ≡ t)
bytes_eq_iff [] [] = (λ h. refl, λ h. refl)
bytes_eq_iff [] (b ∷ t) = (λ h. cc, λ h. cc)
bytes_eq_iff (a ∷ s) [] = (λ h. cc, λ h. cc)
bytes_eq_iff (a ∷ s) (b ∷ t) =
    let (to, back) = bytes_eq_iff s t in (λ h. ground (arith, to), λ h. ground (arith, back))

instance abbrev pub bytes_comparable : Comparable Bytes
bytes_comparable = record { equals = bytes_eq; decides = bytes_eq_iff }

pub ==_refl {ℓ} : {A : Type ℓ} ⦃c : Comparable A⦄ (a : A) → (a == a) ≡ true
==_refl ⦃c⦄ a = (c.decides a a).1 refl
