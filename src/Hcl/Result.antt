-- ===== src/Hcl/Result.antt =====
-- What the decoder of hcl/decode.go returns: a value, diagnostics with errors, or a panic.
use go_utils.Prelude.{ℕ, ◌≡◌, refl, Bool, true, false, Option, none, some, Bytes}

-- The diagnostics, each by what its Detail says.
pub data Diagnostic : Type 0 where
  invalid_tag : Bytes → Diagnostic
  not_exported : Bytes → Diagnostic
  no_struct_block : Bytes → Diagnostic
  optional_misplaced optional_repeated : Diagnostic
  remain_no_body body_no_body content_no_content schema_no_schema range_no_range : Diagnostic
  duplicate_attribute duplicate_label duplicate_block : Bytes → Diagnostic
  no_struct_pointer : Diagnostic
  not_encodable no_type_name : Diagnostic
  missing_block extraneous_block : Bytes → Diagnostic
  bad_label : Bytes → Diagnostic
  not_one_label duplicate_key : Bytes → Diagnostic
  bad_block : Bytes → Diagnostic
  bad_value : Bytes → Diagnostic
  foreign : ℕ → Diagnostic

pub data Result {ℓ} (T : Type ℓ) : Type ℓ where
  panics : Result T
  err : Diagnostic → Result T
  ok : T → Result T

infixl 10 ◌>>=◌ ◌>>◌
-- A step that runs only if the one before it neither panics nor returns diagnostics.
abbrev pub ◌>>=◌ {ℓ κ} : {S : Type ℓ} {T : Type κ} → Result S → (S → Result T) → Result T
panics >>= next = panics
err d >>= next = err d
ok s >>= next = next s

abbrev pub ◌>>◌ {ℓ} : {T : Type ℓ} → Result (Unit {0}) → Result T → Result T
step >> next = step >>= λ done. next

-- `if !test { return diagnostic }`
abbrev pub require : Bool → Diagnostic → Result (Unit {0})
require true d = ok tt
require false d = err d

abbrev pub or_err {ℓ} : {A : Type ℓ} → Option A → Diagnostic → Result A
or_err none d = err d
or_err (some a) d = ok a

pub ok_of_bind {ℓ κ} :
    {S : Type ℓ} {T : Type κ} (step : Result S) (next : S → Result T) {t : T}
    → (step >>= next) ≡ ok t
    → (s : S) × (step ≡ ok s) × (next s ≡ ok t)
ok_of_bind panics next h = cc
ok_of_bind (err d) next h = cc
ok_of_bind (ok s) next h = (s, refl, h)

pub require-eq-ok {ℓ} :
    {A : Type ℓ} (test : Bool) (d : Diagnostic) (m : Result A) {a : A}
    → (require test d >> m) ≡ ok a
    → (test ≡ true) × (m ≡ ok a)
require-eq-ok true d m h = (refl, h)
require-eq-ok false d m h = cc

pub ok_inj {ℓ} : {A : Type ℓ} {a b : A} → ok a ≡ ok b → a ≡ b
ok_inj h = cc

pub >>=-assoc {ℓ} :
    {A B C : Type ℓ} (m : Result A) (f : A → Result B) (g : B → Result C)
    → (m >>= f >>= g) ≡ (m >>= λ a. f a >>= g)
>>=-assoc (ok a) f g = refl
>>=-assoc (err d) f g = refl
>>=-assoc panics f g = refl

pub >>=-congr {ℓ} :
    {A B : Type ℓ} (m : Result A) (f g : A → Result B)
    → ((a : A) → f a ≡ g a)
    → (m >>= f) ≡ (m >>= g)
>>=-congr (ok a) f g h = h a
>>=-congr (err d) f g h = refl
>>=-congr panics f g h = refl
