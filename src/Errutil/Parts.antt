-- ===== src/Errutil/Parts.antt =====
-- The errors that the result of Append of errutil/errutil.go consists of.
use go_utils.Prelude.{◌≡◌, refl, ap, ◌∙◌, Option, none, some, List, [], ◌∷◌}
use go_utils.Errutil.{
  Error, plain, multi, MultiError, nil, cons, concat, parts, append_loop, combined, append,
}

-- No element of the list is a MultiError.
abbrev pub IsFlat : MultiError → Type 0
IsFlat nil = Unit
IsFlat (cons (plain m) es) = IsFlat es
IsFlat (cons (multi fs) es) = ⊥

-- The arguments are nil, plain, or flat lists.
abbrev pub AreFlat : List (Option Error) → Type 0
AreFlat [] = Unit
AreFlat (e ∷ errs) = IsFlat (parts e) × AreFlat errs

-- The errors of the arguments behind those of `es`.
abbrev pub all_parts : MultiError → List (Option Error) → MultiError
all_parts es [] = es
all_parts es (e ∷ errs) = concat es (all_parts (parts e) errs)

pub concat_assoc : (a b c : MultiError) → concat (concat a b) c ≡ concat a (concat b c)
unfolding concat
concat_assoc nil b c = refl
concat_assoc (cons e a) b c = ap (cons e) (concat_assoc a b c)

pub concat_nil : (a : MultiError) → concat a nil ≡ a
unfolding concat
concat_nil nil = refl
concat_nil (cons e a) = ap (cons e) (concat_nil a)

pub IsFlat-concat : (es fs : MultiError) → IsFlat es → IsFlat fs → IsFlat (concat es fs)
unfolding concat
IsFlat-concat nil fs h k = k
IsFlat-concat (cons (plain m) es) fs h k = IsFlat-concat es fs h k
IsFlat-concat (cons (multi gs) es) fs h k = absurd h

IsFlat-append_loop :
    (es : MultiError) (errs : List (Option Error))
    → IsFlat es
    → AreFlat errs
    → IsFlat (append_loop es errs)
unfolding append_loop
IsFlat-append_loop es [] h k = h
IsFlat-append_loop es (e ∷ errs) h (f, k) =
    IsFlat-append_loop (concat es (parts e)) errs (IsFlat-concat es (parts e) h f) k

append_loop-all_parts :
    (es : MultiError) (errs : List (Option Error)) → append_loop es errs ≡ all_parts es errs
unfolding append_loop
append_loop-all_parts es [] = refl
append_loop-all_parts es (e ∷ errs) =
    append_loop-all_parts (concat es (parts e)) errs ∙ all_parts-concat es (parts e) errs
  where
    all_parts-concat :
        (a b : MultiError) (rest : List (Option Error))
        → all_parts (concat a b) rest ≡ concat a (all_parts b rest)
    all_parts-concat a b [] = refl
    all_parts-concat a b (f ∷ rest) = concat_assoc a b (all_parts (parts f) rest)

-- A flat list is what it was combined from.
pub parts-combined : (es : MultiError) → IsFlat es → parts (combined es) ≡ es
unfolding parts combined
parts-combined nil h = refl
parts-combined (cons (plain m) nil) h = refl
parts-combined (cons (multi fs) nil) h = absurd h
parts-combined (cons e (cons f es)) h = refl

pub append-combined :
    (err : Option Error) (errs : List (Option Error))
    → append err errs ≡ combined (append_loop (parts err) errs)
unfolding append append_loop combined parts
append-combined none [] = refl
append-combined (some e) [] = refl
append-combined none (f ∷ errs) = refl
append-combined (some e) (f ∷ errs) = refl

-- If no argument has a MultiError inside a MultiError, the result of `Append` has exactly the errors of
-- the arguments, in their order, and no MultiError among them.
pub parts-append :
    (err : Option Error) (errs : List (Option Error))
    → AreFlat (err ∷ errs)
    → (parts (append err errs) ≡ all_parts (parts err) errs) × IsFlat (parts (append err errs))
parts-append err errs (h, k) =
    let flat = IsFlat-append_loop (parts err) errs h k in
    let same = ap parts (append-combined err errs) ∙ parts-combined _ flat in
    (same ∙ append_loop-all_parts (parts err) errs, rw same flat)
