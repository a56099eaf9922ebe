-- ===== src/Errutil/Text.antt =====
-- Error of errutil/errutil.go, the text of a MultiError. A message is the list of its bytes.
use go_utils.Errutil.{Error, plain, multi, MultiError, nil, cons}
use go_utils.Prelude.{
  ℕ, suc, ◌<◌, ◌≡◌, refl, true, List, [], ◌∷◌, ◌++◌, arith, ltb, if◌then◌else◌, Bytes, codes,
  separated, joined,
}

-- What Error returns of a list, with what its loop writes; an empty list has no text.
unfoldable framed : MultiError → Bytes → Bytes
framed nil written = []
framed (cons e es) written = codes "following errors occurred: [" ++ (written ++ codes "]")

unfoldable mutual
  unfolding framed

  -- Error of an error of either kind
  text_of : Error → Bytes
  text_of (plain m) = codes m
  text_of (multi es) = framed es (text_loop 0 es)

  -- The loop over the errors, from the index `i` on.
  text_loop : ℕ → MultiError → Bytes
  text_loop i nil = []
  text_loop i (cons e es) =
      (if ltb 0 i then codes ", " else []) ++ (text_of e ++ text_loop (suc i) es)

-- MultiError.Error
unfoldable multi_text : MultiError → Bytes
unfolding framed
multi_text es = framed es (text_loop 0 es)

abbrev texts : MultiError → List Bytes
texts nil = []
texts (cons e es) = text_of e ∷ texts es

text_loop-separated :
    (i : ℕ) (es : MultiError) → 0 < i → text_loop i es ≡ separated (codes ", ") (texts es)
unfolding text_loop
text_loop-separated i nil l = refl
text_loop-separated i (cons e es) l =
    let c : ltb 0 i ≡ true = ground arith in
    rw (text_loop-separated (suc i) es (omega arith)) (rw c refl)

-- The text of a MultiError with errors in it is that of the errors, with ", " between two of them, in
-- brackets. An error that is a MultiError itself stands there by its own text.
multi_text-joined :
    (e : Error) (es : MultiError)
    → multi_text (cons e es)
      ≡ codes "following errors occurred: ["
        ++ (joined (codes ", ") (texts (cons e es)) ++ codes "]")
unfolding multi_text text_loop framed
multi_text-joined e es = rw (text_loop-separated 1 es (omega arith)) refl
