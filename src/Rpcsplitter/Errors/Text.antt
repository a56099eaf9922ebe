-- ===== src/Rpcsplitter/Errors/Text.antt =====
-- The text of an error list of rpcsplitter/errors.go. A message is the list of its bytes.
use go_utils.Prelude.{
  ℕ, suc, ◌+◌, ◌-◌, ◌≡◌, refl, true, false, List, [], ◌∷◌, ◌++◌, arith, ltb, if◌then◌else◌, Bytes,
  codes, joined, length,
}
use go_utils.Rpcsplitter.Errors.{Fault, ErrorList}

-- The loop over the errors, of which there are `len`, from the index `n` on.
unfoldable text_loop : ℕ → ℕ → ErrorList → Bytes
text_loop len n [] = []
text_loop len n (e ∷ es) =
    codes e.message ++ ((if ltb n (len - 1) then codes ", " else []) ++ text_loop len (suc n) es)

-- errorList.Error
unfoldable error_text : ErrorList → Bytes
unfolding text_loop
error_text [] = codes "unknown error"
error_text (e ∷ []) = codes e.message
error_text (e ∷ f ∷ es) =
    codes "the following errors occurred: "
    ++ (codes "[" ++ (text_loop (length (e ∷ f ∷ es)) 0 (e ∷ f ∷ es) ++ codes "]"))

abbrev messages : ErrorList → List Bytes
messages [] = []
messages (e ∷ es) = codes e.message ∷ messages es

text_loop-joined :
    (len n : ℕ) (es : ErrorList)
    → n + length es ≡ len
    → text_loop len n es ≡ joined (codes ", ") (messages es)
unfolding text_loop
text_loop-joined len n [] s = refl
text_loop-joined len n (e ∷ []) s = let c : ltb n (len - 1) ≡ false = ground arith in rw c refl
text_loop-joined len n (e ∷ f ∷ es) s =
    let c : ltb n (len - 1) ≡ true = ground arith in
    rw (c, text_loop-joined len (suc n) (f ∷ es) (omega arith)) refl

-- The text of a list of two or more errors is that of their messages, with ", " between two of them and
-- not after the last, in brackets.
error_text-joined :
    (e f : Fault) (es : ErrorList)
    → error_text (e ∷ f ∷ es)
      ≡ codes "the following errors occurred: ["
        ++ (joined (codes ", ") (messages (e ∷ f ∷ es)) ++ codes "]")
unfolding error_text
error_text-joined e f es =
    rw (text_loop-joined (length (e ∷ f ∷ es)) 0 (e ∷ f ∷ es) (omega arith)) refl
