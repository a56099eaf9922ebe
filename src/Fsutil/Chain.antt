-- ===== src/Fsutil/Chain.antt =====
-- Which result the methods of chainFS of fsutil/fsutil.go return.
use go_utils.Errutil.{Error, MultiError, nil, concat, parts, append}
use go_utils.Errutil.Parts.{IsFlat, parts-append, concat_assoc, concat_nil}
use go_utils.Fsutil.{Returned, returned_or, try_each}
use mathlib.Core.Path.{subst}
use go_utils.Prelude.{◌≡◌, refl, ap, sym, ◌∙◌, ◌⊎◌, inl, inr, Option, none, some, List, [], ◌∷◌}

-- `a` is what the first of the file systems that returns no error returns.
pub data FirstIs {Fs A : Type 0} (call : Fs → Returned A) : List Fs → Option A → Type 0 where
  here : {f : Fs} {fs : List Fs} {a : Option A} → call f ≡ (a, none) → FirstIs call (f ∷ fs) a
  later :
      {f : Fs} {fs : List Fs} {a b : Option A} {e : Error}
      → call f ≡ (b, some e)
      → FirstIs call fs a
      → FirstIs call (f ∷ fs) a

-- Every file system returns an error, and these are the single errors of them all, in order.
pub data AllFail {Fs A : Type 0} (call : Fs → Returned A) : List Fs → MultiError → Type 0 where
  done : AllFail call [] nil
  more :
      {f : Fs} {fs : List Fs} {a : Option A} {e : Error} {es : MultiError}
      → call f ≡ (a, some e)
      → AllFail call fs es
      → AllFail call (f ∷ fs) (concat (parts (some e)) es)

-- No error of a file system has a MultiError inside a MultiError.
abbrev pub ErrorsFlat : {Fs A : Type 0} → (Fs → Returned A) → Type 0
ErrorsFlat {Fs} call = (f : Fs) → IsFlat (parts ((call f).1))

-- Either the first success, with no error, or no value and an error with those of `err` and of all.
abbrev pub Tries : {Fs A : Type 0} → (Fs → Returned A) → List Fs → MultiError → Returned A → Type 0
Tries {A = A} call fs before r =
    ((a : Option A) × FirstIs call fs a × (r ≡ (a, none)))
    ⊎ ((es : MultiError) × AllFail call fs es × (r.0 ≡ none) × (parts (r.1) ≡ concat before es))

pub try_each-found :
    {Fs A : Type 0} (call : Fs → Returned A) (f : Fs) (fs : List Fs) (err : Option Error)
    {a : Option A}
    → call f ≡ (a, none)
    → try_each call (f ∷ fs) err ≡ (a, none)
unfolding try_each returned_or
try_each-found call f fs err q =
    ap (λ r. returned_or r (λ e. try_each call fs (append err (some e ∷ [])))) q

pub try_each-failed :
    {Fs A : Type 0} (call : Fs → Returned A) (f : Fs) (fs : List Fs) (err : Option Error)
    {a : Option A} {e : Error}
    → call f ≡ (a, some e)
    → try_each call (f ∷ fs) err ≡ try_each call fs (append err (some e ∷ []))
unfolding try_each returned_or
try_each-failed call f fs err q =
    ap (λ r. returned_or r (λ e. try_each call fs (append err (some e ∷ [])))) q

-- What one more flat error adds.
pub append_one :
    (err : Option Error) (e : Error)
    → IsFlat (parts err)
    → IsFlat (parts (some e))
    → (parts (append err (some e ∷ [])) ≡ concat (parts err) (parts (some e)))
      × IsFlat (parts (append err (some e ∷ [])))
append_one err e h k = parts-append err (some e ∷ []) (h, (k, tt))

pub error-IsFlat :
    {Fs A : Type 0} (call : Fs → Returned A) (f : Fs) {a : Option A} {e : Error}
    → ErrorsFlat call
    → call f ≡ (a, some e)
    → IsFlat (parts (some e))
error-IsFlat {A = A} call f flat q = subst (λ (c : Returned A). IsFlat (parts (c.1))) q (flat f)

-- The loop from a file system on, when the errors so far are flat.
pub try_each-Tries :
    {Fs A : Type 0} (call : Fs → Returned A) (fs : List Fs) (err : Option Error)
    → ErrorsFlat call
    → IsFlat (parts err)
    → Tries call fs (parts err) (try_each call fs err)
unfolding try_each
try_each-Tries call [] err flat k = inr (nil, done, refl, sym (concat_nil (parts err)))
try_each-Tries {Fs} {A} call (f ∷ fs) err flat k =
    step (call f) refl (λ o h. try_each-Tries call fs o flat h)
  where
    next :
        (e : Error) (a : Option A) (r : Returned A)
        → call f ≡ (a, some e)
        → Tries call fs (parts (append err (some e ∷ []))) r
        → Tries call (f ∷ fs) (parts err) r
    next e a r q (inl (b, w, s)) = inl (b, later q w, s)
    next e a r q (inr (es, w, s, t)) = inr (
      _,
      more q w,
      s,
      t
          ∙ ap (λ m. concat m es) ((append_one err e k (error-IsFlat call f flat q)).0)
          ∙ concat_assoc (parts err) (parts (some e)) es,
    )

    step :
        (r : Returned A)
        → call f ≡ r
        → ((o : Option Error) → IsFlat (parts o) → Tries call fs (parts o) (try_each call fs o))
        → Tries call (f ∷ fs) (parts err) (try_each call (f ∷ fs) err)
    step (a, none) q ih = inl (a, here q, try_each-found call f fs err q)
    step (a, some e) q ih =
        subst (Tries call (f ∷ fs) (parts err)) (sym (try_each-failed call f fs err q))
          (next e a _ q (ih _ ((append_one err e k (error-IsFlat call f flat q)).1)))
