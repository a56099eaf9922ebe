-- ===== src/Fsutil/Nested.antt =====
-- Chains of chains of fsutil/fsutil.go: what a chain returns is what its caller, another chain, is given.
use go_utils.Errutil.{Error, MultiError, nil, cons, concat, parts, combined, append, append_loop}
use go_utils.Errutil.Parts.{
  IsFlat, IsFlat-concat, concat_assoc, concat_nil, parts-combined, append-combined,
}
use go_utils.Fsutil.{
  Returned, IoFs, new_chain_fs, try_each, open_file, stat, read_file, read_dir, sub,
}
use go_utils.Fsutil.Chain.{
  FirstIs, here, later, AllFail, done, more, ErrorsFlat, Tries, try_each-Tries, try_each-found,
  try_each-failed, append_one, error-IsFlat,
}
use go_utils.Prelude.{
  ◌≡◌, refl, ap, sym, ◌∙◌, ◌≢◌, inl, inr, Option, none, some, List, [], ◌∷◌, ◌++◌, append-nil,
  Bytes,
}

-- No error of a file system is a MultiError of no errors.
abbrev pub ErrorsSay : {Fs A : Type 0} → (Fs → Returned A) → Type 0
ErrorsSay {Fs = Fs} {A = A} call =
    (f : Fs) (a : Option A) (e : Error) → call f ≡ (a, some e) → parts (some e) ≢ nil

append_one-combined :
    (err : Option Error) (e : Error)
    → append err (some e ∷ []) ≡ combined (concat (parts err) (parts (some e)))
unfolding append_loop
append_one-combined err e = append-combined err (some e ∷ [])

-- A success among the first file systems is the result.
found-append :
    {Fs A : Type 0} (call : Fs → Returned A) (fs rest : List Fs) (err : Option Error) {a : Option A}
    → FirstIs call fs a
    → try_each call (fs ++ rest) err ≡ (a, none)
found-append call [] rest err w = elim w [ ]
found-append call (f ∷ fs) rest err (here q) = try_each-found call f (fs ++ rest) err q
found-append call (f ∷ fs) rest err (later q w) =
    try_each-failed call f (fs ++ rest) err q ∙ found-append call fs rest _ w

-- When the first file systems fail, the others go on with the errors of all of them.
pub failed-append :
    {Fs A : Type 0} (call : Fs → Returned A) (f : Fs) (fs rest : List Fs) (err : Option Error)
    {es : MultiError}
    → ErrorsFlat call
    → IsFlat (parts err)
    → AllFail call (f ∷ fs) es
    → try_each call (f ∷ fs ++ rest) err ≡ try_each call rest (combined (concat (parts err) es))
failed-append call f [] rest err flat k (more {e = e} q done) =
    try_each-failed call f rest err q
    ∙ ap (λ o. try_each call rest o) (append_one-combined err e)
    ∙ ap (λ es. try_each call rest (combined (concat (parts err) es)))
        (sym (concat_nil (parts (some e))))
failed-append call f (g ∷ gs) rest err flat k (more {e = e} {es = es} q w) =
    let one = append_one err e k (error-IsFlat call f flat q) in
    try_each-failed call f (g ∷ gs ++ rest) err q
    ∙ failed-append call g gs rest _ flat (one.1) w
    ∙ ap (λ m. try_each call rest (combined (concat m es))) (one.0)
    ∙ ap (λ m. try_each call rest (combined m)) (concat_assoc (parts err) (parts (some e)) es)

AllFail-IsFlat :
    {Fs A : Type 0} (call : Fs → Returned A) (fs : List Fs) {es : MultiError}
    → ErrorsFlat call
    → AllFail call fs es
    → IsFlat es
AllFail-IsFlat call [] flat done = tt
AllFail-IsFlat call (f ∷ fs) flat (more {e = e} {es = es} q w) =
    IsFlat-concat (parts (some e)) es (error-IsFlat call f flat q) (AllFail-IsFlat call fs flat w)

-- A nonempty list is combined into an error.
combined_nonempty :
    (es fs : MultiError) → es ≢ nil → (e : Error) × (combined (concat es fs) ≡ some e)
unfolding combined concat
combined_nonempty nil fs h = absurd (h refl)
combined_nonempty (cons e nil) nil h = (e, refl)
combined_nonempty (cons e nil) (cons f fs) h = (_, refl)
combined_nonempty (cons e (cons f es)) fs h = (_, refl)

-- The step of the proof below, for the cases of the inner chain.
inner_cases :
    {Fs A : Type 0} (call : Fs → Returned A) (inner g : Fs) (gs rest : List Fs) (err : Option Error)
    → ErrorsFlat call
    → ErrorsSay call
    → IsFlat (parts err)
    → call inner ≡ try_each call (g ∷ gs) none
    → Tries call (g ∷ gs) nil (try_each call (g ∷ gs) none)
    → try_each call (inner ∷ rest) err ≡ try_each call (g ∷ gs ++ rest) err
unfolding try_each parts concat
inner_cases call inner g gs rest err flat say k same (inl (a, w, r)) =
    try_each-found call inner rest err (same ∙ r) ∙ sym (found-append call (g ∷ gs) rest err w)
inner_cases call inner g gs rest err flat say k same (inr (es, more {e = e} {es = fs} q w, r, t)) =
    let all_failed =
      same
      ∙ ap (λ l. try_each call l none) (sym (append-nil (g ∷ gs)))
      ∙ failed-append call g gs [] none flat tt (more q w) in
    let some_error = combined_nonempty (parts (some e)) fs (say g _ e q) in
    let one = all_failed ∙ ap (λ (o : Option Error). (none, o)) (some_error.1) in
    let parts_one =
      ap parts (sym (some_error.1))
      ∙ parts-combined _ (AllFail-IsFlat call (g ∷ gs) flat (more q w)) in
    try_each-failed call inner rest err one
    ∙ ap (λ o. try_each call rest o) (append_one-combined err (some_error.0))
    ∙ ap (λ es. try_each call rest (combined (concat (parts err) es))) parts_one
    ∙ sym (failed-append call g gs rest err flat k (more q w))

-- The same from the file systems before the inner chain on.
try_each-nested_from :
    {Fs A : Type 0} (call : Fs → Returned A) (before rest gs : List Fs) (inner g : Fs)
    (err : Option Error)
    → ErrorsFlat call
    → ErrorsSay call
    → IsFlat (parts err)
    → call inner ≡ try_each call (g ∷ gs) none
    → try_each call (before ++ (inner ∷ rest)) err ≡ try_each call (before ++ (g ∷ gs ++ rest)) err
unfolding parts
try_each-nested_from call [] rest gs inner g err flat say k same =
    inner_cases call inner g gs rest err flat say k same (try_each-Tries call (g ∷ gs) none flat tt)
try_each-nested_from {A = A} call (f ∷ before) rest gs inner g err flat say k same =
    step (call f) refl (λ o h. try_each-nested_from call before rest gs inner g o flat say h same)
  where
    step :
        (r : Returned A)
        → call f ≡ r
        → ((o : Option Error)
            → IsFlat (parts o)
            → try_each call (before ++ (inner ∷ rest)) o
              ≡ try_each call (before ++ (g ∷ gs ++ rest)) o)
        → try_each call (f ∷ before ++ (inner ∷ rest)) err
          ≡ try_each call (f ∷ before ++ (g ∷ gs ++ rest)) err
    step (a, none) q ih = try_each-found call f _ err q ∙ sym (try_each-found call f _ err q)
    step (a, some e) q ih =
        try_each-failed call f _ err q
        ∙ ih _ ((append_one err e k (error-IsFlat call f flat q)).1)
        ∙ sym (try_each-failed call f _ err q)

-- The same with the inner file system as with those in its place.
abbrev pub Same : {Fs R : Type 0} → (List Fs → R) → List Fs → Fs → List Fs → List Fs → Type 0
Same method before inner gs rest =
    method (before ++ (inner ∷ rest)) ≡ method (before ++ (gs ++ rest))

-- A chain that stands among the file systems of a chain can be replaced by its file systems: Open, Stat,
-- ReadFile, ReadDir and Sub return the same value and the same error. The inner chain has a file system,
-- and no error of a file system is an empty MultiError or has a MultiError inside a MultiError.
pub methods-nested :
    {Fs File FileInfo DirEntries : Type 0} (io : IoFs Fs File FileInfo DirEntries)
    (before rest gs : List Fs) (inner g : Fs) (name : Bytes)
    → io.opens inner name ≡ open_file io (new_chain_fs (g ∷ gs)) name
    → io.stats inner name ≡ stat io (new_chain_fs (g ∷ gs)) name
    → io.reads_file inner name ≡ read_file io (new_chain_fs (g ∷ gs)) name
    → io.reads_dir inner name ≡ read_dir io (new_chain_fs (g ∷ gs)) name
    → io.subs inner name ≡ sub io (new_chain_fs (g ∷ gs)) name
    → ErrorsFlat (λ f. io.opens f name) × ErrorsSay (λ f. io.opens f name)
    → ErrorsFlat (λ f. io.stats f name) × ErrorsSay (λ f. io.stats f name)
    → ErrorsFlat (λ f. io.reads_file f name) × ErrorsSay (λ f. io.reads_file f name)
    → ErrorsFlat (λ f. io.reads_dir f name) × ErrorsSay (λ f. io.reads_dir f name)
    → ErrorsFlat (λ f. io.subs f name) × ErrorsSay (λ f. io.subs f name)
    → Same (λ l. open_file io (new_chain_fs l) name) before inner (g ∷ gs) rest
      × Same (λ l. stat io (new_chain_fs l) name) before inner (g ∷ gs) rest
      × Same (λ l. read_file io (new_chain_fs l) name) before inner (g ∷ gs) rest
      × Same (λ l. read_dir io (new_chain_fs l) name) before inner (g ∷ gs) rest
      × Same (λ l. sub io (new_chain_fs l) name) before inner (g ∷ gs) rest
unfolding new_chain_fs open_file stat read_file read_dir sub parts
methods-nested io before rest gs inner g name a b c d e (fa, sa) (fb, sb) (fc, sc) (fd, sd)
      (fe, se) =
    (
      try_each-nested_from _ before rest gs inner g none fa sa tt a,
      try_each-nested_from _ before rest gs inner g none fb sb tt b,
      try_each-nested_from _ before rest gs inner g none fc sc tt c,
      try_each-nested_from _ before rest gs inner g none fd sd tt d,
      try_each-nested_from _ before rest gs inner g none fe se tt e,
    )
