-- ===== src/Fsutil/Paths.antt =====
-- The paths that Glob of chainFS of fsutil/fsutil.go collects.
use go_utils.Errutil.{Error}
use go_utils.Fsutil.{globbed_or, glob_each}
use go_utils.Prelude.{
  ◌≡◌, refl, ap, sym, ◌∙◌, ◌⊎◌, inl, inr, Option, none, some, List, [], ◌∷◌, ◌++◌, append-nil,
  append_assoc, Bytes,
}

abbrev pub Globbed : Type 0
Globbed = List Bytes × Option Error

-- No file system returns an error, and these are the paths of them all, in order.
pub data PathsAre {Fs : Type 0} (call : Fs → Globbed) : List Fs → List Bytes → Type 0 where
  done : PathsAre call [] []
  more :
      {f : Fs} {fs : List Fs} {ps qs : List Bytes}
      → call f ≡ (ps, none)
      → PathsAre call fs qs
      → PathsAre call (f ∷ fs) (ps ++ qs)

-- `e` is the error of the first file system that returns one.
pub data FirstError {Fs : Type 0} (call : Fs → Globbed) : List Fs → Error → Type 0 where
  here :
      {f : Fs} {fs : List Fs} {ps : List Bytes} {e : Error}
      → call f ≡ (ps, some e)
      → FirstError call (f ∷ fs) e
  later :
      {f : Fs} {fs : List Fs} {ps : List Bytes} {e : Error}
      → call f ≡ (ps, none)
      → FirstError call fs e
      → FirstError call (f ∷ fs) e

-- All the paths behind `before`, with no error, or the first error and no path.
abbrev pub Globs : {Fs : Type 0} → (Fs → Globbed) → List Fs → List Bytes → Globbed → Type 0
Globs call fs before r =
    ((ps : List Bytes) × PathsAre call fs ps × (r ≡ (before ++ ps, none)))
    ⊎ ((e : Error) × FirstError call fs e × (r ≡ ([], some e)))

pub glob_each-Globs :
    {Fs : Type 0} (call : Fs → Globbed) (fs : List Fs) (paths : List Bytes)
    → Globs call fs paths (glob_each call fs paths)
unfolding glob_each
glob_each-Globs call [] paths = inl ([], done, ap (λ ps. (ps, none)) (sym (append-nil paths)))
glob_each-Globs call (f ∷ fs) paths = step (call f) refl (λ ps. glob_each-Globs call fs ps)
  where
    next :
        (r : Globbed) (ps : List Bytes)
        → call f ≡ (ps, none)
        → Globs call fs (paths ++ ps) r
        → Globs call (f ∷ fs) paths r
    next r ps q (inl (qs, w, s)) =
        inl (ps ++ qs, more q w, s ∙ ap (λ l. (l, none)) (append_assoc paths ps qs))
    next r ps q (inr (e, w, s)) = inr (e, later q w, s)

    step :
        (r : Globbed)
        → call f ≡ r
        → ((ps : List Bytes) → Globs call fs ps (glob_each call fs ps))
        → Globs call (f ∷ fs) paths (globbed_or r (λ ps. glob_each call fs (paths ++ ps)))
    step (ps, some e) q ih = inr (e, here q, refl)
    step (ps, none) q ih = next _ ps q (ih (paths ++ ps))
