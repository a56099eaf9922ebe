-- ===== src/Fsutil/Methods.antt =====
-- What the methods of chainFS of fsutil/fsutil.go return.
use go_utils.Errutil.{MultiError, nil, concat, parts, combined}
use go_utils.Fsutil.{
  Returned, IoFs, new_chain_fs, try_each, open_file, stat, read_file, read_dir, sub, glob,
}
use go_utils.Fsutil.Chain.{FirstIs, AllFail, done, more, ErrorsFlat, Tries, try_each-Tries}
use go_utils.Fsutil.Nested.{failed-append}
use go_utils.Fsutil.Paths.{Globs, glob_each-Globs}
use go_utils.Prelude.{
  ◌≡◌, refl, ap, sym, ◌∙◌, ◌⊎◌, inl, inr, Option, none, List, [], ◌∷◌, append-nil, Bytes,
}

-- Either the first success, with no error, or no value and the errors of all, combined: none of them is
-- nil, one is itself, and more are a MultiError.
abbrev pub Answers : {Fs A : Type 0} → (Fs → Returned A) → List Fs → Returned A → Type 0
Answers {A = A} call fs r =
    ((a : Option A) × FirstIs call fs a × (r ≡ (a, none)))
    ⊎ ((es : MultiError) × AllFail call fs es × (r ≡ (none, combined es)))

Answers-returned :
    {Fs A : Type 0} (call : Fs → Returned A) (fs : List Fs)
    → ErrorsFlat call
    → Tries call fs nil (try_each call fs none)
    → Answers call fs (try_each call fs none)
unfolding try_each parts concat combined
Answers-returned call fs flat (inl w) = inl w
Answers-returned call [] flat (inr (es, done, r, t)) = inr (nil, done, refl)
Answers-returned call (f ∷ fs) flat (inr (es, more q w, r, t)) = inr (
  es,
  more q w,
  ap (λ l. try_each call (f ∷ l) none) (sym (append-nil fs))
      ∙ failed-append call f fs [] none flat tt (more q w),
)

try_each-Answers :
    {Fs A : Type 0} (call : Fs → Returned A) (fs : List Fs)
    → ErrorsFlat call
    → Answers call fs (try_each call fs none)
unfolding parts
try_each-Answers call fs flat = Answers-returned call fs flat (try_each-Tries call fs none flat tt)

-- Each of Open, Stat, ReadFile, ReadDir and Sub of a chain of file systems either returns, with no
-- error, what the first of them returns that has no error; or all have one, and it returns no value, and
-- of the single errors of them all, in the order of the chain: a nil error if there is none, the error
-- itself if there is one, and else a MultiError with all. (There is none if the chain has no file system,
-- or if all the errors are empty MultiErrors.) Glob returns, with no error, the paths of all of them in
-- order, or no path and the first error. No error of a file system has a MultiError inside a MultiError.
pub methods-Answers :
    {Fs File FileInfo DirEntries : Type 0} (io : IoFs Fs File FileInfo DirEntries) (fs : List Fs)
    (name : Bytes)
    → ErrorsFlat (λ f. io.opens f name)
    → ErrorsFlat (λ f. io.stats f name)
    → ErrorsFlat (λ f. io.reads_file f name)
    → ErrorsFlat (λ f. io.reads_dir f name)
    → ErrorsFlat (λ f. io.subs f name)
    → Answers (λ f. io.opens f name) fs (open_file io (new_chain_fs fs) name)
      × Answers (λ f. io.stats f name) fs (stat io (new_chain_fs fs) name)
      × Answers (λ f. io.reads_file f name) fs (read_file io (new_chain_fs fs) name)
      × Answers (λ f. io.reads_dir f name) fs (read_dir io (new_chain_fs fs) name)
      × Answers (λ f. io.subs f name) fs (sub io (new_chain_fs fs) name)
      × Globs (λ f. io.globs f name) fs [] (glob io (new_chain_fs fs) name)
unfolding new_chain_fs open_file stat read_file read_dir sub glob
methods-Answers io fs name a b c d e = (
  try_each-Answers _ fs a,
  try_each-Answers _ fs b,
  try_each-Answers _ fs c,
  try_each-Answers _ fs d,
  try_each-Answers _ fs e,
  glob_each-Globs _ fs [],
)
