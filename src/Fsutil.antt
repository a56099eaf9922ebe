-- ===== src/Fsutil.antt =====
-- fsutil/fsutil.go: a file system that asks others in their order. A result is the pair that the source
-- returns, a value (none for nil) and an error.
pub mod Chain
pub mod Nested
pub mod Methods
pub mod Paths
pub mod Examples
use go_utils.Prelude.{Option, none, some, List, [], ◌∷◌, ◌++◌, Bytes}
use go_utils.Errutil.{Error, append}

abbrev pub Returned {ℓ} : Type ℓ → Type ℓ
Returned A = Option A × Option Error

-- What the code calls of io/fs: Open of a file system, and Glob, Stat, ReadFile, ReadDir and Sub.
pub record IoFs (Fs File FileInfo DirEntries : Type 0) : Type 0 where
  pub opens : Fs → Bytes → Returned File
  pub globs : Fs → Bytes → List Bytes × Option Error
  pub stats : Fs → Bytes → Returned FileInfo
  pub reads_file : Fs → Bytes → Returned Bytes
  pub reads_dir : Fs → Bytes → Returned DirEntries
  pub subs : Fs → Bytes → Returned Fs

pub record ChainFs (Fs : Type 0) : Type 0 where
  pub fs : List Fs

unfoldable pub new_chain_fs : {Fs : Type 0} → List Fs → ChainFs Fs
new_chain_fs fs = record { fs = fs }

-- `if fsErr != nil { ...; continue }; return value, nil`
unfoldable pub returned_or : {A : Type 0} → Returned A → (Error → Returned A) → Returned A
returned_or (a, none) continue = (a, none)
returned_or (a, some e) continue = continue e

-- The loop of Open, Stat, ReadFile, ReadDir and Sub from a file system on, with the errors so far.
unfoldable pub try_each : {Fs A : Type 0} → (Fs → Returned A) → List Fs → Option Error → Returned A
unfolding returned_or
try_each call [] err = (none, err)
try_each call (f ∷ fs) err = returned_or (call f) (λ e. try_each call fs (append err (some e ∷ [])))

-- `if fsErr != nil { return nil, fsErr }`
unfoldable pub globbed_or :
    List Bytes × Option Error → (List Bytes → List Bytes × Option Error) → List Bytes × Option Error
globbed_or (fs_paths, some e) continue = ([], some e)
globbed_or (fs_paths, none) continue = continue fs_paths

-- The loop of Glob.
unfoldable pub glob_each :
    {Fs : Type 0}
    → (Fs → List Bytes × Option Error)
    → List Fs
    → List Bytes
    → List Bytes × Option Error
unfolding globbed_or
glob_each call [] paths = (paths, none)
glob_each call (f ∷ fs) paths =
    globbed_or (call f) (λ fs_paths. glob_each call fs (paths ++ fs_paths))

module _ {Fs File FileInfo DirEntries : Type 0} (io : IoFs Fs File FileInfo DirEntries) where
  unfoldable pub open_file : ChainFs Fs → Bytes → Returned File
  open_file c name = try_each (λ f. io.opens f name) c.fs none

  unfoldable pub glob : ChainFs Fs → Bytes → List Bytes × Option Error
  glob c pattern = glob_each (λ f. io.globs f pattern) c.fs []

  unfoldable pub stat : ChainFs Fs → Bytes → Returned FileInfo
  stat c name = try_each (λ f. io.stats f name) c.fs none

  unfoldable pub read_file : ChainFs Fs → Bytes → Returned Bytes
  read_file c name = try_each (λ f. io.reads_file f name) c.fs none

  unfoldable pub read_dir : ChainFs Fs → Bytes → Returned DirEntries
  read_dir c name = try_each (λ f. io.reads_dir f name) c.fs none

  unfoldable pub sub : ChainFs Fs → Bytes → Returned Fs
  sub c dir = try_each (λ f. io.subs f dir) c.fs none
