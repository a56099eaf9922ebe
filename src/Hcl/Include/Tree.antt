-- ===== src/Hcl/Include/Tree.antt =====
-- The tree of files that Include of hcl/ext/include/include.go is to merge, said without its loops.
use go_utils.Hcl.Include.{
  Note, has_errors, answered, Library, Included, gives, decode, parse_file_fs, decode_expression,
  glob,
}
use go_utils.Prelude.{ℕ, zero, suc, false, ◌≡◌, ◌⊎◌, none, some, List, [], ◌∷◌, ◌++◌, Bytes}

-- A body, and no diagnostics but warnings.
abbrev pub Succeeds : {Body : Type 0} → Included Body → Body → Type 0
Succeeds r b = (ds : List Note) × (r ≡ gives b ds) × (has_errors ds ≡ false)

module _ {Fs Body Expr Value : Type 0} (lib : Library Fs Body Expr Value) where
  -- The file at the path is read with this body, and the directory is that file system.
  abbrev pub Reads : Fs → Bytes → Fs → Body → Type 0
  Reads f path sub body =
      Succeeds (parse_file_fs lib f path) body × (lib.subs f (lib.dir path) ≡ answered sub)

  -- The bodies of the files at the paths, one each, in order, with what they include in turn.
  pub data FilesAre (Nested : Fs → Body → Body → Type 0) (f : Fs)
      : List Bytes → List Body → Type 0 where
    no_file : FilesAre Nested f [] []
    next_file :
        {path : Bytes} {paths : List Bytes} {sub : Fs} {read body : Body} {bodies : List Body}
        → Reads f path sub read
        → Nested sub read body
        → FilesAre Nested f paths bodies
        → FilesAre Nested f (path ∷ paths) (body ∷ bodies)

  -- The same for the paths that the patterns stand for.
  pub data PatternsAre (Nested : Fs → Body → Body → Type 0) (f : Fs)
      : List Bytes → List Body → Type 0 where
    no_pattern : PatternsAre Nested f [] []
    next_pattern :
        {pattern : Bytes} {patterns paths : List Bytes} {bs bodies : List Body}
        → glob lib f pattern ≡ answered paths
        → FilesAre Nested f paths bs
        → PatternsAre Nested f patterns bodies
        → PatternsAre Nested f (pattern ∷ patterns) (bs ++ bodies)

  -- A body without the attribute is itself.
  abbrev pub Alone : Body → Body → Type 0
  Alone body b =
      (has_errors ((lib.partial_content body).diags) ≡ false)
      × ((lib.partial_content body).attr ≡ none)
      × (b ≡ body)

  -- A body with the attribute is the rest of it, merged with the bodies of the files.
  abbrev pub Merges : (Fs → Body → Body → Type 0) → Fs → Body → Body → Type 0
  Merges Nested f body b =
      (expr : Expr) × (includes : List Bytes) × (bodies : List Body) × (has_errors
          ((lib.partial_content body).diags)
        ≡ false)
      × ((lib.partial_content body).attr ≡ some expr)
      × (decode_expression lib expr ≡ decode includes)
      × PatternsAre Nested f includes bodies
      × (b ≡ lib.merge_bodies ((lib.partial_content body).remain ∷ bodies))

  -- The file with all that it includes, through at most so many levels of files.
  abbrev pub Whole : ℕ → Fs → Body → Body → Type 0
  Whole zero f body b = Alone body b
  Whole (suc n) f body b = Alone body b ⊎ Merges (Whole n) f body b
