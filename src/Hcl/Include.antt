-- ===== src/Hcl/Include.antt =====
-- Include of hcl/ext/include/include.go, with ParseSource and ParseFileFS of hcl/parse.go and
-- DecodeExpression of hcl/decode.go. The HCL library, io/fs and path/filepath are parameters.
pub mod Tree
pub mod Steps
pub mod Loops
pub mod Sources
pub mod Exact
pub mod Deeper
pub mod Errors
pub mod Circular
pub mod Examples
use go_utils.Prelude.{
  ℕ, zero, suc, Bool, true, false, ◌||◌, Option, none, some, List, [], ◌∷◌, ◌++◌, nat_beq,
  if◌then◌else◌, Bytes,
}
use go_utils.Prelude.Int.{ℤ, pos, negsuc}

-- hcl.Diagnostic: those of the libraries, by their severity, and those of this code.
pub data Note : Type 0 where
  foreign_error foreign_warning : Bytes → Note
  decode_error : Bytes → Note
  cannot_read : Bytes → Bytes → Note
  too_many_nested : Note
  invalid_glob : Bytes → Bytes → Note
  invalid_dir : Bytes → Bytes → Note

unfoldable pub is_error : Note → Bool
is_error (foreign_warning m) = false
is_error other = true

-- Diagnostics.HasErrors
unfoldable pub has_errors : List Note → Bool
unfolding is_error
has_errors [] = false
has_errors (d ∷ ds) = is_error d || has_errors ds

-- What PartialContent gives for the schema of one attribute "include".
pub record Partial (Body Expr : Type 0) : Type 0 where
  pub attr : Option Expr
  pub remain : Body
  pub diags : List Note

-- A value, or the text of an error.
pub data Answer (A : Type 0) : Type 0 where
  answered : A → Answer A
  refused : Bytes → Answer A

-- `if err != nil { return ... }`
unfoldable pub on_answer : {A B : Type 0} → Answer A → (Bytes → B) → (A → B) → B
on_answer (refused e) back go = back e
on_answer (answered a) back go = go a

-- `if attr == nil { return ... }`
unfoldable pub on_option : {A B : Type 0} → Option A → B → (A → B) → B
on_option none back go = back
on_option (some a) back go = go a

pub record Library (Fs Body Expr Value : Type 0) : Type 0 where
  pub partial_content : Body → Partial Body Expr
  pub expr_value : Expr → Value × List Note
  pub map_strings : Value → Answer (List Bytes)
  pub parse_config : Bytes → Bytes → Body × List Note
  pub reads_file : Fs → Bytes → Answer Bytes
  pub globs : Fs → Bytes → Answer (List Bytes)
  pub subs : Fs → Bytes → Answer Fs
  pub dir : Bytes → Bytes
  pub base : Bytes → Bytes
  pub merge_bodies : List Body → Body

-- A nil body with diagnostics, or a body with diagnostics; or a panic, of a call on a nil body.
pub data Included (Body : Type 0) : Type 0 where
  panics : Included Body
  fails : List Note → Included Body
  gives : Body → List Note → Included Body

-- `if diags.HasErrors() { return nil, diags }`. A nil body whose diagnostics have no error goes on, and
-- panics where it is used.
unfoldable pub unless_errors :
    {Body A : Type 0} → Included Body → A → (List Note → A) → (Body → A) → A
unfolding has_errors
unless_errors panics crash back go = crash
unless_errors (fails ds) crash back go = if has_errors ds then back ds else crash
unless_errors (gives b ds) crash back go = if has_errors ds then back ds else go b

-- strings.Contains(pattern, "*")
unfoldable pub has_star : Bytes → Bool
has_star [] = false
has_star (c ∷ pattern) = nat_beq c b'*' || has_star pattern

-- The bodies that are included so far, or the diagnostics with which the loops return.
pub data Loaded (Body : Type 0) : Type 0 where
  crashes : Loaded Body
  stop : List Note → Loaded Body
  load : List Body → Loaded Body

-- `return nil, diags` in the inner loop returns from Include.
unfoldable pub then_load : {Body : Type 0} → Loaded Body → (List Body → Loaded Body) → Loaded Body
then_load crashes go = crashes
then_load (stop ds) go = stop ds
then_load (load bodies) go = go bodies

-- What DecodeExpression decodes, with no diagnostics, or the diagnostics, which have an error.
pub data Decoded : Type 0 where
  refuse : List Note → Decoded
  decode : List Bytes → Decoded

unfoldable pub on_decoded : {A : Type 0} → Decoded → (List Note → A) → (List Bytes → A) → A
on_decoded (refuse ds) back go = back ds
on_decoded (decode includes) back go = go includes

module _ {Fs Body Expr Value : Type 0} (lib : Library Fs Body Expr Value) where
  unfoldable pub parse_source : Bytes → Bytes → Included Body
  unfolding has_errors
  parse_source filename src =
      let file = lib.parse_config src filename in
      if has_errors (file.1) then fails (file.1) else gives (file.0) (file.1)

  unfoldable pub parse_file_fs : Fs → Bytes → Included Body
  unfolding parse_source on_answer
  parse_file_fs f path =
      on_answer (lib.reads_file f path) (λ e. fails (cannot_read path e ∷ []))
        (λ src. parse_source (lib.base path) src)

  -- DecodeExpression into a slice of strings: its value, or its diagnostics.
  unfoldable pub decode_expression : Expr → Decoded
  unfolding has_errors on_answer
  decode_expression expr =
      let value = lib.expr_value expr in
      if has_errors (value.1)
      then refuse (value.1)
      else on_answer (lib.map_strings (value.0)) (λ e. refuse (decode_error e ∷ [])) decode

  unfoldable pub glob : Fs → Bytes → Answer (List Bytes)
  unfolding has_star
  glob f pattern = if has_star pattern then lib.globs f pattern else answered (pattern ∷ [])

  -- The loop over the paths of a pattern; `nested` includes what a file includes.
  unfoldable pub load_file : (Fs → Body → Included Body) → Fs → Bytes → Included Body
  unfolding parse_file_fs unless_errors on_answer
  load_file nested f path = unless_errors (parse_file_fs f path) panics fails (λ file_body.
      on_answer (lib.subs f (lib.dir path)) (λ e. fails (invalid_dir path e ∷ []))
        (λ sub. nested sub file_body))

  unfoldable pub load_files :
      (Fs → Body → Included Body) → Fs → List Bytes → List Body → Loaded Body
  unfolding load_file unless_errors
  load_files nested f [] bodies = load bodies
  load_files nested f (path ∷ paths) bodies =
      unless_errors (load_file nested f path) crashes stop
        (λ body. load_files nested f paths (bodies ++ (body ∷ [])))

  -- The loop over the patterns.
  unfoldable pub load_patterns :
      (Fs → Body → Included Body) → Fs → List Bytes → List Body → Loaded Body
  unfolding glob load_files then_load on_answer
  load_patterns nested f [] bodies = load bodies
  load_patterns nested f (pattern ∷ includes) bodies =
      on_answer (glob f pattern) (λ e. stop (invalid_glob pattern e ∷ []))
        (λ paths.
          then_load (load_files nested f paths bodies) (λ all. load_patterns nested f includes all))

  unfoldable pub merged : Body → Loaded Body → Included Body
  merged remain crashes = panics
  merged remain (stop ds) = fails ds
  merged remain (load bodies) = gives (lib.merge_bodies (remain ∷ bodies)) []

  -- Include up to the test of the depth, and what comes behind it.
  unfoldable pub include_by : (Fs → List Bytes → Loaded Body) → Fs → Body → Included Body
  unfolding decode_expression merged has_errors on_option on_decoded
  include_by rest f body =
      let content = lib.partial_content body in
      if has_errors content.diags
      then gives body content.diags
      else on_option content.attr (gives body content.diags) (λ expr.
        on_decoded (decode_expression expr) fails
          (λ includes. merged content.remain (rest f includes)))

  -- Include with this many levels of files: maxDepth and one more.
  unfoldable pub include_levels : ℕ → Fs → Body → Included Body
  unfolding include_by load_patterns
  include_levels zero f body = include_by (λ g includes. stop (too_many_nested ∷ [])) f body
  include_levels (suc n) f body =
      include_by (λ g includes. load_patterns (include_levels n) g includes []) f body

  unfoldable pub include : Fs → Body → ℤ → Included Body
  unfolding include_levels
  include f body (pos n) = include_levels (suc n) f body
  include f body (negsuc n) = include_levels zero f body
