-- ===== src/Hcl/Include/Errors.antt =====
-- Include of hcl/ext/include/include.go never returns a nil body without an error.
use go_utils.Hcl.Include.{
  Note, has_errors, Library, Answer, refused, answered, on_answer, on_option, on_decoded, Included,
  panics, fails, gives, unless_errors, Loaded, crashes, stop, load, then_load, Decoded,
  decode_expression, parse_source, parse_file_fs, glob, load_file, load_files, load_patterns,
  merged, include_by, include_levels, include, too_many_nested,
}
use go_utils.Hcl.Include.Tree.{Succeeds}
use go_utils.Prelude.Int.{ℤ, pos, negsuc}
use go_utils.Prelude.{
  ℕ, zero, suc, Bool, true, false, ◌≡◌, refl, Option, none, some, List, [], ◌∷◌, ◌++◌,
  if◌then◌else◌, Bytes,
}

-- No panic, and an error if there is no body.
abbrev pub Explains : {Body : Type 0} → Included Body → Type 0
Explains panics = ⊥
Explains (fails ds) = has_errors ds ≡ true
Explains (gives b ds) = Unit

abbrev LoadExplains : {Body : Type 0} → Loaded Body → Type 0
LoadExplains crashes = ⊥
LoadExplains (stop ds) = has_errors ds ≡ true
LoadExplains (load bodies) = Unit

-- Diagnostics with an error are returned.
abbrev pub HasError : {Body : Type 0} → Included Body → Type 0
HasError panics = ⊥
HasError (fails ds) = has_errors ds ≡ true
HasError (gives b ds) = has_errors ds ≡ true

by_test :
    {B : Type 0} (P : B → Type 0) (t : Bool) (a b : B)
    → (t ≡ true → P a)
    → (t ≡ false → P b)
    → P (if t then a else b)
by_test P true a b h k = h refl
by_test P false a b h k = k refl

on_answer_all :
    {A B : Type 0} (P : B → Type 0) (r : Answer A) (back : Bytes → B) (go : A → B)
    → ((e : Bytes) → P (back e))
    → ((a : A) → P (go a))
    → P (on_answer r back go)
unfolding on_answer
on_answer_all P (refused e) back go h k = h e
on_answer_all P (answered a) back go h k = k a

unless_errors_all :
    {Body B : Type 0} (P : B → Type 0) (r : Included Body) (crash : B) (back : List Note → B)
    (go : Body → B)
    → Explains r
    → ((ds : List Note) → has_errors ds ≡ true → P (back ds))
    → ((b : Body) → P (go b))
    → P (unless_errors r crash back go)
unfolding unless_errors
unless_errors_all P panics crash back go e h k = absurd e
unless_errors_all P (fails ds) crash back go e h k =
    by_test P (has_errors ds) (back ds) crash (h ds) (λ q. absurd (cc))
unless_errors_all P (gives b ds) crash back go e h k =
    by_test P (has_errors ds) (back ds) (go b) (h ds) (λ q. k b)

then_load_all :
    {Body : Type 0} (r : Loaded Body) (go : List Body → Loaded Body)
    → LoadExplains r
    → ((bodies : List Body) → LoadExplains (go bodies))
    → LoadExplains (then_load r go)
unfolding then_load
then_load_all crashes go e k = absurd e
then_load_all (stop ds) go e k = e
then_load_all (load bodies) go e k = k bodies

module _ {Fs Body Expr Value : Type 0} (lib : Library Fs Body Expr Value) where
  parse_file_fs-Explains : (f : Fs) (path : Bytes) → Explains (parse_file_fs lib f path)
  unfolding parse_file_fs parse_source has_errors
  parse_file_fs-Explains f path =
      on_answer_all Explains (lib.reads_file f path) _ _ (λ e. refl)
        (λ src.
          by_test Explains (has_errors ((lib.parse_config src (lib.base path)).1)) _ _ (λ q. q)
            (λ q. tt))

  -- Decoding is refused with an error only.
  decode_expression_all :
      {A : Type 0} (P : A → Type 0) (expr : Expr) (back : List Note → A) (go : List Bytes → A)
      → ((ds : List Note) → has_errors ds ≡ true → P (back ds))
      → ((includes : List Bytes) → P (go includes))
      → P (on_decoded (decode_expression lib expr) back go)
  unfolding decode_expression on_decoded has_errors
  decode_expression_all P expr back go h k =
      by_test (λ (d : Decoded). P (on_decoded d back go)) (has_errors ((lib.expr_value expr).1)) _ _
        (λ q. h _ q)
        (λ q.
          on_answer_all (λ (d : Decoded). P (on_decoded d back go))
            (lib.map_strings ((lib.expr_value expr).0)) _ _ (λ e. h _ refl) k)

  module _ (nested : Fs → Body → Included Body)
      (sane : (f : Fs) (b : Body) → Explains (nested f b)) where
    load_file-Explains : (f : Fs) (path : Bytes) → Explains (load_file lib nested f path)
    unfolding load_file has_errors
    load_file-Explains f path =
        unless_errors_all Explains (parse_file_fs lib f path) _ _ _ (parse_file_fs-Explains f path)
          (λ ds q. q)
          (λ b.
            on_answer_all Explains (lib.subs f (lib.dir path)) _ _ (λ e. refl) (λ sub. sane sub b))

    load_files-Explains :
        (f : Fs) (paths : List Bytes) (bodies : List Body)
        → LoadExplains (load_files lib nested f paths bodies)
    unfolding load_files
    load_files-Explains f [] bodies = tt
    load_files-Explains f (path ∷ paths) bodies =
        unless_errors_all LoadExplains (load_file lib nested f path) _ _ _
          (load_file-Explains f path) (λ ds q. q)
          (λ b. load_files-Explains f paths (bodies ++ (b ∷ [])))

    load_patterns-Explains :
        (f : Fs) (includes : List Bytes) (bodies : List Body)
        → LoadExplains (load_patterns lib nested f includes bodies)
    unfolding load_patterns has_errors
    load_patterns-Explains f [] bodies = tt
    load_patterns-Explains f (pattern ∷ includes) bodies =
        on_answer_all LoadExplains (glob lib f pattern) _ _ (λ e. refl)
          (λ paths.
            then_load_all (load_files lib nested f paths bodies) _
              (load_files-Explains f paths bodies) (λ all. load_patterns-Explains f includes all))

  merged-Explains :
      (remain : Body) (l : Loaded Body) → LoadExplains l → Explains (merged lib remain l)
  unfolding merged
  merged-Explains remain crashes e = e
  merged-Explains remain (stop ds) e = e
  merged-Explains remain (load bodies) e = tt

  include_by-Explains :
      (rest : Fs → List Bytes → Loaded Body) (f : Fs) (body : Body)
      → ((includes : List Bytes) → LoadExplains (rest f includes))
      → Explains (include_by lib rest f body)
  unfolding include_by
  include_by-Explains rest f body h =
      by_test Explains (has_errors ((lib.partial_content body).diags)) _ _ (λ q. tt)
        (λ q. attribute ((lib.partial_content body).attr))
    where
      attribute :
          (a : Option Expr)
          → Explains (
              on_option a (gives body ((lib.partial_content body).diags)) (λ expr.
                on_decoded
                  (decode_expression lib expr)
                  fails
                  (λ includes. merged lib ((lib.partial_content body).remain) (rest f includes))))
      attribute none = tt
      attribute (some expr) =
          decode_expression_all Explains expr _ _ (λ ds q. q)
            (λ includes. merged-Explains _ (rest f includes) (h includes))

  include_levels-Explains : (n : ℕ) (f : Fs) (body : Body) → Explains (include_levels lib n f body)
  unfolding include_levels has_errors
  include_levels-Explains zero f body =
      include_by-Explains (λ (g : Fs) (includes : List Bytes). stop (too_many_nested ∷ [])) f body
        (λ includes. refl {a = true})
  include_levels-Explains (suc n) f body =
      include_by-Explains
        (λ (g : Fs) (includes : List Bytes). load_patterns lib (include_levels lib n) g includes [])
        f body
        (λ includes.
          load_patterns-Explains (include_levels lib n) (λ g b. include_levels-Explains n g b) f
            includes [])

  -- What does not succeed returns an error.
  error_of : (r : Included Body) → Explains r → ((b : Body) → ¬ Succeeds r b) → HasError r
  error_of panics e h = e
  error_of (fails ds) e h = e
  error_of (gives b ds) e h = by_cases (has_errors ds) refl
    where
      by_cases : (t : Bool) → has_errors ds ≡ t → has_errors ds ≡ true
      by_cases true q = q
      by_cases false q = absurd (h b (ds, refl, q))

  pub include-HasError :
      (f : Fs) (body : Body) (d : ℤ)
      → ((b : Body) → ¬ Succeeds (include lib f body d) b)
      → HasError (include lib f body d)
  unfolding include
  include-HasError f body (pos n) h =
      error_of (include_levels lib (suc n) f body) (include_levels-Explains (suc n) f body) h
  include-HasError f body (negsuc n) h =
      error_of (include_levels lib zero f body) (include_levels-Explains zero f body) h
