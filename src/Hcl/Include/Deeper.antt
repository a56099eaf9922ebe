-- ===== src/Hcl/Include/Deeper.antt =====
-- More depth for Include of hcl/ext/include/include.go.
use go_utils.Hcl.Include.{Library, include}
use go_utils.Hcl.Include.Exact.{levels, include-Whole}
use go_utils.Hcl.Include.Tree.{
  Succeeds, FilesAre, no_file, next_file, PatternsAre, no_pattern, next_pattern, Whole,
}
use go_utils.Prelude.Int.{ℤ}
use go_utils.Prelude.{ℕ, zero, suc, ◌≤◌, arith, inl, inr, List, [], ◌∷◌, Bytes}

module _ {Fs Body Expr Value : Type 0} (lib : Library Fs Body Expr Value) where
  FilesAre-map :
      (N M : Fs → Body → Body → Type 0)
      → ((f : Fs) (b c : Body) → N f b c → M f b c)
      → (f : Fs) (paths : List Bytes) (bodies : List Body) → FilesAre lib N f paths bodies
      → FilesAre lib M f paths bodies
  FilesAre-map N M h f [] bodies no_file = no_file
  FilesAre-map N M h f (path ∷ paths) bodies
        (next_file {sub = sub} {read = read} {body = b} {bodies = bs} r n w) =
      next_file r (h sub read b n) (FilesAre-map N M h f paths bs w)

  PatternsAre-map :
      (N M : Fs → Body → Body → Type 0)
      → ((f : Fs) (b c : Body) → N f b c → M f b c)
      → (f : Fs) (patterns : List Bytes) (bodies : List Body) → PatternsAre lib N f patterns bodies
      → PatternsAre lib M f patterns bodies
  PatternsAre-map N M h f [] bodies no_pattern = no_pattern
  PatternsAre-map N M h f (p ∷ patterns) bodies
        (next_pattern {paths = paths} {bs = bs} {bodies = cs} q w us) =
      next_pattern q (FilesAre-map N M h f paths bs w) (PatternsAre-map N M h f patterns cs us)

  Whole-deeper :
      (n m : ℕ) (f : Fs) (body b : Body) → n ≤ m → Whole lib n f body b → Whole lib m f body b
  Whole-deeper zero zero f body b l w = w
  Whole-deeper zero (suc m) f body b l w = inl w
  Whole-deeper (suc n) zero f body b l w = absurd (omega arith)
  Whole-deeper (suc n) (suc m) f body b l (inl w) = inl w
  Whole-deeper (suc n) (suc m) f body b l (inr (expr, includes, bodies, q, r, s, w, u)) = inr (
    expr,
    includes,
    bodies,
    q,
    r,
    s,
    PatternsAre-map (Whole lib n) (Whole lib m) (λ g c d. Whole-deeper n m g c d (omega arith)) f
        includes bodies w,
    u,
  )

  -- What Include gives is the same for every larger maxDepth.
  pub include_deeper :
      (f : Fs) (body b : Body) (d e : ℤ)
      → levels d ≤ levels e
      → Succeeds (include lib f body d) b
      → Succeeds (include lib f body e) b
  include_deeper f body b d e l h =
      (include-Whole lib f body b e).1
        (Whole-deeper (levels d) (levels e) f body b l ((include-Whole lib f body b d).0 h))
