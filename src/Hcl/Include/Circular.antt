-- ===== src/Hcl/Include/Circular.antt =====
-- Files that include each other, for Include of hcl/ext/include/include.go.
use mathlib.Core.List.{Memᴰ}
use go_utils.Hcl.Include.{Library, answered, decode, decode_expression, glob}
use go_utils.Hcl.Include.Tree.{Reads}
use go_utils.Prelude.{ℕ, zero, suc, ◌≡◌, some, List, Bytes}

module _ {Fs Body Expr Value : Type 0} (lib : Library Fs Body Expr Value) where
  -- The file includes a file, which is read with this body, in that file system.
  abbrev pub Includes : Fs → Body → Fs → Body → Type 0
  Includes f body sub read =
      (expr : Expr) × (includes : List Bytes) × (pattern : Bytes) × (paths : List Bytes)
      × (path : Bytes) × ((lib.partial_content body).attr ≡ some expr)
      × (decode_expression lib expr ≡ decode includes)
      × Memᴰ pattern includes
      × (glob lib f pattern ≡ answered paths)
      × Memᴰ path paths
      × Reads lib f path sub read

  -- So many files, each included by the one before it, lead from the first file to the last.
  pub data Chain : ℕ → Fs → Body → Fs → Body → Type 0 where
    here_is : {f : Fs} {body : Body} → Chain zero f body f body
    then_includes :
        {n : ℕ} {f sub g : Fs} {body read c : Body}
        → Includes f body sub read
        → Chain n sub read g c
        → Chain (suc n) f body g c
