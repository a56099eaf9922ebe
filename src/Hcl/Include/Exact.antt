-- ===== src/Hcl/Include/Exact.antt =====
-- When Include of hcl/ext/include/include.go succeeds, and with which body.
use go_utils.Hcl.Include.{
  has_errors, Partial, Library, fails, gives, on_option, on_decoded, Loaded, crashes, stop, load,
  Decoded, decode, refuse, decode_expression, load_patterns, merged, include_by, include_levels,
  too_many_nested, include,
}
use go_utils.Hcl.Include.Steps.{gives-Succeeds, fails-not-Succeeds, panics-not-Succeeds}
use go_utils.Hcl.Include.Tree.{Succeeds, Alone, Merges, Whole}
use go_utils.Hcl.Include.Loops.{load_patterns-PatternsAre, load_patterns-loads}
use go_utils.Prelude.Int.{ℤ, pos, negsuc}
use go_utils.Prelude.{
  ℕ, zero, suc, Bool, true, false, ◌≡◌, ◌⊎◌, ◌↔◌, inl, inr, refl, ap, ◌∙◌, Option, none, some, List,
  [], ◌∷◌, if◌then◌else◌, Bytes,
}

-- The levels of files that maxDepth allows.
abbrev pub levels : ℤ → ℕ
levels (pos n) = suc n
levels (negsuc n) = zero

module _ {Fs Body Expr Value : Type 0} (lib : Library Fs Body Expr Value)
    (rest : Fs → List Bytes → Loaded Body) (f : Fs) (body : Body) where
  -- What a body with the attribute becomes, when the loops load these bodies.
  abbrev MergesBy : Body → Type 0
  MergesBy b =
      (expr : Expr) × (includes : List Bytes) × (bodies : List Body) × (has_errors
          ((lib.partial_content body).diags)
        ≡ false)
      × ((lib.partial_content body).attr ≡ some expr)
      × (decode_expression lib expr ≡ decode includes)
      × (rest f includes ≡ load bodies)
      × (b ≡ lib.merge_bodies ((lib.partial_content body).remain ∷ bodies))

  include_by-Succeeds :
      {b : Body} → Succeeds (include_by lib rest f body) b → Alone lib body b ⊎ MergesBy b
  unfolding include_by merged on_option on_decoded
  include_by-Succeeds {b} h = clean (has_errors content.diags) refl h
    where
      content : Partial Body Expr
      content = lib.partial_content body

      loaded :
          (expr : Expr) (includes : List Bytes) (l : Loaded Body)
          → has_errors content.diags ≡ false
          → content.attr ≡ some expr
          → decode_expression lib expr ≡ decode includes
          → rest f includes ≡ l
          → Succeeds (merged lib content.remain l) b
          → MergesBy b
      loaded expr includes crashes q r s t k = absurd (panics-not-Succeeds b k)
      loaded expr includes (stop ds) q r s t k = absurd (fails-not-Succeeds ds b k)
      loaded expr includes (load bodies) q r s t k =
          (expr, includes, bodies, q, r, s, t, (gives-Succeeds _ b [] k).0)

      decoded :
          (expr : Expr) (d : Decoded)
          → has_errors content.diags ≡ false
          → content.attr ≡ some expr
          → decode_expression lib expr ≡ d
          → Succeeds
              (on_decoded d fails (λ includes. merged lib content.remain (rest f includes)))
              b
          → MergesBy b
      decoded expr (refuse ds) q r s k = absurd (fails-not-Succeeds ds b k)
      decoded expr (decode includes) q r s k = loaded expr includes (rest f includes) q r s refl k

      attribute :
          (a : Option Expr)
          → has_errors content.diags ≡ false
          → content.attr ≡ a
          → Succeeds
              (on_option a (gives body content.diags) (λ expr.
                on_decoded
                  (decode_expression lib expr)
                  fails
                  (λ includes. merged lib content.remain (rest f includes))))
              b
          → Alone lib body b ⊎ MergesBy b
      attribute none q r k = inl (q, r, (gives-Succeeds body b content.diags k).0)
      attribute (some expr) q r k = inr (decoded expr (decode_expression lib expr) q r refl k)

      clean :
          (t : Bool)
          → has_errors content.diags ≡ t
          → Succeeds
              (if t
                then gives body content.diags
                else on_option content.attr (gives body content.diags) (λ expr.
                  on_decoded
                    (decode_expression lib expr)
                    fails
                    (λ includes. merged lib content.remain (rest f includes))))
              b
          → Alone lib body b ⊎ MergesBy b
      clean true q k = absurd (let h = (gives-Succeeds body b content.diags k).1 in cc)
      clean false q k = attribute content.attr q refl k

  include_by-Alone : {b : Body} → Alone lib body b → Succeeds (include_by lib rest f body) b
  unfolding include_by on_option
  include_by-Alone {b} (q, r, s) = ((lib.partial_content body).diags, rw (q, r, s) refl, q)

  include_by-MergesBy : {b : Body} → MergesBy b → Succeeds (include_by lib rest f body) b
  unfolding include_by merged on_option on_decoded has_errors
  include_by-MergesBy {b} (expr, includes, bodies, q, r, s, t, u) =
      ([], rw (q, r, s, t, u) refl, refl)

module _ {Fs Body Expr Value : Type 0} (lib : Library Fs Body Expr Value) where
  include_levels-Whole :
      (n : ℕ) (f : Fs) (body b : Body)
      → Succeeds (include_levels lib n f body) b ↔ Whole lib n f body b
  unfolding include_levels
  include_levels-Whole zero f body b =
      (whole, include_by-Alone lib (λ g includes. stop (too_many_nested ∷ [])) f body)
    where
      whole :
          Succeeds (include_by lib (λ g includes. stop (too_many_nested ∷ [])) f body) b
          → Alone lib body b
      whole h =
          elim (include_by-Succeeds lib (λ g includes. stop (too_many_nested ∷ [])) f body h) [
            | inl w ↦ w
            | inr (expr, includes, bodies, q, r, s, t, u) ↦ cc
          ]
  include_levels-Whole (suc n) f body b = next_level (λ g c d. include_levels-Whole n g c d)
    where
      level : Fs → List Bytes → Loaded Body
      level g includes = load_patterns lib (include_levels lib n) g includes []

      next_level :
          ((g : Fs) (c d : Body) → Succeeds (include_levels lib n g c) d ↔ Whole lib n g c d)
          → Succeeds (include_by lib level f body) b
            ↔ (Alone lib body b ⊎ Merges lib (Whole lib n) f body b)
      next_level ih = (
        λ h. elim (include_by-Succeeds lib level f body h) [
          | inl w ↦ inl w
          | inr (expr, includes, bodies, q, r, s, t, u) ↦
              let (bs, ws, v) =
                load_patterns-PatternsAre lib (include_levels lib n) (Whole lib n)
                  (λ g c d. (ih g c d).0) f includes [] t in
              inr (
                expr,
                includes,
                bs,
                q,
                r,
                s,
                ws,
                u ∙ ap (λ l. lib.merge_bodies ((lib.partial_content body).remain ∷ l)) v,
              )
        ],
        λ w. elim w [
          | inl alone ↦ include_by-Alone lib level f body alone
          | inr (expr, includes, bodies, q, r, s, ws, u) ↦ include_by-MergesBy lib level f body (
            expr,
            includes,
            bodies,
            q,
            r,
            s,
            load_patterns-loads lib (include_levels lib n) (Whole lib n) (λ g c d. (ih g c d).1) f
                includes [] ws,
            u,
          )
        ],
      )

  -- Include gives a body, and no diagnostics but warnings, exactly if the file with all that it includes,
  -- through at most maxDepth + 1 levels of files, is read without an error, and then the body is each
  -- file's merged with those of the files that it includes, in the order of its patterns and their paths.
  -- A negative maxDepth allows only a file that includes nothing.
  pub include-Whole :
      (f : Fs) (body b : Body) (max_depth : ℤ)
      → Succeeds (include lib f body max_depth) b ↔ Whole lib (levels max_depth) f body b
  unfolding include
  include-Whole f body b (pos n) = include_levels-Whole (suc n) f body b
  include-Whole f body b (negsuc n) = include_levels-Whole zero f body b
