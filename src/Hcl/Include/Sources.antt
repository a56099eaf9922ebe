-- ===== src/Hcl/Include/Sources.antt =====
-- ParseSources and ParseFile of hcl/parse.go. The map of sources is a list of its entries, in the order in
-- which the loop goes through it.
use go_utils.Hcl.Include.{
  Note, cannot_read, has_errors, Answer, on_answer, Library, Included, panics, fails, gives,
  parse_source,
}
use go_utils.Hcl.Include.Tree.{Succeeds}
use go_utils.Prelude.{
  Bool, true, false, ◌||◌, ◌≡◌, refl, sym, ap, ◌∙◌, List, [], ◌∷◌, ◌++◌, append-nil, append_assoc,
  if◌then◌else◌, Bytes, arith,
}

unfoldable pub diags_of : {Body : Type 0} → Included Body → List Note
diags_of panics = []
diags_of (fails ds) = ds
diags_of (gives b ds) = ds

-- `if srcDiags.HasErrors() { continue }; bodies = append(bodies, srcBody)`
unfoldable pub add_body : {Body : Type 0} → Included Body → List Body → List Body
unfolding has_errors
add_body panics bodies = bodies
add_body (fails ds) bodies = bodies
add_body (gives b ds) bodies = if has_errors ds then bodies else bodies ++ (b ∷ [])

module _ {Fs Body Expr Value : Type 0} (lib : Library Fs Body Expr Value) where
  -- What follows the loop.
  unfoldable pub merge_sources : List Body → List Note → Included Body
  unfolding has_errors
  merge_sources bodies diags =
      if has_errors diags then fails diags else gives (lib.merge_bodies bodies) diags

  unfoldable pub sources_loop : List (Bytes × Bytes) → List Body → List Note → Included Body
  unfolding merge_sources add_body diags_of parse_source
  sources_loop [] bodies diags = merge_sources bodies diags
  sources_loop ((k, v) ∷ srcs) bodies diags =
      sources_loop srcs (add_body (parse_source lib k v) bodies)
        (diags ++ diags_of (parse_source lib k v))

  unfoldable pub parse_sources : List (Bytes × Bytes) → Included Body
  unfolding sources_loop
  parse_sources srcs = sources_loop srcs [] []

  -- ParseFile, over os.ReadFile.
  unfoldable pub parse_file : (Bytes → Answer Bytes) → Bytes → Included Body
  unfolding on_answer parse_source
  parse_file os_read_file path =
      on_answer (os_read_file path) (λ e. fails (cannot_read path e ∷ []))
        (λ src. parse_source lib (lib.base path) src)

  -- The diagnostics of all the sources, and the bodies of those without errors, in order.
  abbrev pub all_diags : List (Bytes × Bytes) → List Note
  all_diags [] = []
  all_diags ((k, v) ∷ srcs) = diags_of (parse_source lib k v) ++ all_diags srcs

  pub data BodiesAre : List (Bytes × Bytes) → List Body → Type 0 where
    no_source : BodiesAre [] []
    next_source :
        {k v : Bytes} {srcs : List (Bytes × Bytes)} {b : Body} {bodies : List Body}
        → Succeeds (parse_source lib k v) b
        → BodiesAre srcs bodies
        → BodiesAre ((k, v) ∷ srcs) (b ∷ bodies)

has_errors-append : (ds es : List Note) → has_errors (ds ++ es) ≡ (has_errors ds || has_errors es)
unfolding has_errors
has_errors-append [] es = refl
has_errors-append (d ∷ ds) es = rw (has_errors-append ds es) (ground arith)

module _ {Fs Body Expr Value : Type 0} (lib : Library Fs Body Expr Value) (bodies : List Body) where
  merge_sources_fails :
      (diags : List Note) → has_errors diags ≡ true → merge_sources lib bodies diags ≡ fails diags
  unfolding merge_sources
  merge_sources_fails diags h =
      ap (λ (t : Bool). if t then fails diags else gives (lib.merge_bodies bodies) diags) h

  merge_sources_gives :
      (diags : List Note)
      → has_errors diags ≡ false
      → merge_sources lib bodies diags ≡ gives (lib.merge_bodies bodies) diags
  unfolding merge_sources
  merge_sources_gives diags h =
      ap (λ (t : Bool). if t then fails diags else gives (lib.merge_bodies bodies) diags) h

  diags_of-merge_sources : (diags : List Note) → diags_of (merge_sources lib bodies diags) ≡ diags
  unfolding merge_sources diags_of
  diags_of-merge_sources diags = branch (has_errors diags)
    where
      branch :
          (t : Bool)
          → diags_of (if t then fails diags else gives (lib.merge_bodies bodies) diags) ≡ diags
      branch true = refl
      branch false = refl

module _ {Fs Body Expr Value : Type 0} (lib : Library Fs Body Expr Value) where
  all_bodies : List (Bytes × Bytes) → List Body → List Body
  all_bodies [] bodies = bodies
  all_bodies ((k, v) ∷ srcs) bodies = all_bodies srcs (add_body (parse_source lib k v) bodies)

  sources_loop-merge_sources :
      (srcs : List (Bytes × Bytes)) (bodies : List Body) (diags : List Note)
      → sources_loop lib srcs bodies diags
        ≡ merge_sources lib (all_bodies srcs bodies) (diags ++ all_diags lib srcs)
  unfolding sources_loop all_bodies
  sources_loop-merge_sources [] bodies diags =
      ap (merge_sources lib bodies) (sym (append-nil diags))
  sources_loop-merge_sources ((k, v) ∷ srcs) bodies diags =
      sources_loop-merge_sources srcs _ _
      ∙ ap (merge_sources lib (all_bodies srcs (add_body (parse_source lib k v) bodies)))
          (append_assoc diags (diags_of (parse_source lib k v)) (all_diags lib srcs))

  BodiesAre-clean :
      (srcs : List (Bytes × Bytes)) (bs : List Body)
      → BodiesAre lib srcs bs
      → has_errors (all_diags lib srcs) ≡ false
  unfolding has_errors diags_of
  BodiesAre-clean [] bs no_source = refl
  BodiesAre-clean ((k, v) ∷ srcs) bs (next_source {bodies = cs} (ds, q, c) w) =
      has_errors-append (diags_of (parse_source lib k v)) (all_diags lib srcs)
      ∙ rw (q, c, BodiesAre-clean srcs cs w) refl

  BodiesAre-all_bodies :
      (srcs : List (Bytes × Bytes)) (bodies bs : List Body)
      → BodiesAre lib srcs bs
      → all_bodies srcs bodies ≡ bodies ++ bs
  unfolding all_bodies add_body
  BodiesAre-all_bodies [] bodies bs no_source = sym (append-nil bodies)
  BodiesAre-all_bodies ((k, v) ∷ srcs) bodies bs (next_source {b = b} {bodies = cs} (ds, q, c) w) =
      ap (λ r. all_bodies srcs (add_body r bodies)) q
      ∙ ap (λ (t : Bool). all_bodies srcs (if t then bodies else bodies ++ (b ∷ []))) c
      ∙ BodiesAre-all_bodies srcs (bodies ++ (b ∷ [])) cs w
      ∙ append_assoc bodies (b ∷ []) cs

  -- ParseSources returns the diagnostics of all the sources. If one of them is an error there is no body;
  -- if every source is parsed the result is their bodies, merged in the order of the loop.
  pub parse_sources-Sources :
      (srcs : List (Bytes × Bytes))
      → (diags_of (parse_sources lib srcs) ≡ all_diags lib srcs)
        × (has_errors (all_diags lib srcs) ≡ true
            → parse_sources lib srcs ≡ fails (all_diags lib srcs))
        × ((bs : List Body)
            → BodiesAre lib srcs bs
            → parse_sources lib srcs ≡ gives (lib.merge_bodies bs) (all_diags lib srcs))
  unfolding parse_sources
  parse_sources-Sources srcs =
      let whole = sources_loop-merge_sources srcs [] [] in
      (
        ap diags_of whole ∙ diags_of-merge_sources lib _ (all_diags lib srcs),
        λ h. whole ∙ merge_sources_fails lib _ (all_diags lib srcs) h,
        λ bs w.
            whole
            ∙ merge_sources_gives lib _ (all_diags lib srcs) (BodiesAre-clean srcs bs w)
            ∙ ap (λ bodies. gives (lib.merge_bodies bodies) (all_diags lib srcs))
                (BodiesAre-all_bodies srcs [] bs w),
      )
