-- ===== src/Hcl/Include/Loops.antt =====
-- When the loops of Include of hcl/ext/include/include.go load their files, over what a file includes.
use go_utils.Hcl.Include.{
  Library, Included, Loaded, load, load_file, load_files, load_patterns, parse_file_fs, glob,
}
use go_utils.Hcl.Include.Steps.{
  on_answer-answered, then_load-load, answered_of, Succeeds-of, unless_errors-Succeeds, loaded_of,
  fails-not-Succeeds, panics-not-Succeeds,
}
use go_utils.Hcl.Include.Tree.{
  Succeeds, Reads, FilesAre, no_file, next_file, PatternsAre, no_pattern, next_pattern,
}
use go_utils.Prelude.{◌≡◌, sym, ap, ◌∙◌, List, [], ◌∷◌, ◌++◌, Bytes, append-nil, append_assoc}

load_inj : {Body : Type 0} {bodies all : List Body} → load bodies ≡ load all → all ≡ bodies ++ []
load_inj {bodies = bodies} {all = all} h =
    let q : bodies ≡ all = cc in sym q ∙ sym (append-nil bodies)

module _ {Fs Body Expr Value : Type 0} (lib : Library Fs Body Expr Value)
    (nested : Fs → Body → Included Body) (Nested : Fs → Body → Body → Type 0) where
  load_file-Reads :
      (f : Fs) (path : Bytes) {b : Body}
      → Succeeds (load_file lib nested f path) b
      → (sub : Fs) × (read : Body) × Reads lib f path sub read × Succeeds (nested sub read) b
  unfolding load_file
  load_file-Reads f path {b} h =
      let (read, r, k) =
        Succeeds-of (λ (o : Included Body). Succeeds o b) (parse_file_fs lib f path) _ _ _
          (λ p. panics-not-Succeeds b p) (λ ds p. fails-not-Succeeds ds b p) h in
      let (sub, q, s) =
        answered_of (λ (o : Included Body). Succeeds o b) (lib.subs f (lib.dir path)) _ _
          (λ e p. fails-not-Succeeds _ b p) k in
      (sub, read, (r, q), s)

  load_file-eq :
      (f : Fs) (path : Bytes) {sub : Fs} {read : Body}
      → Reads lib f path sub read
      → load_file lib nested f path ≡ nested sub read
  unfolding load_file
  load_file-eq f path (r, q) =
      unless_errors-Succeeds (parse_file_fs lib f path) _ _ _ r
      ∙ on_answer-answered (lib.subs f (lib.dir path)) _ _ q

  module _ (sound : (f : Fs) (b c : Body) → Succeeds (nested f b) c → Nested f b c) where
    load_files-FilesAre :
        (f : Fs) (paths : List Bytes) (bodies : List Body) {all : List Body}
        → load_files lib nested f paths bodies ≡ load all
        → (bs : List Body) × FilesAre lib Nested f paths bs × (all ≡ bodies ++ bs)
    unfolding load_files
    load_files-FilesAre f [] bodies {all} h = ([], no_file, load_inj h)
    load_files-FilesAre f (path ∷ paths) bodies {all} h =
        let (b, r, k) =
          Succeeds-of (λ (o : Loaded Body). o ≡ load all) (load_file lib nested f path) _ _ _
            (λ p. cc) (λ ds p. cc) h in
        let (sub, read, w, s) = load_file-Reads f path r in
        let (bs, ws, q) = load_files-FilesAre f paths (bodies ++ (b ∷ [])) k in
        (b ∷ bs, next_file w (sound sub read b s) ws, q ∙ append_assoc bodies (b ∷ []) bs)

    pub load_patterns-PatternsAre :
        (f : Fs) (includes : List Bytes) (bodies : List Body) {all : List Body}
        → load_patterns lib nested f includes bodies ≡ load all
        → (bs : List Body) × PatternsAre lib Nested f includes bs × (all ≡ bodies ++ bs)
    unfolding load_patterns
    load_patterns-PatternsAre f [] bodies {all} h = ([], no_pattern, load_inj h)
    load_patterns-PatternsAre f (pattern ∷ includes) bodies {all} h =
        let (paths, q, k) =
          answered_of (λ (o : Loaded Body). o ≡ load all) (glob lib f pattern) _ _ (λ e p. cc) h in
        let (found, r, s) = loaded_of (load_files lib nested f paths bodies) _ k in
        let (bs, ws, t) = load_files-FilesAre f paths bodies r in
        let (cs, us, v) = load_patterns-PatternsAre f includes found s in
        (bs ++ cs, next_pattern q ws us, v ∙ ap (λ l. l ++ cs) t ∙ append_assoc bodies bs cs)

  module _ (complete : (f : Fs) (b c : Body) → Nested f b c → Succeeds (nested f b) c) where
    load_files-loads :
        (f : Fs) (paths : List Bytes) (bodies : List Body) {bs : List Body}
        → FilesAre lib Nested f paths bs
        → load_files lib nested f paths bodies ≡ load (bodies ++ bs)
    unfolding load_files
    load_files-loads f [] bodies no_file = ap load (sym (append-nil bodies))
    load_files-loads f (path ∷ paths) bodies
          (next_file {sub = sub} {read = read} {body = b} {bodies = bs} w s ws) =
        let (ds, q, clean) = complete sub read b s in
        unless_errors-Succeeds (load_file lib nested f path) _ _ _
          (ds, load_file-eq f path w ∙ q, clean)
        ∙ load_files-loads f paths (bodies ++ (b ∷ [])) ws
        ∙ ap load (append_assoc bodies (b ∷ []) bs)

    pub load_patterns-loads :
        (f : Fs) (includes : List Bytes) (bodies : List Body) {bs : List Body}
        → PatternsAre lib Nested f includes bs
        → load_patterns lib nested f includes bodies ≡ load (bodies ++ bs)
    unfolding load_patterns
    load_patterns-loads f [] bodies no_pattern = ap load (sym (append-nil bodies))
    load_patterns-loads f (pattern ∷ includes) bodies
          (next_pattern {paths = paths} {bs = bs} {bodies = cs} q ws us) =
        on_answer-answered (glob lib f pattern) _ _ q
        ∙ then_load-load (load_files lib nested f paths bodies) _
            (load_files-loads f paths bodies ws)
        ∙ load_patterns-loads f includes (bodies ++ bs) us
        ∙ ap load (append_assoc bodies bs cs)
