-- ===== src/Rpcsplitter/Errors/Merged.antt =====
-- The messages of the list that addError of rpcsplitter/errors.go makes.
use Prim.Native.String.{String}
use go_utils.Prelude.{
  ◌≡◌, refl, inl, inr, Bool, false, ◌||◌, Option, none, some, List, [], ◌∷◌, ◌++◌, arith,
  Bool-cases, ◌==◌, string_comparable,
}
use go_utils.Rpcsplitter.Errors.{
  Fault, ErrorList, Base, has_message, add_loop, base_list, add_error,
}

-- A message is that of one of the errors that are no nil.
abbrev pub mentions : String → List (Option Fault) → Bool
mentions m [] = false
mentions m (none ∷ errs) = mentions m errs
mentions m (some e ∷ errs) = m == e.message || mentions m errs

-- No two errors have one message.
abbrev pub DistinctMessages : ErrorList → Type 0
DistinctMessages [] = Unit
DistinctMessages (e ∷ es) = (has_message e.message es ≡ false) × DistinctMessages es

has_message-append :
    (m : String) (es fs : ErrorList)
    → has_message m (es ++ fs) ≡ has_message m es || has_message m fs
unfolding has_message
has_message-append m [] fs = ground arith
has_message-append m (e ∷ es) fs = ground (arith, has_message-append m es fs)

has_message-add_loop :
    (m : String) (list : ErrorList) (errs : List (Option Fault))
    → has_message m (add_loop list errs) ≡ has_message m list || mentions m errs
unfolding add_loop has_message
has_message-add_loop m list [] = ground arith
has_message-add_loop m list (none ∷ errs) = has_message-add_loop m list errs
has_message-add_loop m list (some e ∷ errs) = elim (Bool-cases (has_message e.message list)) [
  | inl known ↦
      rw known
        (ground (arith, has_message-add_loop m list errs, string_comparable.decides m e.message))
  | inr new ↦ rw new (
      ground
        (arith, has_message-add_loop m (list ++ e ∷ []) errs, has_message-append m list (e ∷ [])))
]

DistinctMessages-append :
    (es : ErrorList) (e : Fault)
    → DistinctMessages es
    → has_message e.message es ≡ false
    → DistinctMessages (es ++ e ∷ [])
unfolding has_message
DistinctMessages-append [] e d h = (refl, tt)
DistinctMessages-append (x ∷ es) e (n, d) h = (
  ground (
    arith,
    has_message-append x.message es (e ∷ []),
    string_comparable.decides x.message e.message,
    string_comparable.decides e.message x.message,
  ),
  DistinctMessages-append es e d (ground arith),
)

DistinctMessages-add_loop :
    (list : ErrorList) (errs : List (Option Fault))
    → DistinctMessages list
    → DistinctMessages (add_loop list errs)
unfolding add_loop
DistinctMessages-add_loop list [] d = d
DistinctMessages-add_loop list (none ∷ errs) d = DistinctMessages-add_loop list errs d
DistinctMessages-add_loop list (some e ∷ errs) d = elim (Bool-cases (has_message e.message list)) [
  | inl known ↦ rw known (DistinctMessages-add_loop list errs d)
  | inr new ↦
      rw new
        (DistinctMessages-add_loop (list ++ e ∷ []) errs (DistinctMessages-append list e d new))
]

-- The merged list has the messages of the base and of the errors that are no nil, and no others; if no
-- two errors of the base have one message, then none of the merged list do.
pub add_error_merges :
    (base : Base) (errs : List (Option Fault))
    → DistinctMessages (base_list base)
    → ((m : String)
        → has_message m (add_error base errs) ≡ has_message m (base_list base) || mentions m errs)
      × DistinctMessages (add_error base errs)
unfolding add_error
add_error_merges base errs d = (
  λ m. has_message-add_loop m (base_list base) errs,
  DistinctMessages-add_loop (base_list base) errs d,
)
