-- ===== src/Scoring.antt =====
-- Scoring of scoring/scoring.go: its map of scores, and what each operation under the lock does to it.
-- A score is a float64, whose sum and difference are parameters. Sorted, which is random among equals, and
-- the ticker that starts `decay` are not modelled.
pub mod Scores
use go_utils.Prelude.{Option, none, some, List, [], ◌∷◌, if◌then◌else◌, Comparable, ◌==◌}
use go_utils.Maputil.{Entry, lookup, put}

module _ {ℓ} {T F : Type ℓ} ⦃c : Comparable T⦄ where
  -- delete(s.items, value)
  unfoldable pub delete : List (Entry T F) → T → List (Entry T F)
  delete [] k = []
  delete (e ∷ items) k = let rest = delete items k in if e.key == k then rest else e ∷ rest

  -- `if _, ok := s.items[value]; ok { continue }`, and then the assignment
  unfoldable pub add_one : F → T → List (Entry T F) → List (Entry T F)
  unfolding lookup put
  add_one score value items = elim (lookup items value) [
    | some old ↦ items
    | none ↦ put items value score
  ]

  unfoldable pub add_scores : F → List T → List (Entry T F) → List (Entry T F)
  unfolding add_one
  add_scores score [] items = items
  add_scores score (v ∷ values) items = add_scores score values (add_one score v items)

  unfoldable pub remove_scores : List T → List (Entry T F) → List (Entry T F)
  unfolding delete
  remove_scores [] items = items
  remove_scores (v ∷ values) items = remove_scores values (delete items v)

  unfoldable pub get_score : List (Entry T F) → T → Option F
  unfolding lookup
  get_score items value = lookup items value

  -- Increase and Decrease, with the sum or the difference of floats
  unfoldable pub change_score : (F → F → F) → T → F → List (Entry T F) → List (Entry T F)
  unfolding lookup put
  change_score op value score items = elim (lookup items value) [
    | none ↦ items
    | some old ↦ put items value (op old score)
  ]

  unfoldable pub decay : (F → F) → List (Entry T F) → List (Entry T F)
  decay decay_func [] = []
  decay decay_func (e ∷ items) =
      record { key = e.key; value = decay_func e.value } ∷ decay decay_func items
