-- ===== src/Maputil/Examples.antt =====
-- Calls of the map helpers.
use go_utils.Prelude.{ℕ, List, [], ◌∷◌}
use go_utils.Maputil.{Entry}
use go_utils.Prelude.{nat_comparable}

abbrev first_map : List (Entry ℕ ℕ)
first_map = record { key = 1; value = 10 } ∷ record { key = 2; value = 20 } ∷ []

abbrev second_map : List (Entry ℕ ℕ)
second_map = record { key = 2; value = 21 } ∷ []

abbrev listed : List ℕ
listed = 2 ∷ []
