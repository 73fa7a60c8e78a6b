-- ===== src/Meter/Tests.antt =====
-- The theorem on the edit distance at concrete inputs, and runs of the code.
use flashlight.Prelude.{ℕ, ◌≡◌, refl, List, [], ◌∷◌, ◌==◌}
use flashlight.Meter.EditDistance.{
  levenstein_distance, next_cell, next_cells, columns, last, add_sequences, value, reset, add,
}
use flashlight.Meter.EditDistance.Minimal.{IsBest, levenstein_distance-IsBest}

abbrev output : List ℕ
output = 1 ∷ 2 ∷ 3 ∷ []

abbrev target : List ℕ
target = 2 ∷ 3 ∷ 4 ∷ 5 ∷ []

levenstein_distance-IsBest_example :
    IsBest (λ a b. a == b) output target (levenstein_distance (λ a b. a == b) output target)
levenstein_distance-IsBest_example = levenstein_distance-IsBest (λ a b. a == b) output target

value_run : value (add_sequences (λ a b. a == b) reset output target) ≡ 3 ∷ 4 ∷ 2 ∷ 1 ∷ 0 ∷ []
unfolding levenstein_distance next_cell next_cells columns last add_sequences value add
value_run = refl
