-- ===== src/Criterion/Tests.antt =====
-- The theorem on the best path at a concrete input, and runs of the code.
use mathlib.Core.List.{reverse}
use flashlight.Prelude.{
  ℕ, ◌*◌, ◌<◌, ◌≡◌, refl, List, [], ◌∷◌, map, some, none, ok, throw, undefined_behaviour, arith,
  length, get_or,
}
use flashlight.Prelude.Int.{pos}
use flashlight.Prelude.Scores.{Whole, whole_score, Whole-IsOrdered, ◌≼◌, IsFinite}
use flashlight.Criterion.ViterbiPath.{
  compute, compute_path, better, scan, input_at, alpha, beta, trace, last_index,
}
use flashlight.Criterion.ViterbiPath.Optimal.{InRange, path_score, compute_path-best}

-- Two labels. Staying at a label is worth more than moving on.
abbrev scores : ℕ → Whole
scores i = get_or (some 5 ∷ some 1 ∷ some 1 ∷ some 6 ∷ []) i (some 1)

abbrev stays : ℕ → Whole
stays i = get_or (some 4 ∷ some 0 ∷ some 0 ∷ some 2 ∷ []) i (some 0)

abbrev squares : ℕ → Whole
squares i = some (i * i)

abbrev zeros : ℕ → Whole
zeros i = some 0

squares-IsFinite : (t n : ℕ) → t < 2 → n < 2 → IsFinite (input_at 2 2 squares 0 t n)
unfolding input_at
squares-IsFinite t n h k = refl

zigzag-InRange : InRange 2 (1 ∷ 0 ∷ [])
unfolding InRange
zigzag-InRange = (omega arith, (omega arith, tt))

compute_path-best_example :
    (path : List ℕ) × (compute_path 2 2 squares zeros 0 ≡ ok (some (reverse (map pos path))))
    × (length path ≡ 2)
    × InRange 2 path
    × (path_score 2 2 squares zeros 0 (1 ∷ 0 ∷ []) ≼ path_score 2 2 squares zeros 0 path)
compute_path-best_example =
    compute_path-best ⦃ordered = Whole-IsOrdered⦄ 2 2 squares zeros 0 squares-IsFinite
      (λ m n h k. refl) (1 ∷ 0 ∷ []) (omega arith) (omega arith) refl zigzag-InRange

-- The two sequences of a batch.
batch_run :
    compute 2 2 2 scores stays ≡ ok (some (pos 0 ∷ pos 1 ∷ []) ∷ some (pos 0 ∷ pos 0 ∷ []) ∷ [])
unfolding compute compute_path better scan input_at alpha beta trace last_index
batch_run = refl

-- When every score is -∞ the index -1 is looked up.
hopeless_run : compute 1 2 2 (λ i. none) stays ≡ throw undefined_behaviour
unfolding compute compute_path better scan input_at alpha beta trace last_index
hopeless_run = refl
