-- ===== src/Dataset/DynamicPartition/Tests.antt =====
-- The theorem on packing at a concrete input, and a run of the code.
use flashlight.Prelude.{
  ℕ, ◌*◌, ◌≡◌, ◌⊎◌, refl, List, [], ◌∷◌, ok, throw, invalid_argument, max, ltb, arith, false,
}
use flashlight.Prelude.Int.{pos}
use flashlight.Dataset.DynamicPartition.{
  Sizes, Packed, batches_of, dynamic_partition_by_round_robin, pack, close,
}
use flashlight.Dataset.DynamicPartition.Packing.{AllFit, IsPacking, padded, batches_of-IsPacking}

-- Whole numbers as sizes, with a limit of 4.
abbrev whole_sizes : Sizes ℕ
whole_sizes = record {
  nought = 0;
  scale = λ n s. n * s;
  exceeds = λ s. ltb 4 s;
  is_below = λ s. ltb s 4;
  larger = λ a b. max a b;
  scale_one = λ s. omega arith;
  larger_self = λ s. omega arith;
}

batches_of-IsPacking_example :
    (AllFit whole_sizes (1 ∷ 2 ∷ 2 ∷ 2 ∷ [])
      × (batches : List Packed) × (batches_of whole_sizes (1 ∷ 2 ∷ 2 ∷ 2 ∷ []) ≡ ok batches)
      × IsPacking whole_sizes 0 (1 ∷ 2 ∷ 2 ∷ 2 ∷ []) batches)
    ⊎ ((¬ AllFit whole_sizes (1 ∷ 2 ∷ 2 ∷ 2 ∷ []))
        × (batches_of whole_sizes (1 ∷ 2 ∷ 2 ∷ 2 ∷ []) ≡ throw invalid_argument))
unfolding padded
batches_of-IsPacking_example =
    batches_of-IsPacking whole_sizes (1 ∷ 2 ∷ 2 ∷ 2 ∷ []) refl (refl, (refl, (refl, (refl, tt))))

-- The last two samples fill a batch exactly, and are given to no partition.
exact_batch_run :
    dynamic_partition_by_round_robin whole_sizes (1 ∷ 2 ∷ 2 ∷ 2 ∷ []) (pos 0) 1 false
    ≡ ok (0 ∷ 1 ∷ [], 2 ∷ [])
unfolding dynamic_partition_by_round_robin batches_of pack close
exact_batch_run = refl
