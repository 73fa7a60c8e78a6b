-- ===== src/Dataset/DynamicPartition.antt =====
-- flashlight/fl/dataset/Utils.cpp: `dynamicPartitionByRoundRobin`. A sample size is a `float`: its type is
-- a parameter, with the operations that the code uses.
pub mod Packing
mod Tests
use flashlight.Prelude.{
  ℕ, zero, suc, ◌+◌, ◌-◌, ◌*◌, ◌/◌, ◌%◌, ◌≡◌, Bool, true, false, ◌&&◌, List, [], ◌∷◌, ◌++◌, Option,
  some, none, Result, ok, throw, ◌>>=◌, invalid_argument, undefined_behaviour, length, get_elem?,
  ltb, leb, range_from, flat_map, if◌then◌else◌,
}
use flashlight.Prelude.Int.{ℤ, pos, negsuc}

-- `scale n s` is `n * s`, `exceeds s` and `is_below s` are `s > maxSizePerBatch` and
-- `s < maxSizePerBatch`, and `larger` is `std::max`. A number is once itself, and the larger of itself
-- and itself; this is so of every float.
pub record Sizes (Size : Type 0) : Type 0 where
  pub nought : Size
  pub scale : ℕ → Size → Size
  pub exceeds : Size → Bool
  pub is_below : Size → Bool
  pub larger : Size → Size → Size
  pub scale_one : (s : Size) → scale 1 s ≡ s
  pub larger_self : (s : Size) → larger s s ≡ s

-- A batch: its number of samples and the first of them.
abbrev pub Packed : Type 0
Packed = ℕ × ℕ

module _ {Size : Type 0} (sizes : Sizes Size) where
  open sizes use {nought, scale, exceeds, is_below, larger}

  -- The loop over the samples that are left, with fuel: the batches, and the start and the greatest
  -- size of the one that is open at the end.
  unfoldable pub pack : ℕ → List Size → ℕ → ℕ → Size → Result (List Packed × ℕ × Size)
  pack fuel [] idx start len = ok ([], start, len)
  pack zero (s ∷ rest) idx start len = throw undefined_behaviour
  pack (suc fuel) (s ∷ rest) idx start len = elim (exceeds s) [
    | true ↦ throw invalid_argument
    | false ↦ (elim (exceeds (scale (idx - start + 1) (larger len s))) [
      | false ↦ pack fuel rest (idx + 1) start (larger len s)
      | true ↦ (elim (exceeds (scale (idx - start) len)) [
        | true ↦ throw invalid_argument
        | false ↦ pack fuel (s ∷ rest) idx idx s >>= λ (batches, last, len').
            ok ((idx - start, start) ∷ batches, last, len')
      ])
    ])
  ]

  -- The batch that is open at the end is taken when it stays below the limit.
  unfoldable pub close : ℕ → List Packed × ℕ × Size → List Packed
  close num_samples (batches, start, len) =
      if is_below (scale (num_samples - start) len)
      then batches ++ ((num_samples - start, start) ∷ [])
      else batches

  unfoldable pub batches_of : List Size → Result (List Packed)
  unfolding pack close
  batches_of samples =
      pack (2 * length samples) samples 0 0 nought >>= λ packed. ok (close (length samples) packed)

  num_global_batches : ℕ → ℕ → Bool → ℕ
  num_global_batches batches num_partitions allow_empty =
      if allow_empty && ltb 0 (batches % num_partitions)
      then batches / num_partitions + 1
      else batches / num_partitions

  -- The batches of a partition, one of each global batch; the last one may have none for it.
  share : List Packed → ℕ → ℕ → ℕ → List Packed
  share batches num_partitions p n =
      flat_map
        (λ i. elim (get_elem? batches (i * num_partitions + p)) [ none ↦ [] | some b ↦ b ∷ [] ])
        (range_from 0 n)

  abbrev pub samples_of : Packed → List ℕ
  samples_of (size, offset) = range_from offset size

  sizes_of : List Packed → List ℕ
  sizes_of [] = []
  sizes_of ((size, _) ∷ batches) = size ∷ sizes_of batches

  -- The samples of a partition and the sizes of its batches.
  unfoldable pub dynamic_partition_by_round_robin :
      List Size → ℤ → ℕ → Bool → Result (List ℕ × List ℕ)
  unfolding batches_of num_global_batches share sizes_of
  dynamic_partition_by_round_robin samples (negsuc _) num_partitions allow_empty =
      throw invalid_argument
  dynamic_partition_by_round_robin samples (pos p) num_partitions allow_empty =
      elim (leb num_partitions p) [
        | true ↦ throw invalid_argument
        | false ↦ batches_of samples >>= λ batches.
            let mine =
              share batches num_partitions p
                (num_global_batches (length batches) num_partitions allow_empty) in
            ok (flat_map samples_of mine, sizes_of mine)
      ]
