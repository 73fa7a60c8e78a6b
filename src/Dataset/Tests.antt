-- ===== src/Dataset/Tests.antt =====
-- The theorems on datasets at concrete inputs, and runs of the code.
mod Images
use flashlight.Prelude.{
  ℕ, ◌+◌, ◌%◌, ◌≤◌, ◌<◌, ◌≡◌, refl, List, [], ◌∷◌, true, false, some, none, ok, throw, ◌>>=◌,
  for_each, range_from, flat_map, arith, invalid_argument, length, get_elem?, if◌then◌else◌, ◌==◌,
  ◌*◌, ◌↔◌, get_or,
}
use flashlight.Prelude.Int.{ℤ, pos, negsuc}
use flashlight.Prelude.Perms.{Perm}
use flashlight.Dataset.{Dataset, elements, check_index_bounds, IsGuarded}
use flashlight.Dataset.Concat
use flashlight.Dataset.Resample
use flashlight.Dataset.Shuffle
use flashlight.Dataset.Shuffle.{resamples, seeds}
use flashlight.Dataset.Merge
use flashlight.Dataset.Merge.{get-fields_at}
use flashlight.Dataset.Partition.{partition_by_round_robin}
use flashlight.Dataset.Partition.Cover.{round_robin-covers}
use flashlight.Dataset.Partition.Balance.{shares_balanced}
use flashlight.Dataset.Batching.{Arrays, make_batch, batch_dim, fill_buffer}
use flashlight.Dataset.Tests.Images.{Image, number, images, read_image}
use flashlight.Dataset.Batching.Slices.{make_batch-slice}
use flashlight.Dataset.Batching.Columns.{fill_buffer-columns, add_all, field_at}
use flashlight.Dataset.Batch
use flashlight.Dataset.Batch.Ranges.{Batches, include_last-Batches, skip_last-Batches}
use flashlight.Dataset.Batch.Sizes.{init_sizes-Batches}

-- A dataset of `n` samples, each its index after a given number.
abbrev counting : ℕ → ℕ → Dataset ℕ
counting first n = record { size = n; get = λ i. check_index_bounds i n >>= λ j. ok (first + j) }

abbrev two_datasets : List (Dataset ℕ)
two_datasets = counting 10 2 ∷ counting 20 0 ∷ counting 30 3 ∷ []

elements-flat_map_example :
    (c : Concat.ConcatDataset ℕ) × (Concat.init two_datasets ≡ ok c)
    × (elements (Concat.as_dataset c) ≡ flat_map elements two_datasets)
    × IsGuarded (Concat.as_dataset c)
elements-flat_map_example =
    Concat.elements-flat_map (counting 10 2) (counting 20 0 ∷ counting 30 3 ∷ [])

-- An engine that counts its draws.
abbrev seed_counter : ℤ → ℕ
seed_counter (pos n) = n
seed_counter (negsuc n) = n

abbrev draw_counter : ℕ → ℕ → ℕ × ℕ
draw_counter g i = (g % (i + 1), g + 3)

draw_counter_bound : (g i : ℕ) → (draw_counter g i).0 ≤ i
draw_counter_bound g i = grind arith

elements-run-perm_example :
    (t : Shuffle.ShuffleDataset ℕ ℕ) × ((Shuffle.init seed_counter draw_counter
          (some (counting 10 4))
          (pos 5)
        >>= λ s.
            Shuffle.run seed_counter draw_counter s (resamples ∷ seeds (pos 2) ∷ resamples ∷ []))
      ≡ ok t)
    × Perm (elements (Resample.as_dataset t.base)) (elements (counting 10 4))
elements-run-perm_example =
    Shuffle.elements-run-perm seed_counter draw_counter draw_counter_bound (counting 10 4) (pos 5)
      (resamples ∷ seeds (pos 2) ∷ resamples ∷ [])

abbrev shuffled : List ℤ → Shuffle.ShuffleDataset ℕ ℕ
shuffled vec = record { base = record { dataset = counting 10 2; resample_vec = vec }; rng = 9 }

abbrev pairs : ℕ → Dataset (List ℕ)
pairs n = record { size = n; get = λ i. check_index_bounds i n >>= λ j. ok (j ∷ (j + 100) ∷ []) }

get-fields_at_example :
    Merge.get (Merge.init (pairs 3 ∷ pairs 1 ∷ pairs 2 ∷ [])) (pos 1) ≡ ok (1 ∷ 101 ∷ 1 ∷ 101 ∷ [])
unfolding Merge.init
get-fields_at_example = (get-fields_at (pairs 3 ∷ pairs 1 ∷ pairs 2 ∷ [])).1 1 (omega arith)

round_robin-covers_example :
    (shares : List (List ℕ)) × (c : ℕ) × (for_each
        (λ p. partition_by_round_robin 13 (pos p) 3 2 false)
        (range_from 0 3)
      ≡ ok shares)
    × Perm (flat_map (λ share. share) shares) (range_from 0 c)
    × (c ≤ 13)
    × (13 < c + 3)
    × (false ≡ true → c ≡ 13)
round_robin-covers_example = round_robin-covers 13 3 2 false (omega arith) (omega arith)

shares_balanced_example :
    (share_p : List ℕ) × (share_q : List ℕ) × (partition_by_round_robin 11 (pos 0) 3 2 false
      ≡ ok share_p)
    × (partition_by_round_robin 11 (pos 2) 3 2 false ≡ ok share_q)
    × (length share_q ≤ length share_p)
    × (length share_p ≤ length share_q + 1)
shares_balanced_example = shares_balanced 11 3 2 false 0 2 (omega arith) (omega arith) (omega arith)

make_batch-slice_example :
    (batch : Image) × (make_batch images (number 5 ∷ number 6 ∷ []) none ≡ ok batch)
    × (images.dims batch ≡ 2 ∷ 1 ∷ 1 ∷ 1 ∷ [])
    × ((k : ℕ) (a : Image)
        → get_elem? (number 5 ∷ number 6 ∷ []) k ≡ some a
        → read_image batch 0 k ≡ a)
unfolding batch_dim
make_batch-slice_example =
    make_batch-slice images (number 5) (number 6 ∷ []) (refl, tt) (refl, tt) (omega arith)
      (omega arith)

fill_buffer-columns_example :
    (fill_buffer (pairs 4) 1 2 [] ≡ ok (add_all [] ((1 ∷ 101 ∷ []) ∷ (2 ∷ 102 ∷ []) ∷ [])))
    × ((samples : List (List ℕ)) (k : ℕ)
        → get_or (add_all [] samples) k [] ≡ flat_map (field_at k) samples)
fill_buffer-columns_example = fill_buffer-columns (pairs 4) 1 2

include_last-Batches_example :
    (b : Batch.BatchDataset ℕ) × (Batch.init (pos 0) (some (pairs 7)) (pos 3) Batch.include_last []
      ≡ ok b)
    × Batches b 7
    × ((i : ℕ)
        → i < b.size
        → (start : ℕ) × (end : ℕ) × (Batch.batch_range b i ≡ ok (start, end))
          × (start < end)
          × (end ≤ start + 3)
          × (i + 1 < b.size → end ≡ start + 3))
include_last-Batches_example = include_last-Batches (pos 0) (pairs 7) 3 [] (omega arith)

skip_last-Batches_example :
    (b : Batch.BatchDataset ℕ) × (c : ℕ) × (Batch.init
        (pos 0)
        (some (pairs 7))
        (pos 3)
        Batch.skip_last
        []
      ≡ ok b)
    × Batches b c
    × (c ≤ 7)
    × (7 < c + 3)
    × ((i : ℕ) → i < b.size → Batch.batch_range b i ≡ ok (3 * i, 3 * i + 3))
skip_last-Batches_example = skip_last-Batches (pos 0) (pairs 7) 3 [] (omega arith)

init_sizes-Batches_example :
    (b : Batch.BatchDataset ℕ) × (Batch.init_sizes 0 (some (pairs 7)) (2 ∷ 4 ∷ 5 ∷ []) [] ≡ ok b)
    × (b.size ≡ 3)
    × Batches b 7
init_sizes-Batches_example = init_sizes-Batches 0 (pairs 7) 2 (4 ∷ 5 ∷ []) []
