-- ===== src/Dataset/Partition.antt =====
-- flashlight/fl/dataset/Utils.{h,cpp}: `partitionByRoundRobin`, the samples of one of several
-- workers. The counts are natural numbers that do not reach 2^63; the partition is a signed number.
pub mod Cover
pub mod Balance
use flashlight.Prelude.{
  ℕ, zero, suc, ◌+◌, ◌-◌, ◌*◌, ◌/◌, ◌%◌, List, [], ◌∷◌, Result, ok, throw, invalid_argument,
  undefined_behaviour, ltb, leb, ◌==◌, ◌&&◌, ◌||◌, Bool, min, if◌then◌else◌, range_from, flat_map,
}
use flashlight.Prelude.Int.{ℤ, pos, negsuc}

-- Whether the samples after the last full global batch are given out: one for every partition at
-- least, or any at all if partitions may go without.
pub includes_last : ℕ → ℕ → ℕ → Bool → Bool
includes_last num_samples num_partitions per_global_batch allow_empty =
    (allow_empty && ltb 0 (num_samples % per_global_batch))
    || leb num_partitions (num_samples % per_global_batch)

-- The samples of partition `p` in global batch `i` of `batches`.
batch_samples : ℕ → ℕ → ℕ → Bool → ℕ → ℕ → ℕ → List ℕ
batch_samples num_samples num_partitions batch_sz include_last batches p i =
    let offset = i * (num_partitions * batch_sz) in
    let cur = (num_samples - offset) / num_partitions in
    let remaining = (num_samples - offset) % num_partitions in
    if include_last && (i == batches - 1)
    then range_from (offset + cur * p + min p remaining) (if ltb p remaining then cur + 1 else cur)
    else range_from (offset + batch_sz * p) batch_sz

global_batches : ℕ → ℕ → Bool → ℕ
global_batches num_samples per_global_batch include_last =
    if include_last then num_samples / per_global_batch + 1 else num_samples / per_global_batch

-- The loop over the global batches.
pub partition_samples : ℕ → ℕ → ℕ → Bool → ℕ → List ℕ
partition_samples num_samples num_partitions batch_sz allow_empty p =
    let per_global_batch = num_partitions * batch_sz in
    let include_last = includes_last num_samples num_partitions per_global_batch allow_empty in
    let batches = global_batches num_samples per_global_batch include_last in
    flat_map (batch_samples num_samples num_partitions batch_sz include_last batches p)
      (range_from 0 batches)

-- A batch size of 0 makes the division by the size of a global batch undefined.
pub partition_by_round_robin : ℕ → ℤ → ℕ → ℕ → Bool → Result (List ℕ)
partition_by_round_robin num_samples (negsuc _) num_partitions batch_sz allow_empty =
    throw invalid_argument
partition_by_round_robin num_samples (pos p) num_partitions batch_sz allow_empty =
    if leb num_partitions p
    then throw invalid_argument
    else if (num_partitions * batch_sz) == 0
    then throw undefined_behaviour
    else ok (partition_samples num_samples num_partitions batch_sz allow_empty p)
