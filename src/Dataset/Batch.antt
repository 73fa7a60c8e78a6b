-- ===== src/Dataset/Batch.antt =====
-- flashlight/fl/dataset/BatchDataset.{h,cpp}: consecutive samples packed into batches.
-- Sizes stay below 2^53, where the quotient of two `double`s rounds up and down as the exact one.
pub mod Ranges
pub mod Sizes
use flashlight.Prelude.{
  ℕ, zero, suc, ◌+◌, ◌-◌, ◌*◌, ◌/◌, ◌%◌, List, [], ◌∷◌, Option, some, none, Result, ok, throw,
  ◌>>=◌, require, at, invalid_argument, ltb, leb, ◌==◌, ◌&&◌, Bool, true, false, if◌then◌else◌,
  length, min, get_elem?,
}
use flashlight.Prelude.Int.{ℤ, pos, negsuc}
use flashlight.Dataset.{Dataset, check_index_bounds}
use flashlight.Dataset.Batching.{Arrays, BatchFunction, make_batch_from_range}

pub data BatchDatasetPolicy : Type 0 where
  include_last skip_last divisible_only : BatchDatasetPolicy

pub record BatchDataset {ℓ} (A : Type ℓ) : Type ℓ where
  pub dataset : Dataset (List A)
  pub batch_size : ℕ
  pub cum_sum_batch_size : List ℕ
  pub batch_fns : List (BatchFunction A)
  pub pre_batch_size : ℕ
  pub size : ℕ

-- `x % y != 0` for a signed x.
abbrev indivisible : ℤ → ℕ → Bool
indivisible (pos x) y = ltb 0 (x % y)
indivisible (negsuc x) y = ltb 0 ((x + 1) % y)

-- The exact quotient, rounded up.
abbrev pub ceil_div : ℕ → ℕ → ℕ
ceil_div x y = (x + y - 1) / y

-- The `switch` of the constructor. The third case tests the member `size_` before anything is
-- assigned to it: `uninitialised` is the value that happens to stand there.
pub policy_size : ℤ → ℕ → ℕ → BatchDatasetPolicy → Result ℕ
policy_size uninitialised pre_batch_size batch_size include_last =
    ok (ceil_div pre_batch_size batch_size)
policy_size uninitialised pre_batch_size batch_size skip_last = ok (pre_batch_size / batch_size)
policy_size uninitialised pre_batch_size batch_size divisible_only =
    if indivisible uninitialised batch_size
    then throw invalid_argument
    else ok (ceil_div pre_batch_size batch_size)

-- `std::partial_sum`, with the sum so far.
pub partial_sum : ℕ → List ℕ → List ℕ
partial_sum sum [] = []
partial_sum sum (x ∷ xs) = (sum + x) ∷ partial_sum (sum + x) xs

-- Whether a signed batch size is a positive one.
positive : ℤ → Result ℕ
positive (pos zero) = throw invalid_argument
positive (pos (suc n)) = ok (suc n)
positive (negsuc n) = throw invalid_argument

-- The samples of batch `i`: from the first number up to the second.
pub sizes_range : List ℕ → ℕ → ℕ → Result (ℕ × ℕ)
sizes_range sums pre_batch_size zero = at sums 0 >>= λ end. ok (0, min end pre_batch_size)
sizes_range sums pre_batch_size (suc i) =
    at sums i >>= λ start. at sums (suc i) >>= λ end. ok (start, min end pre_batch_size)

module _ {ℓ} {A : Type ℓ} where
  pub init :
      ℤ
      → Option (Dataset (List A))
      → ℤ
      → BatchDatasetPolicy
      → List (BatchFunction A)
      → Result (BatchDataset A)
  unfolding positive
  init uninitialised dataset batch_size policy fns = do
    d ← require dataset invalid_argument
    b ← positive batch_size
    size ← policy_size uninitialised d.size b policy
    ok (record {
      dataset = d;
      batch_size = b;
      cum_sum_batch_size = [];
      batch_fns = fns;
      pre_batch_size = d.size;
      size = size;
    })

  -- The constructor from batch sizes. The member `batchSize_` is left as it was and not read later.
  pub init_sizes :
      ℕ → Option (Dataset (List A)) → List ℕ → List (BatchFunction A) → Result (BatchDataset A)
  unfolding partial_sum
  init_sizes uninitialised dataset [] fns =
      require dataset invalid_argument >>= λ d. throw invalid_argument
  init_sizes uninitialised dataset (b ∷ sizes) fns = do
    d ← require dataset invalid_argument
    ok (record {
      dataset = d;
      batch_size = uninitialised;
      cum_sum_batch_size = partial_sum 0 (b ∷ sizes);
      batch_fns = fns;
      pre_batch_size = d.size;
      size = length (partial_sum 0 (b ∷ sizes));
    })

  pub batch_range : BatchDataset A → ℕ → Result (ℕ × ℕ)
  unfolding sizes_range
  batch_range b i = elim b.cum_sum_batch_size [
    | [] ↦ ok (b.batch_size * i, min (b.batch_size * i + b.batch_size) b.pre_batch_size)
    | x ∷ sums ↦ sizes_range (x ∷ sums) b.pre_batch_size i
  ]

  module _ (arrays : Arrays A) where
    pub get : BatchDataset A → ℤ → Result (List A)
    get b idx = do
      i ← check_index_bounds idx b.size
      (start, end) ← batch_range b i
      make_batch_from_range arrays b.dataset b.batch_fns start end

    abbrev pub as_dataset : BatchDataset A → Dataset (List A)
    as_dataset b = record { size = b.size; get = get b }
