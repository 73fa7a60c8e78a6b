-- ===== src/Dataset.antt =====
-- flashlight/fl/dataset/Dataset.h: the abstract class that every view of samples implements.
-- A sample is a value of any type here; the views that look inside take it to be a list of fields.
-- A size is a natural number, and an index is a signed one, as a caller may pass.
pub mod Concat
pub mod Resample
pub mod Shuffle
pub mod Merge
pub mod Transform
pub mod Partition
pub mod DynamicPartition
pub mod Batching
pub mod Batch
pub mod Prefetch
mod Tests
use flashlight.Prelude.{
  ℕ, zero, suc, ◌<◌, ◌≤◌, ◌+◌, ◌≡◌, refl, List, map, Result, ok, throw, out_of_range, ltb,
  if◌then◌else◌, range_from, lt→ltb, le→ltb,
}
use flashlight.Prelude.Int.{ℤ, pos, negsuc}

-- The virtual functions `size` and `get`.
pub record Dataset {ℓ} (S : Type ℓ) : Type ℓ where
  pub size : ℕ
  pub get : ℤ → Result S

-- `checkIndexBounds`: the index itself, as a number, when it lies in [0, size).
abbrev pub check_index_bounds : ℤ → ℕ → Result ℕ
check_index_bounds (pos i) size = if ltb i size then ok i else throw out_of_range
check_index_bounds (negsuc i) size = throw out_of_range

pub check_index_bounds_of_lt : (i size : ℕ) → i < size → check_index_bounds (pos i) size ≡ ok i
check_index_bounds_of_lt i size h = rw (lt→ltb i size h)

-- An index that `get` has to refuse.
abbrev pub IsOutside : ℤ → ℕ → Type 0
IsOutside (pos i) size = size ≤ i
IsOutside (negsuc i) size = Unit {0}

pub check_index_bounds_of_outside :
    (i : ℤ) (size : ℕ) → IsOutside i size → check_index_bounds i size ≡ throw out_of_range
check_index_bounds_of_outside (pos i) size h = rw (le→ltb i size h)
check_index_bounds_of_outside (negsuc i) size h = refl

module _ {ℓ} {S : Type ℓ} where
  -- What the indices from `start` on give.
  abbrev pub elements_from : Dataset S → ℕ → ℕ → List (Result S)
  elements_from d start n = map (λ i. d.get (pos i)) (range_from start n)

  -- What a walk over the whole dataset gives, in order.
  abbrev pub elements : Dataset S → List (Result S)
  elements d = elements_from d 0 d.size

  -- `get` refuses every index that is not in [0, size).
  abbrev pub IsGuarded : Dataset S → Type ℓ
  IsGuarded d = (i : ℤ) → IsOutside i d.size → d.get i ≡ throw out_of_range
