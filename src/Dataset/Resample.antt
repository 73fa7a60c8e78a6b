-- ===== src/Dataset/Resample.antt =====
-- flashlight/fl/dataset/ResampleDataset.{h,cpp}: a dataset read through a vector of indices.
use flashlight.Prelude.{
  ℕ, ◌+◌, ◌≡◌, List, [], map, Option, Result, ok, throw, ◌>>=◌, at, require, invalid_argument,
  length_error, undefined_behaviour, map-range_from-get_elem?, lt_of_get_elem?, if◌then◌else◌,
  range_from, arith, length,
}
use flashlight.Prelude.Int.{ℤ, pos, negsuc, eqb_ℤ}
use flashlight.Dataset.{
  Dataset, check_index_bounds, elements, IsGuarded, check_index_bounds_of_lt,
  check_index_bounds_of_outside,
}

-- A null `std::function` is `none`.
abbrev pub PermutationFunction : Type 0
PermutationFunction = Option (ℤ → ℤ)

-- `std::iota(perm.begin(), perm.end(), 0)` over a vector of that size.
abbrev pub iota : ℕ → List ℤ
iota size = map pos (range_from 0 size)

-- A vector of a negative size is refused by its constructor.
unfoldable pub make_identity_permutation : ℤ → Result (List ℤ)
make_identity_permutation (pos size) = ok (iota size)
make_identity_permutation (negsuc _) = throw length_error

pub make_permutation_from_fn : ℤ → PermutationFunction → Result (List ℤ)
make_permutation_from_fn size fn = do
  f ← require fn invalid_argument
  perm ← make_identity_permutation size
  ok (map f perm)

pub record ResampleDataset {ℓ} (S : Type ℓ) : Type ℓ where
  pub dataset : Dataset S
  pub resample_vec : List ℤ

module _ {ℓ} {S : Type ℓ} where
  unfoldable pub resample : ResampleDataset S → List ℤ → ResampleDataset S
  resample r vec = record r { resample_vec = vec }

  -- The constructor from a vector; a null dataset is `none`.
  unfoldable pub init_vec : Option (Dataset S) → List ℤ → Result (ResampleDataset S)
  unfolding resample
  init_vec dataset vec = do
    d ← require dataset invalid_argument
    ok (resample (record { dataset = d; resample_vec = [] }) vec)

  -- The constructor with the identity; it reads the size of the dataset before it tests it for null.
  unfoldable pub init : Option (Dataset S) → Result (ResampleDataset S)
  unfolding make_identity_permutation init_vec
  init dataset = do
    d ← require dataset undefined_behaviour
    vec ← make_identity_permutation (pos d.size)
    init_vec dataset vec

  -- The constructor from a function on indices; `n` is the number of indices, all of them if -1.
  unfoldable pub init_fn : Option (Dataset S) → PermutationFunction → ℤ → Result (ResampleDataset S)
  unfolding make_permutation_from_fn make_identity_permutation init_vec
  init_fn dataset fn n = do
    size ←
        if eqb_ℤ n (negsuc 0)
        then (require dataset undefined_behaviour >>= λ d. ok (pos d.size))
        else ok n
    vec ← make_permutation_from_fn size fn
    init_vec dataset vec

  pub get : ResampleDataset S → ℤ → Result S
  get r idx = do
    i ← check_index_bounds idx (length r.resample_vec)
    j ← at r.resample_vec i
    r.dataset.get j

  abbrev pub as_dataset : ResampleDataset S → Dataset S
  as_dataset r = record { size = length r.resample_vec; get = get r }

  -- A walk over the view reads the dataset at each index of the vector, in order.
  pub elements-map :
      (r : ResampleDataset S) → elements (as_dataset r) ≡ map r.dataset.get r.resample_vec
  unfolding get
  elements-map r = map-range_from-get_elem? r.dataset.get _ r.resample_vec 0 (λ j k at_j.
      let same : 0 + j ≡ j = omega arith in
      rw (same, check_index_bounds_of_lt j _ (lt_of_get_elem? r.resample_vec j k at_j), at_j))

  pub get-IsGuarded : (r : ResampleDataset S) → IsGuarded (as_dataset r)
  unfolding get
  get-IsGuarded r i h = rw (check_index_bounds_of_outside i (length r.resample_vec) h)
