-- ===== src/Dataset/Batching.antt =====
-- flashlight/fl/dataset/Utils.{h,cpp}: `makeBatch` and `makeBatchFromRange`, which pack the fields of
-- several samples into one array for each field.
-- Arrays are those of ArrayFire, which is not part of this repository: an interface with what the
-- code uses of it.
pub mod Slices
pub mod Columns
use flashlight.Prelude.{
  ℕ, zero, suc, ◌+◌, ◌-◌, ◌<◌, ◌≤◌, ◌≡◌, refl, sym, ap, ◌∙◌, List, [], ◌∷◌, ◌++◌, map, Option, some,
  none, Result, ok, throw, ◌>>=◌, invalid_argument, ltb, leb, ◌==◌, ◌&&◌, Bool, true, false,
  if◌then◌else◌, length, set, get_or, get_elem?, arith, range_from, for_each,
}
use flashlight.Prelude.Int.{ℤ, pos}
use flashlight.Dataset.{Dataset}

-- `dims` is `af::array::dims`, `dtype` the number that stands for `af::array::type`, `ndims` is
-- `af::dim4::ndims`, `elements` is `af::array::elements`. `blank dims a` is `af::array(dims, a.type())`,
-- `write_slice arr n i a` assigns `a` to the slice of `arr` at position `i` of dimension `n`, and `slice`
-- reads such a slice.
-- There are four extents, those from `ndims` on are 1, and so are those of a single element; a new array
-- has the extents and the type that it is made with. An assignment to a slice that is there, of an
-- array with the extents of the slice and the type of the whole, keeps extents and type of the whole,
-- and makes the array what is read at this slice; the others stay. Nothing is said of other assignments.
pub record Arrays {ℓ} (A : Type ℓ) : Type ℓ where
  pub dims : A → List ℕ
  pub dtype : A → ℕ
  pub ndims : List ℕ → ℕ
  pub elements : A → ℕ
  pub empty : A
  pub blank : List ℕ → A → A
  pub write_slice : A → ℕ → ℕ → A → A
  pub slice : A → ℕ → ℕ → A
  pub length-dims : (a : A) → length (dims a) ≡ 4
  pub dims-beyond :
      (a : A) (k : ℕ) → 0 < elements a → ndims (dims a) ≤ k → k < 4 → get_or (dims a) k 0 ≡ 1
  pub dims-single : (a : A) (k : ℕ) → elements a ≡ 1 → k < 4 → get_or (dims a) k 0 ≡ 1
  pub dims-blank :
      (extents : List ℕ) (a : A) → length extents ≡ 4 → dims (blank extents a) ≡ extents
  pub dtype-blank :
      (extents : List ℕ) (a : A) → length extents ≡ 4 → dtype (blank extents a) ≡ dtype a
  pub dims-write_slice :
      (arr : A) (n i : ℕ) (a : A)
      → i < get_or (dims arr) n 0
      → dims a ≡ set (dims arr) n 1
      → dtype a ≡ dtype arr
      → dims (write_slice arr n i a) ≡ dims arr
  pub dtype-write_slice :
      (arr : A) (n i : ℕ) (a : A)
      → i < get_or (dims arr) n 0
      → dims a ≡ set (dims arr) n 1
      → dtype a ≡ dtype arr
      → dtype (write_slice arr n i a) ≡ dtype arr
  pub slice-write_slice :
      (arr : A) (n i j : ℕ) (a : A)
      → i < get_or (dims arr) n 0
      → j < get_or (dims arr) n 0
      → dims a ≡ set (dims arr) n 1
      → dtype a ≡ dtype arr
      → slice (write_slice arr n i a) n j ≡ (if i == j then a else slice arr n j)

-- `==` of two `af::dim4`.
dims_eq : List ℕ → List ℕ → Bool
dims_eq [] [] = true
dims_eq [] (y ∷ ys) = false
dims_eq (x ∷ xs) [] = false
dims_eq (x ∷ xs) (y ∷ ys) = x == y && dims_eq xs ys

-- A null `std::function` is `none`.
abbrev pub BatchFunction {ℓ} : Type ℓ → Type ℓ
BatchFunction A = Option (List A → Result A)

module _ {ℓ} {A : Type ℓ} where
  -- One round of the first loop of `makeBatchFromRange`: field `i` of the sample goes to the end of
  -- column `i`, and the buffer grows to the number of fields.
  pub add_fields : List (List A) → List A → List (List A)
  add_fields [] [] = []
  add_fields [] (f ∷ fields) = (f ∷ []) ∷ add_fields [] fields
  add_fields (column ∷ buffer) [] = column ∷ buffer
  add_fields (column ∷ buffer) (f ∷ fields) = (column ++ f ∷ []) ∷ add_fields buffer fields

  -- The first loop, with `n` samples left from index `i` on.
  pub fill_buffer : Dataset (List A) → ℕ → ℕ → List (List A) → Result (List (List A))
  fill_buffer d i zero buffer = ok buffer
  fill_buffer d i (suc n) buffer =
      d.get (pos i) >>= λ fields. fill_buffer d (i + 1) n (add_fields buffer fields)

module _ {ℓ} {A : Type ℓ} (arrays : Arrays A) where
  open arrays use {dims, ndims, elements, empty, blank, write_slice}

  -- The loop that compares the dimensions.
  same_dims : List ℕ → List A → Bool
  same_dims expected [] = true
  same_dims expected (d ∷ rest) = dims_eq (dims d) expected && same_dims expected rest

  -- The loop that copies the arrays, from position `i` on.
  copy_slices : ℕ → ℕ → List A → A → A
  copy_slices n i [] batch = batch
  copy_slices n i (d ∷ rest) batch = copy_slices n (i + 1) rest (write_slice batch n i d)

  -- The dimension along which arrays like the first are batched.
  unfoldable pub batch_dim : A → ℕ
  batch_dim first = if ltb 1 (elements first) then ndims (dims first) else 0

  default_batch : List A → Result A
  unfolding same_dims copy_slices batch_dim dims_eq
  default_batch [] = ok empty
  default_batch (first ∷ rest) =
      if same_dims (dims first) (first ∷ rest)
      then (if leb 4 (batch_dim first)
          then throw invalid_argument
          else ok (
              copy_slices (batch_dim first) 0 (first ∷ rest)
                (blank (set (dims first) (batch_dim first) (length (first ∷ rest))) first)))
      else throw invalid_argument

  pub make_batch : List A → BatchFunction A → Result A
  unfolding default_batch
  make_batch items (some f) = f items
  make_batch items none = default_batch items

  -- The second loop, from column `i` on. A column with no function of its own has the default.
  batch_columns : List (BatchFunction A) → ℕ → List (List A) → Result (List A)
  batch_columns fns i [] = ok []
  batch_columns fns i (column ∷ buffer) = do
    batch ← make_batch column (elim (get_elem? fns i) [ none ↦ none | some f ↦ f ])
    rest ← batch_columns fns (i + 1) buffer
    ok (batch ∷ rest)

  pub make_batch_from_range : Dataset (List A) → List (BatchFunction A) → ℕ → ℕ → Result (List A)
  unfolding add_fields fill_buffer batch_columns
  make_batch_from_range d fns start end = do
    buffer ← fill_buffer d start (end - start) []
    batch_columns fns 0 buffer
