-- ===== src/Dataset/Concat.antt =====
-- flashlight/fl/dataset/ConcatDataset.{h,cpp}: datasets one behind the other.
use flashlight.Prelude.{
  ℕ, suc, ◌+◌, ◌-◌, ◌<◌, ◌≤◌, ◌≡◌, refl, sym, ap, ◌∙◌, List, [], ◌∷◌, ◌++◌, map, Result, ok, throw,
  ◌>>=◌, at, out_of_range, invalid_argument, ltb, if◌then◌else◌, range_from, range_from-append,
  map-range_from_eq, map-append, ap₂, arith, flat_map, lt→ltb, le→ltb, Bool-cases, inl, inr,
}
use flashlight.Prelude.Int.{ℤ, pos}
use flashlight.Dataset.{
  Dataset, check_index_bounds, elements, IsGuarded, check_index_bounds_of_lt,
  check_index_bounds_of_outside,
}

-- `std::upper_bound` on a sorted vector: the position of the first element above `idx`.
upper_bound : List ℕ → ℕ → ℕ
upper_bound [] idx = 0
upper_bound (x ∷ xs) idx = if ltb idx x then 0 else suc (upper_bound xs idx)

pub record ConcatDataset {ℓ} (S : Type ℓ) : Type ℓ where
  pub datasets : List (Dataset S)
  pub cumulative_dataset_sizes : List ℕ
  pub size : ℕ

module _ {ℓ} {S : Type ℓ} where
  -- The loop of the constructor, from a running size on: all running sizes, and the last.
  cumulative : ℕ → List (Dataset S) → List ℕ
  cumulative size [] = size ∷ []
  cumulative size (d ∷ ds) = size ∷ cumulative (size + d.size) ds

  total : ℕ → List (Dataset S) → ℕ
  total size [] = size
  total size (d ∷ ds) = total (size + d.size) ds

  built : List (Dataset S) → ConcatDataset S
  built ds = record { datasets = ds; cumulative_dataset_sizes = cumulative 0 ds; size = total 0 ds }

  pub init : List (Dataset S) → Result (ConcatDataset S)
  init [] = throw invalid_argument
  init (d ∷ ds) = ok (built (d ∷ ds))

  pub get : ConcatDataset S → ℤ → Result S
  get c idx = do
    i ← check_index_bounds idx c.size
    let dataset_idx = upper_bound c.cumulative_dataset_sizes i - 1
    d ← at c.datasets dataset_idx
    start ← at c.cumulative_dataset_sizes dataset_idx
    d.get (pos (i - start))

  abbrev pub as_dataset : ConcatDataset S → Dataset S
  as_dataset c = record { size = c.size; get = get c }

  total-ge : (size : ℕ) (ds : List (Dataset S)) → size ≤ total size ds
  unfolding total
  total-ge size [] = omega arith
  total-ge size (d ∷ ds) = omega (arith, total-ge (size + d.size) ds)

  -- The dataset that holds the index, found by walking along.
  locate : List (Dataset S) → ℕ → Result S
  locate [] i = throw out_of_range
  locate (d ∷ ds) i = if ltb i d.size then d.get (pos i) else locate ds (i - d.size)

  locate_here :
      (d : Dataset S) (ds : List (Dataset S)) (i : ℕ)
      → i < d.size
      → locate (d ∷ ds) i ≡ d.get (pos i)
  unfolding locate
  locate_here d ds i h = rw (lt→ltb i d.size h)

  locate_later :
      (d : Dataset S) (ds : List (Dataset S)) (i : ℕ)
      → d.size ≤ i
      → locate (d ∷ ds) i ≡ locate ds (i - d.size)
  unfolding locate
  locate_later d ds i h = rw (le→ltb i d.size h)

  -- The search lands on the right dataset, and gives the right index in it.
  finds :
      (size i : ℕ) (ds : List (Dataset S))
      → size ≤ i
      → i < total size ds
      → (k : ℕ) × (d : Dataset S) × (start : ℕ) × (upper_bound (cumulative size ds) i ≡ suc k)
        × (at ds k ≡ ok d)
        × (at (cumulative size ds) k ≡ ok start)
        × (d.get (pos (i - start)) ≡ locate ds (i - size))
  unfolding upper_bound cumulative total locate
  finds size i [] h l = absurd (omega arith)
  finds size i (d ∷ []) h l = (0, d, size, ground arith, refl, refl, ground arith)
  finds size i (d ∷ e ∷ ds) h l = elim (Bool-cases (ltb i (size + d.size))) [
    | inl here ↦ (0, d, size, ground arith, refl, refl, ground arith)
    | inr later ↦
        let (k, f, start, u, a, b, g) = finds (size + d.size) i (e ∷ ds) (ground arith) l in
        let there : i - (size + d.size) ≡ i - size - d.size = omega arith in
        (
          suc k,
          f,
          start,
          ground arith,
          a,
          b,
          g ∙ ap (locate (e ∷ ds)) there ∙ sym (locate_later d (e ∷ ds) (i - size) (ground arith)),
        )
  ]

  get-IsGuarded : (c : ConcatDataset S) → IsGuarded (as_dataset c)
  unfolding get
  get-IsGuarded c i h = rw (check_index_bounds_of_outside i c.size h)

  get-locate :
      (ds : List (Dataset S)) (i : ℕ) → i < total 0 ds → get (built ds) (pos i) ≡ locate ds i
  unfolding get built
  get-locate ds i l =
      let (k, f, start, u, a, b, g) = finds 0 i ds (omega arith) l in
      let one : suc k - 1 ≡ k = omega arith in
      let same : i - 0 ≡ i = omega arith in
      rw (check_index_bounds_of_lt i (total 0 ds) l, u, one, a, b) (g ∙ ap (locate ds) same)

  total-shift : (size : ℕ) (ds : List (Dataset S)) → total size ds ≡ size + total 0 ds
  unfolding total
  total-shift size [] = omega arith
  total-shift size (d ∷ ds) =
      omega (arith, total-shift (size + d.size) ds, total-shift (0 + d.size) ds)

  map-locate :
      (ds : List (Dataset S)) → map (locate ds) (range_from 0 (total 0 ds)) ≡ flat_map elements ds
  unfolding total
  map-locate [] = refl
  map-locate (d ∷ ds) =
      let cut : total (0 + d.size) ds ≡ d.size + total 0 ds =
        omega (arith, total-shift (0 + d.size) ds) in
      rw (cut, ← range_from-append 0 d.size (total 0 ds) d.size (omega arith), map-append)
        (ap₂ ◌++◌
          (map-range_from_eq (locate (d ∷ ds)) (λ i. d.get (pos i)) 0 0 d.size
            (λ j l. locate_here d ds (0 + j) (omega arith)))
          (map-range_from_eq (locate (d ∷ ds)) (locate ds) d.size 0 (total 0 ds)
              (λ j l. locate_later d ds (d.size + j) (omega arith) ∙ ap (locate ds) (omega arith))
            ∙ map-locate ds))

  -- Of one dataset or more a view is made; a walk over it is the walks over the datasets, one after
  -- the other, and it refuses every index outside, whatever the datasets do there.
  pub elements-flat_map :
      (d : Dataset S) (ds : List (Dataset S))
      → (c : ConcatDataset S) × (init (d ∷ ds) ≡ ok c)
        × (elements (as_dataset c) ≡ flat_map elements (d ∷ ds))
        × IsGuarded (as_dataset c)
  unfolding init built
  elements-flat_map d ds = (
    built (d ∷ ds),
    refl,
    map-range_from_eq _ (locate (d ∷ ds)) 0 0 (total 0 (d ∷ ds))
          (λ j l. get-locate (d ∷ ds) (0 + j) (omega arith))
        ∙ map-locate (d ∷ ds),
    get-IsGuarded (built (d ∷ ds)),
  )
