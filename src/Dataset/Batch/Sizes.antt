-- ===== src/Dataset/Batch/Sizes.antt =====
-- Batches of given sizes, and the policy that reads an unset member.
use flashlight.Prelude.{
  ℕ, zero, suc, ◌+◌, ◌-◌, ◌≡◌, refl, ap, ◌∙◌, List, [], ◌∷◌, some, ok, get_elem?, append-nil, arith,
  length, min, range_from, range_from-append, flat_map, at, for_each, for_each-get_elem?,
}
use mathlib.Core.Path.{subst}
use native.Mathlib.Decide.{dec_le}
use flashlight.Dataset.{Dataset}
use flashlight.Dataset.Batching.{BatchFunction}
use flashlight.Dataset.Batch.{BatchDataset, batch_range, sizes_range, partial_sum, init_sizes}
use flashlight.Dataset.Batch.Ranges.{Batches, indices}

abbrev sum : List ℕ → ℕ
sum [] = 0
sum (x ∷ xs) = x + sum xs

-- The ranges, from a running sum on.
ranges_from : ℕ → ℕ → List ℕ → List (ℕ × ℕ)
ranges_from pre before [] = []
ranges_from pre before (x ∷ xs) = (before, min (before + x) pre) ∷ ranges_from pre (before + x) xs

length-ranges_from :
    (pre before : ℕ) (xs : List ℕ)
    → length (ranges_from pre before xs) ≡ length (partial_sum before xs)
unfolding ranges_from partial_sum
length-ranges_from pre before [] = refl
length-ranges_from pre before (x ∷ xs) = ap suc (length-ranges_from pre (before + x) xs)

length-partial_sum : (before : ℕ) (xs : List ℕ) → length (partial_sum before xs) ≡ length xs
unfolding partial_sum
length-partial_sum before [] = refl
length-partial_sum before (x ∷ xs) = ap suc (length-partial_sum (before + x) xs)

-- Past the first, a range begins at the sum before and ends at the sum, or with the dataset.
ranges_from-at :
    (pre before j : ℕ) (xs : List ℕ) (r : ℕ × ℕ)
    → get_elem? (ranges_from pre before xs) (suc j) ≡ some r
    → (at (partial_sum before xs) j ≡ ok r.0)
      × (end : ℕ) × (at (partial_sum before xs) (suc j) ≡ ok end)
      × (r.1 ≡ min end pre)
unfolding ranges_from partial_sum
ranges_from-at pre before j [] r h = cc
ranges_from-at pre before zero (x ∷ []) r h = cc
ranges_from-at pre before zero (x ∷ y ∷ xs) r h = (ground arith, before + x + y, refl, ground arith)
ranges_from-at pre before (suc j) (x ∷ xs) r h = ranges_from-at pre (before + x) j xs r h

sizes_range-at :
    (pre j : ℕ) (xs : List ℕ) (r : ℕ × ℕ)
    → get_elem? (ranges_from pre 0 xs) j ≡ some r
    → sizes_range (partial_sum 0 xs) pre j ≡ ok r
unfolding sizes_range
sizes_range-at pre zero [] r h = unfold ranges_from in cc
sizes_range-at pre zero (x ∷ xs) r h = unfold ranges_from partial_sum in ground arith
sizes_range-at pre (suc j) xs r h =
    let (start, end, a, m) = ranges_from-at pre 0 j xs r h in rw (start, a) (ground arith)

ranges_from-flat :
    (pre before : ℕ) (xs : List ℕ)
    → flat_map indices (ranges_from pre before xs)
      ≡ range_from before (min (before + sum xs) pre - before)
unfolding ranges_from
ranges_from-flat pre before [] = let e : min (before + 0) pre - before ≡ 0 = omega arith in rw e
ranges_from-flat pre before (x ∷ xs) =
    let after = min (before + x + sum xs) pre - (before + x) in
    let total : min (before + (x + sum xs)) pre - before ≡ min (before + x) pre - before + after =
      omega arith in
    rw (ranges_from-flat pre (before + x) xs, total)
      (elim (dec_le (before + x) pre) [
        | yes h ↦
            range_from-append before (min (before + x) pre - before) after (before + x)
              (omega arith)
        | no h ↦
            let none_left : after ≡ 0 = omega arith in
            let same : min (before + x) pre - before + 0 ≡ min (before + x) pre - before =
              omega arith in
            rw (none_left, same) (append-nil (range_from before (min (before + x) pre - before)))
      ])

module _ {ℓ} {A : Type ℓ} where
  abbrev sized : ℕ → Dataset (List A) → ℕ → List ℕ → List (BatchFunction A) → BatchDataset A
  sized uninitialised d size sizes fns = record {
    dataset = d;
    batch_size = uninitialised;
    cum_sum_batch_size = partial_sum 0 (size ∷ sizes);
    batch_fns = fns;
    pre_batch_size = d.size;
    size = length (partial_sum 0 (size ∷ sizes));
  }

  -- With given sizes the batches hold the samples in order, up to the sum of the sizes or the end of
  -- the dataset.
  pub init_sizes-Batches :
      (uninitialised : ℕ) (d : Dataset (List A)) (size : ℕ) (sizes : List ℕ)
      (fns : List (BatchFunction A))
      → (b : BatchDataset A) × (init_sizes uninitialised (some d) (size ∷ sizes) fns ≡ ok b)
        × (b.size ≡ length (size ∷ sizes))
        × Batches b (min (sum (size ∷ sizes)) d.size)
  unfolding init_sizes batch_range partial_sum
  init_sizes-Batches uninitialised d size sizes fns = (
    sized uninitialised d size sizes fns,
    refl,
    length-partial_sum 0 (size ∷ sizes),
    (
      ranges_from d.size 0 (size ∷ sizes),
      subst
          (λ n.
            for_each (batch_range (sized uninitialised d size sizes fns)) (range_from 0 n)
            ≡ ok (ranges_from d.size 0 (size ∷ sizes)))
          (length-ranges_from d.size 0 (size ∷ sizes))
          (for_each-get_elem? _ (ranges_from d.size 0 (size ∷ sizes)) 0 (λ j r at_j.
            let e : 0 + j ≡ j = omega arith in
            rw e (sizes_range-at d.size j (size ∷ sizes) r at_j))),
      ranges_from-flat d.size 0 (size ∷ sizes) ∙ ap (range_from 0) (omega arith),
    ),
  )
