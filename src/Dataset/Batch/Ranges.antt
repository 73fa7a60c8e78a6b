-- ===== src/Dataset/Batch/Ranges.antt =====
-- Which samples stand in which batch.
use flashlight.Prelude.{
  ℕ, zero, suc, ◌+◌, ◌-◌, ◌*◌, ◌/◌, ◌%◌, ◌<◌, ◌≤◌, ◌≡◌, refl, ap, ◌∙◌, List, [], some, ok, arith,
  min, range_from, flat_map, for_each, map,
}
use flashlight.Prelude.Int.{ℤ, pos}
use flashlight.Prelude.Ranges.{chain_whole, flat_map-congr, for_each-map, flat_map-map_comp}
use flashlight.Dataset.{Dataset}
use flashlight.Dataset.Batching.{BatchFunction}
use flashlight.Dataset.Batch.{
  BatchDataset, include_last, skip_last, policy_size, ceil_div, init, batch_range,
}

-- The indices of a range.
abbrev pub indices : ℕ × ℕ → List ℕ
indices (start, end) = range_from start (end - start)

-- As many batches of one size as start inside the dataset hold the samples up to the end of the last.
fixed_ranges :
    (n b batches : ℕ)
    → ((i : ℕ) → i < batches → b * i ≤ n)
    → flat_map (λ i. indices (b * i, min (b * i + b) n)) (range_from 0 batches)
      ≡ range_from 0 (min (b * batches) n)
fixed_ranges n b batches inside =
    flat_map-congr _ (λ i. range_from (min (b * i) n) (min (b * i + b) n - b * i)) 0 batches
      (λ i l.
        let same : b * i ≡ min (b * i) n = omega (arith, inside i (omega arith)) in
        ap (λ s. range_from s (min (b * i + b) n - b * i)) same)
    ∙ chain_whole (λ i. min (b * i) n) (λ i. min (b * i + b) n - b * i) batches 0
        (min (b * batches) n) (λ i l. omega (arith, inside i l)) (omega arith) (omega arith)

ceil_start : (n b i : ℕ) → 0 < b → i < ceil_div n b → b * i < n
ceil_start n b i h l =
    let below : b * ((n + b - 1) / b) ≤ n + b - 1 = grind arith in
    let more : b * (i + 1) ≤ b * ((n + b - 1) / b) = grind arith in omega arith

ceil_end : (n b : ℕ) → 0 < b → n ≤ b * ceil_div n b
ceil_end n b h = grind arith

floor_start : (n b i : ℕ) → 0 < b → i < n / b → b * i + b ≤ n
floor_start n b i h l = grind arith

-- Batch by batch, the samples from 0 to `end`, each once and in order.
abbrev pub Batches {ℓ} : {A : Type ℓ} → BatchDataset A → ℕ → Type 0
Batches b end =
    (ranges : List (ℕ × ℕ)) × (for_each (batch_range b) (range_from 0 b.size) ≡ ok ranges)
    × (flat_map indices ranges ≡ range_from 0 end)

module _ {ℓ} {A : Type ℓ} where
  fixed-Batches :
      (b : BatchDataset A) (end : ℕ)
      → b.cum_sum_batch_size ≡ []
      → min (b.batch_size * b.size) b.pre_batch_size ≡ end
      → ((i : ℕ) → i < b.size → b.batch_size * i ≤ b.pre_batch_size)
      → Batches b end
  unfolding batch_range
  fixed-Batches b end e m inside = (
    map range_at (range_from 0 b.size),
    for_each-map (batch_range b) range_at 0 b.size (λ i _. rw (e, batch_range)),
    flat_map-map_comp indices range_at (range_from 0 b.size)
        ∙ fixed_ranges b.pre_batch_size b.batch_size b.size inside
        ∙ ap (range_from 0) m,
  )
    where
      range_at : ℕ → ℕ × ℕ
      range_at i = (b.batch_size * i, min (b.batch_size * i + b.batch_size) b.pre_batch_size)

  -- What the constructor makes of a batch size.
  abbrev fixed : Dataset (List A) → ℕ → ℕ → List (BatchFunction A) → BatchDataset A
  fixed d size batches fns = record {
    dataset = d;
    batch_size = size;
    cum_sum_batch_size = [];
    batch_fns = fns;
    pre_batch_size = d.size;
    size = batches;
  }

  -- With the policy `INCLUDE_LAST` every sample is in a batch; none is empty, and all but the last
  -- have the given size.
  pub include_last-Batches :
      (uninitialised : ℤ) (d : Dataset (List A)) (size : ℕ) (fns : List (BatchFunction A))
      → 0 < size
      → (b : BatchDataset A) × (init uninitialised (some d) (pos size) include_last fns ≡ ok b)
        × Batches b d.size
        × ((i : ℕ)
            → i < b.size
            → (start : ℕ) × (end : ℕ) × (batch_range b i ≡ ok (start, end))
              × (start < end)
              × (end ≤ start + size)
              × (i + 1 < b.size → end ≡ start + size))
  unfolding init policy_size batch_range
  include_last-Batches uninitialised d zero fns h = absurd (omega arith)
  include_last-Batches uninitialised d (suc k) fns h =
      let b = fixed d (suc k) (ceil_div d.size (suc k)) fns in
      (
        b,
        refl,
        fixed-Batches b d.size refl (omega (arith, ceil_end d.size (suc k) h))
            (λ i l. omega (arith, ceil_start d.size (suc k) i h l)),
        λ i l. (
          suc k * i,
          min (suc k * i + suc k) d.size,
          refl,
          omega (arith, ceil_start d.size (suc k) i h l),
          omega arith,
          λ m. omega (arith, ceil_start d.size (suc k) (i + 1) h m),
        ),
      )

  -- With `SKIP_LAST` every batch has the given size, and fewer samples than one batch are left out.
  pub skip_last-Batches :
      (uninitialised : ℤ) (d : Dataset (List A)) (size : ℕ) (fns : List (BatchFunction A))
      → 0 < size
      → (b : BatchDataset A) × (c : ℕ) × (init uninitialised (some d) (pos size) skip_last fns
          ≡ ok b)
        × Batches b c
        × (c ≤ d.size)
        × (d.size < c + size)
        × ((i : ℕ) → i < b.size → batch_range b i ≡ ok (size * i, size * i + size))
  unfolding init policy_size batch_range
  skip_last-Batches uninitialised d zero fns h = absurd (omega arith)
  skip_last-Batches uninitialised d (suc k) fns h =
      let b = fixed d (suc k) (d.size / suc k) fns in
      let split : suc k * (d.size / suc k) + d.size % suc k ≡ d.size = grind arith in
      (
        b,
        suc k * (d.size / suc k),
        refl,
        fixed-Batches b (suc k * (d.size / suc k)) refl (omega arith)
            (λ i l. omega (arith, floor_start d.size (suc k) i h l)),
        omega arith,
        grind arith,
        λ i l.
            let full : min (suc k * i + suc k) d.size ≡ suc k * i + suc k =
              omega (arith, floor_start d.size (suc k) i h l) in
            ap (λ (e : ℕ). ok (suc k * i, e)) full,
      )
