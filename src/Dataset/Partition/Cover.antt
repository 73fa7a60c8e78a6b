-- ===== src/Dataset/Partition/Cover.antt =====
-- The shares of all partitions together.
use flashlight.Prelude.{
  ℕ, ◌+◌, ◌-◌, ◌*◌, ◌/◌, ◌%◌, ◌<◌, ◌≤◌, ◌≡◌, ap, ◌∙◌, List, ok, for_each, map, ltb, ◌==◌, ◌&&◌,
  Bool, true, false, min, if◌then◌else◌, range_from, flat_map, arith, Bool-cases, inl, inr,
}
use mathlib.Core.Path.{subst}
use flashlight.Prelude.Int.{pos}
use flashlight.Prelude.Perms.{Perm, flat_map-swap-perm}
use flashlight.Prelude.Ranges.{chain_whole, flat_map-congr, for_each-map, flat_map-map}
use flashlight.Dataset.Partition.{
  includes_last, batch_samples, global_batches, partition_samples, partition_by_round_robin,
}

-- In the last global batch the partitions take consecutive ranges, one sample longer at first.
last_batch :
    (offset size num_partitions : ℕ)
    → 0 < num_partitions
    → flat_map
        (λ p. range_from (offset + (size / num_partitions) * p + min p (size % num_partitions)) (
          if ltb p (size % num_partitions)
          then size / num_partitions + 1
          else size / num_partitions))
        (range_from 0 num_partitions)
      ≡ range_from offset size
last_batch offset size k h =
    chain_whole (λ p. offset + (size / k) * p + min p (size % k))
      (λ p. if ltb p (size % k) then size / k + 1 else size / k) k offset size (λ p l. ground arith)
      (omega arith) (grind arith)

full_batch :
    (offset batch_sz num_partitions : ℕ)
    → flat_map (λ p. range_from (offset + batch_sz * p) batch_sz) (range_from 0 num_partitions)
      ≡ range_from offset (num_partitions * batch_sz)
full_batch offset b k =
    chain_whole (λ p. offset + b * p) (λ _. b) k offset (k * b) (λ p l. omega arith) (omega arith)
      (omega arith)

-- How many samples are given out: all of them, or those of the full global batches.
abbrev pub covered : ℕ → ℕ → ℕ → Bool → ℕ
covered n k b allow_empty =
    if includes_last n k (k * b) allow_empty then n else n / (k * b) * (k * b)

-- How many samples global batch `i` has.
abbrev size_of : ℕ → ℕ → Bool → ℕ → ℕ → ℕ
size_of n per last batches i = if last && (i == batches - 1) then n - i * per else per

global_batch :
    (n k b : ℕ) (last : Bool) (batches i : ℕ)
    → 0 < k
    → flat_map (λ p. batch_samples n k b last batches p i) (range_from 0 k)
      ≡ range_from (i * (k * b)) (size_of n (k * b) last batches i)
unfolding batch_samples
global_batch n k b last batches i h = elim (Bool-cases (last && (i == batches - 1))) [
  | inl e ↦ rw e (last_batch (i * (k * b)) (n - i * (k * b)) k h)
  | inr e ↦ rw e (full_batch (i * (k * b)) b k)
]

-- A last batch is only begun when samples are left for it.
includes_last-pos :
    (n k per : ℕ) (allow_empty : Bool)
    → 0 < k
    → includes_last n k per allow_empty ≡ true
    → 0 < n % per
unfolding includes_last
includes_last-pos n k per allow_empty h e = ground arith

-- An index of a global batch that is begun.
start-le : (i per n : ℕ) → 0 < per → i < n / per + 1 → i * per ≤ n
start-le i per n h l = grind arith

end-ge : (n per : ℕ) → 0 < per → n ≤ (n / per + 1) * per
end-ge n per h = grind arith

batch_step :
    (n per p : ℕ)
    → 0 < per
    → p < n / per + 1
    → min ((p + 1) * per) n ≡ min (p * per) n + size_of n per true (n / per + 1) p
batch_step n per p h l = elim (Bool-cases (p == n / per + 1 - 1)) [
  | inl e ↦ rw e (
      let at_end : p ≡ n / per = ground arith in
      rw at_end (omega (arith, end-ge n per h, start-le (n / per) per n h (omega arith))))
  | inr e ↦ rw e (
      let inside : p + 1 < n / per + 1 = ground arith in
      omega (arith, start-le (p + 1) per n h inside, start-le p per n h (omega arith)))
]

all_batches :
    (n per : ℕ) (last : Bool)
    → 0 < per
    → (last ≡ true → 0 < n % per)
    → flat_map
        (λ i. range_from (i * per) (size_of n per last (global_batches n per last) i))
        (range_from 0 (global_batches n per last))
      ≡ range_from 0 (if last then n else n / per * per)
unfolding global_batches
all_batches n per true h some_left =
    flat_map-congr _ (λ i. range_from (min (i * per) n) (size_of n per true (n / per + 1) i)) 0
      (n / per + 1)
      (λ p l.
        let same : p * per ≡ min (p * per) n = omega (arith, start-le p per n h (omega arith)) in
        ap (λ s. range_from s (size_of n per true (n / per + 1) p)) same)
    ∙ chain_whole (λ i. min (i * per) n) (size_of n per true (n / per + 1)) (n / per + 1) 0 n
        (λ p l. batch_step n per p h (omega arith)) (omega arith) (omega (arith, end-ge n per h))
all_batches n per false h some_left =
    chain_whole (λ i. i * per) (λ _. per) (n / per) 0 (n / per * per) (λ p l. omega arith)
      (omega arith) (omega arith)

-- A valid partition gets its share.
pub partition-ok :
    (n k b : ℕ) (allow_empty : Bool) (p : ℕ)
    → 0 < b
    → p < k
    → partition_by_round_robin n (pos p) k b allow_empty
      ≡ ok (partition_samples n k b allow_empty p)
unfolding partition_by_round_robin
partition-ok n k b allow_empty p b_pos h = let some_batch : 0 < k * b = grind arith in ground arith

round_robin-perm :
    (n k b : ℕ) (allow_empty : Bool)
    → 0 < k
    → 0 < b
    → (shares : List (List ℕ)) × (for_each
          (λ p. partition_by_round_robin n (pos p) k b allow_empty)
          (range_from 0 k)
        ≡ ok shares)
      × Perm (flat_map (λ share. share) shares) (range_from 0 (covered n k b allow_empty))
unfolding partition_samples
round_robin-perm n k b allow_empty k_pos b_pos =
    let per_pos : 0 < k * b = grind arith in
    let last = includes_last n k (k * b) allow_empty in
    let batches = global_batches n (k * b) last in
    (
      map (partition_samples n k b allow_empty) (range_from 0 k),
      for_each-map _ _ 0 k (λ p h. partition-ok n k b allow_empty p b_pos (omega arith)),
      rw (flat_map-map (partition_samples n k b allow_empty) (range_from 0 k)) (
          subst (Perm (flat_map (partition_samples n k b allow_empty) (range_from 0 k)))
            (flat_map-congr _ _ 0 batches (λ i _. global_batch n k b last batches i k_pos)
              ∙ all_batches n (k * b) last per_pos
                  (includes_last-pos n k (k * b) allow_empty k_pos))
            (flat_map-swap-perm (λ p i. batch_samples n k b last batches p i) (range_from 0 k)
              (range_from 0 batches))),
    )

covered_by_per :
    (n k per : ℕ) (allow_empty : Bool)
    → 0 < k
    → 0 < per
    → let c = if includes_last n k per allow_empty then n else n / per * per in
      (c ≤ n) × (n < c + k) × (allow_empty ≡ true → c ≡ n)
unfolding includes_last
covered_by_per n k per true k_pos per_pos =
    let split : n / per * per + n % per ≡ n = omega arith in ground arith
covered_by_per n k per false k_pos per_pos =
    let split : n / per * per + n % per ≡ n = omega arith in ground arith

-- Over all partitions, none of which throws, each of the first `c` samples is given out exactly once
-- and no other sample is. Fewer samples than there are partitions are left over, and none where
-- partitions may go without.
pub round_robin-covers :
    (n k b : ℕ) (allow_empty : Bool)
    → 0 < k
    → 0 < b
    → (shares : List (List ℕ)) × (c : ℕ) × (for_each
          (λ p. partition_by_round_robin n (pos p) k b allow_empty)
          (range_from 0 k)
        ≡ ok shares)
      × Perm (flat_map (λ share. share) shares) (range_from 0 c)
      × (c ≤ n)
      × (n < c + k)
      × (allow_empty ≡ true → c ≡ n)
round_robin-covers n k b allow_empty k_pos b_pos =
    let (shares, done, p) = round_robin-perm n k b allow_empty k_pos b_pos in
    let (below, above, all) = covered_by_per n k (k * b) allow_empty k_pos (grind arith) in
    (shares, covered n k b allow_empty, done, p, below, above, all)
