-- ===== src/Dataset/Partition/Balance.antt =====
-- How long the shares of the partitions are.
use flashlight.Prelude.{
  ℕ, zero, suc, ◌+◌, ◌-◌, ◌*◌, ◌/◌, ◌%◌, ◌<◌, ◌≤◌, ◌≡◌, List, [], ok, ltb, ◌==◌, ◌&&◌, Bool,
  if◌then◌else◌, range_from, flat_map, arith, Bool-cases, inl, inr, length, length-append,
  length-range_from,
}
use flashlight.Prelude.Int.{pos}
use flashlight.Dataset.Partition.{
  includes_last, batch_samples, global_batches, partition_samples, partition_by_round_robin,
}
use flashlight.Dataset.Partition.Cover.{partition-ok}

-- Two partitions compared batch by batch, where `i` is the last batch of all at most once.
compare_flat :
    (f g : ℕ → List ℕ) (a m : ℕ)
    → ((i : ℕ) → i + 1 < a + m → length (f i) ≡ length (g i))
    → ((i : ℕ) → (length (g i) ≤ length (f i)) × (length (f i) ≤ length (g i) + 1))
    → (length (flat_map g (range_from a m)) ≤ length (flat_map f (range_from a m)))
      × (length (flat_map f (range_from a m)) ≤ length (flat_map g (range_from a m)) + 1)
compare_flat f g a zero same near = omega arith
compare_flat f g a (suc zero) same near =
    omega (arith, near a, length-append (f a) [], length-append (g a) [])
compare_flat f g a (suc (suc m)) same near = omega (
  arith,
  length-append (f a) (flat_map f (range_from (a + 1) (suc m))),
  length-append (g a) (flat_map g (range_from (a + 1) (suc m))),
  same a (omega arith),
  compare_flat f g (a + 1) (suc m) (λ i h. same i (omega arith)) near,
)

length-batch_samples :
    (n k b : ℕ) (last : Bool) (batches p i : ℕ)
    → length (batch_samples n k b last batches p i) ≡ (
        if last && (i == batches - 1)
        then (if ltb p ((n - i * (k * b)) % k)
            then (n - i * (k * b)) / k + 1
            else (n - i * (k * b)) / k)
        else b)
unfolding batch_samples
length-batch_samples n k b last batches p i = elim (Bool-cases (last && (i == batches - 1))) [
  | inl e ↦ rw (e, length-range_from)
  | inr e ↦ rw (e, length-range_from)
]

batch_near :
    (n k b : ℕ) (last : Bool) (batches p q i : ℕ)
    → p ≤ q
    → (length (batch_samples n k b last batches q i)
        ≤ length (batch_samples n k b last batches p i))
      × (length (batch_samples n k b last batches p i)
          ≤ length (batch_samples n k b last batches q i) + 1)
batch_near n k b last batches p q i h = ground (
  arith,
  length-batch_samples n k b last batches p i,
  length-batch_samples n k b last batches q i,
)

batch_same :
    (n k b : ℕ) (last : Bool) (batches p q i : ℕ)
    → i + 1 < batches
    → length (batch_samples n k b last batches p i) ≡ length (batch_samples n k b last batches q i)
batch_same n k b last batches p q i h = ground (
  arith,
  length-batch_samples n k b last batches p i,
  length-batch_samples n k b last batches q i,
)

-- The shares of two partitions differ by one sample at most, and the earlier partition has the
-- longer one.
pub shares_balanced :
    (n k b : ℕ) (allow_empty : Bool) (p q : ℕ)
    → 0 < b
    → p ≤ q
    → q < k
    → (share_p : List ℕ) × (share_q : List ℕ) × (partition_by_round_robin n (pos p) k b allow_empty
        ≡ ok share_p)
      × (partition_by_round_robin n (pos q) k b allow_empty ≡ ok share_q)
      × (length share_q ≤ length share_p)
      × (length share_p ≤ length share_q + 1)
unfolding partition_samples
shares_balanced n k b allow_empty p q b_pos h l =
    let last = includes_last n k (k * b) allow_empty in
    let batches = global_batches n (k * b) last in
    let (longer, near) =
      compare_flat (batch_samples n k b last batches p) (batch_samples n k b last batches q) 0
        batches (λ i m. batch_same n k b last batches p q i (omega arith))
        (λ i. batch_near n k b last batches p q i h) in
    (
      partition_samples n k b allow_empty p,
      partition_samples n k b allow_empty q,
      partition-ok n k b allow_empty p b_pos (omega arith),
      partition-ok n k b allow_empty q b_pos l,
      longer,
      near,
    )
