-- ===== src/Memory/Caching/Sizes.antt =====
-- The sizes that an allocation is rounded to.
use flashlight.Prelude.{
  ℕ, ◌+◌, ◌-◌, ◌*◌, ◌/◌, ◌%◌, ◌^◌, ◌≤◌, ◌<◌, ◌≡◌, ◌⊎◌, refl, ltb, leb, arith, Bool-cases, inl, inr,
}
use flashlight.Memory.Caching.{
  round_size, get_allocation_size, wrap, min_block_size, small_size, large_buffer, min_large_alloc,
}

-- Nothing wraps below 2^63.
wrap_small : (n : ℕ) → n < 2 ^ 64 → wrap n ≡ n
wrap_small n h = omega arith

-- A size below 2^63 is rounded up to the next multiple of 512, and to 512 at least.
pub round_size_lem :
    (size : ℕ)
    → size < 2 ^ 63
    → (size ≤ round_size size)
      × (min_block_size ≤ round_size size)
      × ((round_size size < size + min_block_size) ⊎ (round_size size ≡ min_block_size))
      × (round_size size % min_block_size ≡ 0)
unfolding round_size
round_size_lem size h = elim (Bool-cases (ltb size min_block_size)) [
  | inl small ↦ rw small (ground arith, omega arith, inr refl, refl)
  | inr big ↦
      let at_least : 512 ≤ size = ground arith in
      let e : wrap (512 * (wrap (size + 512 - 1) / 512)) ≡ 512 * ((size + 511) / 512) =
        omega arith in
      rw (big, e) (omega arith, omega arith, inl (omega arith), omega arith)
]

-- What is asked from the device for a rounded size below 2^63 is at least that size, at most 20 MiB
-- more, and larger than the small sizes.
pub get_allocation_size_lem :
    (size : ℕ)
    → size < 2 ^ 63
    → (size ≤ get_allocation_size size)
      × (get_allocation_size size ≤ size + large_buffer)
      × (small_size < get_allocation_size size)
unfolding get_allocation_size
get_allocation_size_lem size h = elim (Bool-cases (leb size small_size)) [
  | inl small ↦ rw small (ground arith, omega arith, omega arith)
  | inr not_small ↦ elim (Bool-cases (ltb size min_large_alloc)) [
    | inl medium ↦ rw (not_small, medium) (ground arith, omega arith, omega arith)
    | inr large ↦
        let at_least : 10485760 ≤ size = ground arith in
        let e : wrap (2097152 * (wrap (size + 2097152 - 1) / 2097152))
            ≡ 2097152 * ((size + 2097151) / 2097152) =
          omega arith in
        rw (not_small, large, e) (omega arith, omega arith, omega arith)
  ]
]
