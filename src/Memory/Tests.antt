-- ===== src/Memory/Tests.antt =====
-- The theorems on the memory manager at concrete inputs, and runs of the code.
use flashlight.Prelude.{ℕ, ◌+◌, ◌^◌, ◌≤◌, ◌<◌, ◌≡◌, refl, arith, false, [], ◌∷◌, some, Result, ok}
use flashlight.Prelude.Maps.{lookup, insert}
use flashlight.Memory.Caching.Calls.{
  obtain, obtain_from, fit, hand_out, size_of, is_split_worth, split_block, link_next, cache_block,
  alloc, unlock, free_block, try_merge_blocks, absorb, bypass, link_prev,
}
use flashlight.Memory.Caching.{
  Manager, new_block, nat_key, lower_bound, before, usable, remove_cell, pool_insert, pool_erase,
  erase, in_use, round_size, get_allocation_size, large_buffer, small_size,
}
use flashlight.Memory.Caching.Sizes.{get_allocation_size_lem}

get_allocation_size_lem_example :
    (5000000 ≤ get_allocation_size 5000000)
    × (get_allocation_size 5000000 ≤ 5000000 + large_buffer)
    × (small_size < get_allocation_size 5000000)
get_allocation_size_lem_example = get_allocation_size_lem 5000000 (omega arith)

-- A device that gives out addresses one MiB times 32 apart, and never fails.
abbrev bump : ℕ → ℕ → ℕ × Result ℕ
bump size next = (next + 33554432, ok next)

abbrev keep : ℕ → ℕ → ℕ
keep ptr next = next

-- One free block of 2048 bytes in the small pool.
abbrev one_block : Manager ℕ
one_block = record {
  heap = (0, new_block 2048 4096) ∷ [];
  fresh_cell = 1;
  large_blocks = [];
  small_blocks = 0 ∷ [];
  allocated_blocks = [];
  total_native_mallocs = 1;
  total_native_frees = 0;
  allocated_bytes = 2048;
  cached_bytes = 2048;
  recycling_size_limit = 2 ^ 63;
  split_size_limit = 2 ^ 63;
  native = 33554432;
}

-- An allocation that takes the front of the block.
alloc_run : (alloc bump keep false (100 ∷ []) 10 one_block).1 ≡ ok (some 4096)
unfolding alloc obtain obtain_from fit hand_out size_of round_size lower_bound before usable
    remove_cell is_split_worth split_block link_next cache_block pool_insert lookup insert
alloc_run = refl

abbrev rejoined : Manager ℕ
rejoined = (unlock bump keep (some 4096) false (alloc bump keep false (100 ∷ []) 10 one_block).0).0

-- The unlock makes the two parts one block again, in the cell of the front.
unlock_heap_run : rejoined.heap ≡ (1, new_block 2048 4096) ∷ []
unfolding alloc obtain obtain_from fit hand_out size_of round_size lower_bound before usable
    remove_cell is_split_worth split_block link_next cache_block pool_insert lookup insert unlock
    free_block try_merge_blocks absorb bypass link_prev pool_erase erase in_use
unlock_heap_run = refl

unlock_cached_run : rejoined.cached_bytes ≡ 2048
unfolding alloc obtain obtain_from fit hand_out size_of round_size lower_bound before usable
    remove_cell is_split_worth split_block link_next cache_block pool_insert lookup insert unlock
    free_block try_merge_blocks absorb bypass link_prev pool_erase erase in_use
unlock_cached_run = refl
