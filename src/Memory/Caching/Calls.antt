-- ===== src/Memory/Caching/Calls.antt =====
-- flashlight/fl/memory/managers/CachingMemoryManager.cpp: the operations. The device beneath is a
-- parameter: `native_alloc` gives an address, or throws, and `native_free` takes one back.
use flashlight.Prelude.{
  ℕ, ◌+◌, ◌*◌, Bool, true, false, not, ◌&&◌, List, [], ◌∷◌, Option, some, none, Result, ok, throw,
  require, runtime_error, undefined_behaviour, ltb, leb, ◌==◌, if◌then◌else◌,
}
use flashlight.Prelude.Maps.{lookup, insert}
use flashlight.Memory.Caching.{
  nat_key, erase, min_block_size, small_size, small_buffer, wrap, minus, round_size,
  get_allocation_size, Block, new_block, is_split, in_use, Manager, lower_bound, pool_insert,
  pool_erase, remove_cell, usable, Run, ◌>>=◌, return,
}

module _ {Native : Type 0} where
  abbrev pub gets : {A : Type 0} → (Manager Native → Result A) → Run Native A
  gets f m = (m, f m)

  abbrev pub modify : (Manager Native → Manager Native) → Run Native (Unit {0})
  modify f m = (f m, ok tt)

  -- `*block`, and an assignment to it.
  abbrev pub read : ℕ → Run Native Block
  read id = gets (λ m. require (lookup id m.heap) undefined_behaviour)

  abbrev pub write : ℕ → Block → Run Native (Unit {0})
  write id b = modify (λ m. record m { heap = insert id b m.heap })

  -- `new Block`
  abbrev pub new_cell : Block → Run Native ℕ
  new_cell b m = (
    record m { heap = insert m.fresh_cell b m.heap; fresh_cell = m.fresh_cell + 1 },
    ok m.fresh_cell,
  )

  -- `memoryInfo.smallBlocks_` or `memoryInfo.largeBlocks_`
  abbrev pub pool : Bool → Manager Native → List ℕ
  pool is_small m = if is_small then m.small_blocks else m.large_blocks

  abbrev pub set_pool : Bool → List ℕ → Run Native (Unit {0})
  set_pool true p = modify (λ m. record m { small_blocks = p })
  set_pool false p = modify (λ m. record m { large_blocks = p })

  abbrev pub count_cached : ℕ → Run Native (Unit {0})
  count_cached n = modify (λ m. record m { cached_bytes = wrap (m.cached_bytes + n) })

  abbrev pub uncount_cached : ℕ → Run Native (Unit {0})
  uncount_cached n = modify (λ m. record m { cached_bytes = minus m.cached_bytes n })

  -- `pool.insert(block)` and its bytes.
  unfoldable pub cache_block : Bool → ℕ → Run Native (Unit {0})
  cache_block is_small id = do
    b ← read id
    p ← gets (λ m. pool_insert m.heap id b (pool is_small m))
    _ ← set_pool is_small p
    count_cached b.size

  module _ (native_alloc : ℕ → Native → Native × Result ℕ) (native_free : ℕ → Native → Native) where
    unfoldable pub free_native : ℕ → Run Native (Unit {0})
    free_native ptr = modify (λ m. record m {
      native = native_free ptr m.native;
      total_native_frees = wrap (m.total_native_frees + 1);
    })

    -- The loop of `freeBlocks` over the blocks of a pool: those that are not split go back to the
    -- device, the others are what is left.
    unfoldable pub free_blocks : List ℕ → Run Native (List ℕ)
    unfolding free_native
    free_blocks [] = return []
    free_blocks (id ∷ ids) = read id >>= λ b. (elim (is_split b) [
      | true ↦ (do rest ← free_blocks ids; return (id ∷ rest))
      | false ↦ (do
        _ ← free_native b.ptr
        _ ← modify (λ m. record m {
          allocated_bytes = minus m.allocated_bytes b.size;
          heap = erase id m.heap;
        })
        _ ← uncount_cached b.size
        free_blocks ids)
    ])

    unfoldable pub signal_memory_cleanup : Run Native (Unit {0})
    unfolding free_blocks
    signal_memory_cleanup = do
      large ← gets (λ m. ok m.large_blocks)
      large' ← free_blocks large
      _ ← set_pool false large'
      small ← gets (λ m. ok m.small_blocks)
      small' ← free_blocks small
      set_pool true small'

    abbrev pub native_malloc : ℕ → Run Native ℕ
    native_malloc size m =
        let (n, r) = native_alloc size m.native in
        (record m { native = n; total_native_mallocs = wrap (m.total_native_mallocs + 1) }, r)

    -- The first failure is answered by a cleanup and one more attempt.
    unfoldable pub malloc_with_retry : ℕ → Run Native ℕ
    unfolding signal_memory_cleanup
    malloc_with_retry size m =
        let (m', r) = native_malloc size m in
        elim r [
          | ok ptr ↦ (m', ok ptr)
          | throw e ↦ (signal_memory_cleanup >>= λ _. native_malloc size) m'
        ]

    -- The block of an allocation: one from the pool, or a new one.
    unfoldable pub obtain_from : Bool → ℕ → Option (ℕ × Block) → Run Native ℕ
    unfolding malloc_with_retry
    obtain_from is_small size (some (id, b)) = do
      p ← gets (λ m. ok (remove_cell id (pool is_small m)))
      _ ← set_pool is_small p
      _ ← uncount_cached b.size
      return id
    obtain_from is_small size none = do
      ptr ← malloc_with_retry (get_allocation_size size)
      id ← new_cell (new_block (get_allocation_size size) ptr)
      _ ←
          modify (λ m. record m {
            allocated_bytes = wrap (m.allocated_bytes + get_allocation_size size);
          })
      return id

    unfoldable pub obtain : Bool → ℕ → Run Native ℕ
    unfolding obtain_from usable
    obtain is_small size = do
      found ← gets (λ m. lower_bound m.heap (new_block size 0) (pool is_small m))
      limit ← gets (λ m. ok m.recycling_size_limit)
      obtain_from is_small size (usable is_small limit found)

    -- `block->prev_->next_ = block`, when there is a previous block.
    unfoldable pub link_next : Option ℕ → ℕ → Run Native (Unit {0})
    link_next none id = return tt
    link_next (some p) id = read p >>= λ b. write p (record b { next = some id })

    unfoldable pub link_prev : Option ℕ → ℕ → Run Native (Unit {0})
    link_prev none id = return tt
    link_prev (some n) id = read n >>= λ b. write n (record b { prev = some id })

    -- The split: the front is a new block, and the rest stays in the old cell, which is cached.
    unfoldable pub split_block : Bool → ℕ → ℕ → Run Native ℕ
    unfolding link_next cache_block
    split_block is_small size remaining = do
      r ← read remaining
      id ← new_cell (record (new_block size r.ptr) { prev = r.prev; next = some remaining })
      _ ← link_next r.prev id
      _ ←
          write remaining
            (record r { prev = some id; ptr = r.ptr + size; size = minus r.size size })
      _ ← cache_block is_small remaining
      return id

    unfoldable pub is_split_worth : Bool → ℕ → ℕ → ℕ → Bool
    is_split_worth is_small block_size size limit =
        leb (if is_small then min_block_size else small_size) (minus block_size size)
        && ltb block_size limit

    unfoldable pub fit : Bool → ℕ → ℕ → Run Native ℕ
    unfolding split_block is_split_worth
    fit is_small size id = do
      b ← read id
      limit ← gets (λ m. ok m.split_size_limit)
      (elim (is_split_worth is_small b.size size limit) [
        | true ↦ split_block is_small size id
        | false ↦ return id
      ])

    unfoldable pub hand_out : Bool → ℕ → Run Native ℕ
    hand_out user_lock id = do
      b ← read id
      _ ← write id (record b { manager_lock = not user_lock; user_lock = user_lock })
      _ ← modify (λ m. record m { allocated_blocks = insert b.ptr id m.allocated_blocks })
      return b.ptr

    unfoldable pub size_of : ℕ → List ℕ → ℕ
    size_of size [] = size
    size_of size (d ∷ dims) = size_of (wrap (size * d)) dims

    -- A null pointer is `none`.
    unfoldable pub alloc : Bool → List ℕ → ℕ → Run Native (Option ℕ)
    unfolding obtain fit hand_out size_of
    alloc user_lock dims element_size =
        let size = size_of element_size dims in
        (elim (size == 0) [
          | true ↦ return none
          | false ↦ (do
            id ← obtain (leb (round_size size) small_size) (round_size size)
            id' ← fit (leb (round_size size) small_size) (round_size size) id
            ptr ← hand_out user_lock id'
            return (some ptr))
        ])

    -- `dst->prev_ == src`
    is_before : ℕ → Block → Bool
    is_before src d = elim d.prev [ none ↦ false | some p ↦ p == src ]

    -- The block takes over the place of its neighbour, which lies before it or after it.
    unfoldable pub bypass : Bool → ℕ → Block → Block → Run Native (Unit {0})
    unfolding link_next link_prev
    bypass true dst d s = do
      _ ← write dst (record d { ptr = s.ptr; prev = s.prev; size = wrap (d.size + s.size) })
      link_next s.prev dst
    bypass false dst d s = do
      _ ← write dst (record d { next = s.next; size = wrap (d.size + s.size) })
      link_prev s.next dst

    -- One of the two neighbours, when it is free, becomes part of the block.
    unfoldable pub absorb : Bool → ℕ → ℕ → Run Native (Unit {0})
    unfolding bypass is_before
    absorb is_small dst src = do
      d ← read dst
      s ← read src
      _ ← bypass (is_before src d) dst d s
      p ← gets (λ m. pool_erase m.heap s (pool is_small m))
      _ ← set_pool is_small p
      _ ← uncount_cached s.size
      modify (λ m. record m { heap = erase src m.heap })

    unfoldable pub try_merge_blocks : Bool → ℕ → Option ℕ → Run Native (Unit {0})
    unfolding absorb
    try_merge_blocks is_small dst none = return tt
    try_merge_blocks is_small dst (some src) =
        read src >>= λ s. (elim (in_use s) [ true ↦ return tt | false ↦ absorb is_small dst src ])

    unfoldable pub free_block : ℕ → Run Native (Unit {0})
    unfolding try_merge_blocks cache_block
    free_block id = read id >>= λ b. (elim (in_use b) [
      | true ↦ gets (λ _. throw runtime_error)
      | false ↦ (do
        _ ← try_merge_blocks (leb b.size small_size) id b.prev
        c ← read id
        _ ← try_merge_blocks (leb b.size small_size) id c.next
        cache_block (leb b.size small_size) id)
    ])

    abbrev pub with_lock : Bool → Block → Block
    with_lock true b = record b { user_lock = false }
    with_lock false b = record b { manager_lock = false }

    unfoldable pub unlock : Option ℕ → Bool → Run Native (Unit {0})
    unfolding free_native free_block
    unlock none user_unlock = return tt
    unlock (some ptr) user_unlock = gets (λ m. ok (lookup ptr m.allocated_blocks)) >>= λ found.
        (elim found [
          | none ↦ free_native ptr
          | some id ↦ (do
            b ← read id
            _ ← write id (with_lock user_unlock b)
            (elim (in_use (with_lock user_unlock b)) [
              | true ↦ return tt
              | false ↦ (do
                _ ← modify (λ m. record m { allocated_blocks = erase ptr m.allocated_blocks })
                free_block id)
            ]))
        ])

    -- A pointer that the manager does not know becomes a block of its own.
    unfoldable pub user_lock : Option ℕ → Run Native (Unit {0})
    user_lock none = return tt
    user_lock (some ptr) = gets (λ m. ok (lookup ptr m.allocated_blocks)) >>= λ found. (elim found [
      | none ↦ (do
        id ← new_cell (record (new_block small_buffer ptr) { user_lock = true })
        modify (λ m. record m { allocated_blocks = insert ptr id m.allocated_blocks }))
      | some id ↦ (do b ← read id; write id (record b { user_lock = true }))
    ])

    abbrev pub user_unlock : Option ℕ → Run Native (Unit {0})
    user_unlock ptr = unlock ptr true

  unfoldable pub allocated : Option ℕ → Run Native ℕ
  allocated none = return 0
  allocated (some ptr) = gets (λ m. ok (lookup ptr m.allocated_blocks)) >>= λ found. (elim found [
    | none ↦ return 0
    | some id ↦ (do b ← read id; return b.size)
  ])

  unfoldable pub is_user_locked : Option ℕ → Run Native Bool
  is_user_locked none = return false
  is_user_locked (some ptr) = gets (λ m. ok (lookup ptr m.allocated_blocks)) >>= λ found.
      (elim found [ none ↦ return false | some id ↦ (do b ← read id; return b.user_lock) ])

  abbrev pub set_recycling_size_limit : ℕ → Run Native (Unit {0})
  set_recycling_size_limit limit = modify (λ m. record m { recycling_size_limit = limit })

  abbrev pub set_split_size_limit : ℕ → Run Native (Unit {0})
  set_split_size_limit limit = modify (λ m. record m { split_size_limit = limit })
