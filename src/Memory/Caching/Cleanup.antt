-- ===== src/Memory/Caching/Cleanup.antt =====
-- The cleanup of the pools, and the native allocation that it is for.
use flashlight.Prelude.{
  ℕ, ◌+◌, ◌≡◌, refl, sym, ◌∙◌, ap, Bool, true, false, List, [], ◌∷◌, ◌++◌, Option, some, none,
  Result, ok, throw, ◌==◌, arith, Bool-cases, inl, inr, append-nil, require, undefined_behaviour,
}
use mathlib.Core.Path.{subst}
use flashlight.Prelude.Maps.{Map, lookup}
use flashlight.Memory.Caching.{
  nat_key, erase, wrap, minus, Block, is_split, before, lower_bound, Manager, Run, ◌>>=◌, return,
}
use flashlight.Memory.Caching.Calls.{
  read, modify, gets, set_pool, uncount_cached, free_native, free_blocks, signal_memory_cleanup,
  malloc_with_retry, pool, native_malloc,
}

abbrev IsApart : ℕ → List ℕ → Type 0
IsApart id [] = Unit
IsApart id (j ∷ ids) = ((id == j) ≡ false) × IsApart id ids

-- Blocks that are in the heap, each named once.
unfoldable pub IsLive : Map ℕ Block → List ℕ → Type 0
IsLive heap [] = Unit
IsLive heap (id ∷ ids) =
    ((b : Block) × (lookup id heap ≡ some b)) × IsApart id ids × IsLive heap ids

lookup-erase :
    (id j : ℕ) (heap : Map ℕ Block) → (id == j) ≡ false → lookup j (erase id heap) ≡ lookup j heap
unfolding lookup erase
lookup-erase id j [] h = refl
lookup-erase id j ((i, b) ∷ heap) h = elim (Bool-cases (i == id)) [
  | inl it ↦ let other : (i == j) ≡ false = ground arith in rw (it, other, lookup) refl
  | inr e ↦ (elim (Bool-cases (i == j)) [
    | inl here ↦ rw (e, here, lookup) refl
    | inr past ↦ rw (e, past, lookup) (lookup-erase id j heap h)
  ])
]

erase-IsLive :
    (id : ℕ) (ids : List ℕ) (heap : Map ℕ Block)
    → IsApart id ids
    → IsLive heap ids
    → IsLive (erase id heap) ids
unfolding IsLive
erase-IsLive id [] heap apart live = tt
erase-IsLive id (j ∷ ids) heap (other, apart) ((b, there), apart_j, live) =
    ((b, lookup-erase id j heap other ∙ there), apart_j, erase-IsLive id ids heap apart live)

IsApart-left : (id : ℕ) (xs ys : List ℕ) → IsApart id (xs ++ ys) → IsApart id xs
IsApart-left id [] ys apart = tt
IsApart-left id (x ∷ xs) ys (other, apart) = (other, IsApart-left id xs ys apart)

IsLive-left : (heap : Map ℕ Block) (xs ys : List ℕ) → IsLive heap (xs ++ ys) → IsLive heap xs
unfolding IsLive
IsLive-left heap [] ys live = tt
IsLive-left heap (x ∷ xs) ys (there, apart, live) =
    (there, IsApart-left x xs ys apart, IsLive-left heap xs ys live)

IsLive-right : (heap : Map ℕ Block) (xs ys : List ℕ) → IsLive heap (xs ++ ys) → IsLive heap ys
unfolding IsLive
IsLive-right heap [] ys live = live
IsLive-right heap (x ∷ xs) ys (_, _, live) = IsLive-right heap xs ys live

pub lower_bound-IsLive :
    (heap : Map ℕ Block) (key : Block) (ids : List ℕ)
    → IsLive heap ids
    → (found : Option (ℕ × Block)) × (lower_bound heap key ids ≡ ok found)
unfolding lower_bound IsLive
lower_bound-IsLive heap key [] live = (none, refl)
lower_bound-IsLive heap key (id ∷ ids) ((b, there), _, live) = elim (Bool-cases (before b key)) [
  | inl earlier ↦
      let (found, run) = lower_bound-IsLive heap key ids live in
      (found, rw (there, lower_bound, earlier) run)
  | inr here ↦ (some (id, b), rw (there, lower_bound, here) refl)
]

module _ {Native : Type 0} (native_alloc : ℕ → Native → Native × Result ℕ)
    (native_free : ℕ → Native → Native) where
  -- The blocks of both pools are in the heap, and none is in a pool twice or in both.
  abbrev pub HasLivePools : Manager Native → Type 0
  HasLivePools m = IsLive m.heap (m.large_blocks ++ m.small_blocks)

  pub pool-IsLive :
      (is_small : Bool) (m : Manager Native) → HasLivePools m → IsLive m.heap (pool is_small m)
  pool-IsLive true m live = IsLive-right m.heap m.large_blocks m.small_blocks live
  pool-IsLive false m live = IsLive-left m.heap m.large_blocks m.small_blocks live

  -- The manager after a block has gone back to the device.
  abbrev given_back : ℕ → Block → Manager Native → Manager Native
  given_back id b m = record m {
    native = native_free b.ptr m.native;
    total_native_frees = wrap (m.total_native_frees + 1);
    allocated_bytes = minus m.allocated_bytes b.size;
    heap = erase id m.heap;
    cached_bytes = minus m.cached_bytes b.size;
  }

  bind-ok :
      {A B : Type 0} (run : Run Native A) (rest : A → Run Native B) (m m' : Manager Native) (a : A)
      → run m ≡ (m', ok a)
      → (run >>= rest) m ≡ rest a m'
  bind-ok {A = A} {B = B} run rest m m' a e = ap continue e
    where
      continue : Manager Native × Result A → Manager Native × Result B
      continue (m', ok a) = rest a m'
      continue (m', throw e) = (m', throw e)

  read-there :
      (id : ℕ) (b : Block) (m : Manager Native) → lookup id m.heap ≡ some b → read id m ≡ (m, ok b)
  read-there id b m there = ap (λ o. (m, require o undefined_behaviour)) there

  -- The rest of a round of `freeBlocks` when its block has been read.
  abbrev after_read : ℕ → List ℕ → Block → Run Native (List ℕ)
  after_read id ids b = elim (is_split b) [
    | true ↦ (do rest ← free_blocks native_alloc native_free ids; return (id ∷ rest))
    | false ↦ (do
      _ ← free_native native_alloc native_free b.ptr
      _ ← modify (λ m. record m {
        allocated_bytes = minus m.allocated_bytes b.size;
        heap = erase id m.heap;
      })
      _ ← uncount_cached b.size
      free_blocks native_alloc native_free ids)
  ]

  free_blocks-total :
      (ids others : List ℕ) (m : Manager Native)
      → IsLive m.heap (ids ++ others)
      → (m' : Manager Native) × (rest : List ℕ) × (free_blocks native_alloc native_free ids m
          ≡ (m', ok rest))
        × IsLive m'.heap others
        × (m'.small_blocks ≡ m.small_blocks)
  unfolding free_blocks free_native IsLive
  free_blocks-total [] others m live = (m, [], refl, live, refl)
  free_blocks-total (id ∷ ids) others m ((b, there), apart, live) = elim (Bool-cases (is_split b)) [
    | inl split ↦
        let (m', rest, run, live', same) = free_blocks-total ids others m live in
        (
          m',
          id ∷ rest,
          bind-ok (read id) (after_read id ids) m m b (read-there id b m there)
              ∙ rw (split, after_read)
                  (bind-ok (free_blocks native_alloc native_free ids) (λ rest. return (id ∷ rest)) m
                    m' rest run),
          live',
          same,
        )
    | inr whole ↦
        let (m', rest, run, live', same) =
          free_blocks-total ids others (given_back id b m)
            (erase-IsLive id (ids ++ others) m.heap apart live) in
        (
          m',
          rest,
          bind-ok (read id) (after_read id ids) m m b (read-there id b m there)
              ∙ rw (whole, after_read) run,
          live',
          same,
        )
  ]

  signal_memory_cleanup-total :
      (m : Manager Native)
      → HasLivePools m
      → (m' : Manager Native) × (signal_memory_cleanup native_alloc native_free m ≡ (m', ok tt))
  unfolding signal_memory_cleanup
  signal_memory_cleanup-total m live =
      let (m₁, large, run₁, live₁, same) = free_blocks-total m.large_blocks m.small_blocks m live in
      let small_live : IsLive m₁.heap (m₁.small_blocks ++ []) =
        rw (same, append-nil m.small_blocks) live₁ in
      let (m₂, small, run₂, _, _) =
        free_blocks-total m₁.small_blocks [] (record m₁ { large_blocks = large }) small_live in
      (
        record m₂ { small_blocks = small },
        bind-ok (free_blocks native_alloc native_free m.large_blocks)
              (λ large'. (do
                _ ← set_pool false large'
                small ← gets (λ m. ok m.small_blocks)
                small' ← free_blocks native_alloc native_free small
                set_pool true small'))
              m m₁ large run₁
            ∙ bind-ok (free_blocks native_alloc native_free m₁.small_blocks)
                (λ small'. set_pool true small') (record m₁ { large_blocks = large }) m₂ small run₂,
      )

  -- What comes out of an allocation by the device is an address, or what the device has thrown.
  abbrev pub ComesFromDevice : ℕ → Result ℕ → Type 0
  ComesFromDevice size (ok ptr) = Unit
  ComesFromDevice size (throw e) = (n : Native) × ((native_alloc size n).1 ≡ throw e)

  native_malloc-ComesFromDevice :
      (size : ℕ) (n : Native) (r : Result ℕ) → (native_alloc size n).1 ≡ r → ComesFromDevice size r
  native_malloc-ComesFromDevice size n (ok ptr) e = tt
  native_malloc-ComesFromDevice size n (throw _) e = (n, e)

  -- What follows the first attempt.
  abbrev retry : ℕ → Manager Native → Result ℕ → Manager Native × Result ℕ
  retry size m (ok ptr) = (m, ok ptr)
  retry size m (throw e) =
      (signal_memory_cleanup native_alloc native_free >>= λ _.
      native_malloc native_alloc native_free size)
        m

  attempts :
      (size : ℕ) (m m' : Manager Native) (r : Result ℕ)
      → signal_memory_cleanup native_alloc native_free m ≡ (m', ok tt)
      → ComesFromDevice size (retry size m r).1
  attempts size m m' (ok ptr) cleaned = tt
  attempts size m m' (throw e) cleaned =
      subst (λ p. ComesFromDevice size p.1)
        (sym (
          bind-ok (signal_memory_cleanup native_alloc native_free)
            (λ _. native_malloc native_alloc native_free size) m m' tt cleaned))
        (native_malloc-ComesFromDevice size m'.native (native_alloc size m'.native).1 refl)

  pub malloc_with_retry-ComesFromDevice :
      (size : ℕ) (m : Manager Native)
      → HasLivePools m
      → ComesFromDevice size (malloc_with_retry native_alloc native_free size m).1
  unfolding malloc_with_retry
  malloc_with_retry-ComesFromDevice size m live =
      let m₁ : Manager Native = record m {
        native = (native_alloc size m.native).0;
        total_native_mallocs = wrap (m.total_native_mallocs + 1);
      } in
      let (m₂, cleaned) = signal_memory_cleanup-total m₁ live in
      attempts size m₁ m₂ (native_alloc size m.native).1 cleaned
