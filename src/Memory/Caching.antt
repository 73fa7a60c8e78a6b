-- ===== src/Memory/Caching.antt =====
-- flashlight/fl/memory/managers/CachingMemoryManager.{h,cpp}: the blocks of one device. A block is a
-- cell of a heap, so that the pools, the map of allocated blocks and the neighbours share it. Every
-- operation holds the mutex of the device throughout, so operations come one after the other.
pub mod Sizes
pub mod Calls
pub mod Cleanup
pub mod Alloc
use flashlight.Prelude.{
  ℕ, zero, suc, ◌+◌, ◌-◌, ◌*◌, ◌/◌, ◌%◌, ◌^◌, ◌≡◌, ◌↔◌, Bool, true, false, not, ◌&&◌, ◌||◌, List,
  [], ◌∷◌, Option, some, none, Result, ok, throw, Error, require, runtime_error,
  undefined_behaviour, ltb, leb, ◌==◌, if◌then◌else◌, arith,
}
use flashlight.Prelude.Maps.{Key, Map, lookup, insert}

pub same_nat : (a b : ℕ) → ((a == b) ≡ true) ↔ (a ≡ b)
same_nat a b = ground arith

instance abbrev pub nat_key : Key ℕ
nat_key = record { same = λ a b. a == b; same_iff = same_nat }

-- `erase` of a key.
unfoldable pub erase {ℓ} : {V : Type ℓ} → ℕ → Map ℕ V → Map ℕ V
erase k [] = []
erase k ((j, v) ∷ m) = if j == k then m else (j, v) ∷ erase k m

-- `kMinBlockSize`, `kSmallSize`, `kSmallBuffer`, `kLargeBuffer`, `kMinLargeAlloc`, `kRoundLarge`
abbrev pub min_block_size : ℕ
min_block_size = 512

abbrev pub small_size : ℕ
small_size = 1048576

abbrev pub small_buffer : ℕ
small_buffer = 2097152

abbrev pub large_buffer : ℕ
large_buffer = 20971520

abbrev pub min_large_alloc : ℕ
min_large_alloc = 10485760

abbrev pub round_large : ℕ
round_large = 2097152

-- A `size_t` has 64 bits, and a difference wraps below 0.
abbrev pub wrap : ℕ → ℕ
wrap n = n % 2 ^ 64

abbrev pub minus : ℕ → ℕ → ℕ
minus a b = wrap (a + (2 ^ 64 - b))

unfoldable pub round_size : ℕ → ℕ
round_size size =
    if ltb size min_block_size
    then min_block_size
    else wrap (min_block_size * (wrap (size + min_block_size - 1) / min_block_size))

unfoldable pub get_allocation_size : ℕ → ℕ
get_allocation_size size =
    if leb size small_size
    then small_buffer
    else if ltb size min_large_alloc
    then large_buffer
    else wrap (round_large * (wrap (size + round_large - 1) / round_large))

-- An address is a number, and a neighbour is the name of a cell.
pub record Block : Type 0 where
  pub size : ℕ
  pub ptr : ℕ
  pub manager_lock : Bool
  pub user_lock : Bool
  pub prev : Option ℕ
  pub next : Option ℕ

abbrev pub new_block : ℕ → ℕ → Block
new_block size ptr = record {
  size = size;
  ptr = ptr;
  manager_lock = false;
  user_lock = false;
  prev = none;
  next = none;
}

is_null : Option ℕ → Bool
is_null none = true
is_null (some _) = false

unfoldable pub is_split : Block → Bool
unfolding is_null
is_split b = not (is_null b.prev) || not (is_null b.next)

unfoldable pub in_use : Block → Bool
in_use b = b.manager_lock || b.user_lock

-- `BlockComparator`
unfoldable pub before : Block → Block → Bool
before a b = if a.size == b.size then ltb a.ptr b.ptr else ltb a.size b.size

-- `native` is the state of the device beneath.
pub record Manager (Native : Type 0) : Type 0 where
  pub heap : Map ℕ Block
  pub fresh_cell : ℕ
  pub large_blocks : List ℕ
  pub small_blocks : List ℕ
  pub allocated_blocks : Map ℕ ℕ
  pub total_native_mallocs : ℕ
  pub total_native_frees : ℕ
  pub allocated_bytes : ℕ
  pub cached_bytes : ℕ
  pub recycling_size_limit : ℕ
  pub split_size_limit : ℕ
  pub native : Native

-- A set of blocks: the names of cells, in the order of the comparator.
-- `lower_bound`: the first block that is not before the key.
unfoldable pub lower_bound : Map ℕ Block → Block → List ℕ → Result (Option (ℕ × Block))
unfolding before
lower_bound heap key [] = ok none
lower_bound heap key (id ∷ pool) = elim (lookup id heap) [
  | none ↦ throw undefined_behaviour
  | some b ↦ (elim (before b key) [ true ↦ lower_bound heap key pool | false ↦ ok (some (id, b)) ])
]

-- `insert`; a block that neither comes before another nor after it is not taken in.
unfoldable pub pool_insert : Map ℕ Block → ℕ → Block → List ℕ → Result (List ℕ)
unfolding before
pool_insert heap id b [] = ok (id ∷ [])
pool_insert heap id b (j ∷ pool) = elim (lookup j heap) [
  | none ↦ throw undefined_behaviour
  | some c ↦ (elim (before c b) [
    | true ↦ (elim (pool_insert heap id b pool) [ ok rest ↦ ok (j ∷ rest) | throw e ↦ throw e ])
    | false ↦ ok (if before b c then id ∷ j ∷ pool else j ∷ pool)
  ])
]

-- `erase` of a block: the one that neither comes before it nor after it.
unfoldable pub pool_erase : Map ℕ Block → Block → List ℕ → Result (List ℕ)
unfolding before
pool_erase heap b [] = ok []
pool_erase heap b (j ∷ pool) = elim (lookup j heap) [
  | none ↦ throw undefined_behaviour
  | some c ↦ (elim (before c b || before b c) [
    | true ↦ (elim (pool_erase heap b pool) [ ok rest ↦ ok (j ∷ rest) | throw e ↦ throw e ])
    | false ↦ ok pool
  ])
]

-- `erase` at an iterator.
unfoldable pub remove_cell : ℕ → List ℕ → List ℕ
remove_cell id [] = []
remove_cell id (j ∷ pool) = if j == id then pool else j ∷ remove_cell id pool

-- The block that is found may be used: any for a small size, one below the limit otherwise.
unfoldable pub usable : Bool → ℕ → Option (ℕ × Block) → Option (ℕ × Block)
usable is_small limit none = none
usable is_small limit (some (id, b)) = if is_small || ltb b.size limit then some (id, b) else none

-- What an operation does: the manager that it leaves, also by an exception, and what it returns.
abbrev pub Run : Type 0 → Type 0 → Type 0
Run Native A = Manager Native → Manager Native × Result A

infixl 5 ◌>>=◌
abbrev pub ◌>>=◌ : {Native A B : Type 0} → Run Native A → (A → Run Native B) → Run Native B
(run >>= rest) m = let (m', r) = run m in elim r [ ok a ↦ rest a m' | throw e ↦ (m', throw e) ]

abbrev pub return : {Native A : Type 0} → A → Run Native A
return a m = (m, ok a)
