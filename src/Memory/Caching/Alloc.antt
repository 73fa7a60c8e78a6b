-- ===== src/Memory/Caching/Alloc.antt =====
-- The block that an allocation takes.
use flashlight.Prelude.{ℕ, ◌≤◌, ◌≡◌, Bool, Option, some, Result, ok, throw}
use flashlight.Prelude.Maps.{lookup}
use flashlight.Memory.Caching.{nat_key, usable, Block, Manager, get_allocation_size}
use flashlight.Memory.Caching.Calls.{obtain_from}

module _ {Native : Type 0} (native_alloc : ℕ → Native → Native × Result ℕ)
    (native_free : ℕ → Native → Native) where
  -- A block of the heap with so many bytes at least.
  abbrev pub HasBlock : ℕ → ℕ → Manager Native → Type 0
  HasBlock size id m = (b : Block) × (lookup id m.heap ≡ some b) × (size ≤ b.size)

  -- A run returns a block with so many bytes, or throws what the device throws when it is asked for one.
  abbrev pub Obtains : ℕ → Manager Native × Result ℕ → Type 0
  Obtains size (m, ok id) = HasBlock size id m
  Obtains size (m, throw e) =
      (n : Native) × ((native_alloc (get_allocation_size size) n).1 ≡ throw e)

  -- What follows the search of the pool.
  abbrev searched :
      Bool → ℕ → Manager Native → Result (Option (ℕ × Block)) → Manager Native × Result ℕ
  searched is_small size m (throw e) = (m, throw e)
  searched is_small size m (ok found) =
      obtain_from native_alloc native_free is_small size
        (usable is_small m.recycling_size_limit found) m
