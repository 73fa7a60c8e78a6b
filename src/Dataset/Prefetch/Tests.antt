-- ===== src/Dataset/Prefetch/Tests.antt =====
-- The theorem on prefetching at a concrete input.
use flashlight.Prelude.{ℕ, ◌+◌, ◌≡◌, refl, [], ◌∷◌, ok, ◌>>=◌, map, arith}
use flashlight.Prelude.Int.{pos, negsuc}
use flashlight.Dataset.{Dataset, check_index_bounds, check_index_bounds_of_lt}
use flashlight.Dataset.Prefetch.{PrefetchDataset, init, sizes_checked, get_all}
use flashlight.Dataset.Prefetch.Transparent.{get_all-init}

-- A dataset of three samples.
abbrev three : Dataset ℕ
three = record { size = 3; get = λ i. check_index_bounds i 3 >>= λ j. ok (10 + j) }

-- Over it, two threads and two samples ahead.
abbrev two_ahead : PrefetchDataset ℕ
two_ahead = record {
  dataset = three;
  num_threads = 2;
  prefetch_size = 2;
  prefetch_cache = [];
  cur_idx = negsuc 0;
}

get_all-init_example :
    get_all two_ahead (pos 1 ∷ pos 2 ∷ pos 0 ∷ pos 3 ∷ [])
    ≡ map
        (λ idx. check_index_bounds idx 3 >>= λ i. three.get (pos i))
        (pos 1 ∷ pos 2 ∷ pos 0 ∷ pos 3 ∷ [])
unfolding init sizes_checked
get_all-init_example =
    get_all-init three (pos 2) (pos 2) two_ahead (pos 1 ∷ pos 2 ∷ pos 0 ∷ pos 3 ∷ [])
      (λ i h. (10 + i, ground (arith, check_index_bounds_of_lt i 3 h))) refl
