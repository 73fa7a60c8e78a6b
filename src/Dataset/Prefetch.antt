-- ===== src/Dataset/Prefetch.antt =====
-- flashlight/fl/dataset/PrefetchDataset.{h,cpp}: samples are asked for ahead, in threads of a pool.
-- The dataset's `get` is const, so what a task gives does not depend on when its thread runs it: a
-- future holds the result that the task will have, and is `none` once it has been read.
pub mod Transparent
mod Tests
use flashlight.Prelude.{
  ℕ, zero, suc, ◌+◌, ◌-◌, Bool, true, false, List, [], ◌∷◌, ◌++◌, Option, some, none, Result, ok,
  throw, ◌>>=◌, require, invalid_argument, undefined_behaviour, length, ltb, ◌==◌, if◌then◌else◌,
}
use flashlight.Prelude.Int.{ℤ, pos, negsuc, eqb_ℤ, incr}
use flashlight.Dataset.{Dataset, check_index_bounds}

abbrev pub Future {ℓ} : Type ℓ → Type ℓ
Future S = Option (Result S)

pub record PrefetchDataset {ℓ} (S : Type ℓ) : Type ℓ where
  pub dataset : Dataset S
  pub num_threads : ℕ
  pub prefetch_size : ℕ
  pub prefetch_cache : List (Future S)
  pub cur_idx : ℤ

-- The test of the constructor: both numbers are positive, or both are 0.
unfoldable pub sizes_checked : ℤ → ℤ → Result (ℕ × ℕ)
sizes_checked (pos zero) (pos zero) = ok (0, 0)
sizes_checked (pos (suc n)) (pos (suc m)) = ok (suc n, suc m)
sizes_checked (pos zero) (pos (suc m)) = throw invalid_argument
sizes_checked (pos (suc n)) (pos zero) = throw invalid_argument
sizes_checked (pos n) (negsuc m) = throw invalid_argument
sizes_checked (negsuc n) prefetch_size = throw invalid_argument

module _ {ℓ} {S : Type ℓ} where
  unfoldable pub init : Option (Dataset S) → ℤ → ℤ → Result (PrefetchDataset S)
  unfolding sizes_checked
  init dataset num_threads prefetch_size = do
    d ← require dataset invalid_argument
    (threads, ahead) ← sizes_checked num_threads prefetch_size
    ok (record {
      dataset = d;
      num_threads = threads;
      prefetch_size = ahead;
      prefetch_cache = [];
      cur_idx = negsuc 0;
    })

  -- The loop that removes from the cache: what is left of it, and the index of its front.
  unfoldable pub drop_until : ℤ → List (Future S) → ℤ → List (Future S) × ℤ
  drop_until idx [] cur = ([], cur)
  drop_until idx (f ∷ cache) cur = elim (eqb_ℤ idx cur) [
    | true ↦ (f ∷ cache, cur)
    | false ↦ drop_until idx cache (incr cur)
  ]

  -- The loop that adds to the cache, with room for so many more.
  unfoldable pub fill : Dataset S → ℕ → ℕ → List (Future S) → List (Future S)
  fill d idx zero cache = cache
  fill d idx (suc room) cache = elim (ltb (idx + length cache) d.size) [
    | true ↦ fill d idx room (cache ++ (some (d.get (pos (idx + length cache))) ∷ []))
    | false ↦ cache
  ]

  -- The front of the cache is read. An exception of the task comes out here, before the front is
  -- removed and before the index moves on.
  unfoldable pub take_front :
      PrefetchDataset S → ℤ → List (Future S) → ℤ → PrefetchDataset S × Result S
  take_front p idx [] cur =
      (record p { prefetch_cache = []; cur_idx = cur }, throw undefined_behaviour)
  take_front p idx (none ∷ rest) cur =
      (record p { prefetch_cache = none ∷ rest; cur_idx = cur }, throw undefined_behaviour)
  take_front p idx (some (throw e) ∷ rest) cur =
      (record p { prefetch_cache = none ∷ rest; cur_idx = cur }, throw e)
  take_front p idx (some (ok sample) ∷ rest) cur =
      (record p { prefetch_cache = rest; cur_idx = incr idx }, ok sample)

  unfoldable pub fetch : PrefetchDataset S → ℕ → PrefetchDataset S × Result S
  unfolding drop_until fill take_front
  fetch p idx =
      let (cache, cur) = drop_until (pos idx) p.prefetch_cache p.cur_idx in
      take_front p (pos idx) (fill p.dataset idx (p.prefetch_size - length cache) cache) cur

  unfoldable pub get : PrefetchDataset S → ℤ → PrefetchDataset S × Result S
  unfolding fetch
  get p idx = elim (check_index_bounds idx p.dataset.size) [
    | throw e ↦ (p, throw e)
    | ok i ↦ (elim (p.num_threads == 0) [ true ↦ (p, p.dataset.get (pos i)) | false ↦ fetch p i ])
  ]

  -- A history of calls, and what each of them gives.
  unfoldable pub get_all : PrefetchDataset S → List ℤ → List (Result S)
  unfolding get
  get_all p [] = []
  get_all p (idx ∷ indices) = let (p', sample) = get p idx in sample ∷ get_all p' indices
