-- ===== src/Dataset/Prefetch/Transparent.antt =====
-- Prefetching gives what the dataset gives.
use flashlight.Prelude.{
  ℕ, zero, suc, ◌+◌, ◌-◌, ◌≤◌, ◌<◌, ◌≡◌, ◌⊎◌, inl, inr, refl, ap, ap₂, ◌∙◌, List, [], ◌∷◌, ◌++◌,
  map, some, Result, ok, ◌>>=◌, length, ltb, ◌==◌, Bool-cases, Result-cases, arith,
}
use flashlight.Prelude.Int.{ℤ, pos, negsuc}
use flashlight.Dataset.{Dataset, check_index_bounds}
use flashlight.Dataset.Prefetch.{
  PrefetchDataset, Future, init, sizes_checked, drop_until, fill, take_front, fetch, get, get_all,
}

module _ {ℓ} {S : Type ℓ} where
  -- The futures of `n` samples from an index on.
  abbrev futures : Dataset S → ℕ → ℕ → List (Future S)
  futures d c zero = []
  futures d c (suc n) = some (d.get (pos c)) ∷ futures d (c + 1) n

  length-futures : (d : Dataset S) (c n : ℕ) → length (futures d c n) ≡ n
  length-futures d c zero = refl
  length-futures d c (suc n) = omega (arith, length-futures d (c + 1) n)

  futures-suc :
      (d : Dataset S) (c n : ℕ)
      → futures d c n ++ (some (d.get (pos (c + n))) ∷ []) ≡ futures d c (suc n)
  futures-suc d c zero = let e : c + 0 ≡ c = omega arith in rw e
  futures-suc d c (suc n) =
      let e : c + suc n ≡ c + 1 + n = omega arith in
      rw e (ap (◌∷◌ (some (d.get (pos c)))) (futures-suc d (c + 1) n))

  -- The cache is empty, or holds unread futures from the current index on.
  abbrev IsFresh : PrefetchDataset S → Type ℓ
  IsFresh p =
      (p.prefetch_cache ≡ [])
      ⊎ ((c : ℕ) × (n : ℕ) × (p.prefetch_cache ≡ futures p.dataset c n)
          × (p.cur_idx ≡ pos c)
          × (c + n ≤ p.dataset.size))

  drop_until-futures :
      (d : Dataset S) (idx c n : ℕ)
      → c + n ≤ d.size
      → (m : ℕ) × (cur : ℤ) × (drop_until (pos idx) (futures d c n) (pos c)
          ≡ (futures d idx m, cur))
        × (idx < d.size → idx + m ≤ d.size)
  unfolding drop_until
  drop_until-futures d idx c zero h = (0, pos c, refl, λ lt. omega arith)
  drop_until-futures d idx c (suc n) h = elim (Bool-cases (idx == c)) [
    | inl here ↦
        let e : idx ≡ c = ground arith in
        (suc n, pos c, rw (here, drop_until, e), λ lt. omega arith)
    | inr later ↦
        let (m, cur, run, fits) = drop_until-futures d idx (c + 1) n (omega arith) in
        (m, cur, rw (later, drop_until) run, fits)
  ]

  fill-futures :
      (d : Dataset S) (idx room m : ℕ)
      → idx + m ≤ d.size
      → (k : ℕ) × (fill d idx room (futures d idx m) ≡ futures d idx k)
        × (idx + k ≤ d.size)
        × (m ≤ k)
        × (0 < room → idx + m < d.size → m < k)
  unfolding fill
  fill-futures d idx zero m h = (m, refl, h, omega arith, λ lt _. elim lt [ ])
  fill-futures d idx (suc room) m h = elim (Bool-cases (ltb (idx + m) d.size)) [
    | inr full ↦ (m, rw (length-futures d idx m, full, fill), h, omega arith, λ _ lt. ground arith)
    | inl more ↦
        let (k, run, fits, le, _) = fill-futures d idx room (suc m) (ground arith) in
        (
          k,
          rw (length-futures d idx m, more, fill)
              (ap (fill d idx room) (
                  ap (λ l. futures d idx m ++ (some (d.get (pos (idx + l))) ∷ []))
                    (length-futures d idx m)
                  ∙ futures-suc d idx m)
                ∙ run),
          fits,
          omega arith,
          λ _ _. omega arith,
        )
  ]

  -- The read of a sample inside when the cache is fresh: the dataset's result comes out, and after a
  -- sample the cache is fresh again.
  Serves : PrefetchDataset S → ℕ → PrefetchDataset S × Result S → Type ℓ
  Serves p idx (p', result) =
      (result ≡ p.dataset.get (pos idx))
      × ((s : S)
          → result ≡ ok s
          → IsFresh p'
            × (p'.dataset ≡ p.dataset)
            × (p'.num_threads ≡ p.num_threads)
            × (p'.prefetch_size ≡ p.prefetch_size))

  take_front-Serves :
      (p : PrefetchDataset S) (idx k : ℕ) (cur : ℤ)
      → idx + suc k ≤ p.dataset.size
      → Serves p idx (take_front p (pos idx) (futures p.dataset idx (suc k)) cur)
  unfolding Serves take_front
  take_front-Serves p idx k cur fits = elim (Result-cases (p.dataset.get (pos idx))) [
    | inr (e, thrown) ↦ rw (thrown, take_front) (refl, λ s h. absurd (ground arith))
    | inl (s, given) ↦
        rw (given, take_front)
          (refl, λ t h. (inr (idx + 1, k, refl, refl, omega arith), refl, refl, refl))
  ]

  dropped :
      (p : PrefetchDataset S) (idx : ℕ)
      → IsFresh p
      → idx < p.dataset.size
      → (m : ℕ) × (cur : ℤ) × (drop_until (pos idx) p.prefetch_cache p.cur_idx
          ≡ (futures p.dataset idx m, cur))
        × (idx + m ≤ p.dataset.size)
  unfolding drop_until
  dropped p idx (inl e) h = (0, p.cur_idx, rw e, omega arith)
  dropped p idx (inr (c, n, e, at_c, fits)) h =
      let (m, cur, run, inside) = drop_until-futures p.dataset idx c n fits in
      (m, cur, rw (e, at_c) run, inside h)

  fetch-Serves :
      (p : PrefetchDataset S) (idx : ℕ)
      → 0 < p.prefetch_size
      → IsFresh p
      → idx < p.dataset.size
      → Serves p idx (fetch p idx)
  unfolding fetch
  fetch-Serves p idx ahead fresh inside =
      let (m, cur, run, fits) = dropped p idx fresh inside in
      let (k, filled, fits', le, grows) = fill-futures p.dataset idx (p.prefetch_size - m) m fits in
      rw (run, length-futures p.dataset idx m, filled) (front k cur fits' (nonempty m k le grows))
    where
      nonempty :
          (m k : ℕ) → m ≤ k → (0 < p.prefetch_size - m → idx + m < p.dataset.size → m < k) → 0 < k
      nonempty zero k le grows = omega (arith, grows (omega arith) (omega arith))
      nonempty (suc m) k le grows = omega arith

      front :
          (k : ℕ) (cur : ℤ)
          → idx + k ≤ p.dataset.size
          → 0 < k
          → Serves p idx (take_front p (pos idx) (futures p.dataset idx k) cur)
      front zero cur fits some_left = elim some_left [ ]
      front (suc k) cur fits some_left = take_front-Serves p idx k cur fits

  -- A call with any index.
  Answers : PrefetchDataset S → ℤ → PrefetchDataset S × Result S → Type ℓ
  Answers p idx (p', result) =
      (result ≡ (check_index_bounds idx p.dataset.size >>= λ i. p.dataset.get (pos i)))
      × IsFresh p'
      × (p'.dataset ≡ p.dataset)
      × (p'.num_threads ≡ p.num_threads)
      × (p'.prefetch_size ≡ p.prefetch_size)

  -- No sample of the dataset throws.
  abbrev pub IsTotal : Dataset S → Type ℓ
  IsTotal d = (i : ℕ) → i < d.size → (s : S) × (d.get (pos i) ≡ ok s)

  -- With threads there is room ahead.
  abbrev HasRoom : PrefetchDataset S → Type 0
  HasRoom p = 0 < p.num_threads → 0 < p.prefetch_size

  get-Answers :
      (p : PrefetchDataset S) (idx : ℤ)
      → IsTotal p.dataset
      → HasRoom p
      → IsFresh p
      → Answers p idx (get p idx)
  unfolding get Answers Serves
  get-Answers p (negsuc i) total room fresh = (refl, fresh, refl, refl, refl)
  get-Answers p (pos i) total room fresh = elim (Bool-cases (ltb i p.dataset.size)) [
    | inr outside ↦ rw (outside, get) (refl, fresh, refl, refl, refl)
    | inl inside ↦ elim (Bool-cases (p.num_threads == 0)) [
      | inl none_of_them ↦ rw (inside, get, none_of_them) (refl, fresh, refl, refl, refl)
      | inr threads ↦
          let (s, given) = total i (ground arith) in
          let (same, after) = fetch-Serves p i (room (ground arith)) fresh (ground arith) in
          let (again, same_d, same_t, same_p) = after s (same ∙ given) in
          rw (inside, get, threads) (same, again, same_d, same_t, same_p)
    ]
  ]

  get_all-IsFresh :
      (p : PrefetchDataset S) (d : Dataset S) (indices : List ℤ)
      → p.dataset ≡ d
      → IsTotal d
      → HasRoom p
      → IsFresh p
      → get_all p indices
        ≡ map (λ idx. check_index_bounds idx d.size >>= λ i. d.get (pos i)) indices
  unfolding get_all Answers
  get_all-IsFresh p d [] same total room fresh = refl
  get_all-IsFresh p d (idx ∷ indices) same total room fresh =
      let (here, again, same_d, same_t, same_p) = get-Answers p idx (rw same total) room fresh in
      ap₂ ◌∷◌ (here ∙ ap (λ d. check_index_bounds idx d.size >>= λ i. d.get (pos i)) same) (
        get_all-IsFresh (get p idx).0 d indices (same_d ∙ same) total
          (λ h. rw same_p (room (rw same_t at h))) again)

  init-IsFresh :
      (d : Dataset S) (num_threads prefetch_size : ℤ) (p : PrefetchDataset S)
      → init (some d) num_threads prefetch_size ≡ ok p
      → (p.prefetch_cache ≡ []) × (p.dataset ≡ d) × HasRoom p
  unfolding init sizes_checked
  init-IsFresh d (pos zero) (pos zero) p h = (
    ground arith,
    ground arith,
    λ lt. let none_of_them : p.num_threads ≡ 0 = ground arith in absurd (omega arith),
  )
  init-IsFresh d (pos (suc n)) (pos (suc m)) p h = (
    ground arith,
    ground arith,
    λ lt. let some_ahead : p.prefetch_size ≡ suc m = ground arith in omega arith,
  )
  init-IsFresh d (pos zero) (pos (suc m)) p h = absurd (ground arith)
  init-IsFresh d (pos (suc n)) (pos zero) p h = absurd (ground arith)
  init-IsFresh d (pos n) (negsuc m) p h = absurd (ground arith)
  init-IsFresh d (negsuc n) prefetch_size p h = absurd (ground arith)

  -- Whatever threads and room a PrefetchDataset is made with, over a dataset that throws at none of its
  -- indices any sequence of calls with any indices gives what the dataset gives, and the exception for
  -- an index outside.
  pub get_all-init :
      (d : Dataset S) (num_threads prefetch_size : ℤ) (p : PrefetchDataset S) (indices : List ℤ)
      → IsTotal d
      → init (some d) num_threads prefetch_size ≡ ok p
      → get_all p indices
        ≡ map (λ idx. check_index_bounds idx d.size >>= λ i. d.get (pos i)) indices
  get_all-init d num_threads prefetch_size p indices total made =
      let (no_cache, same, room) = init-IsFresh d num_threads prefetch_size p made in
      get_all-IsFresh p d indices same total room (inl no_cache)
