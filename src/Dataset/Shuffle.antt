-- ===== src/Dataset/Shuffle.antt =====
-- flashlight/fl/dataset/ShuffleDataset.{h,cpp}: a dataset read in a random order.
-- The random engine and `std::uniform_int_distribution` are parameters: `draw g i` is the number
-- that the distribution gives for the range [0, i], and the engine after it.
use mathlib.Core.List.Perm
use mathlib.Core.List.{map-map}
use mathlib.Core.Path.{subst}
use flashlight.Prelude.{
  ℕ, zero, suc, ◌-◌, ◌≤◌, ◌≡◌, refl, ◌∙◌, List, [], ◌∷◌, map, Option, some, Result, ok, ◌>>=◌, at,
  set, length, length-set, arith, range_from, length-map, length-range_from, get_elem?_of_lt,
}
use flashlight.Prelude.Int.{ℤ, pos}
use flashlight.Prelude.Perms.{Perm, exchange-perm, length-perm}
use flashlight.Dataset.{Dataset, elements}
use flashlight.Dataset.Resample
use flashlight.Dataset.Resample.{ResampleDataset, iota, elements-map}

-- `std::swap(v[i], v[j])`
swap : List ℤ → ℕ → ℕ → Result (List ℤ)
swap v i j = do a ← at v i; b ← at v j; ok (set (set v i b) j a)

pub record ShuffleDataset {ℓ} (S : Type ℓ) (Rng : Type 0) : Type ℓ where
  pub base : ResampleDataset S
  pub rng : Rng

pub data Call : Type 0 where
  resamples : Call
  seeds : ℤ → Call

module _ {Rng : Type 0} (seed_rng : ℤ → Rng) (draw : Rng → ℕ → ℕ × Rng) where
  -- The loop of `resample` with `i` rounds left, which is also the index that it exchanges.
  shuffle_loop : ℕ → Rng → List ℤ → Result (List ℤ × Rng)
  shuffle_loop zero g v = ok (v, g)
  shuffle_loop (suc i) g v = let (j, g') = draw g (suc i) in swap v (suc i) j >>= shuffle_loop i g'

  module _ {ℓ} {S : Type ℓ} where
    -- The indices are set in order first, whatever they were.
    pub resample : ShuffleDataset S Rng → Result (ShuffleDataset S Rng)
    unfolding shuffle_loop
    resample s = do
      let n = length s.base.resample_vec
      (v, g) ← shuffle_loop (n - 1) s.rng (iota n)
      ok (record { base = record (s.base) { resample_vec = v }; rng = g })

    pub set_seed : ShuffleDataset S Rng → ℤ → ShuffleDataset S Rng
    set_seed s seed = record s { rng = seed_rng seed }

    pub init : Option (Dataset S) → ℤ → Result (ShuffleDataset S Rng)
    init dataset seed = do
      r ← Resample.init dataset
      resample (record { base = r; rng = seed_rng seed })

  module _ {ℓ} {S : Type ℓ} where
    -- A history of an object: calls of `resample` and of `setSeed`.
    pub run : ShuffleDataset S Rng → List Call → Result (ShuffleDataset S Rng)
    run s [] = ok s
    run s (resamples ∷ calls) = resample s >>= λ t. run t calls
    run s (seeds seed ∷ calls) = run (set_seed s seed) calls

    -- After a seed the order depends on the seed and the number of indices, and on nothing else.
    pub resample-set_seed :
        (s t : ShuffleDataset S Rng) (seed : ℤ)
        → length s.base.resample_vec ≡ length t.base.resample_vec
        → (resample (set_seed s seed) >>= λ u. ok u.base.resample_vec)
          ≡ (resample (set_seed t seed) >>= λ u. ok u.base.resample_vec)
    unfolding resample set_seed
    resample-set_seed s t seed e = rw e ground arith

  module _ (draw_bound : (g : Rng) (i : ℕ) → (draw g i).0 ≤ i) where
    -- The loop never leaves the vector, and only moves its elements.
    shuffle_loop-perm :
        (i : ℕ) (g : Rng) (v : List ℤ)
        → i ≤ length v - 1
        → (w : List ℤ) × (g' : Rng) × (shuffle_loop i g v ≡ ok (w, g')) × Perm w v
    unfolding shuffle_loop swap
    shuffle_loop-perm zero g v h = (v, g, refl, Perm.refl v)
    shuffle_loop-perm (suc i) g v h =
        let (j, g') = draw g (suc i) in
        let bound : j ≤ suc i = draw_bound g (suc i) in
        let (a, at_i) = get_elem?_of_lt v (suc i) (omega arith) in
        let (b, at_j) = get_elem?_of_lt v j (omega arith) in
        let v' = set (set v (suc i) b) j a in
        let same : length v' ≡ length v =
          length-set (set v (suc i) b) j a ∙ length-set v (suc i) b in
        let (w, g'', run, p) = shuffle_loop-perm i g' v' (omega arith) in
        (w, g'', rw (at_i, at_j) run, Perm.trans p (exchange-perm v (suc i) j a b at_i at_j))

    module _ {ℓ} {S : Type ℓ} where
      -- Every resampling succeeds, keeps the dataset, and reads each of the first indices once.
      resample-perm :
          (s : ShuffleDataset S Rng)
          → (t : ShuffleDataset S Rng) × (resample s ≡ ok t)
            × (t.base.dataset ≡ s.base.dataset)
            × Perm t.base.resample_vec (iota (length s.base.resample_vec))
      unfolding resample
      resample-perm s =
          let n = length s.base.resample_vec in
          let full : length (iota n) ≡ n =
            length-map (range_from 0 n) pos ∙ length-range_from 0 n in
          let (v, g, run, p) = shuffle_loop-perm (n - 1) s.rng (iota n) (rw full (omega arith)) in
          (record { base = record (s.base) { resample_vec = v }; rng = g }, rw run, refl, p)

      -- An epoch over the view meets what an epoch over the dataset meets.
      abbrev pub Covers : Dataset S → ShuffleDataset S Rng → Type ℓ
      Covers d s = (s.base.dataset ≡ d) × Perm s.base.resample_vec (iota d.size)

      Covers-elements :
          (d : Dataset S) (s : ShuffleDataset S Rng)
          → Covers d s
          → Perm (elements (Resample.as_dataset s.base)) (elements d)
      Covers-elements d s (e, p) =
          rw (elements-map s.base, e)
            (subst (Perm (map d.get s.base.resample_vec)) (map-map d.get pos (range_from 0 d.size))
              (Perm.map d.get p))

      resample-Covers :
          (d : Dataset S) (s : ShuffleDataset S Rng)
          → Covers d s
          → (t : ShuffleDataset S Rng) × (resample s ≡ ok t) × Covers d t
      resample-Covers d s (e, p) =
          let (t, run, same, q) = resample-perm s in
          let full : length s.base.resample_vec ≡ d.size =
            length-perm p ∙ length-map (range_from 0 d.size) pos ∙ length-range_from 0 d.size in
          (t, run, (same ∙ e, rw full at q))

      init-Covers :
          (d : Dataset S) (seed : ℤ)
          → (t : ShuffleDataset S Rng) × (init (some d) seed ≡ ok t) × Covers d t
      unfolding init Resample.init Resample.init_vec Resample.resample
          Resample.make_identity_permutation
      init-Covers d seed =
          let (t, run, same, p) = resample-perm (record {
            base = record { dataset = d; resample_vec = iota d.size };
            rng = seed_rng seed;
          }) in
          (
            t,
            run,
            (same, rw (length-map (range_from 0 d.size) pos ∙ length-range_from 0 d.size) at p),
          )

      run-Covers :
          (d : Dataset S) (s : ShuffleDataset S Rng) (calls : List Call)
          → Covers d s
          → (t : ShuffleDataset S Rng) × (run s calls ≡ ok t) × Covers d t
      unfolding run set_seed
      run-Covers d s [] c = (s, refl, c)
      run-Covers d s (seeds seed ∷ calls) c = run-Covers d (set_seed s seed) calls c
      run-Covers d s (resamples ∷ calls) c =
          let (t, done, c') = resample-Covers d s c in
          let (u, done', c'') = run-Covers d t calls c' in (u, rw done done', c'')

      -- Whatever the seeds and the number of reshufflings, no call throws, and an epoch over the
      -- view meets exactly what an epoch over the dataset meets, each sample as often.
      pub elements-run-perm :
          (d : Dataset S) (seed : ℤ) (calls : List Call)
          → (t : ShuffleDataset S Rng) × ((init (some d) seed >>= λ s. run s calls) ≡ ok t)
            × Perm (elements (Resample.as_dataset t.base)) (elements d)
      elements-run-perm d seed calls =
          let (s, made, c) = init-Covers d seed in
          let (t, done, c') = run-Covers d s calls c in (t, rw made done, Covers-elements d t c')
