-- ===== src/Criterion/ViterbiPath.antt =====
-- flashlight/lib/sequence/criterion/cpu/ViterbiPath.cpp. The arrays of the caller are functions of
-- their index. An element of the workspace is written once for each time step, so `alpha` and `beta`
-- are functions of the step and the index; of `alpha` the code keeps the last two steps.
pub mod Scan
pub mod Optimal
use mathlib.Core.List.{reverse}
use flashlight.Prelude.{
  ℕ, zero, suc, ◌+◌, ◌-◌, ◌*◌, Bool, true, false, List, [], ◌∷◌, Option, some, none, Result, ok,
  throw, Error, ◌>>=◌, for_each, range_from, if◌then◌else◌, ◌==◌,
}
use flashlight.Prelude.Int.{ℤ, pos, negsuc}
use flashlight.Prelude.Scores.{Score}

-- `maxIndex` and `maxValue`
abbrev pub Best {ℓ} : Type ℓ → Type ℓ
Best W = ℤ × W

module _ {ℓ} {W : Type ℓ} ⦃s : Score W⦄ where
  abbrev pub no_best : Best W
  no_best = (negsuc 0, s.neg_infinity)

  -- A value that is greater takes the place of the best one.
  unfoldable pub better : ℕ → W → Best W → Best W
  better n val best = if s.gt val best.1 then (pos n, val) else best

  -- The loop over `n`, from `start` for `count` values.
  unfoldable pub scan : (ℕ → W) → ℕ → ℕ → Best W → Best W
  unfolding better
  scan val start zero best = best
  scan val start (suc count) best = scan val (start + 1) count (better start (val start) best)

-- `input[b * T * N + t * N + n]`
unfoldable pub input_at {ℓ} : {W : Type ℓ} → ℕ → ℕ → (ℕ → W) → ℕ → ℕ → ℕ → W
input_at t_size n_size input b t n = input (b * t_size * n_size + t * n_size + n)

module _ {ℓ} {W : Type ℓ} ⦃s : Score W⦄ (t_size n_size : ℕ) (input trans : ℕ → W) (b : ℕ) where
  -- `alpha` after step `t`.
  unfoldable pub alpha : ℕ → ℕ → W
  unfolding scan input_at
  alpha zero m = input_at t_size n_size input b 0 m
  alpha (suc t) m =
      s.plus (scan (λ n. s.plus (alpha t n) (trans (m * n_size + n))) 0 n_size no_best).1
        (input_at t_size n_size input b (suc t) m)

  -- `beta` of step `t + 1`.
  unfoldable pub beta : ℕ → ℕ → ℤ
  unfolding alpha
  beta t m = (scan (λ n. s.plus (alpha t n) (trans (m * n_size + n))) 0 n_size no_best).0

  -- The path in the order in which it is written, from `path[t]` to `path[0]`. An index of -1 reads
  -- outside the row of `beta`.
  unfoldable pub trace : ℕ → ℤ → Result (List ℤ)
  unfolding beta
  trace zero i = ok (i ∷ [])
  trace (suc t) (negsuc i) = throw Error.undefined_behaviour
  trace (suc t) (pos i) = trace t (beta t i) >>= λ path. ok (pos i ∷ path)

  unfoldable pub last_index : ℕ → ℤ
  unfolding alpha
  last_index t = (scan (λ n. s.plus (alpha t n) s.nought) 0 n_size no_best).0

  -- One sequence of the batch; `none` stands for a path that is not written.
  unfoldable pub compute_path : Result (Option (List ℤ))
  unfolding trace last_index
  compute_path =
      if t_size == 0
      then ok none
      else if n_size == 0
      then ok none
      else (trace (t_size - 1) (last_index (t_size - 1)) >>= λ written. ok (some (reverse written)))

unfoldable pub compute {ℓ} :
    {W : Type ℓ} ⦃s : Score W⦄ (b_size t_size n_size : ℕ) (input trans : ℕ → W)
    → Result (List (Option (List ℤ)))
unfolding compute_path
compute b_size t_size n_size input trans =
    for_each (λ b. compute_path t_size n_size input trans b) (range_from 0 b_size)
