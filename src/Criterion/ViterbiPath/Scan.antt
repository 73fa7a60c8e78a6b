-- ===== src/Criterion/ViterbiPath/Scan.antt =====
-- The scan finds the greatest value and where it stands.
use mathlib.Core.Path.{subst}
use flashlight.Prelude.{
  ℕ, zero, suc, ◌+◌, ◌<◌, ◌≤◌, ◌≡◌, refl, ◌∙◌, true, arith, Bool-cases, inl, inr, ◌⊎◌, ◌==◌,
  if_true, if_false,
}
use flashlight.Prelude.Int.{pos}
use flashlight.Prelude.Scores.{Score, ◌≼◌, IsFinite, IsOrdered}
use flashlight.Criterion.ViterbiPath.{Best, no_best, better, scan}

module _ {ℓ} {W : Type ℓ} ⦃s : Score W⦄ where
  better-cases :
      (n : ℕ) (val : W) (best : Best W)
      → ((s.gt val best.1 ≡ true) × (better n val best ≡ (pos n, val)))
        ⊎ ((val ≼ best.1) × (better n val best ≡ best))
  unfolding better
  better-cases n val best = elim (Bool-cases (s.gt val best.1)) [
    | inl e ↦ inl (e, if_true (s.gt val best.1) _ _ e)
    | inr e ↦ inr (e, if_false (s.gt val best.1) _ _ e)
  ]

  -- What the scan ends with is what it started with, or a value and its position.
  pub scan-found :
      (val : ℕ → W) (start count : ℕ) (best : Best W)
      → (scan val start count best ≡ best)
        ⊎ ((j : ℕ) × (start ≤ j)
            × (j < start + count)
            × (scan val start count best ≡ (pos j, val j)))
  unfolding scan
  scan-found val start zero best = inl refl
  scan-found val start (suc count) best =
      elim (scan-found val (start + 1) count (better start (val start) best)) [
        | inr (j, h, k, e) ↦ inr (j, omega (arith, h), omega (arith, k), e)
        | inl e ↦ elim (better-cases start (val start) best) [
          | inl (_, taken) ↦ inr (start, omega arith, omega arith, e ∙ taken)
          | inr (_, kept) ↦ inl (e ∙ kept)
        ]
      ]

module _ {ℓ} {W : Type ℓ} ⦃s : Score W⦄ ⦃ordered : IsOrdered W⦄ where
  better-ge :
      (n : ℕ) (val : W) (best : Best W)
      → (best.1 ≼ (better n val best).1) × (val ≼ (better n val best).1)
  better-ge n val best = elim (better-cases n val best) [
    | inl (e, taken) ↦ rw taken (ordered.le_of_gt val best.1 e, ordered.le_refl val)
    | inr (e, kept) ↦ rw kept (ordered.le_refl best.1, e)
  ]

  -- The scan does not go below what it starts with, nor below any of the values.
  scan-ge : (val : ℕ → W) (start count : ℕ) (best : Best W) → best.1 ≼ (scan val start count best).1
  unfolding scan
  scan-ge val start zero best = ordered.le_refl best.1
  scan-ge val start (suc count) best =
      ordered.le_trans best.1 (better start (val start) best).1 _
        (better-ge start (val start) best).0
        (scan-ge val (start + 1) count (better start (val start) best))

  pub scan-greatest :
      (val : ℕ → W) (start count : ℕ) (best : Best W) (j : ℕ)
      → start ≤ j
      → j < start + count
      → val j ≼ (scan val start count best).1
  unfolding scan
  scan-greatest val start zero best j h k = absurd (omega arith)
  scan-greatest val start (suc count) best j h k = elim (Bool-cases (start == j)) [
    | inr later ↦
        let above : start + 1 ≤ j = ground arith in
        scan-greatest val (start + 1) count (better start (val start) best) j above (omega arith)
    | inl here ↦
        let same : start ≡ j = ground arith in
        rw (← same) (
          ordered.le_trans (val start) (better start (val start) best).1 _
            (better-ge start (val start) best).1
            (scan-ge val (start + 1) count (better start (val start) best)))
  ]

  -- Among finite values, of which there are some, a scan finds the greatest.
  pub scan-best :
      (val : ℕ → W) (count : ℕ)
      → 0 < count
      → ((j : ℕ) → j < count → IsFinite (val j))
      → (j : ℕ) × (j < count) × (scan val 0 count no_best ≡ (pos j, val j))
  scan-best val count some_value finite = elim (scan-found val 0 count no_best) [
    | inr (j, _, k, e) ↦ (j, omega (arith, k), e)
    | inl e ↦
        let le : val 0 ≼ s.neg_infinity =
          subst (λ best. val 0 ≼ best.1) e
            (scan-greatest val 0 count no_best 0 (omega arith) (omega arith)) in
        absurd (ground (arith, finite 0 some_value))
  ]
