-- ===== src/Criterion/ViterbiPath/Optimal.antt =====
-- The path that is written has the greatest score of all.
use mathlib.Core.Path.{subst}
use mathlib.Core.List.{reverse}
use flashlight.Prelude.{
  ℕ, zero, suc, ◌+◌, ◌-◌, ◌*◌, ◌<◌, ◌≡◌, refl, sym, ap, ap₂, ◌∙◌, false, List, [], ◌∷◌, map, Option,
  some, Result, ok, arith, length, ◌==◌, ◌>>=◌,
}
use flashlight.Prelude.Int.{ℤ, pos}
use flashlight.Prelude.Scores.{Score, ◌≼◌, IsFinite, IsOrdered}
use flashlight.Criterion.ViterbiPath.{
  Best, no_best, scan, input_at, alpha, beta, trace, last_index, compute_path,
}
use flashlight.Criterion.ViterbiPath.Scan.{scan-greatest, scan-best}

-- Every index is one of the labels.
unfoldable pub InRange : ℕ → List ℕ → Type 0
InRange n [] = Unit
InRange n (i ∷ path) = (i < n) × InRange n path

module _ {ℓ} {W : Type ℓ} ⦃s : Score W⦄ (t_size n_size : ℕ) (input trans : ℕ → W) (b : ℕ) where
  -- The score of a path that is given from its last index to its first: the scores of its labels and of
  -- the transitions between them, added up in the order of time.
  unfoldable pub path_score : List ℕ → W
  path_score [] = s.nought
  path_score (i ∷ []) = input_at t_size n_size input b 0 i
  path_score (i ∷ j ∷ path) =
      s.plus (s.plus (path_score (j ∷ path)) (trans (i * n_size + j)))
        (input_at t_size n_size input b (suc (length path)) i)

module _ {ℓ} {W : Type ℓ} ⦃s : Score W⦄ ⦃ordered : IsOrdered W⦄ (t_size n_size : ℕ)
    (input trans : ℕ → W) (b : ℕ) where
  edge : ℕ → ℕ → ℕ → W
  edge t m n = s.plus (alpha t_size n_size input trans b t n) (trans (m * n_size + n))

  alpha-suc :
      (t m j : ℕ) (val : W)
      → scan (edge t m) 0 n_size no_best ≡ (pos j, val)
      → alpha t_size n_size input trans b (suc t) m
        ≡ s.plus val (input_at t_size n_size input b (suc t) m)
  unfolding alpha edge
  alpha-suc t m j val e =
      ap (λ (best : Best W). s.plus best.1 (input_at t_size n_size input b (suc t) m)) e

  trace-suc :
      (t i j : ℕ) (val : W)
      → scan (edge t i) 0 n_size no_best ≡ (pos j, val)
      → trace t_size n_size input trans b (suc t) (pos i)
        ≡ (trace t_size n_size input trans b t (pos j) >>= λ path. ok (pos i ∷ path))
  unfolding trace beta edge
  trace-suc t i j val e =
      ap
        (λ (best : Best W).
          trace t_size n_size input trans b t best.0 >>= λ path. ok (pos i ∷ path))
        e

  path_score_le :
      (i : ℕ) (path : List ℕ)
      → InRange n_size (i ∷ path)
      → path_score t_size n_size input trans b (i ∷ path)
        ≼ alpha t_size n_size input trans b (length path) i
  unfolding InRange path_score alpha edge
  path_score_le i [] range = ordered.le_refl _
  path_score_le i (j ∷ path) (_, (inside, range)) = ordered.plus_mono _ _ _ (
      ordered.le_trans _ (edge (length path) i j) _
        (ordered.plus_mono _ _ _ (path_score_le j path (inside, range)))
        (scan-greatest (edge (length path) i) 0 n_size no_best j (omega arith)
          (omega (arith, inside))))

  ends : ℕ → ℕ → W
  ends t n = s.plus (alpha t_size n_size input trans b t n) s.nought

  compute_path-trace :
      (j : ℕ) (val : W) (written : List ℤ)
      → 0 < t_size
      → 0 < n_size
      → scan (ends (t_size - 1)) 0 n_size no_best ≡ (pos j, val)
      → trace t_size n_size input trans b (t_size - 1) (pos j) ≡ ok written
      → compute_path t_size n_size input trans b ≡ ok (some (reverse written))
  unfolding compute_path last_index ends
  compute_path-trace j val written some_step some_label e traced =
      let steps : (t_size == 0) ≡ false = ground arith in
      let labels : (n_size == 0) ≡ false = ground arith in
      rw (steps, labels)
        (ap {B = Result (Option (List ℤ))}
            (λ (best : Best W).
              trace t_size n_size input trans b (t_size - 1) best.0 >>= λ w. ok (some (reverse w)))
            e
          ∙ rw traced refl)

  -- The last label that is chosen is the best one.
  ends-le :
      (t i j : ℕ)
      → i < n_size
      → scan (ends t) 0 n_size no_best ≡ (pos j, ends t j)
      → alpha t_size n_size input trans b t i ≼ alpha t_size n_size input trans b t j
  unfolding ends
  ends-le t i j inside e =
      let le : ends t i ≼ ends t j =
        subst (λ (best : Best W). ends t i ≼ best.1) e
          (scan-greatest (ends t) 0 n_size no_best i (omega arith) (omega (arith, inside))) in
      rw
        (
          ordered.plus_nought (alpha t_size n_size input trans b t i),
          ordered.plus_nought (alpha t_size n_size input trans b t j),
        )
        at le

  module _
      (input_finite : (t n : ℕ)
        → t < t_size
        → n < n_size
        → IsFinite (input_at t_size n_size input b t n))
      (trans_finite : (m n : ℕ) → m < n_size → n < n_size → IsFinite (trans (m * n_size + n))) where
    alpha-IsFinite :
        (t m : ℕ) → t < t_size → m < n_size → IsFinite (alpha t_size n_size input trans b t m)
    unfolding alpha edge
    alpha-IsFinite zero m h k = input_finite 0 m h k
    alpha-IsFinite (suc t) m h k =
        let (j, inside, e) = scan-best (edge t m) n_size (omega arith) (λ n l.
          ordered.plus_finite _ _ (alpha-IsFinite t n (omega arith) l) (trans_finite m n k l)) in
        rw (alpha-suc t m j (edge t m j) e) (
          ordered.plus_finite _ _
            (ordered.plus_finite _ _ (alpha-IsFinite t j (omega arith) inside)
              (trans_finite m j k inside))
            (input_finite (suc t) m h k))

    trace-path_score :
        (t i : ℕ)
        → t < t_size
        → i < n_size
        → (path : List ℕ) × (trace t_size n_size input trans b t (pos i) ≡ ok (map pos (i ∷ path)))
          × (length path ≡ t)
          × InRange n_size (i ∷ path)
          × (path_score t_size n_size input trans b (i ∷ path)
              ≡ alpha t_size n_size input trans b t i)
    unfolding trace InRange path_score alpha edge
    trace-path_score zero i h k = ([], refl, refl, (k, tt), refl)
    trace-path_score (suc t) i h k =
        let (j, inside, e) = scan-best (edge t i) n_size (omega arith) (λ n l.
          ordered.plus_finite _ _ (alpha-IsFinite t n (omega arith) l) (trans_finite i n k l)) in
        let (path, traced, long, range, score) = trace-path_score t j (omega arith) inside in
        (
          j ∷ path,
          trace-suc t i j (edge t i j) e ∙ rw traced refl,
          ap suc long,
          (k, range),
          ap₂
                (λ v u.
                  s.plus (s.plus v (trans (i * n_size + j)))
                    (input_at t_size n_size input b (suc u) i))
                score long
              ∙ sym (alpha-suc t i j (edge t i j) e),
        )

    -- ViterbiPath writes a path of T labels whose score is at least that of any other path of T labels:
    -- the score adds up the inputs at the labels and the transitions between them. There have to be
    -- steps and labels, and the inputs and transitions have to be above -∞.
    pub compute_path-best :
        (other : List ℕ)
        → 0 < t_size
        → 0 < n_size
        → length other ≡ t_size
        → InRange n_size other
        → (path : List ℕ) × (compute_path t_size n_size input trans b
            ≡ ok (some (reverse (map pos path))))
          × (length path ≡ t_size)
          × InRange n_size path
          × (path_score t_size n_size input trans b other
              ≼ path_score t_size n_size input trans b path)
    unfolding ends InRange
    compute_path-best [] some_step some_label long range = absurd (omega (arith, some_step, long))
    compute_path-best (i ∷ other) some_step some_label long range =
        let inside_t : t_size - 1 < t_size = omega (arith, some_step) in
        let (j, inside, e) = scan-best (ends (t_size - 1)) n_size some_label (λ n l.
          rw (ordered.plus_nought (alpha t_size n_size input trans b (t_size - 1) n))
            (alpha-IsFinite (t_size - 1) n inside_t l)) in
        let (path, traced, size, in_range, score) =
          trace-path_score (t_size - 1) j inside_t inside in
        let last : length other ≡ t_size - 1 = omega (arith, long) in
        (
          j ∷ path,
          compute_path-trace j (ends (t_size - 1) j) _ some_step some_label e traced,
          omega (arith, size, some_step),
          in_range,
          subst (λ w. path_score t_size n_size input trans b (i ∷ other) ≼ w) (sym score)
              (ordered.le_trans _ (alpha t_size n_size input trans b (t_size - 1) i) _
                (subst
                  (λ t.
                    path_score t_size n_size input trans b (i ∷ other)
                    ≼ alpha t_size n_size input trans b t i)
                  last (path_score_le i other range))
                (ends-le (t_size - 1) i j range.0 e)),
        )
