-- ===== src/Text/Decoder/Beam.antt =====
-- What a beam keeps of its candidates.
use flashlight.Prelude.{
  ℕ, ◌<◌, ◌≤◌, ◌≡◌, refl, min, Bool, true, false, ◌||◌, List, [], ◌∷◌, ◌++◌, ok, arith, Bool-cases,
  inl, inr, ◌⊎◌, length, ltb,
}
use flashlight.Text.Decoder.{
  DecoderScore, LanguageModel, State, Candidates, candidates_reset, candidates_add, merge_order,
  select_valid, merge_candidates, select_best, store_valid, candidates_store, sort_by,
}
use flashlight.Text.Decoder.Parents.{
  LinksInto, length-take_le, sort_by-LinksInto, length-sort_by, select_valid-LinksInto,
  merge_candidates-LinksInto, select_best-LinksInto,
}

module _ {ℓ κ} {W : Type ℓ} {L : Type κ} ⦃w : DecoderScore W⦄ where
  length-select_best :
      (beam_size : ℕ) (return_sorted : Bool) (hyps : List (State W L))
      → length (select_best beam_size return_sorted hyps) ≤ beam_size
  unfolding select_best
  length-select_best beam_size return_sorted hyps =
      elim (Bool-cases (return_sorted || ltb beam_size (length hyps))) [
        | inl e ↦ rw e (
            omega (
              arith,
              length-take_le (min (length hyps) beam_size)
                  (sort_by (λ (a : State W L) b. w.gt a.score b.score) hyps),
            ))
        | inr e ↦ rw e (ground arith)
      ]

  -- One of the states has this score.
  HasScore : W → List (State W L) → Type ℓ
  HasScore best [] = (true ≡ false) × Unit {ℓ}
  HasScore best (c ∷ cs) = (c.score ≡ best) ⊎ HasScore best cs

  -- The best score is that of a candidate, or there is no candidate yet.
  pub HasBest : Candidates W L → Type (ℓ ⊔ κ)
  unfolding HasScore
  HasBest c =
      ((c.candidates ≡ []) × (c.best_score ≡ w.neg_infinity)) ⊎ HasScore c.best_score c.candidates

  HasScore-append :
      (best : W) (xs ys : List (State W L)) → HasScore best xs → HasScore best (xs ++ ys)
  unfolding HasScore
  HasScore-append best [] ys h = absurd (ground arith)
  HasScore-append best (x ∷ xs) ys (inl h) = inl h
  HasScore-append best (x ∷ xs) ys (inr h) = inr (HasScore-append best xs ys h)

  HasScore-last :
      (state : State W L) (xs : List (State W L)) → HasScore state.score (xs ++ (state ∷ []))
  unfolding HasScore
  HasScore-last state [] = inl refl
  HasScore-last state (x ∷ xs) = inr (HasScore-last state xs)

pub reset-HasBest {ℓ κ} :
    (W : Type ℓ) (L : Type κ) ⦃w : DecoderScore W⦄ → HasBest {W = W} {L = L} candidates_reset
unfolding HasBest
reset-HasBest W L = inl (refl, refl)

-- No score is below -∞ or NaN, and the threshold of the beam is not below 0.
pub record IsThreshold {ℓ} {W : Type ℓ} ⦃w : DecoderScore W⦄ (threshold : W) : Type ℓ where
  pub ge_neg_infinity : (x : W) → w.ge x w.neg_infinity ≡ true
  pub ge_minus : (x : W) → w.ge x (w.minus x threshold) ≡ true

module _ {ℓ κ} {W : Type ℓ} {L : Type κ} ⦃w : DecoderScore W⦄ (threshold : W)
    (laws : IsThreshold threshold) where
  pub candidates_add-HasBest :
      (state : State W L) (c : Candidates W L)
      → HasBest c
      → HasBest (candidates_add threshold state c)
  unfolding candidates_add HasBest HasScore
  candidates_add-HasBest state c h = elim (Bool-cases (w.ge state.score c.best_score)) [
    | inl e ↦ rw (e, laws.ge_minus state.score) (inr (HasScore-last state c.candidates))
    | inr e ↦ elim h [
      | inl (_, lowest) ↦ absurd (ground (arith, laws.ge_neg_infinity state.score))
      | inr best ↦ elim (Bool-cases (w.ge state.score (w.minus c.best_score threshold))) [
        | inl close ↦
            rw (e, close) (inr (HasScore-append c.best_score c.candidates (state ∷ []) best))
        | inr far ↦ rw (e, far) (inr best)
      ]
    ]
  ]

  -- The best candidate is valid.
  select_valid-cons :
      (best : W) (cs : List (State W L))
      → HasScore best cs
      → 0 < length (select_valid (w.minus best threshold) cs)
  unfolding select_valid HasScore
  select_valid-cons best [] h = absurd (ground arith)
  select_valid-cons best (c ∷ cs) (inl e) =
      let valid : w.ge c.score (w.minus best threshold) ≡ true = rw (← e) (laws.ge_minus c.score) in
      rw valid (omega arith)
  select_valid-cons best (c ∷ cs) (inr h) =
      elim (Bool-cases (w.ge c.score (w.minus best threshold))) [
        | inl e ↦ rw e (omega arith)
        | inr e ↦ rw e (select_valid-cons best cs h)
      ]

  module _ (n : ℕ) (lm : LanguageModel W L) (beam_size : ℕ) (log_add return_sorted : Bool) where
    store_valid-Stored :
        (cs : List (State W L))
        → 0 < length cs
        → LinksInto n cs
        → (outputs : List (State W L)) × (store_valid lm beam_size log_add return_sorted cs
            ≡ ok outputs)
          × LinksInto n outputs
          × (length outputs ≤ beam_size)
    unfolding store_valid LinksInto
    store_valid-Stored [] some_valid links = absurd (omega arith)
    store_valid-Stored (c ∷ cs) some_valid (first, links) =
        let merged : List (State W L) = merge_candidates lm log_add c cs in
        (
          select_best beam_size return_sorted merged,
          refl,
          select_best-LinksInto n beam_size return_sorted merged
              (merge_candidates-LinksInto n lm log_add c cs first links),
          length-select_best beam_size return_sorted merged,
        )

    store_best :
        (best : W) (cs : List (State W L))
        → HasScore best cs
        → LinksInto n cs
        → (outputs : List (State W L)) × (candidates_store lm beam_size
              (w.minus best threshold)
              log_add
              return_sorted
              cs
            ≡ ok outputs)
          × LinksInto n outputs
          × (length outputs ≤ beam_size)
    unfolding candidates_store HasScore
    store_best best [] h links = absurd (ground arith)
    store_best best (c ∷ cs) h links =
        let valid : List (State W L) = select_valid (w.minus best threshold) (c ∷ cs) in
        store_valid-Stored (sort_by (merge_order lm) valid)
          (omega (arith, length-sort_by (merge_order lm) valid, select_valid-cons best (c ∷ cs) h))
          (sort_by-LinksInto (merge_order lm) n valid
            (select_valid-LinksInto n (w.minus best threshold) (c ∷ cs) links))

    -- What is stored of candidates whose best score is known: at most the size of the beam, with the
    -- parents that the candidates have.
    pub candidates_store-Stored :
        (c : Candidates W L)
        → HasBest c
        → LinksInto n c.candidates
        → (outputs : List (State W L)) × (candidates_store lm beam_size
              (w.minus c.best_score threshold)
              log_add
              return_sorted
              c.candidates
            ≡ ok outputs)
          × LinksInto n outputs
          × (length outputs ≤ beam_size)
    unfolding candidates_store HasBest LinksInto
    candidates_store-Stored c (inl (empty, _)) links =
        ([], rw (empty, candidates_store) refl, tt, omega arith)
    candidates_store-Stored c (inr best) links = store_best c.best_score c.candidates best links
