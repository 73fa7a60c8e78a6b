-- ===== src/Text/Decoder/Parents.antt =====
-- The parents of candidates, which merging and selecting leave as they are.
use flashlight.Prelude.{
  ℕ, zero, suc, ◌<◌, ◌≤◌, ◌≡◌, refl, ap, ◌∙◌, min, Bool, not, ◌||◌, List, [], ◌∷◌, ◌++◌, some,
  arith, Bool-cases, inl, inr, if◌then◌else◌, length, take, ltb,
}
use flashlight.Prelude.Int.{eqb_ℤ, pos}
use flashlight.Text.Decoder.{
  DecoderScore, LanguageModel, State, Candidates, candidates_add, compare_states, merged_score,
  select_valid, merge_candidates, select_best, insert_by, sort_by,
}

-- A parent at one of the first `n` positions.
unfoldable pub HasParent {ℓ κ} : {W : Type ℓ} {L : Type κ} → ℕ → State W L → Type 0
HasParent n state = (k : ℕ) × (state.parent ≡ some k) × (k < n)

unfoldable pub LinksInto {ℓ κ} : {W : Type ℓ} {L : Type κ} → ℕ → List (State W L) → Type 0
unfolding HasParent
LinksInto n [] = Unit
LinksInto n (state ∷ states) = HasParent n state × LinksInto n states

module _ {ℓ κ} {W : Type ℓ} {L : Type κ} where
  pub length-take_le : (k : ℕ) (xs : List (State W L)) → length (take k xs) ≤ k
  length-take_le zero xs = omega arith
  length-take_le (suc k) [] = omega arith
  length-take_le (suc k) (x ∷ xs) = omega (arith, length-take_le k xs)

  pub LinksInto-append :
      (n : ℕ) (xs ys : List (State W L)) → LinksInto n xs → LinksInto n ys → LinksInto n (xs ++ ys)
  unfolding LinksInto
  LinksInto-append n [] ys links more = more
  LinksInto-append n (x ∷ xs) ys (first, links) more = (first, LinksInto-append n xs ys links more)

  pub LinksInto-take : (n k : ℕ) (xs : List (State W L)) → LinksInto n xs → LinksInto n (take k xs)
  unfolding LinksInto
  LinksInto-take n zero xs links = tt
  LinksInto-take n (suc k) [] links = tt
  LinksInto-take n (suc k) (x ∷ xs) (first, links) = (first, LinksInto-take n k xs links)

  module _ (before : State W L → State W L → Bool) where
    insert_by-LinksInto :
        (n : ℕ) (x : State W L) (xs : List (State W L))
        → HasParent n x
        → LinksInto n xs
        → LinksInto n (insert_by before x xs)
    unfolding LinksInto insert_by
    insert_by-LinksInto n x [] first links = (first, tt)
    insert_by-LinksInto n x (y ∷ ys) first (second, links) = elim (Bool-cases (before y x)) [
      | inl e ↦ rw e (second, insert_by-LinksInto n x ys first links)
      | inr e ↦ rw e (first, (second, links))
    ]

    pub sort_by-LinksInto :
        (n : ℕ) (xs : List (State W L)) → LinksInto n xs → LinksInto n (sort_by before xs)
    unfolding LinksInto sort_by
    sort_by-LinksInto n [] links = tt
    sort_by-LinksInto n (x ∷ xs) (first, links) =
        insert_by-LinksInto n x (sort_by before xs) first (sort_by-LinksInto n xs links)

    length-insert_by :
        (x : State W L) (xs : List (State W L)) → length (insert_by before x xs) ≡ suc (length xs)
    unfolding insert_by
    length-insert_by x [] = refl
    length-insert_by x (y ∷ ys) = elim (Bool-cases (before y x)) [
      | inl e ↦ rw e (ap suc (length-insert_by x ys))
      | inr e ↦ rw e refl
    ]

    pub length-sort_by : (xs : List (State W L)) → length (sort_by before xs) ≡ length xs
    unfolding sort_by
    length-sort_by [] = refl
    length-sort_by (x ∷ xs) = length-insert_by x (sort_by before xs) ∙ ap suc (length-sort_by xs)

module _ {ℓ κ} {W : Type ℓ} {L : Type κ} ⦃w : DecoderScore W⦄ where
  pub candidates_add-LinksInto :
      (n : ℕ) (threshold : W) (state : State W L) (c : Candidates W L)
      → HasParent n state
      → LinksInto n c.candidates
      → LinksInto n (candidates_add threshold state c).candidates
  unfolding candidates_add LinksInto
  candidates_add-LinksInto n threshold state c first links =
      elim (Bool-cases (
        w.ge state.score (
          w.minus (if w.ge state.score c.best_score then state.score else c.best_score)
            threshold))) [
              | inl e ↦ rw e (LinksInto-append n c.candidates (state ∷ []) links (first, tt))
              | inr e ↦ rw e links
            ]

  pub select_valid-LinksInto :
      (n : ℕ) (threshold : W) (cs : List (State W L))
      → LinksInto n cs
      → LinksInto n (select_valid threshold cs)
  unfolding LinksInto select_valid
  select_valid-LinksInto n threshold [] links = tt
  select_valid-LinksInto n threshold (c ∷ cs) (first, links) =
      elim (Bool-cases (w.ge c.score threshold)) [
        | inl e ↦ rw e (first, select_valid-LinksInto n threshold cs links)
        | inr e ↦ rw e (select_valid-LinksInto n threshold cs links)
      ]

  pub merge_candidates-LinksInto :
      (n : ℕ) (lm : LanguageModel W L) (log_add : Bool) (kept : State W L) (cs : List (State W L))
      → HasParent n kept
      → LinksInto n cs
      → LinksInto n (merge_candidates lm log_add kept cs)
  unfolding LinksInto merge_candidates HasParent
  merge_candidates-LinksInto n lm log_add kept [] first links = (first, tt)
  merge_candidates-LinksInto n lm log_add kept (c ∷ cs) first (second, links) =
      elim (Bool-cases (not (eqb_ℤ (compare_states lm c kept) (pos 0)))) [
        | inl e ↦ rw e (first, merge_candidates-LinksInto n lm log_add c cs second links)
        | inr e ↦ rw e (
            merge_candidates-LinksInto n lm log_add
              (record kept { score = merged_score log_add kept.score c.score }) cs first links)
      ]

  pub select_best-LinksInto :
      (n beam_size : ℕ) (return_sorted : Bool) (hyps : List (State W L))
      → LinksInto n hyps
      → LinksInto n (select_best beam_size return_sorted hyps)
  unfolding select_best
  select_best-LinksInto n beam_size return_sorted hyps links =
      elim (Bool-cases (return_sorted || ltb beam_size (length hyps))) [
        | inl e ↦
            rw e
              (LinksInto-take n (min (length hyps) beam_size) _ (sort_by-LinksInto _ n hyps links))
        | inr e ↦ rw e links
      ]
