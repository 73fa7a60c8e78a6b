-- ===== src/Text/Decoder.antt =====
-- flashlight/lib/text/decoder/Utils.h: the beam of hypotheses that the decoders share, at the states of
-- LexiconFreeDecoder.h. A parent is a hypothesis of the frame before, so a pointer to it is its
-- position there.
pub mod LexiconFree
pub mod Parents
pub mod Beam
pub mod Links
pub mod Sound
pub mod Hypotheses
pub mod Best
mod Tests
use mathlib.Core.List.{reverse}
use flashlight.Prelude.{
  ℕ, zero, suc, ◌+◌, ◌-◌, min, Bool, true, false, not, ◌&&◌, ◌||◌, List, [], ◌∷◌, ◌++◌, map, Option,
  some, none, Result, ok, throw, Error, ◌>>=◌, for_each, length, get_elem?, get_or, take, replicate,
  ltb, ◌==◌, if◌then◌else◌,
}
use flashlight.Prelude.Int.{ℤ, pos, negsuc, eqb_ℤ, ltb_ℤ}

-- What the decoders do with a `double`.
pub record DecoderScore {ℓ} (W : Type ℓ) : Type ℓ where
  pub nought : W
  pub neg_infinity : W
  pub plus : W → W → W
  pub minus : W → W → W
  pub times : W → W → W
  pub gt : W → W → Bool
  pub ge : W → W → Bool
  -- `std::log1p(std::exp(x))`
  pub log1p_exp : W → W

-- A language model. `compare` gives the order of the addresses of two states.
pub record LanguageModel {ℓ κ} (W : Type ℓ) (L : Type κ) : Type (ℓ ⊔ κ) where
  pub start : Bool → L
  pub score : L → ℤ → L × W
  pub finish : L → L × W
  pub compare : L → L → ℤ

pub record State {ℓ κ} (W : Type ℓ) (L : Type κ) : Type (ℓ ⊔ κ) where
  pub score : W
  pub lm_state : L
  pub parent : Option ℕ
  pub token : ℤ
  pub prev_blank : Bool
  pub am_score : W
  pub lm_score : W

-- The candidates of a frame, and `candidatesBestScore`.
pub record Candidates {ℓ κ} (W : Type ℓ) (L : Type κ) : Type (ℓ ⊔ κ) where
  pub candidates : List (State W L)
  pub best_score : W

is_positive : ℤ → Bool
is_positive (pos n) = ltb 0 n
is_positive (negsuc n) = false

sign : ℤ → ℤ
unfolding is_positive
sign n = if is_positive n then pos 1 else negsuc 0

bool_greater : Bool → Bool → Bool
bool_greater a b = a && not b

-- A sort by an order that says which of two elements comes first. Of elements that are alike the first
-- stays first; the library leaves their order open.
unfoldable pub insert_by {ℓ} : {A : Type ℓ} → (A → A → Bool) → A → List A → List A
insert_by before x [] = x ∷ []
insert_by before x (y ∷ ys) =
    let rest = insert_by before x ys in if before y x then y ∷ rest else x ∷ y ∷ ys

unfoldable pub sort_by {ℓ} : {A : Type ℓ} → (A → A → Bool) → List A → List A
unfolding insert_by
sort_by before [] = []
sort_by before (x ∷ xs) = insert_by before x (sort_by before xs)

-- The score of two hypotheses that are the same.
unfoldable pub merged_score {ℓ} : {W : Type ℓ} ⦃w : DecoderScore W⦄ → Bool → W → W → W
merged_score ⦃w⦄ log_add a b =
    let max_score = if w.gt b a then b else a in
    let min_score = if w.gt a b then b else a in
    if log_add then w.plus max_score (w.log1p_exp (w.minus min_score max_score)) else max_score

module _ {ℓ κ} {W : Type ℓ} {L : Type κ} ⦃w : DecoderScore W⦄ where
  abbrev pub candidates_reset : Candidates W L
  candidates_reset = record { candidates = []; best_score = w.neg_infinity }

  -- `candidatesAdd` of the state that its arguments make.
  unfoldable pub candidates_add : W → State W L → Candidates W L → Candidates W L
  candidates_add beam_threshold state c =
      let best = if w.ge state.score c.best_score then state.score else c.best_score in
      record {
        candidates =
            if w.ge state.score (w.minus best beam_threshold)
            then c.candidates ++ (state ∷ [])
            else c.candidates;
        best_score = best;
      }

  -- `compareNoScoreStates`
  unfoldable pub compare_states : LanguageModel W L → State W L → State W L → ℤ
  unfolding bool_greater sign ltb_ℤ
  compare_states lm a b =
      let lm_cmp = lm.compare a.lm_state b.lm_state in
      if not (eqb_ℤ lm_cmp (pos 0))
      then sign lm_cmp
      else if not (eqb_ℤ a.token b.token)
      then (if ltb_ℤ b.token a.token then pos 1 else negsuc 0)
      else if bool_greater a.prev_blank b.prev_blank
      then pos 1
      else if bool_greater b.prev_blank a.prev_blank
      then negsuc 0
      else pos 0

  -- The order of the sort before merging: the same states together, the best of them first.
  unfoldable pub merge_order : LanguageModel W L → State W L → State W L → Bool
  unfolding compare_states is_positive
  merge_order lm a b =
      let cmp = compare_states lm a b in
      if eqb_ℤ cmp (pos 0) then w.gt a.score b.score else is_positive cmp

  -- The candidates that are good enough.
  unfoldable pub select_valid : W → List (State W L) → List (State W L)
  select_valid threshold [] = []
  select_valid threshold (c ∷ cs) =
      let rest = select_valid threshold cs in if w.ge c.score threshold then c ∷ rest else rest

  -- The merging loop, from the last state that is kept on.
  unfoldable pub merge_candidates :
      LanguageModel W L → Bool → State W L → List (State W L) → List (State W L)
  unfolding compare_states merged_score
  merge_candidates lm log_add kept [] = kept ∷ []
  merge_candidates lm log_add kept (c ∷ cs) =
      let distinct = kept ∷ merge_candidates lm log_add c cs in
      let same =
        merge_candidates lm log_add
          (record kept { score = merged_score log_add kept.score c.score }) cs in
      if not (eqb_ℤ (compare_states lm c kept) (pos 0)) then distinct else same

  -- The `beamSize` best states, in order if that is asked for. `nth_element` leaves the order of what it
  -- selects open; here it is the order of the scores.
  unfoldable pub select_best : ℕ → Bool → List (State W L) → List (State W L)
  unfolding sort_by
  select_best beam_size return_sorted hyps =
      let by_score = sort_by (λ (a : State W L) b. w.gt a.score b.score) hyps in
      if return_sorted || ltb beam_size (length hyps)
      then take (min (length hyps) beam_size) by_score
      else hyps

  -- What `candidatesStore` writes to `outputs`. Without a valid candidate a null pointer is read.
  unfoldable pub store_valid :
      LanguageModel W L → ℕ → Bool → Bool → List (State W L) → Result (List (State W L))
  unfolding merge_candidates select_best
  store_valid lm beam_size log_add return_sorted [] =
      if beam_size == 0 && not return_sorted then ok [] else throw Error.undefined_behaviour
  store_valid lm beam_size log_add return_sorted (c ∷ cs) =
      ok (select_best beam_size return_sorted (merge_candidates lm log_add c cs))

  unfoldable pub candidates_store :
      LanguageModel W L → ℕ → W → Bool → Bool → List (State W L) → Result (List (State W L))
  unfolding store_valid select_valid sort_by merge_order
  candidates_store lm beam_size threshold log_add return_sorted [] = ok []
  candidates_store lm beam_size threshold log_add return_sorted (c ∷ cs) =
      store_valid lm beam_size log_add return_sorted
        (sort_by (merge_order lm) (select_valid threshold (c ∷ cs)))

pub record DecodeResult {ℓ} (W : Type ℓ) : Type ℓ where
  pub score : W
  pub am_score : W
  pub lm_score : W
  pub words : List ℤ
  pub tokens : List ℤ

-- The frames of `hypothesis`; one that was never written is empty.
abbrev pub Frames {ℓ κ} : Type ℓ → Type κ → Type (ℓ ⊔ κ)
Frames W L = List (List (State W L))

module _ {ℓ κ} {W : Type ℓ} {L : Type κ} ⦃w : DecoderScore W⦄ where
  -- The tokens from a state of a frame back to its first ancestor, in the order in which they are written:
  -- at the frame, and at each frame before it. What is not written stays -1.
  unfoldable pub trace_tokens : Frames W L → ℕ → State W L → Result (List ℤ)
  trace_tokens frames zero state = elim state.parent [
    | none ↦ ok (state.token ∷ [])
    | some k ↦ throw Error.undefined_behaviour
  ]
  trace_tokens frames (suc f) state = elim state.parent [
    | none ↦ ok (state.token ∷ replicate (suc f) (negsuc 0))
    | some k ↦ (elim (get_elem? (get_or frames f []) k) [
      | none ↦ throw Error.undefined_behaviour
      | some parent ↦ trace_tokens frames f parent >>= λ tokens. ok (state.token ∷ tokens)
    ])
  ]

  -- `getHypothesis` of a state of the final frame; `getWord` of these states is -1.
  unfoldable pub get_hypothesis : Frames W L → ℕ → State W L → Result (DecodeResult W)
  unfolding trace_tokens
  get_hypothesis frames final_frame state = trace_tokens frames final_frame state >>= λ written.
      ok record {
        score = state.score;
        am_score = state.am_score;
        lm_score = state.lm_score;
        words = replicate (final_frame + 1) (negsuc 0);
        tokens = reverse written;
      }

  unfoldable pub get_all_hypothesis :
      Frames W L → List (State W L) → ℕ → Result (List (DecodeResult W))
  unfolding get_hypothesis
  get_all_hypothesis frames final_hyps final_frame =
      for_each (get_hypothesis frames final_frame) final_hyps
