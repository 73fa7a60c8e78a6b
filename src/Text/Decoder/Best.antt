-- ===== src/Text/Decoder/Best.antt =====
-- The best hypothesis: findBestAncestor of flashlight/lib/text/decoder/Utils.h, and getBestHypothesis of
-- LexiconFreeDecoder.cpp. A state of this decoder is always complete, so the search for a complete
-- ancestor ends where it begins.
use flashlight.Prelude.{
  ℕ, zero, suc, ◌+◌, ◌-◌, ◌≡◌, refl, false, List, [], ◌∷◌, Option, some, none, Result, ok, throw,
  Error, ◌>>=◌, require, arith, length, get_or, get_elem?, get_elem?_of_lt, if◌then◌else◌, ◌==◌,
  Bool-cases, inl, inr,
}
use flashlight.Prelude.Perms.{length-reverse}
use flashlight.Prelude.Int.{ℤ}
use flashlight.Text.Decoder.{
  DecoderScore, LanguageModel, State, Frames, DecodeResult, get_hypothesis,
}
use flashlight.Text.Decoder.Parents.{HasParent}
use flashlight.Text.Decoder.Beam.{IsThreshold}
use flashlight.Text.Decoder.LexiconFree.{Options, LexiconFreeDecoder, decode_begin}
use flashlight.Text.Decoder.Sound.{IsSound}
use flashlight.Text.Decoder.Links.{Linked}
use flashlight.Text.Decoder.Hypotheses.{
  Linked-root, Linked-parent, trace_tokens-total, get_hypothesis-ok, Call, decode, decode-IsSound,
}

-- How long a result is, for so many hypotheses of the last frame.
abbrev pub best_length : ℕ → ℕ → ℕ → ℕ
best_length hyps f look_back = if hyps == 0 then 0 else suc f - look_back

-- `DecodeResult()`
abbrev pub no_result {ℓ} : {W : Type ℓ} ⦃w : DecoderScore W⦄ → DecodeResult W
no_result ⦃w⦄ = record {
  score = w.nought;
  am_score = w.nought;
  lm_score = w.nought;
  words = [];
  tokens = [];
}

unfoldable pub n_hypothesis {ℓ κ} : {W : Type ℓ} {L : Type κ} → LexiconFreeDecoder W L → ℕ
n_hypothesis d = length (get_or d.hyp d.decoded_frames [])

unfoldable pub decoded_frames_in_buffer {ℓ κ} :
    {W : Type ℓ} {L : Type κ} → LexiconFreeDecoder W L → ℕ
decoded_frames_in_buffer d = d.decoded_frames + 1

module _ {ℓ κ} {W : Type ℓ} {L : Type κ} ⦃w : DecoderScore W⦄ where
  -- The first of the states with the greatest score.
  unfoldable pub best_state : State W L → List (State W L) → State W L
  best_state best [] = best
  best_state best (node ∷ nodes) =
      best_state (if w.gt node.score best.score then node else best) nodes

  -- The ancestor so many frames before a state of a frame, with its frame; `none` stands for a null
  -- pointer.
  unfoldable pub look_back_from : Frames W L → ℕ → ℕ → State W L → Result (Option (ℕ × State W L))
  look_back_from frames f zero state = ok (some (f, state))
  look_back_from frames zero (suc n) state = elim state.parent [
    | none ↦ ok none
    | some k ↦ throw Error.undefined_behaviour
  ]
  look_back_from frames (suc f) (suc n) state = elim state.parent [
    | none ↦ ok none
    | some k ↦ require (get_elem? (get_or frames f []) k) Error.undefined_behaviour >>= λ parent.
        look_back_from frames f n parent
  ]

  unfoldable pub find_best_ancestor :
      Frames W L → ℕ → ℕ → List (State W L) → Result (Option (ℕ × State W L))
  unfolding best_state look_back_from
  find_best_ancestor frames f look_back [] = ok none
  find_best_ancestor frames f look_back (state ∷ states) =
      look_back_from frames f look_back (best_state state states)

  -- `getHypothesis` of a pointer.
  unfoldable pub get_pointed : Frames W L → Option (ℕ × State W L) → Result (DecodeResult W)
  unfolding get_hypothesis
  get_pointed frames none = ok no_result
  get_pointed frames (some (f, state)) = get_hypothesis frames f state

  unfoldable pub get_best_hypothesis : ℕ → LexiconFreeDecoder W L → Result (DecodeResult W)
  unfolding find_best_ancestor get_pointed
  get_best_hypothesis look_back d =
      find_best_ancestor d.hyp d.decoded_frames look_back (get_or d.hyp d.decoded_frames [])
      >>= λ best. get_pointed d.hyp best

  -- A position of a list holds the best state.
  best_state-found :
      (hyps : List (State W L)) (best : State W L) (nodes : List (State W L)) (start : ℕ)
      → ((j : ℕ) (x : State W L) → get_elem? nodes j ≡ some x → get_elem? hyps (start + j) ≡ some x)
      → (k : ℕ) × (get_elem? hyps k ≡ some best)
      → (k : ℕ) × (get_elem? hyps k ≡ some (best_state best nodes))
  unfolding best_state
  best_state-found hyps best [] start nodes_there there = there
  best_state-found hyps best (node ∷ nodes) start nodes_there there =
      best_state-found hyps (if w.gt node.score best.score then node else best) nodes (start + 1)
        (λ j x h.
          let e : start + 1 + j ≡ start + suc j = omega arith in rw e (nodes_there (suc j) x h))
        (elim (Bool-cases (w.gt node.score best.score)) [
          | inl e ↦ rw e (start + 0, nodes_there 0 node refl)
          | inr e ↦ rw e there
        ])

  look_back_from-total :
      (beam_size : ℕ) (frames : Frames W L) (f n k : ℕ) (state : State W L)
      → Linked beam_size frames
      → get_elem? (get_or frames f []) k ≡ some state
      → (r : DecodeResult W) × ((look_back_from frames f n state >>= λ best.
            get_pointed frames best)
          ≡ ok r)
        × (length r.tokens ≡ suc f - n)
  unfolding look_back_from get_pointed HasParent
  look_back_from-total beam_size frames f zero k state linked there =
      let (tokens, traced, long) = trace_tokens-total beam_size frames f k state linked there in
      (
        _,
        get_hypothesis-ok frames f state tokens traced,
        omega (arith, length-reverse tokens, long),
      )
  look_back_from-total beam_size frames zero (suc n) k state linked there =
      let root : state.parent ≡ none = Linked-root beam_size frames k state linked there in
      (no_result, rw (root, look_back_from) refl, omega arith)
  look_back_from-total beam_size frames (suc f) (suc n) k state linked there =
      let (j, parent, inside) = Linked-parent beam_size frames f k state linked there in
      let (prev_hyp, here) = get_elem?_of_lt (get_or frames f []) j inside in
      let (r, returned, long) = look_back_from-total beam_size frames f n j prev_hyp linked here in
      (r, rw (parent, here, look_back_from) returned, omega (arith, long))

  find_best_ancestor-total :
      (beam_size : ℕ) (frames : Frames W L) (f look_back : ℕ) (hyps : List (State W L))
      → Linked beam_size frames
      → get_or frames f [] ≡ hyps
      → (r : DecodeResult W) × ((find_best_ancestor frames f look_back hyps >>= λ best.
            get_pointed frames best)
          ≡ ok r)
        × (length r.tokens ≡ best_length (length hyps) f look_back)
  unfolding find_best_ancestor get_pointed
  find_best_ancestor-total beam_size frames f look_back [] linked e = (no_result, refl, refl)
  find_best_ancestor-total beam_size frames f look_back (state ∷ states) linked e =
      let (k, there) =
        best_state-found (state ∷ states) state states 1
          (λ j x h. let at_j : 1 + j ≡ suc j = omega arith in rw at_j h) (0, refl) in
      let (r, returned, long) =
        look_back_from-total beam_size frames f look_back k (best_state state states) linked
          (rw e there) in
      let some_hyp : (suc (length states) == 0) ≡ false = ground arith in
      (r, returned, rw some_hyp long)

module _ {ℓ κ} {W : Type ℓ} {L : Type κ} ⦃w : DecoderScore W⦄ (opt : Options W)
    (lm : LanguageModel W L) (sil blank : ℤ) (transitions : List W)
    (laws : IsThreshold opt.beam_threshold) where
  -- After any calls since decodeBegin, getBestHypothesis returns: the result has a token for each frame up
  -- to the one that is looked back to, and none when there is no hypothesis or no such frame. The beam
  -- threshold has to be one that is not below 0.
  pub get_best_hypothesis-total :
      (calls : List (Call W)) (look_back : ℕ) (d : LexiconFreeDecoder W L)
      → decode opt lm sil blank transitions calls (decode_begin opt lm sil blank transitions) ≡ ok d
      → (r : DecodeResult W) × (get_best_hypothesis look_back d ≡ ok r)
        × (length r.tokens ≡ best_length (n_hypothesis d) d.decoded_frames look_back)
  unfolding get_best_hypothesis n_hypothesis IsSound
  get_best_hypothesis-total calls look_back d decoded =
      let sound = decode-IsSound opt lm sil blank transitions laws calls d decoded in
      find_best_ancestor-total opt.beam_size d.hyp d.decoded_frames look_back
        (get_or d.hyp d.decoded_frames []) sound.linked refl
