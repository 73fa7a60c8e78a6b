-- ===== src/Text/Decoder/LexiconFree.antt =====
-- flashlight/lib/text/decoder/LexiconFreeDecoder.{h,cpp}, without the pruning for online decoding, so
-- that nPrunedFrames_ stays 0. The transitions are the decoder's own vector, which is read without a test
-- of the index. The emissions belong to the caller, who gives a pointer: they are a function of the index.
use flashlight.Prelude.{
  ℕ, zero, suc, ◌+◌, ◌-◌, ◌*◌, min, Bool, true, false, not, ◌&&◌, ◌||◌, List, [], ◌∷◌, ◌++◌, some,
  none, Result, ok, throw, Error, require, get_elem?, ◌>>=◌, length, get_or, set, take, replicate,
  range_from, ltb, if◌then◌else◌,
}
use flashlight.Prelude.Int.{ℤ, pos, negsuc, eqb_ℤ}
use flashlight.Text.Decoder.{
  DecoderScore, LanguageModel, State, Candidates, candidates_reset, candidates_add,
  candidates_store, sort_by, Frames, get_all_hypothesis, DecodeResult,
}

pub data CriterionType : Type 0 where
  asg ctc s2_s : CriterionType

pub record Options {ℓ} (W : Type ℓ) : Type ℓ where
  pub beam_size : ℕ
  pub beam_size_token : ℕ
  pub beam_threshold : W
  pub lm_weight : W
  pub sil_score : W
  pub log_add : Bool
  pub criterion_type : CriterionType

unfoldable pub is_asg : CriterionType → Bool
is_asg CriterionType.asg = true
is_asg _ = false

unfoldable pub is_ctc : CriterionType → Bool
is_ctc CriterionType.ctc = true
is_ctc _ = false

-- What changes during decoding.
pub record LexiconFreeDecoder {ℓ κ} (W : Type ℓ) (L : Type κ) : Type (ℓ ⊔ κ) where
  pub hyp : Frames W L
  pub decoded_frames : ℕ

-- `hyp_[i] = v`, which makes the frames up to `i` that are not there.
unfoldable pub write_frame {ℓ κ} :
    {W : Type ℓ} {L : Type κ} → ℕ → List (State W L) → Frames W L → Frames W L
write_frame i v frames = set (frames ++ replicate (i + 1 - length frames) []) i v

-- The tokens of a frame that are tried: `idx[0]`, `idx[1]`, ...
unfoldable pub best_tokens {ℓ} : {W : Type ℓ} ⦃w : DecoderScore W⦄ → ℕ → (ℕ → W) → ℕ → ℕ → List ℕ
unfolding sort_by
best_tokens ⦃w⦄ beam_size_token emissions t n_size =
    let idx = range_from 0 n_size in
    take (min beam_size_token n_size) (
      if ltb beam_size_token n_size
      then sort_by (λ l r. w.gt (emissions (t * n_size + l)) (emissions (t * n_size + r))) idx
      else idx)

module _ {ℓ κ} {W : Type ℓ} {L : Type κ} ⦃w : DecoderScore W⦄ (opt : Options W)
    (lm : LanguageModel W L) (sil blank : ℤ) (transitions : List W) where
  unfoldable pub decode_begin : LexiconFreeDecoder W L
  decode_begin = record {
    hyp =
        (record {
          score = w.nought;
          lm_state = lm.start false;
          parent = none;
          token = sil;
          prev_blank = false;
          am_score = w.nought;
          lm_score = w.nought;
        }
          ∷ [])
        ∷ [];
    decoded_frames = 0;
  }

  -- `transitions_[n * N + token]`; an index below 0 is one beyond the end for the vector.
  unfoldable pub read_transition : ℕ → ℕ → ℤ → Result W
  read_transition n n_size (pos token) =
      require (get_elem? transitions (n * n_size + token)) Error.undefined_behaviour
  read_transition n n_size (negsuc token) =
      if ltb token (n * n_size)
      then require (get_elem? transitions (n * n_size - (token + 1))) Error.undefined_behaviour
      else throw Error.undefined_behaviour

  -- `amScore` of token `n` at frame `t`.
  unfoldable pub acoustic_score : ℕ → (ℕ → W) → ℕ → State W L → ℕ → ℕ → Result W
  unfolding is_asg read_transition
  acoustic_score decoded emissions n_size prev_hyp t n =
      let emission = emissions (t * n_size + n) in
      if ltb 0 (decoded + t) && is_asg opt.criterion_type
      then (read_transition n n_size prev_hyp.token >>= λ transition.
          ok (w.plus emission transition))
      else ok emission

  -- A hypothesis followed by token `n`, whose parent stands at position `k` of its frame.
  unfoldable pub follow_hyp : (ℕ → W) → ℕ → ℕ → State W L → ℕ → ℕ → W → State W L
  unfolding is_asg is_ctc
  follow_hyp emissions n_size k prev_hyp t n am_score =
      let emission = emissions (t * n_size + n) in
      let sum = w.plus prev_hyp.score emission in
      let score = if eqb_ℤ (pos n) sil then w.plus sum opt.sil_score else sum in
      let (lm_state, lm_score) = lm.score prev_hyp.lm_state (pos n) in
      let same = eqb_ℤ (pos n) prev_hyp.token in
      let is_blank = eqb_ℤ (pos n) blank in
      if (is_asg opt.criterion_type && not same)
        || (is_ctc opt.criterion_type && (not is_blank && (not same || prev_hyp.prev_blank)))
      then record {
        score = w.plus score (w.times opt.lm_weight lm_score);
        lm_state = lm_state;
        parent = some k;
        token = pos n;
        prev_blank = false;
        am_score = w.plus prev_hyp.am_score am_score;
        lm_score = w.plus prev_hyp.lm_score lm_score;
      }
      else record {
        score = score;
        lm_state = prev_hyp.lm_state;
        parent = some k;
        token = pos n;
        prev_blank = is_ctc opt.criterion_type && is_blank;
        am_score = w.plus prev_hyp.am_score am_score;
        lm_score = prev_hyp.lm_score;
      }

  unfoldable pub extend_hyp : ℕ → (ℕ → W) → ℕ → ℕ → State W L → ℕ → ℕ → Result (State W L)
  unfolding acoustic_score follow_hyp
  extend_hyp decoded emissions n_size k prev_hyp t n =
      acoustic_score decoded emissions n_size prev_hyp t n >>= λ am_score.
      ok (follow_hyp emissions n_size k prev_hyp t n am_score)

  -- The two loops over the hypotheses of a frame and the tokens; `make` gives the state for each.
  unfoldable pub add_tokens :
      (ℕ → Result (State W L)) → List ℕ → Candidates W L → Result (Candidates W L)
  unfolding candidates_add
  add_tokens make [] c = ok c
  add_tokens make (n ∷ ns) c =
      make n >>= λ state. add_tokens make ns (candidates_add opt.beam_threshold state c)

  unfoldable pub add_hyps :
      (ℕ → State W L → ℕ → Result (State W L))
      → List ℕ
      → ℕ
      → List (State W L)
      → Candidates W L
      → Result (Candidates W L)
  unfolding add_tokens
  add_hyps make tokens k [] c = ok c
  add_hyps make tokens k (prev_hyp ∷ hyps) c =
      add_tokens (make k prev_hyp) tokens c >>= λ c'. add_hyps make tokens (k + 1) hyps c'

  -- The candidates of a frame, stored as the next one.
  unfoldable pub store_frame :
      ℕ → Bool → Candidates W L → LexiconFreeDecoder W L → Result (LexiconFreeDecoder W L)
  unfolding candidates_store write_frame
  store_frame i return_sorted c d =
      candidates_store lm opt.beam_size (w.minus c.best_score opt.beam_threshold) opt.log_add
        return_sorted c.candidates
      >>= λ outputs. ok (record d { hyp = write_frame i outputs d.hyp })

  -- One frame of `decodeStep`.
  unfoldable pub decode_frame :
      (ℕ → W) → ℕ → ℕ → LexiconFreeDecoder W L → Result (LexiconFreeDecoder W L)
  unfolding extend_hyp add_hyps store_frame best_tokens
  decode_frame emissions n_size t d =
      let start = d.decoded_frames in
      let tokens = best_tokens opt.beam_size_token emissions t n_size in
      add_hyps (λ k prev_hyp n. extend_hyp start emissions n_size k prev_hyp t n) tokens 0
        (get_or d.hyp (start + t) []) candidates_reset
      >>= λ c. store_frame (start + t + 1) false c d

  unfoldable pub decode_frames :
      (ℕ → W) → ℕ → ℕ → ℕ → LexiconFreeDecoder W L → Result (LexiconFreeDecoder W L)
  unfolding decode_frame
  decode_frames emissions n_size t zero d = ok d
  decode_frames emissions n_size t (suc frames) d =
      decode_frame emissions n_size t d >>= λ d'. decode_frames emissions n_size (t + 1) frames d'

  unfoldable pub decode_step :
      (ℕ → W) → ℕ → ℕ → LexiconFreeDecoder W L → Result (LexiconFreeDecoder W L)
  unfolding decode_frames
  decode_step emissions t_size n_size d = decode_frames emissions n_size 0 t_size d >>= λ d'.
      ok (record d' { decoded_frames = d'.decoded_frames + t_size })

  -- A hypothesis at the end of the input.
  unfoldable pub finish_hyp : ℕ → State W L → State W L
  finish_hyp k prev_hyp =
      let (lm_state, lm_score) = lm.finish prev_hyp.lm_state in
      record {
        score = w.plus prev_hyp.score (w.times opt.lm_weight lm_score);
        lm_state = lm_state;
        parent = some k;
        token = sil;
        prev_blank = false;
        am_score = prev_hyp.am_score;
        lm_score = w.plus prev_hyp.lm_score lm_score;
      }

  -- Each hypothesis is finished once, so that there is one round of the inner loop.
  unfoldable pub decode_end : LexiconFreeDecoder W L → Result (LexiconFreeDecoder W L)
  unfolding finish_hyp add_hyps store_frame
  decode_end d =
      add_hyps (λ k prev_hyp _. ok (finish_hyp k prev_hyp)) (0 ∷ []) 0
        (get_or d.hyp d.decoded_frames []) candidates_reset
      >>= (λ c. store_frame (d.decoded_frames + 1) true c d)
      >>= λ d'. ok (record d' { decoded_frames = d'.decoded_frames + 1 })

unfoldable pub get_all_final_hypothesis {ℓ κ} :
    {W : Type ℓ} {L : Type κ} ⦃w : DecoderScore W⦄
    → LexiconFreeDecoder W L
    → Result (List (DecodeResult W))
unfolding get_all_hypothesis
get_all_final_hypothesis d =
    get_all_hypothesis d.hyp (get_or d.hyp d.decoded_frames []) d.decoded_frames
