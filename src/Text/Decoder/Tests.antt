-- ===== src/Text/Decoder/Tests.antt =====
-- The theorem on the decoder at a concrete input, and runs of the code.
use flashlight.Prelude.{
  ℕ, ◌+◌, ◌-◌, ◌*◌, ◌≡◌, refl, false, List, [], ◌∷◌, none, some, ok, throw, undefined_behaviour,
  arith, length, get_or, ltb, leb, if◌then◌else◌,
}
use flashlight.Prelude.Int.{pos, negsuc, to_size_t, ltb_ℤ}
use flashlight.Text.Decoder.{
  get_hypothesis, trace_tokens, DecoderScore, LanguageModel, State, DecodeResult, candidates_add,
  compare_states, merge_order, merged_score, select_valid, merge_candidates, select_best,
  store_valid, candidates_store, insert_by, sort_by,
}
use flashlight.Text.Decoder.Beam.{IsThreshold}
use flashlight.Text.Decoder.LexiconFree.{
  CriterionType, Options, LexiconFreeDecoder, is_asg, is_ctc, write_frame, best_tokens,
  decode_begin, extend_hyp, acoustic_score, follow_hyp, read_transition, add_tokens, add_hyps,
  store_frame, decode_frame, decode_frames, decode_step, decode_end, finish_hyp,
}
use flashlight.Text.Decoder.Best.{
  best_state, look_back_from, find_best_ancestor, get_pointed, get_best_hypothesis, n_hypothesis,
  best_length, get_best_hypothesis-total,
}
use flashlight.Text.Decoder.Hypotheses.{Call, decode}

-- Scores in whole numbers, from 0 up.
instance abbrev whole : DecoderScore ℕ
whole = record {
  nought = 0;
  neg_infinity = 0;
  plus = λ a b. a + b;
  minus = λ a b. a - b;
  times = λ a b. a * b;
  gt = λ a b. ltb b a;
  ge = λ a b. leb b a;
  log1p_exp = λ a. a;
}

-- A model whose state is the last token, from 0 up, and which likes none better than another.
abbrev last_token : LanguageModel ℕ ℕ
last_token = record {
  start = λ _. 0;
  score = λ _ token. (to_size_t token, 0);
  finish = λ state. (state, 0);
  compare = λ a b. if ltb b a then pos 1 else if ltb a b then negsuc 0 else pos 0;
}

abbrev options : Options ℕ
options = record {
  beam_size = 2;
  beam_size_token = 2;
  beam_threshold = 10;
  lm_weight = 1;
  sil_score = 0;
  log_add = false;
  criterion_type = CriterionType.asg;
}

options-IsThreshold : IsThreshold {W = ℕ} 10
options-IsThreshold = record { ge_neg_infinity = λ x. ground arith; ge_minus = λ x. ground arith }

-- Two frames of two tokens, and the scores of the tokens there.
abbrev emissions : ℕ → ℕ
emissions i = get_or (1 ∷ 5 ∷ 7 ∷ 2 ∷ []) i 0

abbrev transitions : List ℕ
transitions = 0 ∷ 0 ∷ 9 ∷ 0 ∷ []

abbrev calls : List (Call ℕ)
calls = Call.step emissions 1 2 ∷ Call.step (λ i. emissions (i + 2)) 1 2 ∷ Call.end ∷ []

-- No silence token, as in `buildDecoder` for a CTC model without a word separator.
abbrev ctc_options : Options ℕ
ctc_options = record options { criterion_type = CriterionType.ctc }

abbrev zero_token : State ℕ ℕ
zero_token = record {
  score = 5;
  lm_state = 0;
  parent = none;
  token = pos 0;
  prev_blank = false;
  am_score = 5;
  lm_score = 0;
}

-- The transition from token 0 to token 1 counts in the acoustic score, and not in the score by which
-- the beam is pruned.
transition_run :
    extend_hyp options last_token (pos 0) (pos 2) transitions 1 emissions 2 0 zero_token 0 1
    ≡ ok record {
      score = 10;
      lm_state = 1;
      parent = some 0;
      token = pos 1;
      prev_blank = false;
      am_score = 19;
      lm_score = 0;
    }
unfolding is_asg is_ctc extend_hyp acoustic_score follow_hyp read_transition to_size_t
transition_run = refl

-- Both hypotheses of one frame, the better one first.
abbrev after_step : LexiconFreeDecoder ℕ ℕ
after_step = record {
  hyp =
      (record zero_token { score = 0; am_score = 0 } ∷ [])
      ∷ (record zero_token { score = 5; lm_state = 1; parent = some 0; token = pos 1; am_score = 5 }
          ∷ record zero_token { score = 1; parent = some 0; am_score = 1 }
          ∷ [])
      ∷ [];
  decoded_frames = 1;
}

step_run :
    decode options last_token
      (pos 0)
      (pos 2)
      transitions
      (Call.step emissions 1 2 ∷ [])
      (decode_begin options last_token (pos 0) (pos 2) transitions)
    ≡ ok after_step
unfolding candidates_add compare_states merge_order merged_score select_valid merge_candidates
    select_best store_valid candidates_store insert_by sort_by is_asg is_ctc write_frame best_tokens
    to_size_t extend_hyp acoustic_score follow_hyp read_transition ltb_ℤ add_tokens add_hyps
    store_frame decode_frame decode_frames decode_step decode_begin decode
step_run = refl

get_best_hypothesis-total_example :
    (r : DecodeResult ℕ) × (get_best_hypothesis 0 after_step ≡ ok r)
    × (length r.tokens ≡ best_length (n_hypothesis after_step) 1 0)
get_best_hypothesis-total_example =
    get_best_hypothesis-total options last_token (pos 0) (pos 2) transitions options-IsThreshold
      (Call.step emissions 1 2 ∷ []) 0 after_step step_run

-- Its tokens, from the first frame on.
best_run :
    get_best_hypothesis 0 after_step
    ≡ ok record {
      score = 5;
      am_score = 5;
      lm_score = 0;
      words = negsuc 0 ∷ negsuc 0 ∷ [];
      tokens = pos 0 ∷ pos 1 ∷ [];
    }
unfolding get_best_hypothesis find_best_ancestor best_state look_back_from get_pointed
    get_hypothesis trace_tokens
best_run = refl

-- Without a candidate at the threshold, as when every score is NaN, a null pointer is read.
no_valid_run : store_valid last_token 2 false false [] ≡ throw undefined_behaviour
unfolding store_valid
no_valid_run = refl

-- With the ASG criterion and no silence token, a step after the end reads the transitions out of range.
step_after_end_run :
    decode options last_token
      (negsuc 0)
      (negsuc 0)
      transitions
      (Call.end ∷ Call.step emissions 1 2 ∷ [])
      (decode_begin options last_token (negsuc 0) (negsuc 0) transitions)
    ≡ throw undefined_behaviour
unfolding candidates_add compare_states merge_order merged_score select_valid merge_candidates
    select_best store_valid candidates_store insert_by sort_by is_asg is_ctc write_frame best_tokens
    to_size_t extend_hyp acoustic_score follow_hyp read_transition ltb_ℤ add_tokens add_hyps
    store_frame decode_frame decode_frames decode_step decode_begin decode_end finish_hyp decode
step_after_end_run = refl
