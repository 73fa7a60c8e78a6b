-- ===== src/Text/Decoder/Hypotheses.antt =====
-- The hypotheses that a decoder returns.
use mathlib.Core.List.{reverse}
use mathlib.Core.Path.{subst}
use flashlight.Prelude.{
  ℕ, zero, suc, ◌+◌, ◌≡◌, refl, ap, List, [], ◌∷◌, some, none, Result, ok, ◌>>=◌, arith, length,
  get_or, get_elem?, get_elem?_of_lt, replicate,
}
use flashlight.Prelude.Int.{ℤ, negsuc}
use flashlight.Text.Decoder.{
  DecoderScore, LanguageModel, State, Frames, DecodeResult, trace_tokens, get_hypothesis,
}
use flashlight.Text.Decoder.Parents.{HasParent, LinksInto}
use flashlight.Text.Decoder.Beam.{IsThreshold}
use flashlight.Text.Decoder.LexiconFree.{
  Options, LexiconFreeDecoder, decode_begin, decode_step, decode_end,
}
use flashlight.Text.Decoder.Links.{Roots, Chain, Linked}
use flashlight.Text.Decoder.Sound.{
  IsSound, Ends, Ends-bind, decode_begin-IsSound, decode_step-IsSound, decode_end-IsSound,
}

module _ {ℓ κ} {W : Type ℓ} {L : Type κ} where
  Roots-get_elem? :
      (xs : List (State W L)) (k : ℕ) (state : State W L)
      → Roots xs
      → get_elem? xs k ≡ some state
      → state.parent ≡ none
  unfolding Roots
  Roots-get_elem? [] k state roots h = absurd (ground arith)
  Roots-get_elem? (x ∷ xs) zero state (first, roots) h = let e : x ≡ state = cc in rw (← e) first
  Roots-get_elem? (x ∷ xs) (suc k) state (first, roots) h = Roots-get_elem? xs k state roots h

  LinksInto-get_elem? :
      (n : ℕ) (xs : List (State W L)) (k : ℕ) (state : State W L)
      → LinksInto n xs
      → get_elem? xs k ≡ some state
      → HasParent n state
  unfolding LinksInto
  LinksInto-get_elem? n [] k state links h = absurd (ground arith)
  LinksInto-get_elem? n (x ∷ xs) zero state (first, links) h =
      let e : x ≡ state = cc in subst (HasParent n) e first
  LinksInto-get_elem? n (x ∷ xs) (suc k) state (first, links) h =
      LinksInto-get_elem? n xs k state links h

  Chain-parent :
      (beam_size : ℕ) (g : List (State W L)) (fs : Frames W L) (f k : ℕ) (state : State W L)
      → Chain beam_size (length g) fs
      → get_elem? (get_or fs f []) k ≡ some state
      → HasParent (length (get_or (g ∷ fs) f [])) state
  unfolding Chain
  Chain-parent beam_size g [] f k state chain h = absurd (ground arith)
  Chain-parent beam_size g (x ∷ fs) zero k state (links, _, chain) h =
      LinksInto-get_elem? (length g) x k state links h
  Chain-parent beam_size g (x ∷ fs) (suc f) k state (links, _, chain) h =
      Chain-parent beam_size x fs f k state chain h

  pub Linked-root :
      (beam_size : ℕ) (frames : Frames W L) (k : ℕ) (state : State W L)
      → Linked beam_size frames
      → get_elem? (get_or frames 0 []) k ≡ some state
      → state.parent ≡ none
  unfolding Linked
  Linked-root beam_size [] k state linked h = absurd (ground arith)
  Linked-root beam_size (f ∷ fs) k state (roots, _) h = Roots-get_elem? f k state roots h

  pub Linked-parent :
      (beam_size : ℕ) (frames : Frames W L) (f k : ℕ) (state : State W L)
      → Linked beam_size frames
      → get_elem? (get_or frames (suc f) []) k ≡ some state
      → HasParent (length (get_or frames f [])) state
  unfolding Linked
  Linked-parent beam_size [] f k state linked h = absurd (ground arith)
  Linked-parent beam_size (g ∷ fs) f k state (_, chain) h =
      Chain-parent beam_size g fs f k state chain h

-- Every result has a token for each frame.
unfoldable pub AllLong {ℓ} : {W : Type ℓ} → ℕ → List (DecodeResult W) → Type 0
AllLong n [] = Unit
AllLong n (r ∷ rs) = (length r.tokens ≡ n) × AllLong n rs

module _ {ℓ κ} {W : Type ℓ} {L : Type κ} ⦃w : DecoderScore W⦄ where
  -- The way back from a hypothesis of a frame writes each token inside the result.
  pub trace_tokens-total :
      (beam_size : ℕ) (frames : Frames W L) (f k : ℕ) (state : State W L)
      → Linked beam_size frames
      → get_elem? (get_or frames f []) k ≡ some state
      → (tokens : List ℤ) × (trace_tokens frames f state ≡ ok tokens) × (length tokens ≡ suc f)
  unfolding trace_tokens HasParent
  trace_tokens-total beam_size frames zero k state linked h =
      let root : state.parent ≡ none = Linked-root beam_size frames k state linked h in
      (state.token ∷ [], rw (root, trace_tokens) refl, refl)
  trace_tokens-total beam_size frames (suc f) k state linked h =
      let (j, parent, inside) = Linked-parent beam_size frames f k state linked h in
      let (prev_hyp, there) = get_elem?_of_lt (get_or frames f []) j inside in
      let (tokens, traced, long) = trace_tokens-total beam_size frames f j prev_hyp linked there in
      (state.token ∷ tokens, rw (parent, there, traced, trace_tokens) refl, ap suc long)

  pub get_hypothesis-ok :
      (frames : Frames W L) (f : ℕ) (state : State W L) (tokens : List ℤ)
      → trace_tokens frames f state ≡ ok tokens
      → get_hypothesis frames f state
        ≡ ok record {
          score = state.score;
          am_score = state.am_score;
          lm_score = state.lm_score;
          words = replicate (f + 1) (negsuc 0);
          tokens = reverse tokens;
        }
  unfolding get_hypothesis
  get_hypothesis-ok frames f state tokens traced = rw traced refl

-- A call after `decodeBegin`.
pub data Call {ℓ} (W : Type ℓ) : Type ℓ where
  step : (ℕ → W) → ℕ → ℕ → Call W
  end : Call W

module _ {ℓ κ} {W : Type ℓ} {L : Type κ} ⦃w : DecoderScore W⦄ (opt : Options W)
    (lm : LanguageModel W L) (sil blank : ℤ) (transitions : List W) where
  unfoldable pub decode : List (Call W) → LexiconFreeDecoder W L → Result (LexiconFreeDecoder W L)
  unfolding decode_step decode_end
  decode [] d = ok d
  decode (Call.step emissions t_size n_size ∷ calls) d =
      decode_step opt lm sil blank transitions emissions t_size n_size d >>= λ d'. decode calls d'
  decode (Call.end ∷ calls) d = decode_end opt lm sil blank transitions d >>= λ d'. decode calls d'

  module _ (laws : IsThreshold opt.beam_threshold) where
    decode-Ends :
        (calls : List (Call W)) (d : LexiconFreeDecoder W L)
        → IsSound opt lm sil blank transitions laws d
        → Ends opt lm sil blank transitions laws
            (IsSound opt lm sil blank transitions laws)
            (decode calls d)
    unfolding decode
    decode-Ends [] d sound = sound
    decode-Ends (Call.step emissions t_size n_size ∷ calls) d sound =
        Ends-bind opt lm sil blank transitions laws _ (IsSound opt lm sil blank transitions laws)
          (decode_step opt lm sil blank transitions emissions t_size n_size d) (decode calls)
          (decode_step-IsSound opt lm sil blank transitions laws emissions t_size n_size d sound)
          (λ d' sound'. decode-Ends calls d' sound')
    decode-Ends (Call.end ∷ calls) d sound =
        Ends-bind opt lm sil blank transitions laws _ (IsSound opt lm sil blank transitions laws)
          (decode_end opt lm sil blank transitions d) (decode calls)
          (decode_end-IsSound opt lm sil blank transitions laws d sound)
          (λ d' sound'. decode-Ends calls d' sound')

    -- A decoder that some calls have left.
    pub decode-IsSound :
        (calls : List (Call W)) (d : LexiconFreeDecoder W L)
        → decode calls (decode_begin opt lm sil blank transitions) ≡ ok d
        → IsSound opt lm sil blank transitions laws d
    decode-IsSound calls d decoded =
        subst
          (λ r.
            Ends opt lm sil blank transitions laws (IsSound opt lm sil blank transitions laws) r)
          decoded
          (decode-Ends calls (decode_begin opt lm sil blank transitions)
            (decode_begin-IsSound opt lm sil blank transitions laws))
