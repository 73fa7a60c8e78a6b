-- ===== src/Text/Decoder/Sound.antt =====
-- Every call of a decoder keeps its frames linked, and returns, unless transitions are read.
use flashlight.Prelude.{
  ℕ, zero, suc, ◌+◌, ◌<◌, ◌≡◌, refl, Bool, true, false, List, [], ◌∷◌, some, Result, ok, throw,
  ◌>>=◌, arith, length, get_or, Bool-cases, inl, inr, ltb,
}
use mathlib.Core.Path.{subst}
use flashlight.Prelude.Int.{ℤ}
use flashlight.Text.Decoder.{
  DecoderScore, LanguageModel, State, Candidates, candidates_reset, candidates_add,
}
use flashlight.Text.Decoder.Parents.{HasParent, LinksInto, candidates_add-LinksInto}
use flashlight.Text.Decoder.Beam.{
  HasBest, IsThreshold, reset-HasBest, candidates_add-HasBest, candidates_store-Stored,
}
use flashlight.Text.Decoder.LexiconFree.{
  Options, LexiconFreeDecoder, is_asg, best_tokens, decode_begin, acoustic_score, follow_hyp,
  extend_hyp, add_tokens, add_hyps, store_frame, decode_frame, decode_frames, decode_step,
  finish_hyp, decode_end,
}
use flashlight.Text.Decoder.Links.{Roots, Chain, Linked, write_frame-Linked}

module _ {ℓ κ} {W : Type ℓ} {L : Type κ} ⦃w : DecoderScore W⦄ (opt : Options W)
    (lm : LanguageModel W L) (sil blank : ℤ) (transitions : List W)
    (laws : IsThreshold opt.beam_threshold) where
  -- A run gives a value of which `P` holds. Only where the criterion reads the transitions may it fail.
  abbrev pub Ends {ι ν} : {A : Type ι} → (A → Type ν) → Result A → Type ν
  Ends P (ok a) = P a
  Ends P (throw e) = (is_asg opt.criterion_type ≡ true) × Unit {ν}

  pub Ends-bind {ι ξ ν ν'} :
      {A : Type ι} {B : Type ξ} (P : A → Type ν) (Q : B → Type ν') (r : Result A)
      (next : A → Result B)
      → Ends P r
      → ((a : A) → P a → Ends Q (next a))
      → Ends Q (r >>= next)
  Ends-bind P Q (ok a) next h rest = rest a h
  Ends-bind P Q (throw e) next h rest = (h.0, tt)

  add_tokens-LinksInto :
      (n : ℕ) (make : ℕ → Result (State W L)) (tokens : List ℕ) (c : Candidates W L)
      → ((token : ℕ) → Ends (HasParent n) (make token))
      → HasBest c × LinksInto n c.candidates
      → Ends
          (λ (c' : Candidates W L). HasBest c' × LinksInto n c'.candidates)
          (add_tokens opt lm sil blank transitions make tokens c)
  unfolding add_tokens
  add_tokens-LinksInto n make [] c parents h = h
  add_tokens-LinksInto n make (token ∷ tokens) c parents (best, links) =
      Ends-bind (HasParent n) _ (make token) _ (parents token) (λ state parent.
        add_tokens-LinksInto n make tokens (candidates_add opt.beam_threshold state c) parents (
          candidates_add-HasBest opt.beam_threshold laws state c best,
          candidates_add-LinksInto n opt.beam_threshold state c parent links,
        ))

  add_hyps-LinksInto :
      (n : ℕ) (make : ℕ → State W L → ℕ → Result (State W L)) (tokens : List ℕ) (k : ℕ)
      (hyps : List (State W L)) (c : Candidates W L)
      → ((m j : ℕ) (prev_hyp : State W L) (token : ℕ)
          → j < m
          → Ends (HasParent m) (make j prev_hyp token))
      → k + length hyps ≡ n
      → HasBest c × LinksInto n c.candidates
      → Ends
          (λ (c' : Candidates W L). HasBest c' × LinksInto n c'.candidates)
          (add_hyps opt lm sil blank transitions make tokens k hyps c)
  unfolding add_hyps
  add_hyps-LinksInto n make tokens k [] c parents e h = h
  add_hyps-LinksInto n make tokens k (prev_hyp ∷ hyps) c parents e h =
      Ends-bind (λ (c' : Candidates W L). HasBest c' × LinksInto n c'.candidates) _
        (add_tokens opt lm sil blank transitions (make k prev_hyp) tokens c) _
        (add_tokens-LinksInto n (make k prev_hyp) tokens c
          (λ token. parents n k prev_hyp token (omega (arith, e))) h)
        (λ c' h'. add_hyps-LinksInto n make tokens (k + 1) hyps c' parents (omega (arith, e)) h')

  -- The frames up to frame `i` are linked, and there are no others.
  pub record IsLinked (i : ℕ) (d : LexiconFreeDecoder W L) : Type 0 where
    pub linked : Linked opt.beam_size d.hyp
    pub frames : length d.hyp ≡ suc i

  -- A frame more than in `d`, the number of decoded frames being as it was.
  abbrev HasNext : ℕ → LexiconFreeDecoder W L → LexiconFreeDecoder W L → Type 0
  HasNext i d d' = IsLinked (suc i) d' × (d'.decoded_frames ≡ d.decoded_frames)

  store_frame-HasNext :
      (i : ℕ) (make : ℕ → State W L → ℕ → Result (State W L)) (tokens : List ℕ)
      (return_sorted : Bool) (d : LexiconFreeDecoder W L)
      → ((m j : ℕ) (prev_hyp : State W L) (token : ℕ)
          → j < m
          → Ends (HasParent m) (make j prev_hyp token))
      → IsLinked i d
      → Ends (HasNext i d) (
          add_hyps opt lm sil blank transitions make tokens 0 (get_or d.hyp i []) candidates_reset
          >>= λ c. store_frame opt lm sil blank transitions (i + 1) return_sorted c d)
  unfolding store_frame LinksInto
  store_frame-HasNext i make tokens return_sorted d parents sound =
      let last : List (State W L) = get_or d.hyp i [] in
      Ends-bind (λ (c : Candidates W L). HasBest c × LinksInto (length last) c.candidates)
        (HasNext i d) (add_hyps opt lm sil blank transitions make tokens 0 last candidates_reset) _
        (add_hyps-LinksInto (length last) make tokens 0 last candidates_reset parents (omega arith)
          (reset-HasBest W L, tt))
        (λ c (best, links).
          let (outputs, stored, into, small) =
            candidates_store-Stored opt.beam_threshold laws (length last) lm opt.beam_size
              opt.log_add return_sorted c best links in
          let (linked, size) =
            write_frame-Linked opt.beam_size i d.hyp outputs sound.linked sound.frames into small in
          rw stored (record { linked = linked; frames = size }, refl))

  acoustic_score-Ends :
      (decoded : ℕ) (emissions : ℕ → W) (n_size : ℕ) (prev_hyp : State W L) (t n : ℕ)
      → Ends
          (λ _. Unit {0})
          (acoustic_score opt lm sil blank transitions decoded emissions n_size prev_hyp t n)
  unfolding acoustic_score
  acoustic_score-Ends decoded emissions n_size prev_hyp t n =
      elim (Bool-cases (is_asg opt.criterion_type)) [
        | inl reads ↦
            excused reads
              (acoustic_score opt lm sil blank transitions decoded emissions n_size prev_hyp t n)
        | inr no_asg ↦ (elim (Bool-cases (ltb 0 (decoded + t))) [
          | inl later ↦ rw (later, no_asg) tt
          | inr first ↦ rw first tt
        ])
      ]
    where
      excused : is_asg opt.criterion_type ≡ true → (r : Result W) → Ends {A = W} (λ _. Unit {0}) r
      excused reads (ok a) = tt
      excused reads (throw e) = (reads, tt)

  follow_hyp-parent :
      (emissions : ℕ → W) (n_size k : ℕ) (prev_hyp : State W L) (t token : ℕ) (am_score : W)
      → (follow_hyp opt lm sil blank transitions emissions n_size k prev_hyp t token
          am_score).parent
        ≡ some k
  unfolding follow_hyp
  follow_hyp-parent emissions n_size k prev_hyp t token am_score = ground arith

  extend_hyp-HasParent :
      (decoded : ℕ) (emissions : ℕ → W) (n_size t m k : ℕ) (prev_hyp : State W L) (token : ℕ)
      → k < m
      → Ends
          (HasParent m)
          (extend_hyp opt lm sil blank transitions decoded emissions n_size k prev_hyp t token)
  unfolding extend_hyp HasParent
  extend_hyp-HasParent decoded emissions n_size t m k prev_hyp token h =
      Ends-bind (λ _. Unit {0}) (HasParent m)
        (acoustic_score opt lm sil blank transitions decoded emissions n_size prev_hyp t token) _
        (acoustic_score-Ends decoded emissions n_size prev_hyp t token)
        (λ am_score _. (k, follow_hyp-parent emissions n_size k prev_hyp t token am_score, h))

  decode_frames-IsLinked :
      (emissions : ℕ → W) (n_size t count : ℕ) (d : LexiconFreeDecoder W L)
      → IsLinked (d.decoded_frames + t) d
      → Ends
          (λ (d' : LexiconFreeDecoder W L).
            IsLinked (d.decoded_frames + t + count) d' × (d'.decoded_frames ≡ d.decoded_frames))
          (decode_frames opt lm sil blank transitions emissions n_size t count d)
  unfolding decode_frames decode_frame
  decode_frames-IsLinked emissions n_size t zero d sound =
      let e : d.decoded_frames + t + 0 ≡ d.decoded_frames + t = omega arith in (rw e sound, refl)
  decode_frames-IsLinked emissions n_size t (suc count) d sound =
      let make : ℕ → State W L → ℕ → Result (State W L) = λ k prev_hyp token.
        extend_hyp opt lm sil blank transitions d.decoded_frames emissions n_size k prev_hyp t
          token in
      let tokens : List ℕ = best_tokens opt.beam_size_token emissions t n_size in
      Ends-bind (HasNext (d.decoded_frames + t) d) _ _ _
        (store_frame-HasNext (d.decoded_frames + t) make tokens false d
          (λ m j prev_hyp token h.
            extend_hyp-HasParent d.decoded_frames emissions n_size t m j prev_hyp token h)
          sound)
        (λ d₁ (sound₁, same₁).
          let next : suc (d.decoded_frames + t) ≡ d₁.decoded_frames + (t + 1) =
            omega (arith, same₁) in
          let sound₂ : IsLinked (d₁.decoded_frames + (t + 1)) d₁ = rw next at sound₁ in
          let total : d₁.decoded_frames + (t + 1) + count ≡ d.decoded_frames + t + suc count =
            omega (arith, same₁) in
          subst
            (λ n.
              Ends
                (λ (d' : LexiconFreeDecoder W L).
                  IsLinked n d' × (d'.decoded_frames ≡ d.decoded_frames))
                (decode_frames opt lm sil blank transitions emissions n_size (t + 1) count d₁))
            total
            (subst
              (λ n.
                Ends
                  (λ (d' : LexiconFreeDecoder W L).
                    IsLinked (d₁.decoded_frames + (t + 1) + count) d' × (d'.decoded_frames ≡ n))
                  (decode_frames opt lm sil blank transitions emissions n_size (t + 1) count d₁))
              same₁ (decode_frames-IsLinked emissions n_size (t + 1) count d₁ sound₂)))

  -- A decoder between two calls.
  unfoldable pub IsSound : LexiconFreeDecoder W L → Type 0
  IsSound d = IsLinked d.decoded_frames d

  pub decode_begin-IsSound : IsSound (decode_begin opt lm sil blank transitions)
  unfolding IsSound decode_begin Linked Roots Chain
  decode_begin-IsSound = record { linked = ((refl, tt), tt); frames = refl }

  pub decode_step-IsSound :
      (emissions : ℕ → W) (t_size n_size : ℕ) (d : LexiconFreeDecoder W L)
      → IsSound d
      → Ends IsSound (decode_step opt lm sil blank transitions emissions t_size n_size d)
  unfolding IsSound decode_step
  decode_step-IsSound emissions t_size n_size d sound =
      let e : d.decoded_frames ≡ d.decoded_frames + 0 = omega arith in
      Ends-bind
        (λ (d' : LexiconFreeDecoder W L).
          IsLinked (d.decoded_frames + 0 + t_size) d' × (d'.decoded_frames ≡ d.decoded_frames))
        IsSound _ _
        (decode_frames-IsLinked emissions n_size 0 t_size d (subst (λ i. IsLinked i d) e sound))
        (λ d' (sound', same).
          let total : d.decoded_frames + 0 + t_size ≡ d'.decoded_frames + t_size =
            omega (arith, same) in
          let linked : IsLinked (d'.decoded_frames + t_size) d' = rw total at sound' in
          record { linked = linked.linked; frames = linked.frames })

  pub decode_end-IsSound :
      (d : LexiconFreeDecoder W L)
      → IsSound d
      → Ends IsSound (decode_end opt lm sil blank transitions d)
  unfolding IsSound decode_end finish_hyp HasParent
  decode_end-IsSound d sound =
      let make : ℕ → State W L → ℕ → Result (State W L) =
        λ k prev_hyp _. ok (finish_hyp opt lm sil blank transitions k prev_hyp) in
      Ends-bind (HasNext d.decoded_frames d) IsSound _ _
        (store_frame-HasNext d.decoded_frames make (0 ∷ []) true d
          (λ m j prev_hyp token h. (j, refl, h)) sound)
        (λ d' (sound', same).
          let next : suc d.decoded_frames ≡ d'.decoded_frames + 1 = omega (arith, same) in
          let linked : IsLinked (d'.decoded_frames + 1) d' = rw next at sound' in
          record { linked = linked.linked; frames = linked.frames })
