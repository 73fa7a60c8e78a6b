-- ===== src/Text/Decoder/Links.antt =====
-- The frames of a decoder: every hypothesis has its parent in the frame before.
use flashlight.Prelude.{
  ℕ, suc, ◌+◌, ◌-◌, ◌≤◌, ◌≡◌, refl, ap, ◌∙◌, List, [], ◌∷◌, ◌++◌, none, arith, length,
  length-append, get_or, set,
}
use flashlight.Text.Decoder.{State, Frames}
use flashlight.Text.Decoder.Parents.{LinksInto}
use flashlight.Text.Decoder.LexiconFree.{write_frame}

-- The hypotheses of the first frame have no parent.
unfoldable pub Roots {ℓ κ} : {W : Type ℓ} {L : Type κ} → List (State W L) → Type 0
Roots [] = Unit
Roots (state ∷ states) = (state.parent ≡ none) × Roots states

-- Frames that follow a frame of `n` hypotheses, none larger than the beam.
unfoldable pub Chain {ℓ κ} : {W : Type ℓ} {L : Type κ} → ℕ → ℕ → Frames W L → Type 0
unfolding LinksInto
Chain beam_size n [] = Unit
Chain beam_size n (f ∷ fs) = LinksInto n f × (length f ≤ beam_size) × Chain beam_size (length f) fs

unfoldable pub Linked {ℓ κ} : {W : Type ℓ} {L : Type κ} → ℕ → Frames W L → Type 0
unfolding Roots Chain
Linked beam_size [] = Unit
Linked beam_size (f ∷ fs) = Roots f × Chain beam_size (length f) fs

module _ {ℓ κ} {W : Type ℓ} {L : Type κ} where
  set-append_last :
      (frames : Frames W L) (v u : List (State W L))
      → set (frames ++ (u ∷ [])) (length frames) v ≡ frames ++ (v ∷ [])
  set-append_last [] v u = refl
  set-append_last (f ∷ fs) v u = ap (◌∷◌ f) (set-append_last fs v u)

  write_frame-append :
      (i : ℕ) (v : List (State W L)) (frames : Frames W L)
      → length frames ≡ i
      → write_frame i v frames ≡ frames ++ (v ∷ [])
  unfolding write_frame
  write_frame-append i v frames e =
      let one : i + 1 - length frames ≡ 1 = omega (arith, e) in
      rw (one, ← e) (set-append_last frames v [])

  -- The size of the last frame.
  last_size : ℕ → Frames W L → ℕ
  last_size n [] = n
  last_size n (f ∷ fs) = last_size (length f) fs

  last_size-get_or :
      (f : List (State W L)) (fs : Frames W L)
      → last_size (length f) fs ≡ length (get_or (f ∷ fs) (length fs) [])
  unfolding last_size
  last_size-get_or f [] = refl
  last_size-get_or f (g ∷ fs) = last_size-get_or g fs

  Chain-append :
      (beam_size n : ℕ) (fs : Frames W L) (v : List (State W L))
      → Chain beam_size n fs
      → LinksInto (last_size n fs) v
      → length v ≤ beam_size
      → Chain beam_size n (fs ++ (v ∷ []))
  unfolding Chain last_size
  Chain-append beam_size n [] v chain links small = (links, small, tt)
  Chain-append beam_size n (f ∷ fs) v (first, size, chain) links small =
      (first, size, Chain-append beam_size (length f) fs v chain links small)

  -- A frame that is written after the last one.
  pub write_frame-Linked :
      (beam_size i : ℕ) (frames : Frames W L) (v : List (State W L))
      → Linked beam_size frames
      → length frames ≡ suc i
      → LinksInto (length (get_or frames i [])) v
      → length v ≤ beam_size
      → Linked beam_size (write_frame (i + 1) v frames)
        × (length (write_frame (i + 1) v frames) ≡ suc (suc i))
  unfolding Linked
  write_frame-Linked beam_size i [] v linked e links small = absurd (omega (arith, e))
  write_frame-Linked beam_size i (f ∷ fs) v (roots, chain) e links small =
      let whole : length (f ∷ fs) ≡ i + 1 = omega (arith, e) in
      let n : length fs ≡ i = omega (arith, e) in
      let last : last_size (length f) fs ≡ length (get_or (f ∷ fs) i []) =
        last_size-get_or f fs ∙ ap (λ j. length (get_or (f ∷ fs) j [])) n in
      rw (write_frame-append (i + 1) v (f ∷ fs) whole) (
        (roots, Chain-append beam_size (length f) fs v chain (rw last links) small),
        omega (arith, length-append fs (v ∷ []), n),
      )
