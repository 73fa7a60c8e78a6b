-- ===== src/Text/Replabels/RoundTrip.antt =====
-- Packed repetitions are unpacked again.
use flashlight.Prelude.{
  ℕ, zero, suc, ◌+◌, ◌≤◌, ◌≡◌, refl, sym, ap, ◌∙◌, Bool, true, false, not, ◌&&◌, ◌||◌, List, [],
  ◌∷◌, ◌++◌, some, none, Result, ok, length, ltb, get_or, get_elem?, get_elem?_of_lt,
  for_each-cons_ok, replicate, Bool-cases, inl, inr, arith, for_each, range_from, length-range_from,
}
use flashlight.Prelude.Int.{ℤ, pos, negsuc, eqb_ℤ, eqb_ℤ_iff}
use flashlight.Prelude.Maps.{
  Map, lookup, emplace, int_key, lookup-emplace_taken, lookup-emplace_free,
}
use flashlight.Text.Dictionary.{Dictionary, get_index}
use flashlight.Text.Replabels.{
  replabel, replabel_indices, flush, pack_loop, pack_replabels, idx_to_value, unpack_loop,
  unpack_replabels,
}

unfoldable pub has : ℤ → List ℤ → Bool
has x [] = false
has x (y ∷ ys) = eqb_ℤ x y || has x ys

-- No index stands for two repetition labels.
unfoldable pub are_distinct : List ℤ → Bool
unfolding has
are_distinct [] = true
are_distinct (x ∷ xs) = not (has x xs) && are_distinct xs

-- No token is a repetition label or -1.
unfoldable pub are_plain : List ℤ → List ℤ → Bool
unfolding has
are_plain labels [] = true
are_plain labels (t ∷ tokens) =
    (not (has t labels) && not (eqb_ℤ t (negsuc 0))) && are_plain labels tokens

has-get_elem? : (xs : List ℤ) (j : ℕ) (y : ℤ) → get_elem? xs j ≡ some y → has y xs ≡ true
unfolding has
has-get_elem? [] j y h = absurd (ground arith)
has-get_elem? (x ∷ xs) zero y h = ground (arith, eqb_ℤ_iff y x)
has-get_elem? (x ∷ xs) (suc j) y h = ground (arith, has-get_elem? xs j y h)

idx_to_value-keeps :
    (xs : List ℤ) (i : ℕ) (m : Map ℤ ℕ) (y : ℤ) (n : ℕ)
    → lookup y m ≡ some n
    → lookup y (idx_to_value xs i m) ≡ some n
unfolding idx_to_value
idx_to_value-keeps [] i m y n h = h
idx_to_value-keeps (x ∷ xs) i m y n h =
    idx_to_value-keeps xs (i + 1) (emplace x i m) y n (lookup-emplace_taken x y i n m h)

-- The map gives each label its number.
idx_to_value-finds :
    (xs : List ℤ) (i : ℕ) (m : Map ℤ ℕ) (j : ℕ) (y : ℤ)
    → are_distinct xs ≡ true
    → get_elem? xs j ≡ some y
    → lookup y m ≡ none
    → lookup y (idx_to_value xs i m) ≡ some (i + j)
unfolding idx_to_value are_distinct
idx_to_value-finds [] i m j y distinct h free = absurd (ground arith)
idx_to_value-finds (x ∷ xs) i m zero y distinct h free =
    let it : x ≡ y = ground arith in
    let e : i + 0 ≡ i = omega arith in
    rw e (
      idx_to_value-keeps xs (i + 1) (emplace x i m) y i
        (lookup-emplace_free x y i m free ∙ ground (arith, eqb_ℤ_iff x y)))
idx_to_value-finds (x ∷ xs) i m (suc j) y distinct h free =
    let there : has y xs ≡ true = has-get_elem? xs j y h in
    let other : eqb_ℤ x y ≡ false = ground (arith, eqb_ℤ_iff x y) in
    let e : i + 1 + j ≡ i + suc j = omega arith in
    rw e at (
      idx_to_value-finds xs (i + 1) (emplace x i m) j y (ground arith) h
        (lookup-emplace_free x y i m free ∙ ground arith))

-- The map does not know what is no label.
idx_to_value-misses :
    (xs : List ℤ) (i : ℕ) (m : Map ℤ ℕ) (t : ℤ)
    → has t xs ≡ false
    → lookup t m ≡ none
    → lookup t (idx_to_value xs i m) ≡ none
unfolding idx_to_value has
idx_to_value-misses [] i m t h free = free
idx_to_value-misses (x ∷ xs) i m t h free =
    idx_to_value-misses xs (i + 1) (emplace x i m) t (ground arith)
      (lookup-emplace_free x t i m free ∙ ground (arith, eqb_ℤ_iff x t, eqb_ℤ_iff t x))

get_or-get_elem? : (xs : List ℤ) (i : ℕ) (x y : ℤ) → get_elem? xs i ≡ some y → get_or xs i x ≡ y
get_or-get_elem? [] i x y h = absurd (ground arith)
get_or-get_elem? (z ∷ xs) zero x y h = ground arith
get_or-get_elem? (z ∷ xs) (suc i) x y h = get_or-get_elem? xs i x y h

replicate-shift :
    (n : ℕ) (x : ℤ) (ys : List ℤ) → replicate n x ++ (x ∷ ys) ≡ x ∷ (replicate n x ++ ys)
replicate-shift zero x ys = refl
replicate-shift (suc n) x ys = ap (◌∷◌ x) (replicate-shift n x ys)

length-for_each {ℓ κ} :
    {A : Type ℓ} {B : Type κ} (f : A → Result B) (xs : List A) (ys : List B)
    → for_each f xs ≡ ok ys
    → length ys ≡ length xs
length-for_each f [] ys h = let e : ys ≡ [] = ground arith in rw e
length-for_each f (x ∷ xs) ys h =
    let (y, rest, _, others, e) = for_each-cons_ok f x xs ys h in
    rw (e, length-for_each f xs rest others)

-- The labels of a dictionary: the vector of `packReplabels` and the map of `unpackReplabels`.
module _ (labels : List ℤ) (distinct : are_distinct labels ≡ true) where
  values : Map ℤ ℕ
  unfolding idx_to_value
  values = idx_to_value labels 1 []

  values-label :
      (reps : ℕ)
      → suc reps ≤ length labels
      → lookup (get_or (pos 0 ∷ labels) (suc reps) (pos 0)) values ≡ some (suc reps)
  unfolding values lookup
  values-label reps h =
      let (y, at_reps) = get_elem?_of_lt labels reps (omega arith) in
      let number : 1 + reps ≡ suc reps = omega arith in
      rw (get_or-get_elem? labels reps (pos 0) y at_reps)
        (rw number at (idx_to_value-finds labels 1 [] reps y distinct at_reps refl))

  values-plain : (t : ℤ) → has t labels ≡ false → lookup t values ≡ none
  unfolding values lookup
  values-plain t h = idx_to_value-misses labels 1 [] t h refl

  -- A flushed label and the token after it.
  unpack-flush :
      (reps : ℕ) (prev t : ℤ) (rest : List ℤ)
      → reps ≤ length labels
      → eqb_ℤ prev (negsuc 0) ≡ false
      → has t labels ≡ false
      → unpack_loop values (flush (pos 0 ∷ labels) reps ++ (t ∷ rest)) prev
        ≡ replicate reps prev ++ (t ∷ unpack_loop values rest t)
  unfolding unpack_loop flush
  unpack-flush zero prev t rest h known plain = rw (values-plain t plain, unpack_loop)
  unpack-flush (suc reps) prev t rest h known plain =
      rw (values-label reps h, known, values-plain t plain, unpack_loop)

  unpack-pack :
      (tokens : List ℤ) (prev : ℤ) (reps : ℕ)
      → reps ≤ length labels
      → eqb_ℤ prev (negsuc 0) ≡ false
      → are_plain labels tokens ≡ true
      → unpack_loop values (pack_loop (pos 0 ∷ labels) (length labels) tokens prev reps) prev
        ≡ replicate reps prev ++ tokens
  unfolding unpack_loop flush pack_loop are_plain
  unpack-pack [] prev zero h known plain = refl
  unpack-pack [] prev (suc reps) h known plain = rw (values-label reps h, known, unpack_loop)
  unpack-pack (t ∷ tokens) prev reps h known plain =
      elim (Bool-cases (eqb_ℤ t prev && ltb reps (length labels))) [
        | inl again ↦
            let it : t ≡ prev = (eqb_ℤ_iff t prev).0 (ground arith) in
            rw (again, pack_loop)
              (unpack-pack tokens prev (suc reps) (ground arith) known (ground arith)
                ∙ sym (replicate-shift reps prev tokens)
                ∙ ap (λ u. replicate reps prev ++ (u ∷ tokens)) (sym it))
        | inr other ↦
            rw (other, pack_loop)
              (unpack-flush reps prev t (pack_loop (pos 0 ∷ labels) (length labels) tokens t 0) h
                  known (ground arith)
                ∙ ap (λ us. replicate reps prev ++ (t ∷ us))
                    (unpack-pack tokens t 0 (omega arith) (ground arith) (ground arith)))
      ]

  -- The first token is kept, since no token is the -1 that stands for none.
  unpack-pack_first :
      (t : ℤ) (tokens : List ℤ)
      → are_plain labels (t ∷ tokens) ≡ true
      → unpack_loop values
          (pack_loop (pos 0 ∷ labels) (length labels) (t ∷ tokens) (negsuc 0) 0)
          (negsuc 0)
        ≡ t ∷ tokens
  unfolding pack_loop are_plain unpack_loop flush
  unpack-pack_first t tokens plain =
      let new : eqb_ℤ t (negsuc 0) ≡ false = ground arith in
      let free : lookup t values ≡ none = values-plain t (ground arith) in
      rw (new, pack_loop, free, unpack_loop)
        (ap (◌∷◌ t) (unpack-pack tokens t 0 (omega arith) new (ground arith)))

pack_loop-cons :
    (vs : List ℤ) (m : ℕ) (t : ℤ) (ts : List ℤ)
    → eqb_ℤ t (negsuc 0) ≡ false
    → (us : List ℤ) × (pack_loop vs m (t ∷ ts) (negsuc 0) 0 ≡ t ∷ us)
unfolding pack_loop flush
pack_loop-cons vs m t ts new = (pack_loop vs m ts t 0, rw (new, pack_loop))

-- When the dictionary has an index for each of the repetition labels 1 to maxReps, all different, and
-- no token is such an index or -1, packReplabels returns, and unpackReplabels of what it returns gives
-- the tokens back.
pub unpack_replabels-pack_replabels :
    (dict : Dictionary) (max_reps : ℕ) (labels tokens : List ℤ)
    → replabel_indices dict max_reps ≡ ok labels
    → are_distinct labels ≡ true
    → are_plain labels tokens ≡ true
    → (packed : List ℤ) × (pack_replabels tokens dict (pos max_reps) ≡ ok packed)
      × (unpack_replabels packed dict (pos max_reps) ≡ ok tokens)
unfolding pack_replabels unpack_replabels values are_plain
unpack_replabels-pack_replabels dict max_reps labels [] found distinct plain = ([], refl, refl)
unpack_replabels-pack_replabels dict zero labels (t ∷ tokens) found distinct plain =
    (t ∷ tokens, refl, refl)
unpack_replabels-pack_replabels dict (suc reps) labels (t ∷ tokens) found distinct plain =
    let count : length labels ≡ suc reps =
      length-for_each (λ i. get_index dict (replabel i)) (range_from 1 (suc reps)) labels found
      ∙ length-range_from 1 (suc reps) in
    let new : eqb_ℤ t (negsuc 0) ≡ false = ground arith in
    let (us, shape) = pack_loop-cons (pos 0 ∷ labels) (suc reps) t tokens new in
    let back = rw count at (unpack-pack_first labels distinct t tokens plain) in
    (
      pack_loop (pos 0 ∷ labels) (suc reps) (t ∷ tokens) (negsuc 0) 0,
      rw found,
      rw (shape, found)
          (ap ok
            (ap (λ us. unpack_loop (idx_to_value labels 1 []) us (negsuc 0)) (sym shape) ∙ back)),
    )
