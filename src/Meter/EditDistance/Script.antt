-- ===== src/Meter/EditDistance/Script.antt =====
-- Edit scripts between two sequences, with their numbers of deletions, insertions and substitutions.
use flashlight.Prelude.{
  ℕ, ◌+◌, ◌≡◌, refl, ◌∙◌, Bool, true, false, List, [], ◌∷◌, ◌++◌, append-nil, arith,
}

-- From a target to an output: a deletion leaves out an element of the target, an insertion adds one
-- to the output.
pub data Script {ℓ} {A : Type ℓ} (same : A → A → Bool) : List A → List A → ℕ → ℕ → ℕ → Type ℓ where
  done : Script same [] [] 0 0 0
  deletes :
      (y : A) {xs ys : List A} {d i u : ℕ}
      → Script same xs ys d i u
      → Script same xs (y ∷ ys) (d + 1) i u
  inserts :
      (x : A) {xs ys : List A} {d i u : ℕ}
      → Script same xs ys d i u
      → Script same (x ∷ xs) ys d (i + 1) u
  keeps :
      {x y : A} {xs ys : List A} {d i u : ℕ}
      → same x y ≡ true
      → Script same xs ys d i u
      → Script same (x ∷ xs) (y ∷ ys) d i u
  replaces :
      {x y : A} {xs ys : List A} {d i u : ℕ}
      → same x y ≡ false
      → Script same xs ys d i u
      → Script same (x ∷ xs) (y ∷ ys) d i (u + 1)

module _ {ℓ} {A : Type ℓ} where
  abbrev pub reverse_onto : List A → List A → List A
  reverse_onto [] later = later
  reverse_onto (x ∷ xs) later = reverse_onto xs (x ∷ later)

  reverse_onto-reverse_onto :
      (xs us vs : List A) → reverse_onto (reverse_onto xs us) vs ≡ reverse_onto us (xs ++ vs)
  reverse_onto-reverse_onto [] us vs = refl
  reverse_onto-reverse_onto (x ∷ xs) us vs = reverse_onto-reverse_onto xs (x ∷ us) vs

  pub reverse_onto-twice : (xs : List A) → reverse_onto (reverse_onto xs []) [] ≡ xs
  reverse_onto-twice xs = reverse_onto-reverse_onto xs [] [] ∙ append-nil xs

module _ {ℓ} {A : Type ℓ} (same : A → A → Bool) where
  recount :
      {xs ys : List A} {d i u d' i' u' : ℕ}
      → Script same xs ys d i u
      → d ≡ d'
      → i ≡ i'
      → u ≡ u'
      → Script same xs ys d' i' u'
  recount s ed ei eu = rw (← ed, ← ei, ← eu) s

  -- A script read backwards, before another.
  Script-reverse_onto :
      {xs ys us vs : List A} {d i u d' i' u' : ℕ}
      → Script same xs ys d i u
      → Script same us vs d' i' u'
      → Script same (reverse_onto xs us) (reverse_onto ys vs) (d + d') (i + i') (u + u')
  Script-reverse_onto done t = recount t (omega arith) (omega arith) (omega arith)
  Script-reverse_onto (deletes y s) t =
      recount (Script-reverse_onto s (deletes y t)) (omega arith) (omega arith) (omega arith)
  Script-reverse_onto (inserts x s) t =
      recount (Script-reverse_onto s (inserts x t)) (omega arith) (omega arith) (omega arith)
  Script-reverse_onto (keeps e s) t = Script-reverse_onto s (keeps e t)
  Script-reverse_onto (replaces e s) t =
      recount (Script-reverse_onto s (replaces e t)) (omega arith) (omega arith) (omega arith)

  -- A script between two sequences is one between them backwards.
  pub Script-reverse :
      {xs ys : List A} {d i u : ℕ}
      → Script same xs ys d i u
      → Script same (reverse_onto xs []) (reverse_onto ys []) d i u
  Script-reverse s = recount (Script-reverse_onto s done) (omega arith) (omega arith) (omega arith)
