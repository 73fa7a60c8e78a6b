-- ===== src/Prelude/Outcome.antt =====
-- What a C++ call does: it returns, or it throws.
use mathlib.Core.Path.{◌≡◌, refl}
use mathlib.Core.List.{List, [], ◌∷◌}
use mathlib.Core.Option.{Option, none, some}
use mathlib.Core.Logic.{◌⊎◌, inl, inr}
use Prim.Native.Nat.{ℕ, suc, ◌+◌}
use native.Mathlib.Omega.{arith}
use flashlight.Prelude.Lists.{get_elem?, range_from, length}

-- The standard exception classes that the sources throw. `undefined_behaviour` marks a run that
-- leaves the language, such as a division by zero.
pub data Error : Type 0 where
  out_of_range invalid_argument length_error runtime_error logic_error undefined_behaviour : Error

-- `return a;` or `throw e;`
pub data Result {ℓ} (Value : Type ℓ) : Type ℓ where
  throw : Error → Result Value
  ok : Value → Result Value

-- What follows a call is run with the value that it returns, and is skipped by an exception.
infixl 5 ◌>>=◌
abbrev pub ◌>>=◌ {ℓ κ} : {V : Type ℓ} {W : Type κ} → Result V → (V → Result W) → Result W
call >>= rest = elim call [ ok v ↦ rest v | throw e ↦ throw e ]

-- The loop `for (x : xs) ys.push_back(f(x));`, which stops at the first exception.
abbrev pub for_each {ℓ κ} : {A : Type ℓ} {B : Type κ} → (A → Result B) → List A → Result (List B)
for_each f [] = ok []
for_each f (x ∷ xs) = f x >>= λ y. for_each f xs >>= λ ys. ok (y ∷ ys)

-- `if (!pointer) throw e;`, and the object otherwise.
abbrev pub require {ℓ} : {A : Type ℓ} → Option A → Error → Result A
require none e = throw e
require (some a) e = ok a

-- `v[i]` of a vector.
abbrev pub at {ℓ} : {A : Type ℓ} → List A → ℕ → Result A
at xs i = require (get_elem? xs i) undefined_behaviour

-- A loop over the positions of a list of results.
pub for_each-get_elem? {ℓ} :
    {A : Type ℓ} (f : ℕ → Result A) (xs : List A) (start : ℕ)
    → ((j : ℕ) (x : A) → get_elem? xs j ≡ some x → f (start + j) ≡ ok x)
    → for_each f (range_from start (length xs)) ≡ ok xs
for_each-get_elem? f [] start h = refl
for_each-get_elem? f (x ∷ xs) start h =
    let e : start + 0 ≡ start = omega arith in
    let head : f start ≡ ok x = rw e at (h 0 x refl) in
    rw (
      head,
      for_each-get_elem? f xs (start + 1) (λ j y at_j.
          let shift : start + 1 + j ≡ start + suc j = omega arith in rw shift (h (suc j) y at_j)),
    )

pub Result-cases {ℓ} :
    {V : Type ℓ} (r : Result V) → ((v : V) × (r ≡ ok v)) ⊎ ((e : Error) × (r ≡ throw e))
Result-cases (ok v) = inl (v, refl)
Result-cases (throw e) = inr (e, refl)

module _ {ℓ κ} {A : Type ℓ} {B : Type κ} where
  -- What the loop has pushed back came from the first call and then the others.
  pub for_each-cons_ok :
      (f : A → Result B) (x : A) (xs : List A) (ys : List B)
      → for_each f (x ∷ xs) ≡ ok ys
      → (y : B) × (rest : List B) × (f x ≡ ok y) × (for_each f xs ≡ ok rest) × (ys ≡ y ∷ rest)
  for_each-cons_ok f x xs ys h = elim (Result-cases (f x)) [
    | inr (e, thrown) ↦ absurd (ground arith)
    | inl (y, first) ↦ (elim (Result-cases (for_each f xs)) [
      | inr (e, thrown) ↦ absurd (ground arith)
      | inl (rest, others) ↦ (y, rest, first, others, ground arith)
    ])
  ]

  -- A call that undoes another undoes it in a loop.
  pub for_each-undo :
      (f : A → Result B) (g : B → Result A)
      → ((x : A) (y : B) → f x ≡ ok y → g y ≡ ok x)
      → (xs : List A) (ys : List B) → for_each f xs ≡ ok ys
      → for_each g ys ≡ ok xs
  for_each-undo f g undo [] ys h = let e : ys ≡ [] = ground arith in rw e
  for_each-undo f g undo (x ∷ xs) ys h =
      let (y, rest, first, others, e) = for_each-cons_ok f x xs ys h in
      rw (e, undo x y first, for_each-undo f g undo xs rest others)
