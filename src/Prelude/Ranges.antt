-- ===== src/Prelude/Ranges.antt =====
-- Ranges that follow on one another, and walks over a range.
use flashlight.Prelude.{
  ℕ, zero, suc, ◌+◌, ◌<◌, ◌≤◌, ◌≡◌, refl, sym, ap, ap₂, ◌∙◌, List, [], ◌∷◌, ◌++◌, map, Result, ok,
  for_each, range_from, range_from-append, flat_map, arith,
}

-- l a + l (a + 1) + ... over `m` terms
pub total : (ℕ → ℕ) → ℕ → ℕ → ℕ
total l a zero = 0
total l a (suc m) = l a + total l (a + 1) m

-- Ranges that follow on one another make one range.
pub chain :
    (s l : ℕ → ℕ) (a m : ℕ)
    → ((p : ℕ) → a ≤ p → p < a + m → s (p + 1) ≡ s p + l p)
    → flat_map (λ p. range_from (s p) (l p)) (range_from a m) ≡ range_from (s a) (total l a m)
unfolding total
chain s l a zero step = refl
chain s l a (suc m) step = rw (chain s l (a + 1) m (λ p h k. step p (omega arith) (omega arith))) (
    range_from-append (s a) (l a) (total l (a + 1) m) (s (a + 1))
      (sym (step a (omega arith) (omega arith))))

pub total-eq :
    (s l : ℕ → ℕ) (a m : ℕ)
    → ((p : ℕ) → a ≤ p → p < a + m → s (p + 1) ≡ s p + l p)
    → s a + total l a m ≡ s (a + m)
unfolding total
total-eq s l a zero step = let e : a + 0 ≡ a = omega arith in rw e (omega arith)
total-eq s l a (suc m) step =
    let e : a + 1 + m ≡ a + suc m = omega arith in
    let rest : s (a + 1) + total l (a + 1) m ≡ s (a + suc m) =
      rw (← e) (total-eq s l (a + 1) m (λ p h k. step p (omega arith) (omega arith))) in
    omega (arith, rest, step a (omega arith) (omega arith))

-- The range from the first start to the last.
pub chain_whole :
    (s l : ℕ → ℕ) (m start size : ℕ)
    → ((p : ℕ) → p < m → s (p + 1) ≡ s p + l p)
    → s 0 ≡ start
    → s m ≡ start + size
    → flat_map (λ p. range_from (s p) (l p)) (range_from 0 m) ≡ range_from start size
chain_whole s l m start size step first last =
    let step' : (p : ℕ) → 0 ≤ p → p < 0 + m → s (p + 1) ≡ s p + l p =
      λ p _ k. step p (omega arith) in
    let e : 0 + m ≡ m = omega arith in
    let whole : total l 0 m ≡ size = omega (arith, rw e at (total-eq s l 0 m step'), first, last) in
    chain s l 0 m step' ∙ ap₂ range_from first whole

pub flat_map-congr :
    (f g : ℕ → List ℕ) (a m : ℕ)
    → ((p : ℕ) → p < a + m → f p ≡ g p)
    → flat_map f (range_from a m) ≡ flat_map g (range_from a m)
flat_map-congr f g a zero h = refl
flat_map-congr f g a (suc m) h =
    ap₂ ◌++◌ (h a (omega arith)) (flat_map-congr f g (a + 1) m (λ p k. h p (omega arith)))

pub for_each-map :
    {A : Type 0} (f : ℕ → Result A) (g : ℕ → A) (a m : ℕ)
    → ((p : ℕ) → p < a + m → f p ≡ ok (g p))
    → for_each f (range_from a m) ≡ ok (map g (range_from a m))
for_each-map f g a zero h = refl
for_each-map f g a (suc m) h =
    rw (h a (omega arith), for_each-map f g (a + 1) m (λ p k. h p (omega arith)))

pub flat_map-map :
    {A B : Type 0} (g : A → List B) (xs : List A) → flat_map (λ s. s) (map g xs) ≡ flat_map g xs
flat_map-map g [] = refl
flat_map-map g (x ∷ xs) = ap (◌++◌ (g x)) (flat_map-map g xs)

pub flat_map-map_comp {ℓ κ μ} :
    {A : Type ℓ} {B : Type κ} {C : Type μ} (f : B → List C) (g : A → B) (xs : List A)
    → flat_map f (map g xs) ≡ flat_map (λ x. f (g x)) xs
flat_map-map_comp f g [] = refl
flat_map-map_comp f g (x ∷ xs) = ap (◌++◌ (f (g x))) (flat_map-map_comp f g xs)
