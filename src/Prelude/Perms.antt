-- ===== src/Prelude/Perms.antt =====
-- Permutations: of an in-place exchange, and of a nested concatenation taken the other way round.
use Prim.Native.Nat.{suc}
use mathlib.Core.List
use mathlib.Core.List.Perm
use mathlib.Core.Path.{refl, sym, ap, ◌∙◌}
use native.Mathlib.Bridge.{from_ℕ}
use flashlight.Prelude.{length}
use flashlight.Prelude.{
  ℕ, zero, suc, ◌≡◌, refl, List, [], ◌∷◌, ◌++◌, some, get_elem?, set, flat_map, append_assoc,
}
use mathlib.Core.List.{perm_append_comm}
pub use mathlib.Core.List.{Perm}

module _ {ℓ} {A : Type ℓ} where
  -- Exchanging a value for the element at `i`.
  pub set-perm :
      (xs : List A) (i : ℕ) (x v : A) → get_elem? xs i ≡ some x → Perm (v ∷ xs) (x ∷ set xs i v)
  set-perm [] i x v h = cc
  set-perm (y ∷ xs) zero x v h = let e : y ≡ x = cc in rw e (Perm.swap x v xs)
  set-perm (y ∷ xs) (suc i) x v h =
      Perm.trans (Perm.swap y v xs)
        (Perm.trans (Perm.cons y (set-perm xs i x v h)) (Perm.swap x y (set xs i v)))

  get_elem?-set :
      (xs : List A) (i j : ℕ) (a b : A)
      → get_elem? xs i ≡ some a
      → get_elem? xs j ≡ some b
      → get_elem? (set xs i b) j ≡ some b
  get_elem?-set [] i j a b p q = cc
  get_elem?-set (x ∷ xs) zero zero a b p q = refl
  get_elem?-set (x ∷ xs) zero (suc j) a b p q = q
  get_elem?-set (x ∷ xs) (suc i) zero a b p q = q
  get_elem?-set (x ∷ xs) (suc i) (suc j) a b p q = get_elem?-set xs i j a b p q

  -- Two elements changing places.
  pub exchange-perm :
      (xs : List A) (i j : ℕ) (a b : A)
      → get_elem? xs i ≡ some a
      → get_elem? xs j ≡ some b
      → Perm (set (set xs i b) j a) xs
  exchange-perm xs i j a b p q = Perm.symm (
      Perm.cons_inv (
        Perm.trans (set-perm xs i a b p)
          (set-perm (set xs i b) j b a (get_elem?-set xs i j a b p q))))

  perm_four : (ws xs ys zs : List A) → Perm ((ws ++ xs) ++ (ys ++ zs)) ((ws ++ ys) ++ (xs ++ zs))
  perm_four ws xs ys zs =
      rw (append_assoc ws xs (ys ++ zs), append_assoc ws ys (xs ++ zs))
        (Perm.append_left ws (
          rw (← append_assoc xs ys zs, ← append_assoc ys xs zs)
            (Perm.append_right zs (perm_append_comm xs ys))))

module _ {ℓ κ} {A : Type ℓ} {B : Type κ} where
  flat_map-append-perm :
      (f g : A → List B) (xs : List A)
      → Perm (flat_map (λ x. f x ++ g x) xs) (flat_map f xs ++ flat_map g xs)
  flat_map-append-perm f g [] = Perm.nil
  flat_map-append-perm f g (x ∷ xs) =
      Perm.trans (Perm.append_left (f x ++ g x) (flat_map-append-perm f g xs))
        (perm_four (f x) (g x) (flat_map f xs) (flat_map g xs))

  flat_map-nil : (xs : List A) → flat_map {B = B} (λ _. []) xs ≡ []
  flat_map-nil [] = refl
  flat_map-nil (x ∷ xs) = flat_map-nil xs

-- Rows first or columns first.
pub flat_map-swap-perm {ℓ κ μ} :
    {A : Type ℓ} {B : Type κ} {C : Type μ} (f : A → B → List C) (xs : List A) (ys : List B)
    → Perm (flat_map (λ x. flat_map (f x) ys) xs) (flat_map (λ y. flat_map (λ x. f x y) xs) ys)
flat_map-swap-perm f [] ys = rw (flat_map-nil ys) Perm.nil
flat_map-swap-perm f (x ∷ xs) ys =
    Perm.trans (Perm.append_left (flat_map (f x) ys) (flat_map-swap-perm f xs ys))
      (Perm.symm (flat_map-append-perm (f x) (λ y. flat_map (λ x'. f x' y) xs) ys))

length-from_ℕ {ℓ} : {A : Type ℓ} (xs : List A) → from_ℕ (List.length xs) ≡ length xs
length-from_ℕ [] = refl
length-from_ℕ (x ∷ xs) = ap suc (length-from_ℕ xs)

-- A permutation keeps the length.
pub length-perm {ℓ} : {A : Type ℓ} {xs ys : List A} → Perm xs ys → length xs ≡ length ys
length-perm {xs} {ys} p = sym (length-from_ℕ xs) ∙ ap from_ℕ (Perm.length-eq p) ∙ length-from_ℕ ys

pub length-reverse {ℓ} : {A : Type ℓ} (xs : List A) → length (List.reverse xs) ≡ length xs
length-reverse xs = length-perm (List.reverse_perm xs)
