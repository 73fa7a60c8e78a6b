-- ===== src/Dataset/Transform.antt =====
-- flashlight/fl/dataset/TransformDataset.{h,cpp}: each field of a sample through a function of its
-- own. A field is a value of any type, and the functions may throw.
use flashlight.Prelude.{
  ℕ, suc, ◌+◌, ◌<◌, ◌≤◌, ◌≡◌, refl, List, [], ◌∷◌, Option, some, none, Result, ok, ◌>>=◌, require,
  invalid_argument, arith, get_elem?, get_elem?_of_le, length,
}
use mathlib.Core.Path.{fun_ext}
use flashlight.Prelude.Int.{ℤ, pos}
use flashlight.Dataset.{
  Dataset, check_index_bounds, IsGuarded, check_index_bounds_of_lt, check_index_bounds_of_outside,
}

-- A null function is `none`.
pub record TransformDataset {ℓ} (A : Type ℓ) : Type ℓ where
  pub dataset : Dataset (List A)
  pub transform_fns : List (Option (A → Result A))

module _ {ℓ} {A : Type ℓ} where
  pub init : Option (Dataset (List A)) → List (Option (A → Result A)) → Result (TransformDataset A)
  init dataset fns = do
    d ← require dataset invalid_argument
    ok (record { dataset = d; transform_fns = fns })

  -- What one round of the loop makes of the field: missing and null functions are passed over.
  transformed : Option (Option (A → Result A)) → A → Result A
  transformed none a = ok a
  transformed (some none) a = ok a
  transformed (some (some f)) a = f a

  -- The loop of `get`, from field `i` on: each field is replaced in place.
  transform_from : List (Option (A → Result A)) → ℕ → List A → Result (List A)
  transform_from fns i [] = ok []
  transform_from fns i (a ∷ result) = do
    b ← transformed (get_elem? fns i) a
    rest ← transform_from fns (i + 1) result
    ok (b ∷ rest)

  pub get : TransformDataset A → ℤ → Result (List A)
  unfolding transform_from transformed
  get t idx = do
    i ← check_index_bounds idx t.dataset.size
    result ← t.dataset.get (pos i)
    transform_from t.transform_fns 0 result

  abbrev pub as_dataset : TransformDataset A → Dataset (List A)
  as_dataset t = record { size = t.dataset.size; get = get t }

  -- The same by walking both vectors at once.
  abbrev pub apply_each : List (Option (A → Result A)) → List A → Result (List A)
  apply_each [] fields = ok fields
  apply_each (f ∷ fns) [] = ok []
  apply_each (none ∷ fns) (a ∷ fields) = apply_each fns fields >>= λ rest. ok (a ∷ rest)
  apply_each (some f ∷ fns) (a ∷ fields) =
      f a >>= λ b. apply_each fns fields >>= λ rest. ok (b ∷ rest)

  transform_from_beyond :
      (fns : List (Option (A → Result A))) (i : ℕ) (fields : List A)
      → length fns ≤ i
      → transform_from fns i fields ≡ ok fields
  unfolding transform_from transformed
  transform_from_beyond fns i [] h = refl
  transform_from_beyond fns i (a ∷ fields) h =
      rw (get_elem?_of_le fns i h, transform_from_beyond fns (i + 1) fields (omega arith))

  -- Past the first function the positions are those of the functions that are left.
  transform_from-cons :
      (f : Option (A → Result A)) (fns : List (Option (A → Result A))) (i : ℕ) (fields : List A)
      → transform_from (f ∷ fns) (suc i) fields ≡ transform_from fns i fields
  unfolding transform_from
  transform_from-cons f fns i [] = refl
  transform_from-cons f fns i (a ∷ fields) =
      let next : suc i + 1 ≡ suc (i + 1) = omega arith in
      rw (next, transform_from-cons f fns (i + 1) fields)

  transform_from-apply_each :
      (fns : List (Option (A → Result A))) (fields : List A)
      → transform_from fns 0 fields ≡ apply_each fns fields
  unfolding transform_from transformed
  transform_from-apply_each [] fields = transform_from_beyond [] 0 fields (omega arith)
  transform_from-apply_each (f ∷ fns) [] = refl
  transform_from-apply_each (none ∷ fns) (a ∷ fields) =
      rw (transform_from-cons none fns 0 fields, transform_from-apply_each fns fields)
  transform_from-apply_each (some f ∷ fns) (a ∷ fields) =
      rw (transform_from-cons (some f) fns 0 fields, transform_from-apply_each fns fields)

  -- Field `k` goes through function `k`; where that is missing or null the field stays. What the
  -- dataset or a function throws is thrown, and indices outside are refused.
  pub get-apply_each :
      (t : TransformDataset A)
      → ((i : ℕ)
          → i < t.dataset.size
          → get t (pos i) ≡ (t.dataset.get (pos i) >>= apply_each t.transform_fns))
        × IsGuarded (as_dataset t)
  unfolding get
  get-apply_each t = (
    (λ i h. rw (
      check_index_bounds_of_lt i t.dataset.size h,
      fun_ext (transform_from-apply_each t.transform_fns),
    )),
    (λ i h. rw (check_index_bounds_of_outside i t.dataset.size h)),
  )
