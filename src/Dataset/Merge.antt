-- ===== src/Dataset/Merge.antt =====
-- flashlight/fl/dataset/MergeDataset.{h,cpp}: the fields of several datasets side by side. A field is
-- a value of any type.
use flashlight.Prelude.{
  ℕ, zero, suc, ◌<◌, ◌≤◌, ◌≡◌, refl, sym, ap, ◌∙◌, List, [], ◌∷◌, ◌++◌, Result, ok, throw, ◌>>=◌,
  ltb, max, true, false, ◌⊎◌, ◌↔◌, some, get_elem?, Bool-cases, inl, inr, append_assoc, append-nil,
  arith, if◌then◌else◌,
}
use native.Mathlib.Decide.{dec_le}
use flashlight.Prelude.Int.{ℤ, pos}
use flashlight.Dataset.{
  Dataset, check_index_bounds, IsGuarded, check_index_bounds_of_lt, check_index_bounds_of_outside,
}

-- A dataset whose samples are vectors of fields.
abbrev pub Fields {ℓ} : Type ℓ → Type ℓ
Fields A = Dataset (List A)

pub record MergeDataset {ℓ} (A : Type ℓ) : Type ℓ where
  pub datasets : List (Fields A)
  pub size : ℕ

module _ {ℓ} {A : Type ℓ} where
  -- The loop of the constructor.
  pub largest : ℕ → List (Fields A) → ℕ
  largest size [] = size
  largest size (d ∷ ds) = largest (max d.size size) ds

  unfoldable pub init : List (Fields A) → MergeDataset A
  unfolding largest
  init ds = record { datasets = ds; size = largest 0 ds }

  -- The loop of `get`, with the fields gathered so far.
  gather : List A → ℕ → List (Fields A) → Result (List A)
  gather result i [] = ok result
  gather result i (d ∷ ds) = elim (ltb i d.size) [
    | true ↦ d.get (pos i) >>= λ f. gather (result ++ f) i ds
    | false ↦ gather result i ds
  ]

  pub get : MergeDataset A → ℤ → Result (List A)
  unfolding gather
  get m idx = check_index_bounds idx m.size >>= λ i. gather [] i m.datasets

  abbrev pub as_dataset : MergeDataset A → Fields A
  as_dataset m = record { size = m.size; get = get m }

  -- The fields of sample `i` in those of the datasets that have one, in the order of the datasets.
  abbrev pub fields_at : ℕ → List (Fields A) → Result (List A)
  fields_at i [] = ok []
  fields_at i (d ∷ ds) =
      (if ltb i d.size then d.get (pos i) else ok []) >>= λ f. fields_at i ds >>= λ fs. ok (f ++ fs)

  regroup :
      (a b : List A) (r : Result (List A))
      → (r >>= λ fs. ok ((a ++ b) ++ fs)) ≡ ((r >>= λ fs. ok (b ++ fs)) >>= λ gs. ok (a ++ gs))
  regroup a b (ok fs) = ap ok (append_assoc a b fs)
  regroup a b (throw e) = refl

  gather_step :
      (result : List A) (i : ℕ) (ds : List (Fields A)) (r : Result (List A))
      → ((acc : List A) → gather acc i ds ≡ (fields_at i ds >>= λ fs. ok (acc ++ fs)))
      → (r >>= λ f. gather (result ++ f) i ds)
        ≡ ((r >>= λ f. fields_at i ds >>= λ fs. ok (f ++ fs)) >>= λ gs. ok (result ++ gs))
  gather_step result i ds (ok f) ih = ih (result ++ f) ∙ regroup result f (fields_at i ds)
  gather_step result i ds (throw e) ih = refl

  gather-fields_at :
      (result : List A) (i : ℕ) (ds : List (Fields A))
      → gather result i ds ≡ (fields_at i ds >>= λ fs. ok (result ++ fs))
  unfolding gather
  gather-fields_at result i [] = ap ok (sym (append-nil result))
  gather-fields_at result i (d ∷ ds) = elim (Bool-cases (ltb i d.size)) [
    | inl has ↦
        rw (has, gather)
          (gather_step result i ds (d.get (pos i)) (λ acc. gather-fields_at acc i ds))
    | inr lacks ↦
        rw (lacks, gather)
          (ap (λ acc. gather acc i ds) (sym (append-nil result))
            ∙ gather_step result i ds (ok []) (λ acc. gather-fields_at acc i ds))
  ]

  -- The greatest size is reached by a dataset, or was there before.
  largest-reached :
      (size i : ℕ) (ds : List (Fields A))
      → i < largest size ds
      → (i < size) ⊎ ((k : ℕ) × (d : Fields A) × (get_elem? ds k ≡ some d) × (i < d.size))
  unfolding largest
  largest-reached size i [] h = inl h
  largest-reached size i (d ∷ ds) h = elim (largest-reached (max d.size size) i ds h) [
    | inr (k, e, there, has) ↦ inr (suc k, e, there, has)
    | inl small ↦ (elim (dec_le (suc i) d.size) [
      | yes has ↦ inr (0, d, refl, has)
      | no lacks ↦ inl (omega arith)
    ])
  ]

  largest-ge : (size : ℕ) (ds : List (Fields A)) → size ≤ largest size ds
  unfolding largest
  largest-ge size [] = omega arith
  largest-ge size (d ∷ ds) = omega (arith, largest-ge (max d.size size) ds)

  largest-bounds :
      (size i k : ℕ) (d : Fields A) (ds : List (Fields A))
      → get_elem? ds k ≡ some d
      → i < d.size
      → i < largest size ds
  unfolding largest
  largest-bounds size i k d [] there h = cc
  largest-bounds size i zero d (e ∷ ds) there h =
      let it : e ≡ d = cc in
      let has : i < e.size = rw it h in omega (arith, has, largest-ge (max e.size size) ds)
  largest-bounds size i (suc k) d (e ∷ ds) there h =
      largest-bounds (max e.size size) i k d ds there h

  identity : (r : Result (List A)) → (r >>= λ fs. ok ([] ++ fs)) ≡ r
  identity (ok fs) = refl
  identity (throw e) = refl

  -- The view has a sample `i` as long as one of the datasets has. Sample `i` of the view is the fields
  -- that the datasets have there, in order, and the indices outside are refused.
  pub get-fields_at :
      (ds : List (Fields A))
      → ((i : ℕ)
          → i < (init ds).size
            ↔ ((k : ℕ) × (d : Fields A) × (get_elem? ds k ≡ some d) × (i < d.size)))
        × ((i : ℕ) → i < (init ds).size → get (init ds) (pos i) ≡ fields_at i ds)
        × IsGuarded (as_dataset (init ds))
  unfolding get init
  get-fields_at ds = (
    (λ i. (
      (λ h. elim (largest-reached 0 i ds h) [
        | inl none_left ↦ absurd (omega arith)
        | inr has ↦ has
      ]),
      (λ (k, d, there, has). largest-bounds 0 i k d ds there has),
    )),
    (λ i h.
        rw (check_index_bounds_of_lt i (largest 0 ds) h, gather-fields_at [] i ds)
          (identity (fields_at i ds))),
    (λ i h. rw (check_index_bounds_of_outside i (largest 0 ds) h)),
  )
