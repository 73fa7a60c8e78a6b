-- ===== src/Dataset/Batching/Columns.antt =====
-- The buffer of `makeBatchFromRange` is the samples by columns.
use flashlight.Prelude.{
  ℕ, zero, suc, ◌+◌, ◌≡◌, refl, sym, ap, ◌∙◌, List, [], ◌∷◌, ◌++◌, some, none, Result, ok, throw,
  ◌>>=◌, get_elem?, get_or, range_from, for_each, flat_map, append-nil, append_assoc,
}
use flashlight.Prelude.Int.{pos}
use flashlight.Dataset.{Dataset}
use flashlight.Dataset.Batching.{add_fields, fill_buffer}

module _ {ℓ} {A : Type ℓ} where
  -- Field `k` of a sample, as a list of one or none.
  abbrev pub field_at : ℕ → List A → List A
  field_at k sample = elim (get_elem? sample k) [ none ↦ [] | some a ↦ a ∷ [] ]

  add_fields-column :
      (buffer : List (List A)) (fields : List A) (k : ℕ)
      → get_or (add_fields buffer fields) k [] ≡ get_or buffer k [] ++ field_at k fields
  unfolding add_fields
  add_fields-column [] [] k = refl
  add_fields-column [] (f ∷ fields) zero = refl
  add_fields-column [] (f ∷ fields) (suc k) = add_fields-column [] fields k
  add_fields-column (column ∷ buffer) [] zero = sym (append-nil column)
  add_fields-column (column ∷ buffer) [] (suc k) = sym (append-nil (get_or buffer k []))
  add_fields-column (column ∷ buffer) (f ∷ fields) zero = refl
  add_fields-column (column ∷ buffer) (f ∷ fields) (suc k) = add_fields-column buffer fields k

  -- The buffer after all samples.
  abbrev pub add_all : List (List A) → List (List A) → List (List A)
  add_all buffer [] = buffer
  add_all buffer (fields ∷ samples) = add_all (add_fields buffer fields) samples

  add_all-column :
      (buffer samples : List (List A)) (k : ℕ)
      → get_or (add_all buffer samples) k [] ≡ get_or buffer k [] ++ flat_map (field_at k) samples
  add_all-column buffer [] k = sym (append-nil (get_or buffer k []))
  add_all-column buffer (fields ∷ samples) k =
      add_all-column (add_fields buffer fields) samples k
      ∙ ap (λ column. column ++ flat_map (field_at k) samples) (add_fields-column buffer fields k)
      ∙ append_assoc (get_or buffer k []) (field_at k fields) (flat_map (field_at k) samples)

  fill_step :
      (buffer : List (List A)) (first : Result (List A)) (rest : Result (List (List A)))
      (next : List (List A) → Result (List (List A)))
      → ((b : List (List A)) → next b ≡ (rest >>= λ samples. ok (add_all b samples)))
      → (first >>= λ fields. next (add_fields buffer fields)) ≡ (
          (first >>= λ fields. rest >>= λ samples. ok (fields ∷ samples)) >>= λ samples.
          ok (add_all buffer samples))
  fill_step buffer (throw e) rest next h = refl
  fill_step buffer (ok fields) (throw e) next h = h (add_fields buffer fields)
  fill_step buffer (ok fields) (ok samples) next h = h (add_fields buffer fields)

  fill_buffer-for_each :
      (d : Dataset (List A)) (i n : ℕ) (buffer : List (List A))
      → fill_buffer d i n buffer ≡ (
          for_each (λ j. d.get (pos j)) (range_from i n) >>= λ samples. ok (add_all buffer samples))
  unfolding fill_buffer
  fill_buffer-for_each d i zero buffer = refl
  fill_buffer-for_each d i (suc n) buffer =
      fill_step buffer (d.get (pos i)) (for_each (λ j. d.get (pos j)) (range_from (i + 1) n))
        (fill_buffer d (i + 1) n) (fill_buffer-for_each d (i + 1) n)

  -- The buffer is made of the samples read in order, up to the first that throws; its column `k`
  -- holds field `k` of each sample that has one, in the order of the samples.
  pub fill_buffer-columns :
      (d : Dataset (List A)) (i n : ℕ)
      → (fill_buffer d i n []
          ≡ (for_each (λ j. d.get (pos j)) (range_from i n) >>= λ samples. ok (add_all [] samples)))
        × ((samples : List (List A)) (k : ℕ)
            → get_or (add_all [] samples) k [] ≡ flat_map (field_at k) samples)
  fill_buffer-columns d i n = (fill_buffer-for_each d i n [], add_all-column [])
