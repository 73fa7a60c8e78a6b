-- ===== src/Dataset/Batching/Slices.antt =====
-- The default batching function: what the batch holds, and when it refuses.
use flashlight.Prelude.{
  ℕ, zero, suc, ◌+◌, ◌<◌, ◌≤◌, ◌≡◌, ◌↔◌, refl, ◌∙◌, [], ◌∷◌, some, none, ok, throw,
  invalid_argument, leb, true, false, length, length-set, set, get_or, ltb, sym, ap, List,
  get_elem?, arith, Bool-cases, inl, inr, ◌⊎◌,
}
use mathlib.Core.Path.{subst}
use flashlight.Dataset.Batching.{
  Arrays, dims_eq, same_dims, copy_slices, batch_dim, default_batch, make_batch,
}

dims_eq_iff : (xs ys : List ℕ) → (dims_eq xs ys ≡ true) ↔ (xs ≡ ys)
unfolding dims_eq
dims_eq_iff [] [] = ((λ _. refl), (λ _. refl))
dims_eq_iff [] (y ∷ ys) = ground arith
dims_eq_iff (x ∷ xs) [] = ground arith
dims_eq_iff (x ∷ xs) (y ∷ ys) = ground (arith, dims_eq_iff xs ys)

set-set : (xs : List ℕ) (n u v : ℕ) → set (set xs n u) n v ≡ set xs n v
set-set [] n u v = refl
set-set (x ∷ xs) zero u v = refl
set-set (x ∷ xs) (suc n) u v = ap (◌∷◌ x) (set-set xs n u v)

set-same : (xs : List ℕ) (n : ℕ) → n < length xs → get_or xs n 0 ≡ 1 → set xs n 1 ≡ xs
set-same [] n h e = refl
set-same (x ∷ xs) zero h e = rw e refl
set-same (x ∷ xs) (suc n) h e = ap (◌∷◌ x) (set-same xs n (omega arith) e)

get_or-set : (xs : List ℕ) (n v : ℕ) → n < length xs → get_or (set xs n v) n 0 ≡ v
get_or-set [] n v h = absurd (omega arith)
get_or-set (x ∷ xs) zero v h = refl
get_or-set (x ∷ xs) (suc n) v h = get_or-set xs n v (omega arith)

module _ {ℓ} {A : Type ℓ} (arrays : Arrays A) where
  open arrays use {dims, dtype, elements, blank, slice}

  -- Every array has the given dimensions.
  abbrev pub AllHave : List ℕ → List A → Type 0
  AllHave expected [] = Unit {0}
  AllHave expected (d ∷ rest) = (dims d ≡ expected) × AllHave expected rest

  same_dims_iff :
      (expected : List ℕ) (items : List A)
      → (same_dims arrays expected items ≡ true) ↔ AllHave expected items
  unfolding same_dims
  same_dims_iff expected [] = ((λ _. tt), (λ _. refl))
  same_dims_iff expected (d ∷ rest) =
      ground (arith, dims_eq_iff (dims d) expected, same_dims_iff expected rest)

  -- Every array has the given type.
  abbrev pub AllOf : ℕ → List A → Type 0
  AllOf kind [] = Unit {0}
  AllOf kind (d ∷ rest) = (dtype d ≡ kind) × AllOf kind rest

  -- The rest of the items can be written from position `i` of dimension `n` on.
  record IsRoom (n i : ℕ) (items : List A) (batch : A) : Type ℓ where
    extents : AllHave (set (dims batch) n 1) items
    kinds : AllOf (dtype batch) items
    bound : i + length items ≤ get_or (dims batch) n 0

  -- Room for the items after the first, when that has been written.
  write_slice-IsRoom :
      (n i : ℕ) (d : A) (rest : List A) (batch : A)
      → IsRoom n i (d ∷ rest) batch
      → IsRoom n (i + 1) rest (arrays.write_slice batch n i d)
  write_slice-IsRoom n i d rest batch room =
      let inside : i < get_or (dims batch) n 0 = omega (arith, room.bound) in
      let (dims_d, dims_rest) = room.extents in
      let (kind_d, kind_rest) = room.kinds in
      let e : dims (arrays.write_slice batch n i d) ≡ dims batch =
        arrays.dims-write_slice batch n i d inside dims_d kind_d in
      let t : dtype (arrays.write_slice batch n i d) ≡ dtype batch =
        arrays.dtype-write_slice batch n i d inside dims_d kind_d in
      record {
        extents = rw e dims_rest;
        kinds = rw t kind_rest;
        bound = rw e (omega (arith, room.bound));
      }

  -- Positions before the first that is written stay.
  copy_slices_before :
      (n i j : ℕ) (items : List A) (batch : A)
      → j < i
      → i ≤ get_or (dims batch) n 0
      → IsRoom n i items batch
      → slice (copy_slices arrays n i items batch) n j ≡ slice batch n j
  unfolding copy_slices
  copy_slices_before n i j [] batch h le room = refl
  copy_slices_before n i j (d ∷ rest) batch h le room =
      let after = write_slice-IsRoom n i d rest batch room in
      copy_slices_before n (i + 1) j rest _ (omega arith) (omega (arith, after.bound)) after
      ∙ ground (
        arith,
        arrays.slice-write_slice batch n i j d (omega (arith, room.bound))
            (omega (arith, room.bound)) room.extents.0 room.kinds.0,
      )

  copy_slices-slice :
      (n i k : ℕ) (items : List A) (batch a : A)
      → IsRoom n i items batch
      → get_elem? items k ≡ some a
      → slice (copy_slices arrays n i items batch) n (i + k) ≡ a
  unfolding copy_slices
  copy_slices-slice n i k [] batch a room h = cc
  copy_slices-slice n i zero (d ∷ rest) batch a room h =
      let e : i + 0 ≡ i = omega arith in
      let after = write_slice-IsRoom n i d rest batch room in
      rw e (
        copy_slices_before n (i + 1) i rest _ (omega arith) (omega (arith, after.bound)) after
        ∙ ground (
          arith,
          arrays.slice-write_slice batch n i i d (omega (arith, room.bound))
              (omega (arith, room.bound)) room.extents.0 room.kinds.0,
        ))
  copy_slices-slice n i (suc k) (d ∷ rest) batch a room h =
      let e : i + suc k ≡ i + 1 + k = omega arith in
      rw e (copy_slices-slice n (i + 1) k rest _ a (write_slice-IsRoom n i d rest batch room) h)

  -- The dimension that is batched along has extent 1 in the arrays.
  batch_dim-extent :
      (first : A)
      → 0 < elements first
      → batch_dim arrays first < 4
      → get_or (dims first) (batch_dim arrays first) 0 ≡ 1
  unfolding batch_dim
  batch_dim-extent first some_in small = elim (Bool-cases (ltb 1 (elements first))) [
    | inl several ↦ rw several (
        arrays.dims-beyond first (arrays.ndims (dims first)) some_in (omega arith)
          (rw several at small))
    | inr single ↦ rw single (arrays.dims-single first 0 (ground arith) (omega arith))
  ]

  dims-extents :
      (first : A) (n : ℕ)
      → dims (blank (set (dims first) (batch_dim arrays first) n) first)
        ≡ set (dims first) (batch_dim arrays first) n
  dims-extents first n =
      arrays.dims-blank (set (dims first) (batch_dim arrays first) n) first
        (length-set (dims first) (batch_dim arrays first) n ∙ arrays.length-dims first)

  copy_slices-dims :
      (n i : ℕ) (items : List A) (batch : A)
      → IsRoom n i items batch
      → dims (copy_slices arrays n i items batch) ≡ dims batch
  unfolding copy_slices
  copy_slices-dims n i [] batch room = refl
  copy_slices-dims n i (d ∷ rest) batch room =
      copy_slices-dims n (i + 1) rest _ (write_slice-IsRoom n i d rest batch room)
      ∙ arrays.dims-write_slice batch n i d (omega (arith, room.bound)) room.extents.0 room.kinds.0

  -- The new array has room for all of them.
  blank-IsRoom :
      (first : A) (rest : List A)
      → AllHave (dims first) rest
      → AllOf (dtype first) rest
      → 0 < elements first
      → batch_dim arrays first < 4
      → IsRoom
          (batch_dim arrays first)
          0
          (first ∷ rest)
          (blank (set (dims first) (batch_dim arrays first) (suc (length rest))) first)
  blank-IsRoom first rest same kinds some_in small =
      let n : ℕ = batch_dim arrays first in
      let count : ℕ = suc (length rest) in
      let inside : n < length (dims first) = omega (arith, arrays.length-dims first, small) in
      let slot : set (set (dims first) n count) n 1 ≡ dims first =
        set-set (dims first) n count 1
        ∙ set-same (dims first) n inside (batch_dim-extent first some_in small) in
      record {
        extents =
            subst (λ e. AllHave e (first ∷ rest))
              (sym (ap (λ e. set e n 1) (dims-extents first count) ∙ slot)) (refl, same);
        kinds =
            subst (λ kind. AllOf kind (first ∷ rest))
              (sym (
                arrays.dtype-blank (set (dims first) n count) first
                  (length-set (dims first) n count ∙ arrays.length-dims first)))
              (refl, kinds);
        bound = rw (dims-extents first count, get_or-set (dims first) n count inside) (omega arith);
      }

  -- Arrays that are not empty, of the same dimensions, of fewer than four, and of the same type become
  -- one batch. It has as many positions in the batch dimension as there are arrays, and its slice at
  -- each of them is the array that stood there in the list.
  pub make_batch-slice :
      (first : A) (rest : List A)
      → AllHave (dims first) rest
      → AllOf (dtype first) rest
      → 0 < elements first
      → batch_dim arrays first < 4
      → (batch : A) × (make_batch arrays (first ∷ rest) none ≡ ok batch)
        × (dims batch ≡ set (dims first) (batch_dim arrays first) (suc (length rest)))
        × ((k : ℕ) (a : A)
            → get_elem? (first ∷ rest) k ≡ some a
            → slice batch (batch_dim arrays first) k ≡ a)
  unfolding make_batch default_batch
  make_batch-slice first rest same kinds some_in small =
      let agree : same_dims arrays (dims first) (first ∷ rest) ≡ true =
        (same_dims_iff (dims first) (first ∷ rest)).1 (refl, same) in
      let fits : leb 4 (batch_dim arrays first) ≡ false = ground arith in
      let extents : List ℕ = set (dims first) (batch_dim arrays first) (suc (length rest)) in
      let room = blank-IsRoom first rest same kinds some_in small in
      (
        copy_slices arrays (batch_dim arrays first) 0 (first ∷ rest) (blank extents first),
        rw (agree, fits),
        copy_slices-dims (batch_dim arrays first) 0 (first ∷ rest) (blank extents first) room
            ∙ dims-extents first (suc (length rest)),
        λ k a at_k.
            let e : 0 + k ≡ k = omega arith in
            rw e at (
              copy_slices-slice (batch_dim arrays first) 0 k (first ∷ rest) (blank extents first) a
                room at_k),
      )

  -- Otherwise the call throws.
  pub make_batch_refuses :
      (first : A) (rest : List A)
      → (¬ AllHave (dims first) rest) ⊎ (4 ≤ batch_dim arrays first)
      → make_batch arrays (first ∷ rest) none ≡ throw invalid_argument
  unfolding make_batch default_batch
  make_batch_refuses first rest (inr h) =
      let full : leb 4 (batch_dim arrays first) ≡ true = ground arith in
      elim (Bool-cases (same_dims arrays (dims first) (first ∷ rest))) [
        | inl e ↦ rw (e, full)
        | inr e ↦ rw e
      ]
  make_batch_refuses first rest (inl differ) =
      elim (Bool-cases (same_dims arrays (dims first) (first ∷ rest))) [
        | inl e ↦ absurd (differ ((same_dims_iff (dims first) (first ∷ rest)).0 e).1)
        | inr e ↦ rw e
      ]
