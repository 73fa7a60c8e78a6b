-- ===== src/Text/Trie/Refinement.antt =====
-- What an insertion does to the table of a trie.
use flashlight.Prelude.{
  ℕ, ◌≡◌, refl, ap, ◌∙◌, true, false, ◌&&◌, List, [], ◌∷◌, some, ok, throw, out_of_range,
  Bool-cases, inl, inr, arith,
}
use flashlight.Prelude.Int.{ℤ, eqb_ℤ_iff}
use flashlight.Text.Trie.{
  Node, node, Children, is_invalid, set_child, child_or_new, add_label, insert, search,
}
use flashlight.Text.Trie.Table.{
  all_valid, same_indices, stored_if, table, find_child-set_child, table-add_label, table-set_child,
}

module _ {Score : Type 0} where
  -- After an insertion the table has the label and the score at the sequence inserted, when no index
  -- of it is refused, and is as it was everywhere else.
  pub table-insert :
      (m : ℕ) (is : List ℤ) (label : ℤ) (score : Score) (n : Node Score) (js : List ℤ)
      → table m (insert m is label score n).0 js
        ≡ stored_if (all_valid m is && same_indices is js) label score (table m n js)
  unfolding insert all_valid same_indices
  table-insert m [] label score n js = table-add_label m label score n js
  table-insert m (i ∷ is) label score (node k ls ss cs) js = elim (Bool-cases (is_invalid m i)) [
    | inl bad ↦ rw (bad, insert)
    | inr good ↦
        rw (good, insert)
          (table-set_child m i is label score k ls ss cs
            (insert m is label score (child_or_new i cs)).0 good
            (λ js. table-insert m is label score (child_or_new i cs) js) js)
  ]

  search-good :
      (m : ℕ) (i : ℤ) (is : List ℤ) (k : ℤ) (ls : List ℤ) (ss : List Score) (cs : Children Score)
      (n : Node Score)
      → is_invalid m i ≡ false
      → search m (i ∷ is) (node k ls ss (set_child i n cs)) ≡ search m is n
  unfolding search
  search-good m i is k ls ss cs n good =
      rw (good, search, find_child-set_child i i n cs, (eqb_ℤ_iff i i).1 refl)

  -- An insertion of indices that are all in range returns a node, and a search for them afterwards
  -- finds it.
  pub search-insert :
      (m : ℕ) (is : List ℤ) (label : ℤ) (score : Score) (n : Node Score)
      → all_valid m is ≡ true
      → (leaf : Node Score) × ((insert m is label score n).1 ≡ ok leaf)
        × (search m is (insert m is label score n).0 ≡ ok (some leaf))
  unfolding insert all_valid search
  search-insert m [] label score n h = (add_label label score n, refl, refl)
  search-insert m (i ∷ is) label score (node k ls ss cs) h =
      let good : is_invalid m i ≡ false = ground arith in
      let (leaf, returned, found) =
        search-insert m is label score (child_or_new i cs) (ground arith) in
      (
        leaf,
        rw (good, insert) returned,
        rw (good, insert)
            (search-good m i is k ls ss cs (insert m is label score (child_or_new i cs)).0 good
              ∙ found),
      )

  insert-throws :
      (m : ℕ) (is : List ℤ) (label : ℤ) (score : Score) (n : Node Score)
      → all_valid m is ≡ false
      → (insert m is label score n).1 ≡ throw out_of_range
  unfolding insert all_valid
  insert-throws m [] label score n h = absurd (ground arith)
  insert-throws m (i ∷ is) label score (node k ls ss cs) h = elim (Bool-cases (is_invalid m i)) [
    | inl bad ↦ rw (bad, insert)
    | inr good ↦
        rw (good, insert) (insert-throws m is label score (child_or_new i cs) (ground arith))
  ]

  -- An insertion with an index that is out of range throws, and stores nothing anywhere.
  pub insert-refused :
      (m : ℕ) (is : List ℤ) (label : ℤ) (score : Score) (n : Node Score) (js : List ℤ)
      → all_valid m is ≡ false
      → ((insert m is label score n).1 ≡ throw out_of_range)
        × (table m (insert m is label score n).0 js ≡ table m n js)
  insert-refused m is label score n js h = (
    insert-throws m is label score n h,
    table-insert m is label score n js
        ∙ ap (λ b. stored_if (b && same_indices is js) label score (table m n js)) h,
  )
