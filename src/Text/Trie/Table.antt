-- ===== src/Text/Trie/Table.antt =====
-- The view of a trie as a table from sequences of indices to the labels and scores stored there.
use flashlight.Prelude.{
  ℕ, ◌≡◌, refl, sym, ap, ◌∙◌, Bool, true, false, not, ◌&&◌, List, [], ◌∷◌, ◌++◌, some, none, ok,
  throw, out_of_range, length, ltb, Bool-cases, Option-cases, inl, inr, arith, if◌then◌else◌,
}
use flashlight.Prelude.Int.{ℤ, eqb_ℤ, eqb_ℤ_iff}
use flashlight.Text.Trie.{
  Node, node, Children, no_child, child, max_label, is_invalid, new_node, find_child, set_child,
  child_or_new, add_label, insert, search,
}

-- No index of the sequence is refused.
unfoldable pub all_valid : ℕ → List ℤ → Bool
unfolding is_invalid
all_valid m [] = true
all_valid m (i ∷ is) = not (is_invalid m i) && all_valid m is

unfoldable pub same_indices : List ℤ → List ℤ → Bool
same_indices [] [] = true
same_indices [] (j ∷ js) = false
same_indices (i ∷ is) [] = false
same_indices (i ∷ is) (j ∷ js) = eqb_ℤ i j && same_indices is js

module _ {Score : Type 0} where
  abbrev pub stored : Node Score → List ℤ × List Score
  stored (node _ labels scores _) = (labels, scores)

  -- The table: what a search finds stored, and nothing where it finds no node.
  unfoldable pub table : ℕ → Node Score → List ℤ → List ℤ × List Score
  unfolding search
  table m n is = elim (search m is n) [
    | throw _ ↦ ([], [])
    | ok found ↦ (elim found [ none ↦ ([], []) | some leaf ↦ stored leaf ])
  ]

  -- One more label, up to the limit.
  unfoldable pub put : ℤ → Score → List ℤ × List Score → List ℤ × List Score
  put label score (labels, scores) =
      if ltb (length labels) max_label
      then (labels ++ (label ∷ []), scores ++ (score ∷ []))
      else (labels, scores)

  abbrev pub stored_if : Bool → ℤ → Score → List ℤ × List Score → List ℤ × List Score
  stored_if true label score old = put label score old
  stored_if false label score old = old

  pub find_child-set_child :
      (i j : ℤ) (n : Node Score) (cs : Children Score)
      → find_child j (set_child i n cs) ≡ (if eqb_ℤ i j then some n else find_child j cs)
  unfolding find_child set_child
  find_child-set_child i j n no_child = refl
  find_child-set_child i j n (child k c cs) =
      ground (arith, eqb_ℤ_iff k i, eqb_ℤ_iff i j, eqb_ℤ_iff k j, find_child-set_child i j n cs)

  table-new : (m : ℕ) (i : ℤ) (is : List ℤ) → table m (new_node i) is ≡ ([], [])
  unfolding table search find_child
  table-new m i [] = refl
  table-new m i (j ∷ is) = elim (Bool-cases (is_invalid m j)) [
    | inl bad ↦ rw (bad, search, table)
    | inr good ↦ rw (good, search, table)
  ]

  table-bad :
      (m : ℕ) (i : ℤ) (ls : List ℤ) (ss : List Score) (cs : Children Score) (j : ℤ) (is : List ℤ)
      → is_invalid m j ≡ true
      → table m (node i ls ss cs) (j ∷ is) ≡ ([], [])
  unfolding table search
  table-bad m i ls ss cs j is bad = rw (bad, search, table)

  table-good :
      (m : ℕ) (i : ℤ) (ls : List ℤ) (ss : List Score) (cs : Children Score) (j : ℤ) (is : List ℤ)
      → is_invalid m j ≡ false
      → table m (node i ls ss cs) (j ∷ is) ≡ table m (child_or_new j cs) is
  unfolding table search child_or_new
  table-good m i ls ss cs j is good = elim (Option-cases (find_child j cs)) [
    | inl e ↦ rw (good, search, e, table, child_or_new) (sym (table-new m j is))
    | inr (n, e) ↦ rw (good, search, e, table, child_or_new)
  ]

  child_or_new-set_same :
      (i j : ℤ) (n : Node Score) (cs : Children Score)
      → eqb_ℤ i j ≡ true
      → child_or_new j (set_child i n cs) ≡ n
  unfolding child_or_new
  child_or_new-set_same i j n cs h = rw (find_child-set_child i j n cs, h, child_or_new)

  child_or_new-set_other :
      (i j : ℤ) (n : Node Score) (cs : Children Score)
      → eqb_ℤ i j ≡ false
      → child_or_new j (set_child i n cs) ≡ child_or_new j cs
  unfolding child_or_new
  child_or_new-set_other i j n cs h = rw (find_child-set_child i j n cs, h, child_or_new)

  -- Storing at the node itself.
  pub table-add_label :
      (m : ℕ) (label : ℤ) (score : Score) (n : Node Score) (js : List ℤ)
      → table m (add_label label score n) js
        ≡ stored_if (same_indices [] js) label score (table m n js)
  unfolding table search add_label put same_indices
  table-add_label m label score (node i ls ss cs) [] =
      elim (Bool-cases (ltb (length ls) max_label)) [
        | inl e ↦ rw (e, add_label, put, table)
        | inr e ↦ rw (e, add_label, put, table)
      ]
  table-add_label m label score (node i ls ss cs) (j ∷ js) =
      elim (Bool-cases (ltb (length ls) max_label)) [
        | inl e ↦ rw (e, add_label)
        | inr e ↦ rw (e, add_label)
      ]

  insert-good :
      (m : ℕ) (i : ℤ) (is : List ℤ) (label : ℤ) (score : Score) (k : ℤ) (ls : List ℤ)
      (ss : List Score) (cs : Children Score)
      → is_invalid m i ≡ false
      → insert m (i ∷ is) label score (node k ls ss cs) ≡ (
        node k ls ss (set_child i (insert m is label score (child_or_new i cs)).0 cs),
        (insert m is label score (child_or_new i cs)).1,
      )
  unfolding insert
  insert-good m i is label score k ls ss cs good = rw (good, insert)

  insert-bad :
      (m : ℕ) (i : ℤ) (is : List ℤ) (label : ℤ) (score : Score) (n : Node Score)
      → is_invalid m i ≡ true
      → insert m (i ∷ is) label score n ≡ (n, throw out_of_range)
  unfolding insert
  insert-bad m i is label score (node k ls ss cs) bad = rw (bad, insert)

  stored_if-never :
      (b : Bool) (label : ℤ) (score : Score) (old : List ℤ × List Score)
      → stored_if (b && false) label score old ≡ old
  stored_if-never true label score old = refl
  stored_if-never false label score old = refl

  table-root :
      (m : ℕ) (i : ℤ) (ls : List ℤ) (ss : List Score) (cs : Children Score)
      → table m (node i ls ss cs) [] ≡ (ls, ss)
  unfolding table search
  table-root m i ls ss cs = refl

  -- A child that stores at a sequence makes its parent store at the longer sequence.
  pub table-set_child :
      (m : ℕ) (i : ℤ) (is : List ℤ) (label : ℤ) (score : Score) (k : ℤ) (ls : List ℤ)
      (ss : List Score) (cs : Children Score) (n' : Node Score)
      → is_invalid m i ≡ false
      → ((js : List ℤ)
          → table m n' js
            ≡ stored_if
                (all_valid m is && same_indices is js)
                label
                score
                (table m (child_or_new i cs) js))
      → (js : List ℤ)
      → table m (node k ls ss (set_child i n' cs)) js
        ≡ stored_if
            (all_valid m is && same_indices (i ∷ is) js)
            label
            score
            (table m (node k ls ss cs) js)
  unfolding same_indices
  table-set_child m i is label score k ls ss cs n' good ih [] = elim (Bool-cases (all_valid m is)) [
    | inl e ↦ rw (e, table-root m k ls ss (set_child i n' cs), table-root m k ls ss cs)
    | inr e ↦ rw (e, table-root m k ls ss (set_child i n' cs), table-root m k ls ss cs)
  ]
  table-set_child m i is label score k ls ss cs n' good ih (j ∷ js) =
      elim (Bool-cases (eqb_ℤ i j)) [
        | inl here ↦
            let it : i ≡ j = (eqb_ℤ_iff i j).0 here in
            let fine : is_invalid m j ≡ false = rw it at good in
            rw
              (
                here,
                table-good m k ls ss (set_child i n' cs) j js fine,
                child_or_new-set_same i j n' cs here,
                table-good m k ls ss cs j js fine,
              )
              (rw it at (ih js))
        | inr there ↦ rw (there) (
            (elim (Bool-cases (is_invalid m j)) [
              | inl bad ↦
                  table-bad m k ls ss (set_child i n' cs) j js bad
                  ∙ sym (table-bad m k ls ss cs j js bad)
              | inr fine ↦
                  table-good m k ls ss (set_child i n' cs) j js fine
                  ∙ ap (λ n. table m n js) (child_or_new-set_other i j n' cs there)
                  ∙ sym (table-good m k ls ss cs j js fine)
            ])
            ∙ sym
                (stored_if-never (all_valid m is) label score (table m (node k ls ss cs) (j ∷ js))))
      ]
