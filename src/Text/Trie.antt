-- ===== src/Text/Trie.antt =====
-- flashlight/lib/text/decoder/Trie.{h,cpp}: `insert` and `search`. Each node has one parent, so a trie
-- is a tree, and an insertion gives the new tree beside what it returns. A score is only stored.
pub mod Table
pub mod Refinement
use flashlight.Prelude.{
  ℕ, ◌≡◌, Bool, true, false, ◌||◌, List, [], ◌∷◌, ◌++◌, Option, some, none, Result, ok, throw,
  out_of_range, length, ltb, if◌then◌else◌,
}
use flashlight.Prelude.Int.{ℤ, pos, negsuc, eqb_ℤ}

mutual
  pub data Node (Score : Type 0) : Type 0 where
    -- idx, labels, scores, children
    node : ℤ → List ℤ → List Score → Children Score → Node Score

  -- The map from an index to the child.
  pub data Children (Score : Type 0) : Type 0 where
    no_child : Children Score
    child : ℤ → Node Score → Children Score → Children Score

abbrev pub max_label : ℕ
max_label = 6

-- `idx < 0 || idx >= maxChildren_`
unfoldable pub is_invalid : ℕ → ℤ → Bool
is_invalid max_children (negsuc _) = true
is_invalid max_children (pos idx) = if ltb idx max_children then false else true

module _ {Score : Type 0} where
  abbrev pub new_node : ℤ → Node Score
  new_node idx = node idx [] [] no_child

  unfoldable pub find_child : ℤ → Children Score → Option (Node Score)
  find_child idx no_child = none
  find_child idx (child i n rest) = if eqb_ℤ i idx then some n else find_child idx rest

  unfoldable pub set_child : ℤ → Node Score → Children Score → Children Score
  set_child idx n no_child = child idx n no_child
  set_child idx n (child i m rest) =
      if eqb_ℤ i idx then child i n rest else child i m (set_child idx n rest)

  -- The child of an index, made when there is none.
  unfoldable pub child_or_new : ℤ → Children Score → Node Score
  unfolding find_child
  child_or_new idx children = elim (find_child idx children) [ none ↦ new_node idx | some n ↦ n ]

  -- The labels are limited; one too many is dropped.
  unfoldable pub add_label : ℤ → Score → Node Score → Node Score
  add_label label score (node idx labels scores children) =
      if ltb (length labels) max_label
      then node idx (labels ++ (label ∷ [])) (scores ++ (score ∷ [])) children
      else node idx labels scores children

  unfoldable pub insert : ℕ → List ℤ → ℤ → Score → Node Score → Node Score × Result (Node Score)
  unfolding is_invalid child_or_new set_child add_label
  insert max_children [] label score n = let n' = add_label label score n in (n', ok n')
  insert max_children (idx ∷ indices) label score (node i labels scores children) =
      elim (is_invalid max_children idx) [
        | true ↦ (node i labels scores children, throw out_of_range)
        | false ↦
            let (n, found) = insert max_children indices label score (child_or_new idx children) in
            (node i labels scores (set_child idx n children), found)
      ]

  unfoldable pub search : ℕ → List ℤ → Node Score → Result (Option (Node Score))
  unfolding is_invalid find_child
  search max_children [] n = ok (some n)
  search max_children (idx ∷ indices) (node i labels scores children) =
      elim (is_invalid max_children idx) [
        | true ↦ throw out_of_range
        | false ↦ (elim (find_child idx children) [
          | none ↦ ok none
          | some n ↦ search max_children indices n
        ])
      ]
