-- ===== src/Text/Tokenizer/Sorting.antt =====
-- The order of the dictionary: by occurrences, then in lexical order.
use flashlight.Prelude.{◌≡◌, refl, true, false, List, [], ◌∷◌, arith, Bool-cases, inl, inr}
use flashlight.Strings.{Bytes}
use flashlight.Text.Tokenizer.{TokenCountPair, bytes_less, more_frequent, insert_sorted, sort_pairs}

bytes_less_asymm : (a b : Bytes) → bytes_less a b ≡ true → bytes_less b a ≡ false
unfolding bytes_less
bytes_less_asymm [] [] h = refl
bytes_less_asymm (c ∷ a) [] h = absurd (ground arith)
bytes_less_asymm [] (d ∷ b) h = refl
bytes_less_asymm (c ∷ a) (d ∷ b) h = ground (arith, bytes_less_asymm a b)

bytes_less_trans :
    (a b c : Bytes) → bytes_less b a ≡ false → bytes_less c b ≡ false → bytes_less c a ≡ false
unfolding bytes_less
bytes_less_trans [] b c h k = refl
bytes_less_trans (x ∷ a) [] c h k = absurd (ground arith)
bytes_less_trans (x ∷ a) (y ∷ b) [] h k = absurd (ground arith)
bytes_less_trans (x ∷ a) (y ∷ b) (z ∷ c) h k = ground (arith, bytes_less_trans a b c)

more_frequent_asymm : (p q : TokenCountPair) → more_frequent p q ≡ true → more_frequent q p ≡ false
unfolding more_frequent
more_frequent_asymm (a, m) (b, n) h = ground (arith, bytes_less_asymm a b)

more_frequent_trans :
    (p q r : TokenCountPair)
    → more_frequent q p ≡ false
    → more_frequent r q ≡ false
    → more_frequent r p ≡ false
unfolding more_frequent
more_frequent_trans (a, k) (b, m) (c, n) h l = ground (arith, bytes_less_trans a b c)

-- None of these comes before the pair.
unfoldable pub NoneBefore : TokenCountPair → List TokenCountPair → Type 0
NoneBefore p [] = Unit
NoneBefore p (q ∷ ps) = (more_frequent q p ≡ false) × NoneBefore p ps

unfoldable pub IsSorted : List TokenCountPair → Type 0
unfolding NoneBefore
IsSorted [] = Unit
IsSorted (p ∷ ps) = NoneBefore p ps × IsSorted ps

NoneBefore-trans :
    (p q : TokenCountPair) (ps : List TokenCountPair)
    → more_frequent q p ≡ false
    → NoneBefore q ps
    → NoneBefore p ps
unfolding NoneBefore
NoneBefore-trans p q [] h none_before = tt
NoneBefore-trans p q (r ∷ ps) h (first, others) =
    (more_frequent_trans p q r h first, NoneBefore-trans p q ps h others)

NoneBefore-insert_sorted :
    (p q : TokenCountPair) (ps : List TokenCountPair)
    → more_frequent p q ≡ false
    → NoneBefore q ps
    → NoneBefore q (insert_sorted p ps)
unfolding NoneBefore insert_sorted
NoneBefore-insert_sorted p q [] h none_before = (h, tt)
NoneBefore-insert_sorted p q (r ∷ ps) h (first, others) = elim (Bool-cases (more_frequent r p)) [
  | inl e ↦ rw e (first, NoneBefore-insert_sorted p q ps h others)
  | inr e ↦ rw e (h, (first, others))
]

insert_sorted-IsSorted :
    (p : TokenCountPair) (ps : List TokenCountPair) → IsSorted ps → IsSorted (insert_sorted p ps)
unfolding IsSorted insert_sorted NoneBefore
insert_sorted-IsSorted p [] sorted = (tt, tt)
insert_sorted-IsSorted p (q ∷ ps) (first, others) = elim (Bool-cases (more_frequent q p)) [
  | inl e ↦ rw e (
    NoneBefore-insert_sorted p q ps (more_frequent_asymm q p e) first,
    insert_sorted-IsSorted p ps others,
  )
  | inr e ↦ rw e ((e, NoneBefore-trans p q ps e first), (first, others))
]

pub sort_pairs-IsSorted : (ps : List TokenCountPair) → IsSorted (sort_pairs ps)
unfolding sort_pairs IsSorted
sort_pairs-IsSorted [] = tt
sort_pairs-IsSorted (p ∷ ps) = insert_sorted-IsSorted p (sort_pairs ps) (sort_pairs-IsSorted ps)
