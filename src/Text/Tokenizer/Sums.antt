-- ===== src/Text/Tokenizer/Sums.antt =====
-- What a list of counts says about one token, and about all of them.
use flashlight.Prelude.{
  ℕ, ◌+◌, ◌≡◌, refl, ap, true, false, List, [], ◌∷◌, ◌++◌, none, length, if◌then◌else◌, arith,
  Bool-cases, Option-cases, inl, inr,
}
use flashlight.Prelude.Maps.{lookup, insert, emplace}
use flashlight.Strings.{Bytes, bytes_eq, bytes_eq_iff}
use flashlight.Text.Dictionary.{bytes_key}
use flashlight.Text.Tokenizer.{
  TokenCountMap, TokenCountPair, count_in, add_count, count_each, gather_counts, more_frequent,
  insert_sorted, sort_pairs,
}

-- One occurrence more, if the tokens are the same.
abbrev pub if_same : Bytes → Bytes → ℕ → ℕ
if_same k w n = if bytes_eq k w then n else 0

-- The counts of a token, over all the pairs.
unfoldable pub sum_of : Bytes → List TokenCountPair → ℕ
sum_of w [] = 0
sum_of w ((k, n) ∷ ps) = if_same k w n + sum_of w ps

unfoldable pub sum_all : List TokenCountPair → ℕ
sum_all [] = 0
sum_all ((k, n) ∷ ps) = n + sum_all ps

unfoldable pub occurrences : Bytes → List Bytes → ℕ
occurrences w [] = 0
occurrences w (token ∷ tokens) = if_same token w 1 + occurrences w tokens

pub occurrences-append :
    (w : Bytes) (xs ys : List Bytes)
    → occurrences w (xs ++ ys) ≡ occurrences w xs + occurrences w ys
unfolding occurrences
occurrences-append w [] ys = omega arith
occurrences-append w (x ∷ xs) ys = omega (arith, occurrences-append w xs ys)

count_in-same :
    (k j : Bytes) (v : ℕ) (m : TokenCountMap) → bytes_eq j k ≡ true → count_in k ((j, v) ∷ m) ≡ v
unfolding count_in lookup
count_in-same k j v m e = rw (e, lookup, count_in) refl

count_in-other :
    (k j : Bytes) (v : ℕ) (m : TokenCountMap)
    → bytes_eq j k ≡ false
    → count_in k ((j, v) ∷ m) ≡ count_in k m
unfolding count_in lookup
count_in-other k j v m e = rw (e, lookup, count_in) refl

count_in-new : (k : Bytes) (m : TokenCountMap) → lookup k m ≡ none → count_in k m ≡ 0
unfolding count_in
count_in-new k m e = rw (e, count_in) refl

-- A write replaces the count of its key.
sum_of-insert :
    (w k : Bytes) (n : ℕ) (m : TokenCountMap)
    → sum_of w (insert k n m) + if_same k w (count_in k m) ≡ sum_of w m + if_same k w n
unfolding sum_of insert lookup
sum_of-insert w k n [] = rw (count_in-new k [] refl) (ground arith)
sum_of-insert w k n ((j, v) ∷ m) = elim (Bool-cases (bytes_eq j k)) [
  | inl e ↦
      let same : j ≡ k = (bytes_eq_iff j k).0 e in
      rw (count_in-same k j v m e, e, same) (omega arith)
  | inr e ↦ rw (count_in-other k j v m e, e) (omega (arith, sum_of-insert w k n m))
]

sum_all-insert :
    (k : Bytes) (n : ℕ) (m : TokenCountMap) → sum_all (insert k n m) + count_in k m ≡ sum_all m + n
unfolding sum_all insert lookup
sum_all-insert k n [] = rw (count_in-new k [] refl) (omega arith)
sum_all-insert k n ((j, v) ∷ m) = elim (Bool-cases (bytes_eq j k)) [
  | inl e ↦ rw (count_in-same k j v m e, e) (omega arith)
  | inr e ↦ rw (count_in-other k j v m e, e) (omega (arith, sum_all-insert k n m))
]

if_same-zero : (k w : Bytes) → if_same k w 0 ≡ 0
if_same-zero k w = ground arith

if_same-add : (k w : Bytes) (m n : ℕ) → if_same k w (m + n) ≡ if_same k w m + if_same k w n
if_same-add k w m n = ground arith

-- The entry that is made for a new key counts nothing.
sums-emplace :
    (w k : Bytes) (m : TokenCountMap)
    → (sum_of w (emplace k 0 m) ≡ sum_of w m) × (sum_all (emplace k 0 m) ≡ sum_all m)
unfolding emplace
sums-emplace w k m = elim (Option-cases (lookup k m)) [
  | inr (n, e) ↦ rw (e, emplace) (refl, refl)
  | inl e ↦
      let none_yet : count_in k m ≡ 0 = count_in-new k m e in
      rw (e, emplace)
        (
          omega (arith, sum_of-insert w k 0 m, ap (if_same k w) none_yet, if_same-zero k w),
          omega (arith, sum_all-insert k 0 m, none_yet),
        )
]

-- What is added to a token's count is added to its sum, and to the sum of all.
pub sum_of-add_count :
    (w k : Bytes) (n : ℕ) (m : TokenCountMap)
    → sum_of w (add_count k n m) ≡ sum_of w m + if_same k w n
unfolding add_count
sum_of-add_count w k n m =
    let started : TokenCountMap = emplace k 0 m in
    omega (
      arith,
      sum_of-insert w k (count_in k started + n) started,
      if_same-add k w (count_in k started) n,
      (sums-emplace w k m).0,
    )

pub sum_all-add_count :
    (k : Bytes) (n : ℕ) (m : TokenCountMap) → sum_all (add_count k n m) ≡ sum_all m + n
unfolding add_count
sum_all-add_count k n m =
    let started : TokenCountMap = emplace k 0 m in
    omega (arith, sum_all-insert k (count_in k started + n) started, (sums-emplace k k m).1)

pub sum_of-count_each :
    (w : Bytes) (tokens : List Bytes) (m : TokenCountMap)
    → sum_of w (count_each tokens m) ≡ sum_of w m + occurrences w tokens
unfolding count_each occurrences
sum_of-count_each w [] m = omega arith
sum_of-count_each w (token ∷ tokens) m =
    omega (arith, sum_of-count_each w tokens (add_count token 1 m), sum_of-add_count w token 1 m)

pub sum_all-count_each :
    (tokens : List Bytes) (m : TokenCountMap)
    → sum_all (count_each tokens m) ≡ sum_all m + length tokens
unfolding count_each
sum_all-count_each [] m = omega arith
sum_all-count_each (token ∷ tokens) m =
    omega (arith, sum_all-count_each tokens (add_count token 1 m), sum_all-add_count token 1 m)

pub gather_counts-sums :
    (w : Bytes) (items : List TokenCountPair) (m : TokenCountMap) (total : ℕ)
    → (sum_of w (gather_counts items m total).0 ≡ sum_of w m + sum_of w items)
      × ((gather_counts items m total).1 ≡ total + sum_all items)
unfolding gather_counts sum_of sum_all
gather_counts-sums w [] m total = (omega arith, omega arith)
gather_counts-sums w ((token, n) ∷ items) m total =
    let (counts, totals) = gather_counts-sums w items (add_count token n m) (total + n) in
    (omega (arith, counts, sum_of-add_count w token n m), omega (arith, totals))

sum_of-insert_sorted :
    (w : Bytes) (p : TokenCountPair) (ps : List TokenCountPair)
    → sum_of w (insert_sorted p ps) ≡ sum_of w (p ∷ ps)
unfolding insert_sorted sum_of
sum_of-insert_sorted w p [] = refl
sum_of-insert_sorted w p (q ∷ ps) = elim (Bool-cases (more_frequent q p)) [
  | inl e ↦ rw e (omega (arith, sum_of-insert_sorted w p ps))
  | inr e ↦ rw e refl
]

pub sum_of-sort_pairs :
    (w : Bytes) (ps : List TokenCountPair) → sum_of w (sort_pairs ps) ≡ sum_of w ps
unfolding sort_pairs sum_of
sum_of-sort_pairs w [] = refl
sum_of-sort_pairs w (p ∷ ps) =
    omega (arith, sum_of-insert_sorted w p (sort_pairs ps), sum_of-sort_pairs w ps)
