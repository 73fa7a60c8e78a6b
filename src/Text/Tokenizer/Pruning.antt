-- ===== src/Text/Tokenizer/Pruning.antt =====
-- What `pruneTokens` keeps of a dictionary that `countTokens` has sorted.
use flashlight.Prelude.{
  ℕ, zero, suc, ◌≡◌, refl, ap, Bool, false, List, [], ◌∷◌, if◌then◌else◌, arith, Bool-cases, inl,
  inr, take, length, ltb, leb,
}
use flashlight.Prelude.Int.{ℤ, pos, negsuc, to_size_t}
use flashlight.Text.Tokenizer.{
  TokenCountMap, TokenCountPair, gather_results, Tokenizer, Gathered, more_frequent, keep_while,
  keep_first_tokens, prune_tokens, finish_count, sort_pairs,
}
use flashlight.Text.Tokenizer.Sorting.{NoneBefore, IsSorted, sort_pairs-IsSorted}

-- All the pairs that occur often enough.
unfoldable pub frequent : ℕ → List TokenCountPair → List TokenCountPair
frequent n [] = []
frequent n ((token, m) ∷ ps) = if leb n m then (token, m) ∷ frequent n ps else frequent n ps

NoneBefore-take :
    (k : ℕ) (p : TokenCountPair) (ps : List TokenCountPair)
    → NoneBefore p ps
    → NoneBefore p (take k ps)
unfolding NoneBefore
NoneBefore-take zero p ps h = tt
NoneBefore-take (suc k) p [] h = tt
NoneBefore-take (suc k) p (q ∷ ps) (first, others) = (first, NoneBefore-take k p ps others)

IsSorted-take : (k : ℕ) (ps : List TokenCountPair) → IsSorted ps → IsSorted (take k ps)
unfolding IsSorted
IsSorted-take zero ps h = tt
IsSorted-take (suc k) [] h = tt
IsSorted-take (suc k) (p ∷ ps) (first, others) =
    (NoneBefore-take k p ps first, IsSorted-take k ps others)

keep_first_tokens-IsSorted :
    (max_tokens : ℤ) (ps : List TokenCountPair)
    → IsSorted ps
    → IsSorted (keep_first_tokens max_tokens ps)
unfolding keep_first_tokens
keep_first_tokens-IsSorted (negsuc n) ps h = h
keep_first_tokens-IsSorted (pos n) ps h = elim (Bool-cases (ltb n (length ps))) [
  | inl e ↦ rw e (IsSorted-take n ps h)
  | inr e ↦ rw e h
]

-- After a rare pair only rare ones follow.
frequent-none :
    (n m : ℕ) (token : List ℕ) (ps : List TokenCountPair)
    → leb n m ≡ false
    → NoneBefore (token, m) ps
    → frequent n ps ≡ []
unfolding frequent NoneBefore more_frequent
frequent-none n m token [] rare h = refl
frequent-none n m token ((other, k) ∷ ps) rare (first, others) =
    let rarer : leb n k ≡ false = ground arith in rw rarer (frequent-none n m token ps rare others)

keep_while-frequent :
    (n : ℕ) (ps : List TokenCountPair) → IsSorted ps → keep_while n ps ≡ frequent n ps
unfolding keep_while frequent IsSorted
keep_while-frequent n [] sorted = refl
keep_while-frequent n ((token, m) ∷ ps) (first, others) = elim (Bool-cases (leb n m)) [
  | inl e ↦ rw e (ap (◌∷◌ (token, m)) (keep_while-frequent n ps others))
  | inr e ↦ rw (e, frequent-none n m token ps e first) refl
]

-- `pruneTokens` stops at the first token that is too rare. In the dictionary that `countTokens` leaves
-- it loses nothing by that: it keeps all those of the first `maxTokens` (of all, for a negative
-- number) that occur at least as often as `minAppearence`, read as a size_t, says.
pub prune_tokens-finish_count :
    (max_tokens min_appearence : ℤ) (generate_meta_data : Bool) (t : Tokenizer) (gs : List Gathered)
    → (prune_tokens max_tokens min_appearence
        (finish_count generate_meta_data t gs)).token_count_pairs
      ≡ frequent
          (to_size_t min_appearence)
          (keep_first_tokens max_tokens (finish_count generate_meta_data t gs).token_count_pairs)
unfolding prune_tokens finish_count
prune_tokens-finish_count max_tokens min_appearence gen t gs =
    let m : TokenCountMap = (gather_results gen gs [] (record t { file_meta_data = [] })).0 in
    keep_while-frequent (to_size_t min_appearence) (keep_first_tokens max_tokens (sort_pairs m))
      (keep_first_tokens-IsSorted max_tokens (sort_pairs m) (sort_pairs-IsSorted m))
