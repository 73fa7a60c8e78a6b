-- ===== src/Text/Tokenizer/Tests.antt =====
-- The theorems on the tokenizer at concrete inputs, and runs of the code.
use flashlight.Prelude.{◌+◌, ◌≡◌, refl, List, [], ◌∷◌, map, some, ok, arith, true, false, length}
use flashlight.Prelude.Int.{pos, negsuc, to_size_t}
use flashlight.Prelude.Maps.{lookup, insert, emplace}
use flashlight.Strings.{
  Bytes, bytes_eq, trim, split_on_whitespace, split_on_any_of, split_loop, keep_token, find_byte,
  is_one_of,
}
use flashlight.Text.PartialFileReader.Lines.{unlines, IsLine, AreLines}
use flashlight.Text.Tokenizer.{
  Tokenizer, new_tokenizer, Gathered, count_tokens, prune_tokens, finish_count, keep_while,
  keep_first_tokens, gather_results, gather_counts, count_in, add_count, sort_pairs, insert_sorted,
  more_frequent, bytes_less, tokenize,
}
use flashlight.Text.Tokenizer.Sums.{sum_of, occurrences}
use flashlight.Text.Tokenizer.Loop.{tokens_of}
use flashlight.Text.Tokenizer.Counting.{count_tokens-counts}
use flashlight.Text.Tokenizer.Pruning.{frequent, prune_tokens-finish_count}

-- The lines "a b" and "a".
abbrev text : List Bytes
text = (97 ∷ 32 ∷ 98 ∷ []) ∷ (97 ∷ []) ∷ []

text-AreLines : AreLines text
unfolding AreLines IsLine
text-AreLines = ((omega arith, (omega arith, (omega arith, tt))), ((omega arith, tt), tt))

count_tokens-counts_example :
    (t' : Tokenizer) × (count_tokens 2 true (unlines text) new_tokenizer ≡ ok (some t'))
    × (sum_of (97 ∷ []) t'.token_count_pairs ≡ occurrences (97 ∷ []) (tokens_of (map trim text)))
    × (t'.total_tokens ≡ 0 + length (tokens_of (map trim text)))
    × (t'.total_sentences ≡ 0 + length text)
count_tokens-counts_example =
    count_tokens-counts (97 ∷ []) text 2 true new_tokenizer text-AreLines (omega arith)
      (omega arith)

-- "b" once, "a" twice, and then "b" twice more.
abbrev two_workers : List Gathered
two_workers =
    record { token_count_map = (98 ∷ [], 1) ∷ (97 ∷ [], 2) ∷ []; meta_data = []; sentences = 2 }
    ∷ record { token_count_map = (98 ∷ [], 2) ∷ []; meta_data = []; sentences = 1 }
    ∷ []

two_workers_run : finish_count false new_tokenizer two_workers ≡ record {
  total_tokens = 5;
  total_sentences = 3;
  file_meta_data = [];
  token_count_pairs = (98 ∷ [], 3) ∷ (97 ∷ [], 2) ∷ [];
}
unfolding finish_count gather_results gather_counts count_in add_count lookup insert emplace
    bytes_eq sort_pairs insert_sorted more_frequent bytes_less
two_workers_run = refl

prune_tokens-finish_count_example :
    (prune_tokens (pos 1) (pos 3) (finish_count false new_tokenizer two_workers)).token_count_pairs
    ≡ frequent
        (to_size_t (pos 3))
        (keep_first_tokens (pos 1) (finish_count false new_tokenizer two_workers).token_count_pairs)
prune_tokens-finish_count_example =
    prune_tokens-finish_count (pos 1) (pos 3) false new_tokenizer two_workers

-- A least number of occurrences below 0 is a very large size_t, and keeps nothing.
negative_run :
    (prune_tokens
      (negsuc 0)
      (negsuc 0)
      (record new_tokenizer { token_count_pairs = (97 ∷ [], 5) ∷ [] })).token_count_pairs
    ≡ []
unfolding prune_tokens keep_while keep_first_tokens to_size_t
negative_run = refl

tokenize_run : tokenize (97 ∷ 32 ∷ 98 ∷ []) ≡ (97 ∷ []) ∷ (98 ∷ []) ∷ []
unfolding tokenize split_on_whitespace split_on_any_of split_loop keep_token find_byte is_one_of
tokenize_run = refl
