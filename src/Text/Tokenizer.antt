-- ===== src/Text/Tokenizer.antt =====
-- flashlight/lib/text/tokenizer/Tokenizer.{h,cpp}. Each worker reads its part of the file into a map
-- of its own, so the threads do not meet before the results are gathered. A std::unordered_map is
-- walked in the order in which its keys came; the sort makes the result independent of that order.
pub mod Sums
pub mod Loop
pub mod Counting
pub mod Sorting
pub mod Pruning
mod Tests
use flashlight.Prelude.{
  ℕ, zero, suc, ◌+◌, Bool, true, false, not, ◌&&◌, List, [], ◌∷◌, ◌++◌, Option, some, none, Result,
  ok, ◌>>=◌, for_each, length, take, range_from, ltb, leb, ◌==◌, if◌then◌else◌,
}
use flashlight.Prelude.Int.{ℤ, pos, negsuc, to_size_t}
use flashlight.Prelude.Maps.{Map, lookup, insert, emplace}
use flashlight.Strings.{Bytes, split_on_whitespace}
use flashlight.Text.Dictionary.{bytes_key}
use flashlight.Text.PartialFileReader.{
  PartialFileReader, new_reader, load_file, get_position, has_next_line, get_line,
}

abbrev pub TokenCountMap : Type 0
TokenCountMap = Map Bytes ℕ

abbrev pub TokenCountPair : Type 0
TokenCountPair = Bytes × ℕ

-- The position and the number of tokens of each line.
abbrev pub TextFileMetaData : Type 0
TextFileMetaData = List (ℕ × ℕ)

pub record Tokenizer : Type 0 where
  pub total_tokens : ℕ
  pub total_sentences : ℕ
  pub file_meta_data : TextFileMetaData
  pub token_count_pairs : List TokenCountPair

abbrev pub new_tokenizer : Tokenizer
new_tokenizer = record {
  total_tokens = 0;
  total_sentences = 0;
  file_meta_data = [];
  token_count_pairs = [];
}

unfoldable pub tokenize : Bytes → List Bytes
tokenize sentence = split_on_whitespace sentence true

-- `m[k]` of a key that is there.
unfoldable pub count_in : Bytes → TokenCountMap → ℕ
count_in k m = elim (lookup k m) [ none ↦ 0 | some n ↦ n ]

-- `m[k] = 0` for a new key, and `m[k] += n`.
unfoldable pub add_count : Bytes → ℕ → TokenCountMap → TokenCountMap
unfolding count_in
add_count k n m = let started = emplace k 0 m in insert k (count_in k started + n) started

unfoldable pub count_each : List Bytes → TokenCountMap → TokenCountMap
count_each [] m = m
count_each (token ∷ tokens) m = count_each tokens (add_count token 1 m)

-- What a worker has gathered: the counts, the metadata and the number of lines.
pub record Gathered : Type 0 where
  pub token_count_map : TokenCountMap
  pub meta_data : TextFileMetaData
  pub sentences : ℕ

abbrev pub nothing : Gathered
nothing = record { token_count_map = []; meta_data = []; sentences = 0 }

unfoldable pub count_line :
    Bool → PartialFileReader → Bytes → Gathered → PartialFileReader × Gathered
count_line generate_meta_data r line g =
    let tokens = tokenize line in
    let counted = count_each tokens g.token_count_map in
    if generate_meta_data
    then (let (after, position) = get_position r in
        (
          after,
          record {
            token_count_map = counted;
            meta_data = g.meta_data ++ ((position, length tokens) ∷ []);
            sentences = suc g.sentences;
          },
        ))
    else (r, record g { token_count_map = counted; sentences = suc g.sentences })

-- The loop of `countPartialFile`, on fuel.
unfoldable pub count_loop : ℕ → Bool → PartialFileReader → Gathered → Option Gathered
count_loop zero generate_meta_data r g = none
count_loop (suc fuel) generate_meta_data r g =
    let (checked, more) = has_next_line r in
    let (moved, line) = get_line checked in
    let (after, g') = count_line generate_meta_data moved line g in
    let rest = count_loop fuel generate_meta_data after g' in if more then rest else some g

unfoldable pub count_partial_file : ℕ → Bool → Bytes → ℕ → Result (Option Gathered)
count_partial_file num_workers generate_meta_data content rank =
    new_reader (pos rank) (pos num_workers) >>= λ reader. load_file content reader >>= λ loaded.
    ok (count_loop (length loaded.stream.content + 2) generate_meta_data loaded nothing)

-- The items of one worker's map, added to the counts of all and to `totalTokens_`.
unfoldable pub gather_counts : List TokenCountPair → TokenCountMap → ℕ → TokenCountMap × ℕ
gather_counts [] m total = (m, total)
gather_counts ((token, n) ∷ items) m total = gather_counts items (add_count token n m) (total + n)

unfoldable pub gather_results :
    Bool → List Gathered → TokenCountMap → Tokenizer → TokenCountMap × Tokenizer
unfolding gather_counts
gather_results generate_meta_data [] m t = (m, t)
gather_results generate_meta_data (g ∷ gs) m t =
    let (m', total) = gather_counts g.token_count_map m t.total_tokens in
    gather_results generate_meta_data gs m' record t {
      total_tokens = total;
      total_sentences = t.total_sentences + g.sentences;
      file_meta_data =
          if generate_meta_data then t.file_meta_data ++ g.meta_data else t.file_meta_data;
    }

-- `<` of two strings.
unfoldable pub bytes_less : Bytes → Bytes → Bool
bytes_less a [] = false
bytes_less [] (d ∷ b) = true
bytes_less (c ∷ a) (d ∷ b) = if c == d then bytes_less a b else ltb c d

-- The comparison of the sort: by occurrences, then in lexical order.
unfoldable pub more_frequent : TokenCountPair → TokenCountPair → Bool
unfolding bytes_less
more_frequent (a, m) (b, n) = if not (m == n) then ltb n m else bytes_less a b

-- `std::sort`
unfoldable pub insert_sorted : TokenCountPair → List TokenCountPair → List TokenCountPair
unfolding more_frequent
insert_sorted p [] = p ∷ []
insert_sorted p (q ∷ ps) =
    let rest = insert_sorted p ps in if more_frequent q p then q ∷ rest else p ∷ q ∷ ps

unfoldable pub sort_pairs : List TokenCountPair → List TokenCountPair
unfolding insert_sorted
sort_pairs [] = []
sort_pairs (p ∷ ps) = insert_sorted p (sort_pairs ps)

-- The futures, once each of them has returned.
unfoldable pub all_some {ℓ} : {A : Type ℓ} → List (Option A) → Option (List A)
all_some [] = some []
all_some (none ∷ xs) = none
all_some (some x ∷ xs) = elim (all_some xs) [ none ↦ none | some ys ↦ some (x ∷ ys) ]

unfoldable pub finish_count : Bool → Tokenizer → List Gathered → Tokenizer
unfolding gather_results sort_pairs
finish_count generate_meta_data t gs =
    let (m, gathered) =
      gather_results generate_meta_data gs [] (record t { file_meta_data = [] }) in
    record gathered { token_count_pairs = sort_pairs m }

unfoldable pub count_tokens : ℕ → Bool → Bytes → Tokenizer → Result (Option Tokenizer)
unfolding finish_count
count_tokens num_workers generate_meta_data content t =
    for_each (count_partial_file num_workers generate_meta_data content) (range_from 0 num_workers)
    >>= λ parts. ok (elim (all_some parts) [
      | none ↦ none
      | some gs ↦ some (finish_count generate_meta_data t gs)
    ])

-- `find_if_not` of a count, and `resize` to there.
unfoldable pub keep_while : ℕ → List TokenCountPair → List TokenCountPair
keep_while min_appearence [] = []
keep_while min_appearence ((token, n) ∷ ps) =
    let rest = keep_while min_appearence ps in
    if leb min_appearence n then (token, n) ∷ rest else []

-- The first `maxTokens` of the pairs, and all of them for a number below 0 or beyond the last.
unfoldable pub keep_first_tokens : ℤ → List TokenCountPair → List TokenCountPair
keep_first_tokens (negsuc max_tokens) ps = ps
keep_first_tokens (pos max_tokens) ps =
    if ltb max_tokens (length ps) then take max_tokens ps else ps

unfoldable pub prune_tokens : ℤ → ℤ → Tokenizer → Tokenizer
unfolding keep_while keep_first_tokens
prune_tokens max_tokens min_appearence t = record t {
  token_count_pairs =
      keep_while (to_size_t min_appearence) (keep_first_tokens max_tokens t.token_count_pairs);
}
