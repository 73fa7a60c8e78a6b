-- ===== src/Text/Tokenizer/Counting.antt =====
-- What `countTokens` counts, whatever the number of workers.
use flashlight.Prelude.{
  ℕ, ◌+◌, ◌<◌, ◌≡◌, refl, sym, ◌∙◌, ap, Bool, true, false, List, [], ◌∷◌, ◌++◌, map, some, length,
  length-append, if◌then◌else◌, arith, ok, for_each, for_each-cons_ok, Result-cases, range_from,
  flat_map, inl, inr, append_assoc, length-map,
}
use flashlight.Prelude.Int.{pos}
use flashlight.Strings.{Bytes, trim}
use flashlight.Text.PartialFileReader.{new_reader, load_file, get_lines}
use flashlight.Text.PartialFileReader.Lines.{unlines, AreLines}
use flashlight.Text.PartialFileReader.Cover.{read_part, read_parts-cover}
use flashlight.Text.Tokenizer.{
  TokenCountMap, Tokenizer, Gathered, nothing, tokenize, count_partial_file, gather_results,
  gather_counts, all_some, finish_count, count_tokens, sort_pairs,
}
use flashlight.Text.Tokenizer.Loop.{tokens_of, Counts, count_loop-Counts}
use flashlight.Text.Tokenizer.Sums.{
  sum_of, sum_all, occurrences, occurrences-append, sum_of-count_each, sum_all-count_each,
  gather_counts-sums, sum_of-sort_pairs,
}

-- A worker counts what its reader reads.
count_partial_file-Counts :
    (n : ℕ) (gen : Bool) (content : Bytes) (rank : ℕ) (lines : List Bytes)
    → read_part n content rank ≡ ok (some lines)
    → (g : Gathered) × (count_partial_file n gen content rank ≡ ok (some g))
      × Counts lines nothing g
unfolding read_part count_partial_file
count_partial_file-Counts n gen content rank lines h =
    elim (Result-cases (new_reader (pos rank) (pos n))) [
      | inr (e, thrown) ↦ absurd (ground arith)
      | inl (reader, new) ↦ (elim (Result-cases (load_file content reader)) [
        | inr (e, thrown) ↦ absurd (ground arith)
        | inl (loaded, load) ↦
            let read : get_lines loaded ≡ some lines = ground arith in
            let (g, result, counts) =
              count_loop-Counts (length loaded.stream.content + 2) gen loaded nothing lines read in
            (g, rw (new, load, result) refl, counts)
      ])
    ]

AllCounts : List (List Bytes) → List Gathered → Type 0
AllCounts [] [] = Unit
AllCounts [] (g ∷ gs) = (true ≡ false) × Unit {0}
AllCounts (p ∷ ps) [] = (true ≡ false) × Unit {0}
AllCounts (p ∷ ps) (g ∷ gs) = Counts p nothing g × AllCounts ps gs

for_each-Counts :
    (n : ℕ) (gen : Bool) (content : Bytes) (ranks : List ℕ) (parts : List (List Bytes))
    → for_each (read_part n content) ranks ≡ ok (map some parts)
    → (gs : List Gathered) × (for_each (count_partial_file n gen content) ranks ≡ ok (map some gs))
      × AllCounts parts gs
unfolding AllCounts
for_each-Counts n gen content [] [] h = ([], refl, tt)
for_each-Counts n gen content [] (p ∷ parts) h = absurd (ground arith)
for_each-Counts n gen content (rank ∷ ranks) [] h =
    let (y, rest, first, others, e) = for_each-cons_ok (read_part n content) rank ranks [] h in
    absurd (ground arith)
for_each-Counts n gen content (rank ∷ ranks) (p ∷ parts) h =
    let (y, rest, first, others, e) =
      for_each-cons_ok (read_part n content) rank ranks (map some (p ∷ parts)) h in
    let head : read_part n content rank ≡ ok (some p) = ground arith in
    let tail : for_each (read_part n content) ranks ≡ ok (map some parts) = ground arith in
    let (g, result, counts) = count_partial_file-Counts n gen content rank p head in
    let (gs, results, all_counts) = for_each-Counts n gen content ranks parts tail in
    (g ∷ gs, rw (result, results) refl, (counts, all_counts))

all_some-map : (gs : List Gathered) → all_some (map some gs) ≡ some gs
unfolding all_some
all_some-map [] = refl
all_some-map (g ∷ gs) = rw (all_some-map gs) refl

tokens_of-append : (ps qs : List Bytes) → tokens_of (ps ++ qs) ≡ tokens_of ps ++ tokens_of qs
unfolding tokens_of
tokens_of-append [] qs = refl
tokens_of-append (p ∷ ps) qs =
    ap (◌++◌ (tokenize p)) (tokens_of-append ps qs)
    ∙ sym (append_assoc (tokenize p) (tokens_of ps) (tokens_of qs))

-- The counts, the number of tokens and the number of lines of one worker.
worker-sums :
    (w : Bytes) (lines : List Bytes) (g : Gathered)
    → Counts lines nothing g
    → (sum_of w g.token_count_map ≡ occurrences w (tokens_of lines))
      × (sum_all g.token_count_map ≡ length (tokens_of lines))
      × (g.sentences ≡ length lines)
unfolding sum_of sum_all
worker-sums w lines g counts = (
  omega (arith, ap (sum_of w) counts.counted, sum_of-count_each w (tokens_of lines) []),
  omega (arith, ap sum_all counts.counted, sum_all-count_each (tokens_of lines) []),
  omega (arith, counts.numbered),
)

gather_results-sums :
    (w : Bytes) (gen : Bool) (parts : List (List Bytes)) (gs : List Gathered) (m : TokenCountMap)
    (t : Tokenizer)
    → AllCounts parts gs
    → (sum_of w (gather_results gen gs m t).0
        ≡ sum_of w m + occurrences w (tokens_of (flat_map (λ p. p) parts)))
      × ((gather_results gen gs m t).1.total_tokens
          ≡ t.total_tokens + length (tokens_of (flat_map (λ p. p) parts)))
      × ((gather_results gen gs m t).1.total_sentences
          ≡ t.total_sentences + length (flat_map (λ p. p) parts))
unfolding gather_results AllCounts tokens_of occurrences
gather_results-sums w gen [] [] m t all = (omega arith, omega arith, omega arith)
gather_results-sums w gen [] (g ∷ gs) m t all = absurd (ground arith)
gather_results-sums w gen (p ∷ parts) [] m t all = absurd (ground arith)
gather_results-sums w gen (p ∷ parts) (g ∷ gs) m t (counts, all) =
    let whole : List Bytes = flat_map (λ q. q) parts in
    let (ours, our_tokens, our_lines) = worker-sums w p g counts in
    let (one, one_total) = gather_counts-sums w g.token_count_map m t.total_tokens in
    let t₁ : Tokenizer = record t {
      total_tokens = (gather_counts g.token_count_map m t.total_tokens).1;
      total_sentences = t.total_sentences + g.sentences;
      file_meta_data = if gen then t.file_meta_data ++ g.meta_data else t.file_meta_data;
    } in
    let (rest, rest_tokens, rest_lines) =
      gather_results-sums w gen parts gs (gather_counts g.token_count_map m t.total_tokens).0 t₁
        all in
    let split : tokens_of (p ++ whole) ≡ tokens_of p ++ tokens_of whole =
      tokens_of-append p whole in
    (
      omega (
        arith,
        rest,
        one,
        ours,
        ap (occurrences w) split,
        occurrences-append w (tokens_of p) (tokens_of whole),
      ),
      omega (
        arith,
        rest_tokens,
        one_total,
        our_tokens,
        ap length split,
        length-append (tokens_of p) (tokens_of whole),
      ),
      omega (arith, rest_lines, our_lines, length-append p whole),
    )

-- On a file that is not empty and in which every line ends in a newline, `countTokens` counts each
-- token as often as it occurs in the trimmed lines of the file, adds the number of tokens and of lines
-- to the totals, and does so with any positive number of workers.
pub count_tokens-counts :
    (w : Bytes) (ls : List Bytes) (num_workers : ℕ) (generate_meta_data : Bool) (t : Tokenizer)
    → AreLines ls
    → 0 < length ls
    → 0 < num_workers
    → (t' : Tokenizer) × (count_tokens num_workers generate_meta_data (unlines ls) t ≡ ok (some t'))
      × (sum_of w t'.token_count_pairs ≡ occurrences w (tokens_of (map trim ls)))
      × (t'.total_tokens ≡ t.total_tokens + length (tokens_of (map trim ls)))
      × (t'.total_sentences ≡ t.total_sentences + length ls)
unfolding count_tokens finish_count sum_of
count_tokens-counts w ls n gen t lines some_line some_worker =
    let (parts, read, cover) = read_parts-cover ls n lines some_line some_worker in
    let (gs, results, all) = for_each-Counts n gen (unlines ls) (range_from 0 n) parts read in
    let (m, gathered) = gather_results gen gs [] (record t { file_meta_data = [] }) in
    let (sums, totals, sentences) =
      gather_results-sums w gen parts gs [] (record t { file_meta_data = [] }) all in
    (
      record gathered { token_count_pairs = sort_pairs m },
      rw (results, all_some-map gs) refl,
      omega (arith, sum_of-sort_pairs w m, sums, ap (λ x. occurrences w (tokens_of x)) cover),
      omega (arith, totals, ap (λ x. length (tokens_of x)) cover),
      omega (arith, sentences, ap length cover, length-map ls trim),
    )
