-- ===== src/Text/Tests.antt =====
-- The theorems on dictionaries, lexicons and tries at concrete inputs.
use flashlight.Prelude.{
  false, none, true, ℕ, ◌≤◌, ◌≡◌, ◌↔◌, ◌⊎◌, refl, List, [], ◌∷◌, some, none, ok, throw,
  invalid_argument, runtime_error, ◌&&◌, if◌then◌else◌,
}
use flashlight.Prelude.Int.{ℤ, pos}
use flashlight.Prelude.Maps
use flashlight.Prelude.Maps.{lookup, int_key, emplace}
use flashlight.Strings.{
  Bytes, bytes_eq, split_on_whitespace, split_on_any_of, split_loop, keep_token, find_byte,
  is_one_of,
}
use flashlight.Text.Dictionary.{
  create_from_stream, is_contiguous, Dictionary, bytes_key, empty, contains, add_entry, get_index,
  get_entry, index_size, map_entries_to_indices, map_indices_to_entries, added, keep_first,
}
use flashlight.Text.Dictionary.Consistent.{IsConsistent, empty-IsConsistent, added-IsConsistent}
use flashlight.Text.Dictionary.Additions.{
  add_entry_new, run_empty-IsConsistent, adds, appends, defaults, run,
}
use flashlight.Text.Dictionary.Repeats.{NoRepeat, entries_of, among}
use flashlight.Text.Dictionary.Stream.{create_from_stream-total}
use flashlight.Text.Dictionary.Mapping.{map_entries_to_indices-map_indices_to_entries}
use flashlight.Text.Replabels.{replabel, pack_replabels, unpack_replabels}
use flashlight.Text.Replabels.RoundTrip.{
  unpack_replabels-pack_replabels, are_distinct, are_plain, has,
}
use flashlight.Text.Trie.{Node, new_node, insert}
use flashlight.Text.Trie.Table.{table, stored_if, all_valid, same_indices}
use flashlight.Text.Trie.Refinement.{table-insert}
use flashlight.Text.Utf8.{split_wrd, AreTokens, concat, split_wrd_iff, split_wrd-total}
use flashlight.Text.Lexicon.{load_words, load_lines, add_fields, add_spelling, unk_token, Lexicon}
use flashlight.Text.Lexicon.{create_word_dict}
use flashlight.Text.Lexicon.WordDict.{create_word_dict-total, are_words_distinct}
use flashlight.Text.Lexicon.Spellings.{lookup-load_words, extend, spellings}

abbrev a : Bytes
a = 97 ∷ []

-- The dictionary of "a" alone.
abbrev only_a : Dictionary
only_a = added empty a (pos 0)

abbrev only_a-IsConsistent : IsConsistent only_a
unfolding lookup
only_a-IsConsistent = added-IsConsistent empty a (pos 0) refl empty-IsConsistent

add_entry_new_example :
    (i : ℕ) × (d' : Dictionary) × (add_entry empty a ≡ ok d')
    × (get_index d' a ≡ ok (pos i))
    × (get_entry d' (pos i) ≡ ok a)
    × (get_entry empty (pos i) ≡ throw invalid_argument)
    × (index_size empty ≤ i)
unfolding contains lookup
add_entry_new_example = add_entry_new empty a refl

run_empty-IsConsistent_example :
    IsConsistent (run empty (appends a ∷ adds a (pos 3) ∷ defaults (pos 0) ∷ []))
run_empty-IsConsistent_example =
    run_empty-IsConsistent (appends a ∷ adds a (pos 3) ∷ defaults (pos 0) ∷ [])

map_entries_to_indices-map_indices_to_entries_example :
    map_entries_to_indices only_a (a ∷ a ∷ []) ≡ ok (pos 0 ∷ pos 0 ∷ [])
unfolding map_indices_to_entries get_entry lookup keep_first Maps.insert
map_entries_to_indices-map_indices_to_entries_example =
    map_entries_to_indices-map_indices_to_entries only_a (pos 0 ∷ pos 0 ∷ []) (a ∷ a ∷ [])
      only_a-IsConsistent refl

-- The dictionary of the repetition labels 1 and 2.
abbrev two_labels : Dictionary
two_labels = added (added empty (replabel 1) (pos 7)) (replabel 2) (pos 8)

unpack_replabels-pack_replabels_example :
    (packed : List ℤ) × (pack_replabels
        (pos 1 ∷ pos 1 ∷ pos 1 ∷ pos 1 ∷ pos 2 ∷ [])
        two_labels
        (pos 2)
      ≡ ok packed)
    × (unpack_replabels packed two_labels (pos 2) ≡ ok (pos 1 ∷ pos 1 ∷ pos 1 ∷ pos 1 ∷ pos 2 ∷ []))
unfolding get_index lookup Maps.insert replabel are_distinct are_plain has bytes_eq
unpack_replabels-pack_replabels_example =
    unpack_replabels-pack_replabels two_labels 2 (pos 7 ∷ pos 8 ∷ [])
      (pos 1 ∷ pos 1 ∷ pos 1 ∷ pos 1 ∷ pos 2 ∷ []) refl refl refl

abbrev root : Node ℕ
root = new_node (pos 0)

table-insert_example :
    table 5 (insert 5 (pos 1 ∷ pos 2 ∷ []) (pos 9) 4 root).0 (pos 1 ∷ pos 2 ∷ [])
    ≡ stored_if
        (all_valid 5 (pos 1 ∷ pos 2 ∷ []) && same_indices (pos 1 ∷ pos 2 ∷ []) (pos 1 ∷ pos 2 ∷ []))
        (pos 9)
        4
        (table 5 root (pos 1 ∷ pos 2 ∷ []))
table-insert_example = table-insert 5 (pos 1 ∷ pos 2 ∷ []) (pos 9) 4 root (pos 1 ∷ pos 2 ∷ [])

split_wrd_iff_example :
    (split_wrd (97 ∷ 195 ∷ 169 ∷ []) ≡ ok ((97 ∷ []) ∷ (195 ∷ 169 ∷ []) ∷ [])) ↔ (
      AreTokens ((97 ∷ []) ∷ (195 ∷ 169 ∷ []) ∷ [])
      × (concat ((97 ∷ []) ∷ (195 ∷ 169 ∷ []) ∷ []) ≡ 97 ∷ 195 ∷ 169 ∷ []))
split_wrd_iff_example = split_wrd_iff (97 ∷ 195 ∷ 169 ∷ []) ((97 ∷ []) ∷ (195 ∷ 169 ∷ []) ∷ [])

split_wrd-total_example :
    ((tokens : List Bytes) × (split_wrd (195 ∷ []) ≡ ok tokens))
    ⊎ (split_wrd (195 ∷ []) ≡ throw runtime_error)
split_wrd-total_example = split_wrd-total (195 ∷ [])

-- "a a" and "a b"
abbrev two_spellings : List Bytes
two_spellings = (97 ∷ 32 ∷ 97 ∷ []) ∷ (97 ∷ 32 ∷ 98 ∷ []) ∷ []

abbrev lexicon_of_two : Lexicon
lexicon_of_two = (a, (a ∷ []) ∷ ((98 ∷ []) ∷ []) ∷ []) ∷ (unk_token, []) ∷ []

lookup-load_words_example :
    lookup a lexicon_of_two
    ≡ (if bytes_eq unk_token a then some [] else extend none (spellings a two_spellings))
unfolding load_words load_lines split_on_whitespace split_on_any_of split_loop keep_token find_byte
    is_one_of add_fields add_spelling lookup Maps.insert bytes_eq
lookup-load_words_example = lookup-load_words two_spellings 0 lexicon_of_two a refl

-- The limit is reached with the first line.
abbrev lexicon_of_one : Lexicon
lexicon_of_one = (a, (a ∷ []) ∷ []) ∷ (unk_token, []) ∷ []

-- The file of two lines "a" and "a b".
create_from_stream-total_example :
    (NoRepeat [] (entries_of ((97 ∷ []) ∷ (97 ∷ 32 ∷ 98 ∷ []) ∷ []))
      × (d : Dictionary) × (create_from_stream (some ((97 ∷ []) ∷ (97 ∷ 32 ∷ 98 ∷ []) ∷ [])) ≡ ok d)
      × (is_contiguous d ≡ true)
      × ((x : Bytes) → contains d x ≡ among x (entries_of ((97 ∷ []) ∷ (97 ∷ 32 ∷ 98 ∷ []) ∷ []))))
    ⊎ ((¬ NoRepeat [] (entries_of ((97 ∷ []) ∷ (97 ∷ 32 ∷ 98 ∷ []) ∷ [])))
        × (create_from_stream (some ((97 ∷ []) ∷ (97 ∷ 32 ∷ 98 ∷ []) ∷ []))
            ≡ throw invalid_argument))
create_from_stream-total_example = create_from_stream-total ((97 ∷ []) ∷ (97 ∷ 32 ∷ 98 ∷ []) ∷ [])

create_word_dict-total_example :
    (d : Dictionary) × (unk : ℕ) × (i : ℕ) × (create_word_dict lexicon_of_one ≡ ok d)
    × (get_index d unk_token ≡ ok (pos unk))
    × (get_index d a ≡ ok (pos i))
    × (contains d a ≡ (elim (lookup a lexicon_of_one) [ none ↦ false | some _ ↦ true ]))
    × ((contains d a ≡ true) ⊎ (i ≡ unk))
unfolding are_words_distinct lookup bytes_eq
create_word_dict-total_example = create_word_dict-total lexicon_of_one [] a refl refl
