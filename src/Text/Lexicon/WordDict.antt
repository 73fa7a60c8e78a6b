-- ===== src/Text/Lexicon/WordDict.antt =====
-- The dictionary of a lexicon.
use flashlight.Prelude.{
  ℕ, ◌≡◌, ◌≢◌, ◌⊎◌, refl, sym, ap, ◌∙◌, Bool, true, false, ◌&&◌, List, [], ◌∷◌, some, none, ok,
  arith, Option-cases, Bool-cases, inl, inr,
}
use mathlib.Core.Option.{none-ne-some}
use flashlight.Prelude.Int.{pos}
use flashlight.Prelude.Maps.{lookup, lookup-insert_self, lookup-insert_ne, same_self, same_ne}
use flashlight.Strings.{Bytes, bytes_eq_iff}
use flashlight.Text.Dictionary.{
  Dictionary, bytes_key, empty, contains, added, get_index, set_default_index,
}
use flashlight.Text.Dictionary.Additions.{add_entry-fresh}
use flashlight.Text.Lexicon.{Lexicon, unk_token, add_words, create_word_dict}

-- No word stands twice in a lexicon.
unfoldable pub are_words_distinct : Lexicon → Bool
are_words_distinct [] = true
are_words_distinct ((word, _) ∷ lexicon) =
    (elim (lookup word lexicon) [ none ↦ true | some _ ↦ false ]) && are_words_distinct lexicon

-- The words of a lexicon are in a dictionary, each with an index, and all else is as in another.
record Taken (lexicon : Lexicon) (d d' : Dictionary) : Type 0 where
  others : (w : Bytes) → lookup w lexicon ≡ none → lookup w d'.entry2idx ≡ lookup w d.entry2idx
  words :
      (w : Bytes) (s : List (List Bytes))
      → lookup w lexicon ≡ some s
      → (i : ℕ) × (lookup w d'.entry2idx ≡ some (pos i))

split_distinct :
    (word : Bytes) (s : List (List Bytes)) (lexicon : Lexicon)
    → are_words_distinct ((word, s) ∷ lexicon) ≡ true
    → (lookup word lexicon ≡ none) × (are_words_distinct lexicon ≡ true)
unfolding are_words_distinct
split_distinct word s lexicon h = elim (Option-cases (lookup word lexicon)) [
  | inl e ↦ (e, ground arith)
  | inr (t, e) ↦ absurd (ground arith)
]

split_missing :
    (word : Bytes) (s : List (List Bytes)) (lexicon : Lexicon) (w : Bytes)
    → lookup w ((word, s) ∷ lexicon) ≡ none
    → (word ≢ w) × (lookup w lexicon ≡ none)
unfolding lookup
split_missing word s lexicon w h = elim (Bool-cases (bytes_key.same word w)) [
  | inl hit ↦ absurd (ground arith)
  | inr miss ↦ ((λ same. absurd (ground (arith, bytes_eq_iff word w))), rw miss at h)
]

add_words-Taken :
    (lexicon : Lexicon) (d : Dictionary)
    → are_words_distinct lexicon ≡ true
    → ((w : Bytes) (s : List (List Bytes))
        → lookup w lexicon ≡ some s
        → lookup w d.entry2idx ≡ none)
    → (d' : Dictionary) × (add_words lexicon d ≡ ok d') × Taken lexicon d d'
unfolding add_words are_words_distinct lookup
add_words-Taken [] d distinct fresh =
    (d, refl, record { others = λ w e. refl; words = λ w s e. absurd (ground arith) })
add_words-Taken ((word, s) ∷ lexicon) d distinct fresh =
    let (i, done, _, _) = add_entry-fresh d word (fresh word s (rw (same_self word))) in
    let (d', run, taken) =
      add_words-Taken lexicon (added d word (pos i)) (split_distinct word s lexicon distinct).1
        (λ w t there.
          lookup-insert_ne word w (pos i) d.entry2idx (other w t there)
          ∙ fresh w t (rw (same_ne word w (other w t there)) there)) in
    (
      d',
      rw done run,
      record {
        others = λ w missing.
            let (differs, missing') = split_missing word s lexicon w missing in
            taken.others w missing' ∙ lookup-insert_ne word w (pos i) d.entry2idx differs;
        words = λ w t there. elim (Bool-cases (bytes_key.same word w)) [
          | inl hit ↦
              let it : word ≡ w = (bytes_eq_iff word w).0 hit in
              (i, rw (← it) (taken.others word alone ∙ lookup-insert_self word (pos i) d.entry2idx))
          | inr miss ↦ taken.words w t (rw miss at there)
        ];
      },
    )
  where
    alone : lookup word lexicon ≡ none
    alone = (split_distinct word s lexicon distinct).0

    other : (w : Bytes) (t : List (List Bytes)) → lookup w lexicon ≡ some t → word ≢ w
    other w t there same = none-ne-some t (sym alone ∙ ap (λ k. lookup k lexicon) same ∙ there)

empty-fresh : (w : Bytes) → lookup w empty.entry2idx ≡ none
unfolding lookup
empty-fresh w = refl

-- From a lexicon without a word twice that has the unknown word, createWordDict makes a dictionary that
-- contains exactly the words of the lexicon, each with an index, and gives every other word the index
-- of the unknown word.
pub create_word_dict-total :
    (lexicon : Lexicon) (spellings : List (List Bytes)) (word : Bytes)
    → are_words_distinct lexicon ≡ true
    → lookup unk_token lexicon ≡ some spellings
    → (d : Dictionary) × (unk : ℕ) × (i : ℕ) × (create_word_dict lexicon ≡ ok d)
      × (get_index d unk_token ≡ ok (pos unk))
      × (get_index d word ≡ ok (pos i))
      × (contains d word ≡ (elim (lookup word lexicon) [ none ↦ false | some _ ↦ true ]))
      × ((contains d word ≡ true) ⊎ (i ≡ unk))
unfolding create_word_dict get_index set_default_index contains
create_word_dict-total lexicon spellings word distinct has_unk =
    let (d, run, taken) = add_words-Taken lexicon empty distinct (λ w s there. empty-fresh w) in
    let (unk, found) = taken.words unk_token spellings has_unk in
    (elim (Option-cases (lookup word lexicon)) [
      | inl e ↦
          let absent = taken.others word e ∙ empty-fresh word in
          (
            set_default_index d (pos unk),
            unk,
            unk,
            rw (run, found, get_index),
            rw (found, get_index),
            rw (absent, get_index),
            rw (e, absent, contains),
            inr refl,
          )
      | inr (s, e) ↦
          let (i, at_word) = taken.words word s e in
          (
            set_default_index d (pos unk),
            unk,
            i,
            rw (run, found, get_index),
            rw (found, get_index),
            rw (at_word, get_index),
            rw (e, at_word, contains),
            inl (rw (at_word, contains)),
          )
    ])
