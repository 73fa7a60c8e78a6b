-- ===== src/Text/Lexicon.antt =====
-- flashlight/lib/text/dictionary/Utils.cpp: `loadWords` and `createWordDict`.
pub mod Spellings
pub mod WordDict
use flashlight.Prelude.{
  ℕ, zero, suc, ◌+◌, ◌≤◌, ◌<◌, ◌≡◌, refl, sym, ap, ◌∙◌, Bool, true, false, List, [], ◌∷◌, ◌++◌,
  Option, some, none, Result, ok, throw, ◌>>=◌, require, runtime_error, Result-cases, Option-cases,
  Bool-cases, inl, inr, length, ◌==◌, if◌then◌else◌, arith,
}
use flashlight.Prelude.Int.{ℤ, pos, negsuc, eqb_ℤ}
use flashlight.Prelude.Maps.{Map, lookup, insert}
use flashlight.Strings.{Bytes, split_on_whitespace}
use flashlight.Text.Dictionary.{
  Dictionary, bytes_key, empty, add_entry, get_index, set_default_index,
}

-- A word's spellings.
abbrev pub Lexicon : Type 0
Lexicon = Map Bytes (List (List Bytes))

-- `kUnkToken`
abbrev pub unk_token : Bytes
unk_token = 60 ∷ 117 ∷ 110 ∷ 107 ∷ 62 ∷ []

-- One more spelling of a word, which is taken in when it is new.
unfoldable pub add_spelling : Bytes → List Bytes → Lexicon → Lexicon
add_spelling word spelling lexicon = elim (lookup word lexicon) [
  | none ↦ insert word (spelling ∷ []) lexicon
  | some spellings ↦ insert word (spellings ++ (spelling ∷ [])) lexicon
]

-- The fields of a line: its word and the spelling, which has at least one token.
unfoldable pub add_fields : List Bytes → Lexicon → Result Lexicon
unfolding add_spelling
add_fields [] lexicon = throw runtime_error
add_fields (word ∷ []) lexicon = throw runtime_error
add_fields (word ∷ token ∷ spelling) lexicon = ok (add_spelling word (token ∷ spelling) lexicon)

-- The loop over the lines of the file. The comparison with the size is of machine words: a negative
-- `maxWords` is none of the sizes.
unfoldable pub load_lines : ℤ → List Bytes → Lexicon → Result Lexicon
unfolding add_fields
load_lines max_words [] lexicon = ok lexicon
load_lines max_words (line ∷ lines) lexicon = elim (eqb_ℤ max_words (pos (length lexicon))) [
  | true ↦ ok lexicon
  | false ↦ add_fields (split_on_whitespace line true) lexicon >>= λ lexicon'.
      load_lines max_words lines lexicon'
]

-- The unknown word comes last, without a spelling. A file that cannot be opened is `none`.
unfoldable pub load_words : Option (List Bytes) → ℤ → Result Lexicon
unfolding load_lines
load_words stream max_words = require stream runtime_error >>= λ lines.
    load_lines max_words lines [] >>= λ lexicon. ok (insert unk_token [] lexicon)

-- The loop over the words, in the order in which the map gives them.
unfoldable pub add_words : Lexicon → Dictionary → Result Dictionary
add_words [] dict = ok dict
add_words ((word, _) ∷ lexicon) dict = add_entry dict word >>= add_words lexicon

unfoldable pub create_word_dict : Lexicon → Result Dictionary
unfolding add_words
create_word_dict lexicon = add_words lexicon empty >>= λ dict.
    get_index dict unk_token >>= λ idx. ok (set_default_index dict idx)
