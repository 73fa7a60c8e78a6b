-- ===== src/Text/Dictionary.antt =====
-- flashlight/lib/text/dictionary/Dictionary.{h,cpp}: entries and their indices, several entries to an
-- index. An index is an `int`; a dictionary has fewer than 2^31 entries.
pub mod Consistent
pub mod FreeIndex
pub mod Additions
pub mod Mapping
pub mod Repeats
pub mod Stream
use flashlight.Prelude.{
  ℕ, zero, suc, ◌+◌, ◌≡◌, refl, Bool, true, false, ◌&&◌, List, [], ◌∷◌, Option, some, none, Result,
  ok, throw, ◌>>=◌, for_each, require, invalid_argument, runtime_error, undefined_behaviour,
  if◌then◌else◌, length,
}
use flashlight.Prelude.Int.{ℤ, pos, negsuc}
use flashlight.Prelude.Maps.{Key, Map, lookup, insert, int_key}
use flashlight.Strings.{Bytes, bytes_eq, bytes_eq_iff, split_on_whitespace}

instance abbrev pub bytes_key : Key Bytes
bytes_key = record { same = bytes_eq; same_iff = bytes_eq_iff }

pub record Dictionary : Type 0 where
  pub entry2idx : Map Bytes ℤ
  pub idx2entry : Map ℤ Bytes
  pub default_index : ℤ

abbrev pub empty : Dictionary
empty = record { entry2idx = []; idx2entry = []; default_index = negsuc 0 }

unfoldable pub contains : Dictionary → Bytes → Bool
contains d entry = elim (lookup entry d.entry2idx) [ none ↦ false | some _ ↦ true ]

abbrev pub entry_size : Dictionary → ℕ
entry_size d = length d.entry2idx

abbrev pub index_size : Dictionary → ℕ
index_size d = length d.idx2entry

-- An index that is taken keeps its first entry.
unfoldable pub keep_first : ℤ → Bytes → Map ℤ Bytes → Map ℤ Bytes
keep_first idx entry m = elim (lookup idx m) [ none ↦ insert idx entry m | some _ ↦ m ]

-- What `addEntry` with an index leaves.
abbrev pub added : Dictionary → Bytes → ℤ → Dictionary
added d entry idx = record d {
  entry2idx = insert entry idx d.entry2idx;
  idx2entry = keep_first idx entry d.idx2entry;
}

unfoldable pub add_entry_at : Dictionary → Bytes → ℤ → Result Dictionary
unfolding keep_first
add_entry_at d entry idx = elim (lookup entry d.entry2idx) [
  | none ↦ ok (added d entry idx)
  | some _ ↦ throw invalid_argument
]

-- The loop that looks for the first free index from `idx` on, with fuel.
unfoldable pub free_index : ℕ → ℕ → Map ℤ Bytes → Option ℕ
free_index zero idx m = none
free_index (suc fuel) idx m = elim (lookup (pos idx) m) [
  | none ↦ some idx
  | some _ ↦ free_index fuel (idx + 1) m
]

-- `addEntry` without an index.
unfoldable pub add_entry : Dictionary → Bytes → Result Dictionary
unfolding contains add_entry_at free_index
add_entry d entry =
    if contains d entry
    then throw invalid_argument
    else (require (free_index (index_size d + 1) (index_size d) d.idx2entry) undefined_behaviour
        >>= λ idx. add_entry_at d entry (pos idx))

unfoldable pub get_entry : Dictionary → ℤ → Result Bytes
get_entry d idx = require (lookup idx d.idx2entry) invalid_argument

unfoldable pub set_default_index : Dictionary → ℤ → Dictionary
set_default_index d idx = record d { default_index = idx }

-- The index of an unknown entry: the default one, unless that is negative.
abbrev default_or_throw : ℤ → Result ℤ
default_or_throw (pos i) = ok (pos i)
default_or_throw (negsuc _) = throw invalid_argument

unfoldable pub get_index : Dictionary → Bytes → Result ℤ
get_index d entry = elim (lookup entry d.entry2idx) [
  | none ↦ default_or_throw d.default_index
  | some idx ↦ ok idx
]

-- The two loops of `isContiguous`.
has_below : ℕ → ℕ → Map ℤ Bytes → Bool
has_below i zero m = true
has_below i (suc n) m = elim (lookup (pos i) m) [ none ↦ false | some _ ↦ has_below (i + 1) n m ]

has_indices : Map Bytes ℤ → Map ℤ Bytes → Bool
has_indices [] m = true
has_indices ((_, idx) ∷ entries) m = elim (lookup idx m) [
  | none ↦ false
  | some _ ↦ has_indices entries m
]

unfoldable pub is_contiguous : Dictionary → Bool
unfolding has_below has_indices
is_contiguous d = has_below 0 (index_size d) d.idx2entry && has_indices d.entry2idx d.idx2entry

pub map_entries_to_indices : Dictionary → List Bytes → Result (List ℤ)
unfolding get_index
map_entries_to_indices d entries = for_each (get_index d) entries

unfoldable pub map_indices_to_entries : Dictionary → List ℤ → Result (List Bytes)
unfolding get_entry
map_indices_to_entries d indices = for_each (get_entry d) indices

-- The entries of one line, all to the same index.
unfoldable pub add_line : ℤ → List Bytes → Dictionary → Result Dictionary
unfolding add_entry_at
add_line idx [] d = ok d
add_line idx (entry ∷ entries) d = add_entry_at d entry idx >>= add_line idx entries

-- The loop over the lines of the stream; an empty line is passed over.
unfoldable pub add_lines : List Bytes → Dictionary → Result Dictionary
unfolding add_line split_on_whitespace
add_lines [] d = ok d
add_lines ([] ∷ lines) d = add_lines lines d
add_lines ((c ∷ line) ∷ lines) d =
    add_line (pos (index_size d)) (split_on_whitespace (c ∷ line) true) d >>= add_lines lines

-- A stream that could not be opened is `none`, and one that could is the lines that `getline` gives.
unfoldable pub create_from_stream : Option (List Bytes) → Result Dictionary
unfolding add_lines is_contiguous
create_from_stream stream = do
  lines ← require stream runtime_error
  d ← add_lines lines empty
  if is_contiguous d then ok d else throw runtime_error
