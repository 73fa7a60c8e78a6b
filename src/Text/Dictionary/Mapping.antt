-- ===== src/Text/Dictionary/Mapping.antt =====
-- Indices to entries and back.
use flashlight.Prelude.{◌≡◌, List, some, ok, for_each-undo, arith}
use flashlight.Prelude.Int.{ℤ}
use flashlight.Prelude.Maps.{lookup, int_key}
use flashlight.Strings.{Bytes}
use flashlight.Text.Dictionary.{
  Dictionary, bytes_key, get_entry, get_index, map_entries_to_indices, map_indices_to_entries,
}
use flashlight.Text.Dictionary.Consistent.{IsConsistent}

get_entry-some :
    (d : Dictionary) (i : ℤ) (e : Bytes) → get_entry d i ≡ ok e → lookup i d.idx2entry ≡ some e
unfolding get_entry
get_entry-some d i e h = ground arith

-- An entry read at an index is found again at that index.
get_index-get_entry :
    (d : Dictionary) (i : ℤ) (e : Bytes)
    → IsConsistent d
    → get_entry d i ≡ ok e
    → get_index d e ≡ ok i
unfolding get_index
get_index-get_entry d i e c h = rw (c.back i e (get_entry-some d i e h), get_index)

-- When the two maps of a dictionary agree and every index of a list names an entry, mapping the
-- indices to entries and the entries back gives the list of indices again.
pub map_entries_to_indices-map_indices_to_entries :
    (d : Dictionary) (indices : List ℤ) (entries : List Bytes)
    → IsConsistent d
    → map_indices_to_entries d indices ≡ ok entries
    → map_entries_to_indices d entries ≡ ok indices
unfolding map_entries_to_indices map_indices_to_entries
map_entries_to_indices-map_indices_to_entries d indices entries c h =
    for_each-undo (get_entry d) (get_index d) (λ i e found. get_index-get_entry d i e c found)
      indices entries h
