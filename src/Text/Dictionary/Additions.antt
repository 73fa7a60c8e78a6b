-- ===== src/Text/Dictionary/Additions.antt =====
-- Additions to a dictionary: when they succeed, and what can be read afterwards.
use flashlight.Prelude.{
  ℕ, ◌≤◌, ◌≡◌, true, false, List, [], ◌∷◌, some, none, Result, ok, throw, arith, Option-cases, inl,
  inr, invalid_argument,
}
use flashlight.Prelude.Int.{ℤ, pos}
use flashlight.Prelude.Maps.{lookup, int_key, lookup-insert_self, same_self}
use flashlight.Strings.{Bytes}
use flashlight.Text.Dictionary.{
  Dictionary, bytes_key, empty, contains, added, add_entry_at, add_entry, get_entry, get_index,
  set_default_index, index_size,
}
use flashlight.Text.Dictionary.FreeIndex.{free_index_total}
use flashlight.Text.Dictionary.Consistent.{
  IsConsistent, empty-IsConsistent, added-IsConsistent, lookup-keep_first_free,
}

-- A call of the dictionary: `addEntry` with and without an index, and `setDefaultIndex`.
pub data Call : Type 0 where
  adds : Bytes → ℤ → Call
  appends : Bytes → Call
  defaults : ℤ → Call

pub call : Dictionary → Call → Result Dictionary
call d (adds entry idx) = add_entry_at d entry idx
call d (appends entry) = add_entry d entry
call d (defaults idx) = ok (set_default_index d idx)

-- A call that throws leaves the dictionary as it was.
abbrev pub settle : Dictionary → Result Dictionary → Dictionary
settle d (ok d') = d'
settle d (throw e) = d

pub run : Dictionary → List Call → Dictionary
unfolding call
run d [] = d
run d (c ∷ calls) = run (settle d (call d c)) calls

add_entry_at-fresh :
    (d : Dictionary) (entry : Bytes) (idx : ℤ)
    → lookup entry d.entry2idx ≡ none
    → add_entry_at d entry idx ≡ ok (added d entry idx)
unfolding add_entry_at
add_entry_at-fresh d entry idx h = rw (h, add_entry_at)

add_entry_at-taken :
    (d : Dictionary) (entry : Bytes) (idx : ℤ) {i : ℤ}
    → lookup entry d.entry2idx ≡ some i
    → add_entry_at d entry idx ≡ throw invalid_argument
unfolding add_entry_at
add_entry_at-taken d entry idx h = rw (h, add_entry_at)

contains-fresh :
    (d : Dictionary) (entry : Bytes) → contains d entry ≡ false → lookup entry d.entry2idx ≡ none
unfolding contains
contains-fresh d entry h = ground arith

fresh-contains :
    (d : Dictionary) (entry : Bytes) → lookup entry d.entry2idx ≡ none → contains d entry ≡ false
unfolding contains
fresh-contains d entry h = rw (h, contains)

taken-contains :
    (d : Dictionary) (entry : Bytes) {i : ℤ}
    → lookup entry d.entry2idx ≡ some i
    → contains d entry ≡ true
unfolding contains
taken-contains d entry h = rw (h, contains)

pub add_entry-fresh :
    (d : Dictionary) (entry : Bytes)
    → lookup entry d.entry2idx ≡ none
    → (i : ℕ) × (add_entry d entry ≡ ok (added d entry (pos i)))
      × (lookup (pos i) d.idx2entry ≡ none)
      × (index_size d ≤ i)
unfolding add_entry
add_entry-fresh d entry fresh =
    let (i, found, free, above) = free_index_total (index_size d) d.idx2entry in
    (
      i,
      rw (fresh-contains d entry fresh, found) (add_entry_at-fresh d entry (pos i) fresh),
      free,
      above,
    )

get_index-added :
    (d : Dictionary) (entry : Bytes) (idx : ℤ) → get_index (added d entry idx) entry ≡ ok idx
unfolding get_index
get_index-added d entry idx = rw (lookup-insert_self entry idx d.entry2idx, get_index)

get_entry-added_free :
    (d : Dictionary) (entry : Bytes) (idx : ℤ)
    → lookup idx d.idx2entry ≡ none
    → get_entry (added d entry idx) idx ≡ ok entry
unfolding get_entry
get_entry-added_free d entry idx h =
    rw (lookup-keep_first_free idx entry d.idx2entry idx h, same_self idx)

get_entry-free :
    (d : Dictionary) (idx : ℤ)
    → lookup idx d.idx2entry ≡ none
    → get_entry d idx ≡ throw invalid_argument
unfolding get_entry
get_entry-free d idx h = rw h

-- An entry that is not there yet is always taken in: it gets an index that named no entry before and
-- is at least the number of indices, and both directions find it.
pub add_entry_new :
    (d : Dictionary) (entry : Bytes)
    → contains d entry ≡ false
    → (i : ℕ) × (d' : Dictionary) × (add_entry d entry ≡ ok d')
      × (get_index d' entry ≡ ok (pos i))
      × (get_entry d' (pos i) ≡ ok entry)
      × (get_entry d (pos i) ≡ throw invalid_argument)
      × (index_size d ≤ i)
add_entry_new d entry h =
    let (i, done, free, above) = add_entry-fresh d entry (contains-fresh d entry h) in
    (
      i,
      added d entry (pos i),
      done,
      get_index-added d entry (pos i),
      get_entry-added_free d entry (pos i) free,
      get_entry-free d (pos i) free,
      above,
    )

add_entry-taken :
    (d : Dictionary) (entry : Bytes)
    → contains d entry ≡ true
    → add_entry d entry ≡ throw invalid_argument
unfolding add_entry
add_entry-taken d entry h = rw h

call-IsConsistent :
    (d : Dictionary) (c : Call) → IsConsistent d → IsConsistent (settle d (call d c))
unfolding call set_default_index
call-IsConsistent d (adds entry idx) c = elim (Option-cases (lookup entry d.entry2idx)) [
  | inl fresh ↦ rw (add_entry_at-fresh d entry idx fresh) (added-IsConsistent d entry idx fresh c)
  | inr (i, taken) ↦ rw (add_entry_at-taken d entry idx taken) c
]
call-IsConsistent d (appends entry) c = elim (Option-cases (lookup entry d.entry2idx)) [
  | inl fresh ↦
      let (i, done, _, _) = add_entry-fresh d entry fresh in
      rw done (added-IsConsistent d entry (pos i) fresh c)
  | inr (i, taken) ↦ rw (add_entry-taken d entry (taken-contains d entry taken)) c
]
call-IsConsistent d (defaults idx) c = record { back = c.back; forth = c.forth }

run-IsConsistent :
    (d : Dictionary) (calls : List Call) → IsConsistent d → IsConsistent (run d calls)
unfolding run
run-IsConsistent d [] c = c
run-IsConsistent d (c ∷ calls) h =
    run-IsConsistent (settle d (call d c)) calls (call-IsConsistent d c h)

-- After any history of calls on an empty dictionary the two maps agree.
pub run_empty-IsConsistent : (calls : List Call) → IsConsistent (run empty calls)
run_empty-IsConsistent calls = run-IsConsistent empty calls empty-IsConsistent
