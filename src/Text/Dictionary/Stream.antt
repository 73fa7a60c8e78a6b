-- ===== src/Text/Dictionary/Stream.antt =====
-- A dictionary read from a stream.
use flashlight.Prelude.{
  ℕ, zero, suc, ◌+◌, ◌≤◌, ◌<◌, ◌≡◌, ◌⊎◌, refl, sym, ap, ◌∙◌, true, false, List, [], ◌∷◌, ◌++◌, ◌||◌,
  Bool, some, none, Result, ok, throw, ◌>>=◌, length, arith, if◌then◌else◌, Option-cases,
  Bool-cases, inl, inr, invalid_argument, runtime_error, ◌==◌,
}
use mathlib.Core.Path.{subst}
use flashlight.Prelude.Int.{ℤ, eqb_ℤ_iff, pos}
use flashlight.Prelude.Maps.{Map, lookup, insert, int_key, lookup-insert, length-insert_new}
use flashlight.Strings.{Bytes, split_on_whitespace}
use flashlight.Text.Dictionary.{
  Dictionary, bytes_key, empty, added, keep_first, add_entry_at, index_size, has_below, has_indices,
  is_contiguous, contains, add_line, add_lines, create_from_stream,
}
use flashlight.Text.Dictionary.Repeats.{
  entries_of, among, NoRepeat, after, after-append, among-after, NoRepeat-append, NoRepeat-split,
  Holds, added-Holds, contains-none, contains-some, no_words,
}
use flashlight.Text.Dictionary.Consistent.{lookup-keep_first_taken}

-- The indices are those below the number of indices, and every entry has one of them.
record IsDense (d : Dictionary) : Type 0 where
  indexed : has_indices d.entry2idx d.idx2entry ≡ true
  below : (i : ℕ) → i < index_size d → (e : Bytes) × (lookup (pos i) d.idx2entry ≡ some e)
  above : (i : ℕ) → index_size d ≤ i → lookup (pos i) d.idx2entry ≡ none

has_indices_mono :
    (es : Map Bytes ℤ) (m m' : Map ℤ Bytes)
    → ((i : ℤ) (e : Bytes) → lookup i m ≡ some e → lookup i m' ≡ some e)
    → has_indices es m ≡ true
    → has_indices es m' ≡ true
unfolding has_indices
has_indices_mono [] m m' keeps h = refl
has_indices_mono ((entry, idx) ∷ es) m m' keeps h = elim (Option-cases (lookup idx m)) [
  | inl e ↦ absurd (ground arith)
  | inr (f, e) ↦ rw (keeps idx f e, has_indices) (has_indices_mono es m m' keeps (ground arith))
]

has_indices-insert :
    (es : Map Bytes ℤ) (m : Map ℤ Bytes) (entry f : Bytes) (idx : ℤ)
    → lookup idx m ≡ some f
    → has_indices es m ≡ true
    → has_indices (insert entry idx es) m ≡ true
unfolding has_indices insert
has_indices-insert [] m entry f idx there h = rw (there, has_indices)
has_indices-insert ((e, i) ∷ es) m entry f idx there h = elim (Option-cases (lookup i m)) [
  | inl missing ↦ absurd (ground arith)
  | inr (g, found) ↦
      let rest : has_indices es m ≡ true = ground arith in
      (elim (Bool-cases (bytes_key.same e entry)) [
        | inl hit ↦ rw (hit, there, has_indices) rest
        | inr miss ↦ rw (miss, found, has_indices) (has_indices-insert es m entry f idx there rest)
      ])
]

has_below-true :
    (i n : ℕ) (m : Map ℤ Bytes)
    → ((j : ℕ) → j < n → (e : Bytes) × (lookup (pos (i + j)) m ≡ some e))
    → has_below i n m ≡ true
unfolding has_below
has_below-true i zero m h = refl
has_below-true i (suc n) m h =
    let (e, here) = h 0 (omega arith) in
    let here_i : i + 0 ≡ i = omega arith in
    rw (rw here_i at here, has_below)
      (has_below-true (i + 1) n m (λ j lt.
        let shift : i + 1 + j ≡ i + suc j = omega arith in rw shift (h (suc j) (omega arith))))

IsDense-is_contiguous : (d : Dictionary) → IsDense d → is_contiguous d ≡ true
unfolding is_contiguous
IsDense-is_contiguous d h = rw (
  has_below-true 0 (index_size d) d.idx2entry
      (λ j lt. let e : 0 + j ≡ j = omega arith in rw e (h.below j lt)),
  h.indexed,
)

-- The entry of an index that is new, and of one that is there.
added-IsDense_new :
    (d : Dictionary) (entry : Bytes)
    → IsDense d
    → IsDense (added d entry (pos (index_size d)))
      × (index_size (added d entry (pos (index_size d))) ≡ suc (index_size d))
unfolding keep_first
added-IsDense_new d entry h = (
  record {
    indexed = has_indices-insert d.entry2idx (keep_first (pos n) entry m) entry entry (pos n) here (
        has_indices_mono d.entry2idx m (keep_first (pos n) entry m)
          (λ i e found. lookup-keep_first_taken (pos n) entry e m i found) h.indexed);
    below = λ i lt. rw inserted (elim (Bool-cases (n == i)) [
      | inl it ↦ (entry, rw (lookup-insert (pos n) (pos i) entry m, it))
      | inr other ↦
          let (e, found) = h.below i (ground (arith, size)) in
          (e, rw (lookup-insert (pos n) (pos i) entry m, other) found)
    ]);
    above = λ i le.
        let other : (n == i) ≡ false = ground (arith, size) in
        rw (inserted, lookup-insert (pos n) (pos i) entry m, other)
          (h.above i (omega (arith, size)));
  },
  size,
)
  where
    n : ℕ
    n = index_size d

    m : Map ℤ Bytes
    m = d.idx2entry

    free : lookup (pos n) m ≡ none
    free = h.above n (omega arith)

    inserted : keep_first (pos n) entry m ≡ insert (pos n) entry m
    inserted = rw (free, keep_first)

    size : length (keep_first (pos n) entry m) ≡ suc n
    size = rw inserted (length-insert_new (pos n) entry m free)

    here : lookup (pos n) (keep_first (pos n) entry m) ≡ some entry
    here = rw (inserted, lookup-insert (pos n) (pos n) entry m, (eqb_ℤ_iff (pos n) (pos n)).1 refl)

added-IsDense_again :
    (d : Dictionary) (entry f : Bytes) (idx : ℤ)
    → IsDense d
    → lookup idx d.idx2entry ≡ some f
    → IsDense (added d entry idx) × (index_size (added d entry idx) ≡ index_size d)
unfolding keep_first
added-IsDense_again d entry f idx h there =
    let same : keep_first idx entry d.idx2entry ≡ d.idx2entry = rw (there, keep_first) in
    (
      record {
        indexed = rw same (has_indices-insert d.entry2idx d.idx2entry entry f idx there h.indexed);
        below = λ i lt. rw same (h.below i (rw same at lt));
        above = λ i le. rw same (h.above i (rw same at le));
      },
      ap length same,
    )

-- What is left when `entries` are read after those of `seen`: a dense dictionary that holds all of them,
-- if none is there twice, and the exception otherwise.
abbrev Reads : List Bytes → List Bytes → Result Dictionary → Type 0
Reads seen entries (ok d) = IsDense d × NoRepeat seen entries × Holds d (after seen entries)
Reads seen entries (throw e) = (e ≡ invalid_argument) × (¬ NoRepeat seen entries)

Reads-cons :
    (entry : Bytes) (seen entries : List Bytes) (r : Result Dictionary)
    → among entry seen ≡ false
    → Reads (entry ∷ seen) entries r
    → Reads seen (entry ∷ entries) r
Reads-cons entry seen entries (ok d) fresh (dense, once, holds) = (dense, (fresh, once), holds)
Reads-cons entry seen entries (throw e) fresh (it, twice) = (it, λ (_, once). twice once)

add_line-Reads :
    (idx : ℕ) (seen entries : List Bytes) (d : Dictionary)
    → IsDense d
    → Holds d seen
    → ((idx ≡ index_size d) ⊎ (suc idx ≡ index_size d))
    → Reads seen entries (add_line (pos idx) entries d)
unfolding add_line add_entry_at
add_line-Reads idx seen [] d h holds where_idx = (h, tt, holds)
add_line-Reads idx seen (entry ∷ entries) d h holds where_idx =
    elim (Option-cases (lookup entry d.entry2idx)) [
      | inr (i, taken) ↦
          let there : among entry seen ≡ true = sym (holds entry) ∙ contains-some d entry i taken in
          rw (taken, add_entry_at) (refl, λ (fresh, _). absurd (ground arith))
      | inl fresh ↦
          let new_entry : among entry seen ≡ false =
            sym (holds entry) ∙ contains-none d entry fresh in
          let holds' : Holds (added d entry (pos idx)) (entry ∷ seen) =
            added-Holds d entry (pos idx) seen holds in
          rw (fresh, add_entry_at)
            (Reads-cons entry seen entries (add_line (pos idx) entries (added d entry (pos idx)))
              new_entry
              ((elim where_idx [
                | inl e ↦
                    let new : IsDense (added d entry (pos idx))
                        × (index_size (added d entry (pos idx)) ≡ suc (index_size d)) =
                      rw e (added-IsDense_new d entry h) in
                    add_line-Reads idx (entry ∷ seen) entries (added d entry (pos idx)) new.0 holds'
                      (inr (ap suc e ∙ sym new.1))
                | inr e ↦
                    let (f, there) = h.below idx (omega arith) in
                    let (dense, size) = added-IsDense_again d entry f (pos idx) h there in
                    add_line-Reads idx (entry ∷ seen) entries (added d entry (pos idx)) dense holds'
                      (inr (e ∙ sym size))
              ])))
    ]

Reads-bind :
    (seen xs ys : List Bytes) (r : Result Dictionary) (next : Dictionary → Result Dictionary)
    → Reads seen xs r
    → ((d : Dictionary) → IsDense d → Holds d (after seen xs) → Reads (after seen xs) ys (next d))
    → Reads seen (xs ++ ys) (r >>= next)
Reads-bind seen xs ys (ok d) next (dense, once, holds) h = joined (next d) (h d dense holds)
  where
    joined : (r : Result Dictionary) → Reads (after seen xs) ys r → Reads seen (xs ++ ys) r
    joined (ok d') (dense', once', holds') = (
      dense',
      NoRepeat-append seen xs ys once once',
      λ x. holds' x ∙ ap (among x) (sym (after-append seen xs ys)),
    )
    joined (throw e) (it, twice) = (it, λ all. twice (NoRepeat-split seen xs ys all).1)
Reads-bind seen xs ys (throw e) next (it, twice) h =
    (it, λ all. twice (NoRepeat-split seen xs ys all).0)

add_lines-Reads :
    (seen lines : List Bytes) (d : Dictionary)
    → IsDense d
    → Holds d seen
    → Reads seen (entries_of lines) (add_lines lines d)
unfolding add_lines
add_lines-Reads seen [] d h holds = (h, tt, holds)
add_lines-Reads seen ([] ∷ lines) d h holds =
    subst (λ words. Reads seen (words ++ entries_of lines) (add_lines lines d)) (sym no_words)
      (add_lines-Reads seen lines d h holds)
add_lines-Reads seen ((c ∷ line) ∷ lines) d h holds =
    let words : List Bytes = split_on_whitespace (c ∷ line) true in
    Reads-bind seen words (entries_of lines) (add_line (pos (index_size d)) words d)
      (add_lines lines) (add_line-Reads (index_size d) seen words d h holds (inl refl))
      (λ d' dense holds'. add_lines-Reads (after seen words) lines d' dense holds')

or-false : (b : Bool) → (b || false) ≡ b
or-false true = refl
or-false false = refl

empty-IsDense : IsDense empty
unfolding lookup has_indices
empty-IsDense = record {
  indexed = refl;
  below = λ i lt. absurd (omega arith);
  above = λ i le. refl;
}

empty-Holds : Holds empty []
unfolding contains lookup
empty-Holds x = refl

-- From a stream that is open createFromStream makes a dictionary whose indices are contiguous and whose
-- entries are those of the lines, if none of them is there twice; otherwise it throws
-- std::invalid_argument. It never gets to the exception for a dictionary that is not contiguous.
pub create_from_stream-total :
    (lines : List Bytes)
    → (NoRepeat [] (entries_of lines)
        × (d : Dictionary) × (create_from_stream (some lines) ≡ ok d)
        × (is_contiguous d ≡ true)
        × ((x : Bytes) → contains d x ≡ among x (entries_of lines)))
      ⊎ ((¬ NoRepeat [] (entries_of lines))
          × (create_from_stream (some lines) ≡ throw invalid_argument))
unfolding create_from_stream
create_from_stream-total lines =
    checked (add_lines lines empty) (add_lines-Reads [] lines empty empty-IsDense empty-Holds)
  where
    checked :
        (r : Result Dictionary)
        → Reads [] (entries_of lines) r
        → (NoRepeat [] (entries_of lines)
            × (d : Dictionary) × ((r >>= λ d. if is_contiguous d then ok d else throw runtime_error)
                ≡ ok d)
            × (is_contiguous d ≡ true)
            × ((x : Bytes) → contains d x ≡ among x (entries_of lines)))
          ⊎ ((¬ NoRepeat [] (entries_of lines))
              × ((r >>= λ d. if is_contiguous d then ok d else throw runtime_error)
                  ≡ throw invalid_argument))
    checked (throw e) (it, twice) = inr (twice, ap throw it)
    checked (ok d) (dense, once, holds) =
        let fine = IsDense-is_contiguous d dense in
        inl (
          once,
          d,
          rw fine,
          fine,
          λ x.
              holds x ∙ among-after x [] (entries_of lines) ∙ or-false (among x (entries_of lines)),
        )
