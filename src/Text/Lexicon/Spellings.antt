-- ===== src/Text/Lexicon/Spellings.antt =====
-- What `loadWords` collects.
use flashlight.Prelude.{
  ℕ, ◌+◌, ◌≤◌, ◌≡◌, refl, sym, ap, ◌∙◌, true, List, [], ◌∷◌, ◌++◌, append_assoc, append-nil, Option,
  some, none, ok, Result-cases, Option-cases, Bool-cases, inl, inr, length, ◌==◌, if◌then◌else◌,
  arith,
}
use flashlight.Prelude.Int.{ℤ, pos, negsuc}
use flashlight.Prelude.Maps.{lookup, insert, lookup-insert, lookup-insert_self}
use flashlight.Strings.{Bytes, bytes_eq, bytes_eq_iff, split_on_whitespace}
use flashlight.Text.Dictionary.{bytes_key}
use flashlight.Text.Lexicon.{Lexicon, unk_token, add_spelling, add_fields, load_lines, load_words}

-- The spelling of a line, when its first field is the word.
unfoldable pub spelling_of : Bytes → List Bytes → List (List Bytes)
spelling_of word [] = []
spelling_of word (field ∷ spelling) = if bytes_eq field word then spelling ∷ [] else []

-- The spellings of a word in the order of the lines.
unfoldable pub spellings : Bytes → List Bytes → List (List Bytes)
unfolding spelling_of
spellings word [] = []
spellings word (line ∷ lines) =
    spelling_of word (split_on_whitespace line true) ++ spellings word lines

-- Spellings behind those that there are.
unfoldable pub extend : Option (List (List Bytes)) → List (List Bytes) → Option (List (List Bytes))
extend none [] = none
extend none (s ∷ ss) = some (s ∷ ss)
extend (some old) ss = some (old ++ ss)

extend-append :
    (old : Option (List (List Bytes))) (ss ts : List (List Bytes))
    → extend (extend old ss) ts ≡ extend old (ss ++ ts)
unfolding extend
extend-append none [] ts = refl
extend-append none (s ∷ ss) ts = refl
extend-append (some old) ss ts = ap some (append_assoc old ss ts)

extend-nil : (old : Option (List (List Bytes))) → extend old [] ≡ old
unfolding extend
extend-nil none = refl
extend-nil (some old) = ap some (append-nil old)

add_spelling-insert :
    (word : Bytes) (spelling : List Bytes) (lexicon : Lexicon)
    → (new : List (List Bytes)) × (add_spelling word spelling lexicon ≡ insert word new lexicon)
      × (some new ≡ extend (lookup word lexicon) (spelling ∷ []))
unfolding add_spelling extend
add_spelling-insert word spelling lexicon = elim (Option-cases (lookup word lexicon)) [
  | inl e ↦ (spelling ∷ [], rw (e, add_spelling), rw (e, extend))
  | inr (old, e) ↦ (old ++ (spelling ∷ []), rw (e, add_spelling), rw (e, extend))
]

lookup-add_spelling :
    (word v : Bytes) (spelling : List Bytes) (lexicon : Lexicon)
    → lookup v (add_spelling word spelling lexicon)
      ≡ extend (lookup v lexicon) (if bytes_eq word v then spelling ∷ [] else [])
lookup-add_spelling word v spelling lexicon =
    let (new, step, is_new) = add_spelling-insert word spelling lexicon in
    (elim (Bool-cases (bytes_eq word v)) [
      | inl here ↦
          let it : word ≡ v = (bytes_eq_iff word v).0 here in
          rw (step, here)
            (ap (λ u. lookup u (insert word new lexicon)) (sym it)
              ∙ lookup-insert_self word new lexicon
              ∙ is_new
              ∙ ap (λ u. extend (lookup u lexicon) (spelling ∷ [])) it)
      | inr other ↦
          rw (step, other)
            (lookup-insert word v new lexicon ∙ rw other (sym (extend-nil (lookup v lexicon))))
    ])

lookup-add_fields :
    (fields : List Bytes) (v : Bytes) (lexicon lexicon' : Lexicon)
    → add_fields fields lexicon ≡ ok lexicon'
    → lookup v lexicon' ≡ extend (lookup v lexicon) (spelling_of v fields)
unfolding add_fields spelling_of
lookup-add_fields [] v lexicon lexicon' h = absurd (ground arith)
lookup-add_fields (word ∷ []) v lexicon lexicon' h = absurd (ground arith)
lookup-add_fields (word ∷ t ∷ spelling) v lexicon lexicon' h =
    let e : lexicon' ≡ add_spelling word (t ∷ spelling) lexicon = ground arith in
    rw e (lookup-add_spelling word v (t ∷ spelling) lexicon)

load_lines-cons :
    (k : ℕ) (line : Bytes) (lines : List Bytes) (lexicon lexicon' : Lexicon)
    → load_lines (negsuc k) (line ∷ lines) lexicon ≡ ok lexicon'
    → (next : Lexicon) × (add_fields (split_on_whitespace line true) lexicon ≡ ok next)
      × (load_lines (negsuc k) lines next ≡ ok lexicon')
unfolding load_lines
load_lines-cons k line lines lexicon lexicon' h =
    elim (Result-cases (add_fields (split_on_whitespace line true) lexicon)) [
      | inl (next, e) ↦ (next, e, ground arith)
      | inr (thrown, e) ↦ absurd (ground arith)
    ]

lookup-load_lines :
    (k : ℕ) (lines : List Bytes) (v : Bytes) (lexicon lexicon' : Lexicon)
    → load_lines (negsuc k) lines lexicon ≡ ok lexicon'
    → lookup v lexicon' ≡ extend (lookup v lexicon) (spellings v lines)
unfolding load_lines spellings
lookup-load_lines k [] v lexicon lexicon' h =
    let e : lexicon' ≡ lexicon = ground arith in rw e (sym (extend-nil (lookup v lexicon)))
lookup-load_lines k (line ∷ lines) v lexicon lexicon' h =
    let (next, first, rest) = load_lines-cons k line lines lexicon lexicon' h in
    lookup-load_lines k lines v next lexicon' rest
    ∙ ap (λ old. extend old (spellings v lines))
        (lookup-add_fields (split_on_whitespace line true) v lexicon next first)
    ∙ extend-append (lookup v lexicon) (spelling_of v (split_on_whitespace line true))
        (spellings v lines)

load_words-some :
    (lines : List Bytes) (max_words : ℤ) (lexicon : Lexicon)
    → load_words (some lines) max_words ≡ ok lexicon
    → (words : Lexicon) × (load_lines max_words lines [] ≡ ok words)
      × (lexicon ≡ insert unk_token [] words)
unfolding load_words
load_words-some lines max_words lexicon h = elim (Result-cases (load_lines max_words lines [])) [
  | inl (words, e) ↦ (words, e, ground arith)
  | inr (thrown, e) ↦ absurd (ground arith)
]

-- Without a limit, the lexicon that loadWords returns has for a word other than the unknown one the
-- spellings of exactly the lines that start with it, in their order, and no entry for a word without a
-- line; the unknown word is there and has no spelling.
pub lookup-load_words :
    (lines : List Bytes) (k : ℕ) (lexicon : Lexicon) (word : Bytes)
    → load_words (some lines) (negsuc k) ≡ ok lexicon
    → lookup word lexicon
      ≡ (if bytes_eq unk_token word then some [] else extend none (spellings word lines))
unfolding lookup
lookup-load_words lines k lexicon word h =
    let (words, run, e) = load_words-some lines (negsuc k) lexicon h in
    rw (e, lookup-insert unk_token word [] words, lookup-load_lines k lines word [] words run)

length-insert_le :
    (word : Bytes) (new : List (List Bytes)) (lexicon : Lexicon)
    → length (insert word new lexicon) ≤ length lexicon + 1
unfolding insert
length-insert_le word new [] = omega arith
length-insert_le word new ((v, old) ∷ lexicon) = ground (arith, length-insert_le word new lexicon)

length-add_fields :
    (fields : List Bytes) (lexicon next : Lexicon)
    → add_fields fields lexicon ≡ ok next
    → length next ≤ length lexicon + 1
unfolding add_fields
length-add_fields [] lexicon next h = absurd (ground arith)
length-add_fields (word ∷ []) lexicon next h = absurd (ground arith)
length-add_fields (word ∷ t ∷ spelling) lexicon next h =
    let e : next ≡ add_spelling word (t ∷ spelling) lexicon = ground arith in
    let (new, step, _) = add_spelling-insert word (t ∷ spelling) lexicon in
    rw (e, step) (length-insert_le word new lexicon)

length-load_lines :
    (max : ℕ) (lines : List Bytes) (lexicon words : Lexicon)
    → length lexicon ≤ max
    → load_lines (pos max) lines lexicon ≡ ok words
    → length words ≤ max
unfolding load_lines
length-load_lines max [] lexicon words le h = let e : words ≡ lexicon = ground arith in rw e le
length-load_lines max (line ∷ lines) lexicon words le h =
    elim (Bool-cases (max == length lexicon)) [
      | inl full ↦ let e : words ≡ lexicon = ground arith in rw e le
      | inr room ↦ (elim (Result-cases (add_fields (split_on_whitespace line true) lexicon)) [
        | inr (thrown, e) ↦ absurd (ground arith)
        | inl (next, e) ↦
            length-load_lines max lines next words
              (ground (arith, length-add_fields (split_on_whitespace line true) lexicon next e))
              (ground arith)
      ])
    ]

-- With a limit, loadWords returns at most that many words and the unknown one.
pub length-load_words :
    (lines : List Bytes) (max_words : ℕ) (lexicon : Lexicon)
    → load_words (some lines) (pos max_words) ≡ ok lexicon
    → length lexicon ≤ max_words + 1
length-load_words lines max_words lexicon h =
    let (words, run, e) = load_words-some lines (pos max_words) lexicon h in
    let few = length-load_lines max_words lines [] words (omega arith) run in
    rw e (omega (arith, length-insert_le unk_token [] words, few))
