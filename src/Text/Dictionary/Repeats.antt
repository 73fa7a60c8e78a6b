-- ===== src/Text/Dictionary/Repeats.antt =====
-- The entries of the lines of a stream, and whether one of them is there twice.
use flashlight.Prelude.{
  ◌≡◌, refl, Bool, true, false, ◌||◌, List, [], ◌∷◌, ◌++◌, some, none, Bool-cases, inl, inr, arith,
}
use flashlight.Prelude.Int.{ℤ}
use flashlight.Prelude.Maps.{lookup, lookup-insert}
use flashlight.Strings.{Bytes, bytes_eq, split_on_whitespace}
use flashlight.Text.Dictionary.{Dictionary, bytes_key, contains, added}

abbrev pub entries_of : List Bytes → List Bytes
entries_of [] = []
entries_of (line ∷ lines) = split_on_whitespace line true ++ entries_of lines

abbrev pub among : Bytes → List Bytes → Bool
among x [] = false
among x (e ∷ entries) = bytes_eq e x || among x entries

-- No entry is among those before it, which are `seen` at the beginning.
abbrev pub NoRepeat : List Bytes → List Bytes → Type 0
NoRepeat seen [] = Unit {0}
NoRepeat seen (e ∷ entries) = (among e seen ≡ false) × NoRepeat (e ∷ seen) entries

abbrev pub after : List Bytes → List Bytes → List Bytes
after seen [] = seen
after seen (e ∷ entries) = after (e ∷ seen) entries

pub after-append : (seen xs ys : List Bytes) → after seen (xs ++ ys) ≡ after (after seen xs) ys
after-append seen [] ys = refl
after-append seen (a ∷ xs) ys = after-append (a ∷ seen) xs ys

pub among-after :
    (x : Bytes) (seen entries : List Bytes)
    → among x (after seen entries) ≡ (among x entries || among x seen)
among-after x seen [] = refl
among-after x seen (e ∷ entries) = ground (arith, among-after x (e ∷ seen) entries)

pub NoRepeat-append :
    (seen xs ys : List Bytes)
    → NoRepeat seen xs
    → NoRepeat (after seen xs) ys
    → NoRepeat seen (xs ++ ys)
NoRepeat-append seen [] ys left right = right
NoRepeat-append seen (a ∷ xs) ys (fresh, left) right =
    (fresh, NoRepeat-append (a ∷ seen) xs ys left right)

pub NoRepeat-split :
    (seen xs ys : List Bytes)
    → NoRepeat seen (xs ++ ys)
    → NoRepeat seen xs × NoRepeat (after seen xs) ys
NoRepeat-split seen [] ys all = (tt, all)
NoRepeat-split seen (a ∷ xs) ys (fresh, all) =
    let (left, right) = NoRepeat-split (a ∷ seen) xs ys all in ((fresh, left), right)

-- The entries of a dictionary are the given ones.
abbrev pub Holds : Dictionary → List Bytes → Type 0
Holds d seen = (x : Bytes) → contains d x ≡ among x seen

pub added-Holds :
    (d : Dictionary) (entry : Bytes) (idx : ℤ) (seen : List Bytes)
    → Holds d seen
    → Holds (added d entry idx) (entry ∷ seen)
unfolding contains
added-Holds d entry idx seen holds x = elim (Bool-cases (bytes_eq entry x)) [
  | inl it ↦ rw (lookup-insert entry x idx d.entry2idx, it, contains) refl
  | inr other ↦ rw (lookup-insert entry x idx d.entry2idx, other, contains) (holds x)
]

pub contains-none :
    (d : Dictionary) (x : Bytes) → lookup x d.entry2idx ≡ none → contains d x ≡ false
unfolding contains
contains-none d x h = rw (h, contains) refl

pub contains-some :
    (d : Dictionary) (x : Bytes) (i : ℤ) → lookup x d.entry2idx ≡ some i → contains d x ≡ true
unfolding contains
contains-some d x i h = rw (h, contains) refl

pub no_words : split_on_whitespace [] true ≡ []
unfolding split_on_whitespace
no_words = refl
