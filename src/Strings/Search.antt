-- ===== src/Strings/Search.antt =====
-- What the searches find, and the prefix and suffix tests.
use mathlib.Core.List.{reverse, reverse-append, reverse-reverse}
use flashlight.Prelude.{
  ℕ, zero, suc, ◌+◌, ◌-◌, ◌≤◌, ◌<◌, ◌≡◌, ◌↔◌, refl, sym, ap, ap₂, ◌∙◌, Bool, true, false, [], ◌∷◌,
  ◌++◌, some, none, length, take, drop, ltb, arith, Option-cases, inl, inr, length-append, le→ltb,
}
use flashlight.Strings.{Bytes, find_byte, has_prefix, find_bytes, starts_with, ends_with}

pub take-append-drop : (n : ℕ) (s : Bytes) → take n s ++ drop n s ≡ s
take-append-drop zero s = refl
take-append-drop (suc n) [] = refl
take-append-drop (suc n) (c ∷ s) = ap (◌∷◌ c) (take-append-drop n s)

drop-nil : (n : ℕ) → drop {A = ℕ} n [] ≡ []
drop-nil zero = refl
drop-nil (suc n) = refl

drop-drop : (m n : ℕ) (s : Bytes) → drop n (drop m s) ≡ drop (m + n) s
drop-drop zero n s = let e : 0 + n ≡ n = omega arith in rw e
drop-drop (suc m) n [] = let e : suc m + n ≡ suc (m + n) = omega arith in rw e (drop-nil n)
drop-drop (suc m) n (c ∷ s) =
    let e : suc m + n ≡ suc (m + n) = omega arith in rw e (drop-drop m n s)

pub length-drop : (n : ℕ) (s : Bytes) → length (drop n s) ≡ length s - n
length-drop zero s = omega arith
length-drop (suc n) [] = omega arith
length-drop (suc n) (c ∷ s) = omega (arith, length-drop n s)

-- A delimiter found at position `j` cuts the string in three.
pub cut_at :
    (j : ℕ) (delim s : Bytes)
    → take (length delim) (drop j s) ≡ delim
    → take j s ++ (delim ++ drop (j + length delim) s) ≡ s
cut_at j delim s h =
    ap (◌++◌ (take j s)) (
      ap₂ ◌++◌ (sym h) (sym (drop-drop j (length delim) s))
      ∙ take-append-drop (length delim) (drop j s))
    ∙ take-append-drop j s

-- Every byte passes a test.
abbrev pub All : (ℕ → Type 0) → Bytes → Type 0
All P [] = Unit {0}
All P (c ∷ s) = P c × All P s

-- A byte that is found lies inside the string; it passes the test, and none before it does.
pub find_byte-some :
    (test : ℕ → Bool) (s : Bytes) (j : ℕ)
    → find_byte test s ≡ some j
    → (j < length s)
      × ((c : ℕ) × (take 1 (drop j s) ≡ c ∷ []) × (test c ≡ true))
      × All (λ c. test c ≡ false) (take j s)
unfolding find_byte
find_byte-some test [] j h = cc
find_byte-some test (c ∷ s) zero h = (omega arith, (c, refl, ground arith), tt)
find_byte-some test (c ∷ s) (suc j) h =
    let miss : test c ≡ false = ground arith in
    let later : find_byte test s ≡ some j = ground arith in
    let (inside, hit, before) = find_byte-some test s j later in (omega arith, hit, (miss, before))

pub find_byte-none :
    (test : ℕ → Bool) (s : Bytes) → find_byte test s ≡ none → All (λ c. test c ≡ false) s
unfolding find_byte
find_byte-none test [] h = tt
find_byte-none test (c ∷ s) h = (ground arith, find_byte-none test s (ground arith))

pub has_prefix-take :
    (p s : Bytes) → has_prefix p s ≡ true → (take (length p) s ≡ p) × (length p ≤ length s)
unfolding has_prefix
has_prefix-take [] s h = (refl, omega arith)
has_prefix-take (x ∷ p) [] h = cc
has_prefix-take (x ∷ p) (c ∷ s) h = ground (arith, has_prefix-take p s)

has_prefix-append : (p s : Bytes) → has_prefix p (p ++ s) ≡ true
unfolding has_prefix
has_prefix-append [] s = refl
has_prefix-append (x ∷ p) s = ground (arith, has_prefix-append p s)

-- What a search for a string finds is that string.
pub find_bytes-some :
    (target s : Bytes) (j : ℕ)
    → find_bytes target s ≡ some j
    → (take (length target) (drop j s) ≡ target) × (j + length target ≤ length s)
unfolding find_bytes
find_bytes-some target [] j h =
    let found : has_prefix target [] ≡ true = ground arith in
    let e : j ≡ 0 = ground arith in
    rw e (let (a, b) = has_prefix-take target [] found in (a, omega arith))
find_bytes-some target (c ∷ s) zero h =
    let found : has_prefix target (c ∷ s) ≡ true = ground arith in
    let (a, b) = has_prefix-take target (c ∷ s) found in (a, omega arith)
find_bytes-some target (c ∷ s) (suc j) h =
    let later : find_bytes target s ≡ some j = ground arith in
    let (a, b) = find_bytes-some target s j later in (a, omega arith)

find_bytes-zero : (target s : Bytes) → has_prefix target s ≡ true → find_bytes target s ≡ some 0
unfolding find_bytes
find_bytes-zero target [] h = rw h
find_bytes-zero target (c ∷ s) h = rw h

prefix-rest : (p s : Bytes) → has_prefix p s ≡ true → (rest : Bytes) × (s ≡ p ++ rest)
prefix-rest p s h = (
  drop (length p) s,
  sym (take-append-drop (length p) s)
      ∙ ap (λ front. front ++ drop (length p) s) (has_prefix-take p s h).0,
)

starts_with-found :
    (input pattern_ : Bytes)
    → starts_with input pattern_ ≡ true
    → find_bytes pattern_ input ≡ some 0
unfolding starts_with
starts_with-found input pattern_ h = elim (Option-cases (find_bytes pattern_ input)) [
  | inl e ↦ ground arith
  | inr (j, e) ↦ ground arith
]

starts_with-append : (p s : Bytes) → starts_with (p ++ s) p ≡ true
unfolding starts_with
starts_with-append p s = rw (find_bytes-zero p (p ++ s) (has_prefix-append p s), starts_with)

ends_with-prefix :
    (input p : Bytes) → ends_with input p ≡ true → has_prefix (reverse p) (reverse input) ≡ true
unfolding ends_with
ends_with-prefix input p h = ground arith

ends_with-append : (s p : Bytes) → ends_with (s ++ p) p ≡ true
unfolding ends_with
ends_with-append s p =
    let enough : ltb (length (s ++ p)) (length p) ≡ false =
      le→ltb _ _ (omega (arith, length-append s p)) in
    rw (enough, reverse-append s p) (has_prefix-append (reverse p) (reverse s))

-- `startsWith` holds exactly when the string is the pattern and something more.
pub starts_with_iff :
    (input pattern_ : Bytes)
    → (starts_with input pattern_ ≡ true) ↔ ((rest : Bytes) × (input ≡ pattern_ ++ rest))
starts_with_iff input pattern_ = (forward, backward)
  where
    forward : starts_with input pattern_ ≡ true → (rest : Bytes) × (input ≡ pattern_ ++ rest)
    forward h =
        let found = find_bytes-some pattern_ input 0 (starts_with-found input pattern_ h) in
        (
          drop (length pattern_) input,
          sym (take-append-drop (length pattern_) input)
              ∙ ap (λ front. front ++ drop (length pattern_) input) found.0,
        )

    backward : ((rest : Bytes) × (input ≡ pattern_ ++ rest)) → starts_with input pattern_ ≡ true
    backward (rest, e) = rw e (starts_with-append pattern_ rest)

-- `endsWith` holds exactly when the string is something and then the pattern.
pub ends_with_iff :
    (input pattern_ : Bytes)
    → (ends_with input pattern_ ≡ true) ↔ ((rest : Bytes) × (input ≡ rest ++ pattern_))
ends_with_iff input pattern_ = (forward, backward)
  where
    forward : ends_with input pattern_ ≡ true → (rest : Bytes) × (input ≡ rest ++ pattern_)
    forward h =
        let (rest, e) =
          prefix-rest (reverse pattern_) (reverse input) (ends_with-prefix input pattern_ h) in
        (
          reverse rest,
          sym (reverse-reverse input)
              ∙ ap reverse e
              ∙ reverse-append (reverse pattern_) rest
              ∙ ap (◌++◌ (reverse rest)) (reverse-reverse pattern_),
        )

    backward : ((rest : Bytes) × (input ≡ rest ++ pattern_)) → ends_with input pattern_ ≡ true
    backward (rest, e) = rw e (ends_with-append rest pattern_)
