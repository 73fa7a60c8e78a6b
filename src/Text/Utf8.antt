-- ===== src/Text/Utf8.antt =====
-- flashlight/lib/text/dictionary/Utils.cpp: `splitWrd`.
use flashlight.Prelude.{
  ℕ, zero, suc, ◌≤◌, ◌/◌, ◌≡◌, ◌↔◌, ◌⊎◌, refl, ap, ◌∙◌, true, false, List, [], ◌∷◌, ◌++◌, Option,
  some, none, Result, ok, throw, ◌>>=◌, runtime_error, undefined_behaviour, Result-cases,
  Option-cases, Bool-cases, inl, inr, length, take, drop, ltb, ◌==◌, if◌then◌else◌, flat_map, arith,
  length-append,
}
use flashlight.Strings.{Bytes}
use flashlight.Strings.Search.{take-append-drop, length-drop}

-- The number of bytes of a character, by its first byte: the tests of the mask read the bits above the
-- free ones. -1 is `none`.
unfoldable pub token_bytes : ℕ → Option ℕ
token_bytes c =
    if c / 128 == 0
    then some 1
    else if c / 32 == 6
    then some 2
    else if c / 16 == 14
    then some 3
    else if c / 8 == 30
    then some 4
    else none

-- The loop of `splitWrd` over the bytes that are left, with fuel.
unfoldable pub split_wrd_loop : ℕ → Bytes → Result (List Bytes)
unfolding token_bytes
split_wrd_loop fuel [] = ok []
split_wrd_loop zero (c ∷ rest) = throw undefined_behaviour
split_wrd_loop (suc fuel) (c ∷ rest) = elim (token_bytes c) [
  | none ↦ throw runtime_error
  | some n ↦ (elim (ltb (length (c ∷ rest)) n) [
    | true ↦ throw runtime_error
    | false ↦ split_wrd_loop fuel (drop n (c ∷ rest)) >>= λ tokens. ok (take n (c ∷ rest) ∷ tokens)
  ])
]

unfoldable pub split_wrd : Bytes → Result (List Bytes)
unfolding split_wrd_loop
split_wrd word = split_wrd_loop (length word) word

-- A token has as many bytes as its first byte says.
abbrev pub IsToken : Bytes → Type 0
IsToken [] = true ≡ false
IsToken (c ∷ rest) = token_bytes c ≡ some (length (c ∷ rest))

abbrev pub AreTokens : List Bytes → Type 0
AreTokens [] = Unit {0}
AreTokens (token ∷ tokens) = IsToken token × AreTokens tokens

abbrev pub concat : List Bytes → Bytes
concat tokens = flat_map (λ t. t) tokens

take-whole : (s t : Bytes) → take (length s) (s ++ t) ≡ s
take-whole [] t = refl
take-whole (c ∷ s) t = ap (◌∷◌ c) (take-whole s t)

drop-whole : (s t : Bytes) → drop (length s) (s ++ t) ≡ t
drop-whole [] t = refl
drop-whole (c ∷ s) t = drop-whole s t

split_wrd_loop-concat :
    (fuel : ℕ) (tokens : List Bytes)
    → AreTokens tokens
    → length (concat tokens) ≤ fuel
    → split_wrd_loop fuel (concat tokens) ≡ ok tokens
unfolding split_wrd_loop
split_wrd_loop-concat fuel [] each enough = refl
split_wrd_loop-concat fuel ([] ∷ tokens) each enough =
    absurd (let no : true ≡ false = each.0 in ground arith)
split_wrd_loop-concat zero ((c ∷ t) ∷ tokens) each enough = absurd (omega arith)
split_wrd_loop-concat (suc fuel) ((c ∷ t) ∷ tokens) (here, each) enough =
    let fits : ltb (length (c ∷ (t ++ concat tokens))) (length (c ∷ t)) ≡ false =
      ground (arith, length-append t (concat tokens)) in
    let rest =
      split_wrd_loop-concat fuel tokens each (omega (arith, length-append t (concat tokens))) in
    rw
      (here, split_wrd_loop, fits, take-whole t (concat tokens), drop-whole t (concat tokens), rest)

length-take : (n : ℕ) (s : Bytes) → n ≤ length s → length (take n s) ≡ n
length-take zero s h = refl
length-take (suc n) [] h = absurd (omega arith)
length-take (suc n) (c ∷ s) h = omega (arith, length-take n s (omega arith))

token_bytes-suc : (c n : ℕ) → token_bytes c ≡ some n → (k : ℕ) × (n ≡ suc k)
unfolding token_bytes
token_bytes-suc c zero h = absurd (ground arith)
token_bytes-suc c (suc n) h = (n, refl)

-- What a round of the loop did, when the loop returns.
split_wrd_loop-cons :
    (fuel : ℕ) (c : ℕ) (rest : Bytes) (tokens : List Bytes)
    → split_wrd_loop (suc fuel) (c ∷ rest) ≡ ok tokens
    → (k : ℕ) × (later : List Bytes) × (token_bytes c ≡ some (suc k))
      × (k ≤ length rest)
      × (split_wrd_loop fuel (drop k rest) ≡ ok later)
      × (tokens ≡ (c ∷ take k rest) ∷ later)
unfolding split_wrd_loop
split_wrd_loop-cons fuel c rest tokens h = elim (Option-cases (token_bytes c)) [
  | inl e ↦ absurd (ground arith)
  | inr (n, e) ↦
      let (k, is_suc) = token_bytes-suc c n e in
      let size : token_bytes c ≡ some (suc k) = rw is_suc at e in
      (elim (Bool-cases (ltb (length (c ∷ rest)) (suc k))) [
        | inl short ↦ absurd (ground arith)
        | inr fits ↦ (elim (Result-cases (split_wrd_loop fuel (drop k rest))) [
          | inl (later, run) ↦
              let whole : split_wrd_loop (suc fuel) (c ∷ rest) ≡ ok ((c ∷ take k rest) ∷ later) =
                rw (size, split_wrd_loop, fits, run) in
              (k, later, size, ground arith, run, ground arith)
          | inr (thrown, run) ↦ absurd (ground arith)
        ])
      ])
]

split_wrd_loop-some :
    (fuel : ℕ) (word : Bytes) (tokens : List Bytes)
    → split_wrd_loop fuel word ≡ ok tokens
    → AreTokens tokens × (concat tokens ≡ word)
unfolding split_wrd_loop
split_wrd_loop-some fuel [] tokens h = let e : tokens ≡ [] = ground arith in rw e (tt, refl)
split_wrd_loop-some zero (c ∷ rest) tokens h = absurd (ground arith)
split_wrd_loop-some (suc fuel) (c ∷ rest) tokens h =
    let (k, later, size, fits, run, e) = split_wrd_loop-cons fuel c rest tokens h in
    let (each, whole) = split_wrd_loop-some fuel (drop k rest) later run in
    rw e (
      (rw (length-take k rest fits) size, each),
      ap (◌∷◌ c) (ap (λ s. take k rest ++ s) whole ∙ take-append-drop k rest),
    )

-- splitWrd returns a list of tokens exactly when each of them has the number of bytes that its first
-- byte tells, and one after the other they are the word.
pub split_wrd_iff :
    (word : Bytes) (tokens : List Bytes)
    → (split_wrd word ≡ ok tokens) ↔ (AreTokens tokens × (concat tokens ≡ word))
unfolding split_wrd
split_wrd_iff word tokens = (
  split_wrd_loop-some (length word) word tokens,
  λ (each, whole).
      rw (← whole) (split_wrd_loop-concat (length (concat tokens)) tokens each (omega arith)),
)

split_wrd_loop-total :
    (fuel : ℕ) (word : Bytes)
    → length word ≤ fuel
    → ((tokens : List Bytes) × (split_wrd_loop fuel word ≡ ok tokens))
      ⊎ (split_wrd_loop fuel word ≡ throw runtime_error)
unfolding split_wrd_loop
split_wrd_loop-total fuel [] h = inl ([], refl)
split_wrd_loop-total zero (c ∷ rest) h = absurd (omega arith)
split_wrd_loop-total (suc fuel) (c ∷ rest) h = elim (Option-cases (token_bytes c)) [
  | inl e ↦ inr (rw (e, split_wrd_loop))
  | inr (n, e) ↦
      let (k, is_suc) = token_bytes-suc c n e in
      let size : token_bytes c ≡ some (suc k) = rw is_suc at e in
      (elim (Bool-cases (ltb (length (c ∷ rest)) (suc k))) [
        | inl short ↦ inr (rw (size, split_wrd_loop, short))
        | inr fits ↦
            (elim (split_wrd_loop-total fuel (drop k rest) (omega (arith, length-drop k rest))) [
              | inl (later, run) ↦
                  inl ((c ∷ take k rest) ∷ later, rw (size, split_wrd_loop, fits, run))
              | inr run ↦ inr (rw (size, split_wrd_loop, fits, run))
            ])
      ])
]

-- On every word splitWrd returns or throws the runtime error for invalid UTF-8.
pub split_wrd-total :
    (word : Bytes)
    → ((tokens : List Bytes) × (split_wrd word ≡ ok tokens))
      ⊎ (split_wrd word ≡ throw runtime_error)
unfolding split_wrd
split_wrd-total word = split_wrd_loop-total (length word) word (omega arith)
