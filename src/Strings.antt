-- ===== src/Strings.antt =====
-- flashlight/lib/common/String.{h,cpp}. A std::string is the list of its bytes.
pub mod Search
pub mod Split
mod Tests
use flashlight.Prelude.{
  ℕ, zero, suc, ◌+◌, ◌-◌, ◌≤◌, ◌<◌, ◌≡◌, ◌↔◌, refl, Bool, true, false, not, ◌&&◌, ◌||◌, List, [],
  ◌∷◌, ◌++◌, Option, some, none, Result, ok, throw, invalid_argument, length, take, drop, ◌==◌, ltb,
  if◌then◌else◌, arith,
}
use mathlib.Core.List.{reverse}

abbrev pub Bytes : Type 0
Bytes = List ℕ

-- `==` of two strings.
unfoldable pub bytes_eq : Bytes → Bytes → Bool
bytes_eq [] [] = true
bytes_eq [] (y ∷ ys) = false
bytes_eq (x ∷ xs) [] = false
bytes_eq (x ∷ xs) (y ∷ ys) = x == y && bytes_eq xs ys

-- Whether a byte is one of a string's.
unfoldable pub is_one_of : Bytes → ℕ → Bool
is_one_of [] c = false
is_one_of (d ∷ delim) c = c == d || is_one_of delim c

-- `kSpaceChars`
abbrev pub space_chars : Bytes
space_chars = 9 ∷ 10 ∷ 11 ∷ 12 ∷ 13 ∷ 32 ∷ []

-- The position of the first byte that passes a test: `find_first_of`, `find_first_not_of`, and `find`
-- of a character, from the front of what is left of the string.
unfoldable pub find_byte : (ℕ → Bool) → Bytes → Option ℕ
find_byte test [] = none
find_byte test (c ∷ rest) =
    if test c then some 0 else (elim (find_byte test rest) [ none ↦ none | some j ↦ some (suc j) ])

unfoldable pub has_prefix : Bytes → Bytes → Bool
has_prefix [] input = true
has_prefix (p ∷ pattern_) [] = false
has_prefix (p ∷ pattern_) (c ∷ input) = p == c && has_prefix pattern_ input

-- `find` of a string. The empty string is found at once, also in an empty rest.
unfoldable pub find_bytes : Bytes → Bytes → Option ℕ
unfolding has_prefix
find_bytes target [] = if has_prefix target [] then some 0 else none
find_bytes target (c ∷ rest) =
    if has_prefix target (c ∷ rest)
    then some 0
    else (elim (find_bytes target rest) [ none ↦ none | some j ↦ some (suc j) ])

-- `find_last_not_of`, as the number of bytes up to and with the last that fails the test.
pub trim : Bytes → Bytes
unfolding find_byte is_one_of
trim str = elim (find_byte (λ c. not (is_one_of space_chars c)) str) [
  | none ↦ []
  | some i ↦ (elim (find_byte (λ c. not (is_one_of space_chars c)) (reverse str)) [
    | none ↦ []
    | some k ↦ let j = length str - 1 - k in if ltb j i then [] else take (j - i + 1) (drop i str)
  ])
]

pub starts_with : Bytes → Bytes → Bool
unfolding find_bytes
starts_with input pattern_ = elim (find_bytes pattern_ input) [ none ↦ false | some j ↦ j == 0 ]

-- `std::equal` over the two strings from behind.
pub ends_with : Bytes → Bytes → Bool
unfolding has_prefix
ends_with input pattern_ =
    if ltb (length input) (length pattern_)
    then false
    else has_prefix (reverse pattern_) (reverse input)

-- The loop of `replaceAll` over what is left of the string, with fuel.
replace_loop : ℕ → Bytes → Bytes → Bytes → Bytes
replace_loop zero from repl rest = rest
replace_loop (suc fuel) from repl rest = elim (find_bytes from rest) [
  | none ↦ rest
  | some j ↦ take j rest ++ (repl ++ replace_loop fuel from repl (drop (j + length from) rest))
]

pub replace_all : Bytes → Bytes → Bytes → Bytes
unfolding replace_loop
replace_all str [] repl = str
replace_all str (f ∷ from) repl = replace_loop (length str + 1) (f ∷ from) repl str

-- One token, unless it is empty and empty ones are ignored.
unfoldable pub keep_token : Bool → Bytes → List Bytes
keep_token ignore_empty [] = if ignore_empty then [] else [] ∷ []
keep_token ignore_empty (c ∷ token) = (c ∷ token) ∷ []

-- The loop of `splitImpl` over what is left of the input, with fuel; `find` gives the position of the
-- next delimiter.
unfoldable pub split_loop : ℕ → (Bytes → Option ℕ) → ℕ → Bool → Bytes → List Bytes
unfolding keep_token
split_loop zero find delim_size ignore_empty rest = keep_token ignore_empty rest
split_loop (suc fuel) find delim_size ignore_empty rest = elim (find rest) [
  | none ↦ keep_token ignore_empty rest
  | some j ↦
      keep_token ignore_empty (take j rest)
      ++ split_loop fuel find delim_size ignore_empty (drop (j + delim_size) rest)
]

abbrev pub split_impl : (Bytes → Option ℕ) → ℕ → Bytes → Bool → List Bytes
split_impl find delim_size input ignore_empty =
    split_loop (length input + 1) find delim_size ignore_empty input

pub split_char : ℕ → Bytes → Bool → List Bytes
unfolding split_loop find_byte
split_char delim input ignore_empty = split_impl (find_byte (λ c. c == delim)) 1 input ignore_empty

pub split : Bytes → Bytes → Bool → Result (List Bytes)
unfolding split_loop find_bytes
split [] input ignore_empty = throw invalid_argument
split (d ∷ delim) input ignore_empty =
    ok (split_impl (find_bytes (d ∷ delim)) (length (d ∷ delim)) input ignore_empty)

unfoldable pub split_on_any_of : Bytes → Bytes → Bool → List Bytes
unfolding split_loop find_byte is_one_of
split_on_any_of delim input ignore_empty =
    split_impl (find_byte (is_one_of delim)) 1 input ignore_empty

unfoldable pub split_on_whitespace : Bytes → Bool → List Bytes
unfolding split_on_any_of
split_on_whitespace input ignore_empty = split_on_any_of space_chars input ignore_empty

-- `join` of a vector.
unfoldable pub join : Bytes → List Bytes → Bytes
join delim [] = []
join delim (token ∷ []) = token
join delim (token ∷ next ∷ rest) = token ++ (delim ++ join delim (next ∷ rest))

pub bytes_eq_iff : (a b : Bytes) → (bytes_eq a b ≡ true) ↔ (a ≡ b)
unfolding bytes_eq
bytes_eq_iff [] [] = ((λ _. refl), (λ _. refl))
bytes_eq_iff [] (y ∷ ys) = ground arith
bytes_eq_iff (x ∷ xs) [] = ground arith
bytes_eq_iff (x ∷ xs) (y ∷ ys) = ground (arith, bytes_eq_iff xs ys)
