-- ===== src/Strings/Split.antt =====
-- Splitting and joining.
use flashlight.Prelude.{
  ℕ, zero, suc, ◌+◌, ◌≤◌, ◌<◌, ◌≡◌, ◌≢◌, refl, sym, ap, ◌∙◌, Bool, true, false, List, [], ◌∷◌, ◌++◌,
  Option, some, ok, ◌>>=◌, length, take, drop, ◌==◌, if◌then◌else◌, arith, Option-cases, inl, inr,
  flat_map, append-nil,
}
use mathlib.Core.Bool.{false≢true}
use flashlight.Strings.{
  Bytes, split_loop, keep_token, split, split_char, split_on_any_of, join, find_byte, find_bytes,
  is_one_of,
}
use flashlight.Strings.Search.{
  All, cut_at, length-drop, find_byte-some, find_byte-none, find_bytes-some,
}

-- What a search for a delimiter promises: it finds the delimiter, inside the string.
abbrev Finds : (Bytes → Option ℕ) → Bytes → Type 0
Finds find delim =
    (s : Bytes) (j : ℕ)
    → find s ≡ some j
    → (take (length delim) (drop j s) ≡ delim) × (j + length delim ≤ length s)

-- Joining one token more.
join-cons :
    (delim token : Bytes) (ts : List Bytes)
    → ts ≢ []
    → join delim (token ∷ ts) ≡ token ++ (delim ++ join delim ts)
unfolding join
join-cons delim token [] h = absurd (h refl)
join-cons delim token (t ∷ ts) h = refl

keep_token-all : (token : Bytes) → keep_token false token ≡ token ∷ []
unfolding keep_token
keep_token-all [] = refl
keep_token-all (c ∷ token) = refl

split_loop-ne-nil :
    (fuel : ℕ) (find : Bytes → Option ℕ) (size : ℕ) (s : Bytes)
    → split_loop fuel find size false s ≢ []
unfolding split_loop
split_loop-ne-nil zero find size s h = ground (arith, keep_token-all s)
split_loop-ne-nil (suc fuel) find size s h = elim (Option-cases (find s)) [
  | inl e ↦ ground (arith, keep_token-all s)
  | inr (j, e) ↦ ground (arith, keep_token-all (take j s))
]

join-split_loop :
    (fuel : ℕ) (find : Bytes → Option ℕ) (delim s : Bytes)
    → Finds find delim
    → 0 < length delim
    → length s < fuel
    → join delim (split_loop fuel find (length delim) false s) ≡ s
unfolding split_loop
join-split_loop zero find delim s f pos_ h = elim h [ ]
join-split_loop (suc fuel) find delim s f pos_ h = elim (Option-cases (find s)) [
  | inl e ↦ rw (e, split_loop, keep_token-all s) (unfold join in refl)
  | inr (j, e) ↦
      let (cut, inside) = f s j e in
      let rest = drop (j + length delim) s in
      rw (e, split_loop, keep_token-all (take j s))
        (join-cons delim (take j s) _ (split_loop-ne-nil fuel find (length delim) rest)
          ∙ ap (λ r. take j s ++ (delim ++ r))
              (join-split_loop fuel find delim rest f pos_
                (omega (arith, length-drop (j + length delim) s)))
          ∙ cut_at j delim s cut)
]

-- Joining with the delimiter gives back what was split by it.
pub join-split :
    (d : ℕ) (delim input : Bytes)
    → (split (d ∷ delim) input false >>= λ tokens. ok (join (d ∷ delim) tokens)) ≡ ok input
unfolding split
join-split d delim input = ap ok (
    join-split_loop (length input + 1) (find_bytes (d ∷ delim)) (d ∷ delim) input
      (find_bytes-some (d ∷ delim)) (omega arith) (omega arith))

find_char-Finds : (delim : ℕ) → Finds (find_byte (λ c. c == delim)) (delim ∷ [])
find_char-Finds delim s j h =
    let (inside, (c, cut, same), _) = find_byte-some (λ c. c == delim) s j h in
    let e : c ≡ delim = ground arith in (cut ∙ ap (λ x. x ∷ []) e, omega arith)

-- The same of a single character, which cannot fail.
pub join-split_char :
    (delim : ℕ) (input : Bytes) → join (delim ∷ []) (split_char delim input false) ≡ input
unfolding split_char
join-split_char delim input =
    join-split_loop (length input + 1) (find_byte (λ c. c == delim)) (delim ∷ []) input
      (find_char-Finds delim) (omega arith) (omega arith)

-- The bytes that fail a test, in order.
abbrev pub without : (ℕ → Bool) → Bytes → Bytes
without test [] = []
without test (c ∷ s) = if test c then without test s else c ∷ without test s

without-append :
    (test : ℕ → Bool) (s t : Bytes) → without test (s ++ t) ≡ without test s ++ without test t
without-append test [] t = refl
without-append test (c ∷ s) t = ground (arith, without-append test s t)

without-All : (test : ℕ → Bool) (s : Bytes) → All (λ c. test c ≡ false) s → without test s ≡ s
without-All test [] h = refl
without-All test (c ∷ s) h = rw (h.0, without-All test s h.1)

-- Every token passes, and none is empty if empty ones are ignored.
abbrev pub Tokens : (ℕ → Bool) → Bool → List Bytes → Type 0
Tokens test ignore_empty [] = Unit {0}
Tokens test ignore_empty (t ∷ ts) =
    All (λ c. test c ≡ false) t × (ignore_empty ≡ true → t ≢ []) × Tokens test ignore_empty ts

Tokens-keep_token :
    (test : ℕ → Bool) (ignore_empty : Bool) (t : Bytes) (ts : List Bytes)
    → All (λ c. test c ≡ false) t
    → Tokens test ignore_empty ts
    → Tokens test ignore_empty (keep_token ignore_empty t ++ ts)
unfolding keep_token
Tokens-keep_token test true [] ts h k = k
Tokens-keep_token test false [] ts h k = (tt, (λ e. absurd (false≢true e)), k)
Tokens-keep_token test ignore_empty (c ∷ t) ts h k = (h, (λ _ e. cc), k)

flat_map-keep_token :
    (ignore_empty : Bool) (t : Bytes) (ts : List Bytes)
    → flat_map (λ x. x) (keep_token ignore_empty t ++ ts) ≡ t ++ flat_map (λ x. x) ts
unfolding keep_token
flat_map-keep_token true [] ts = refl
flat_map-keep_token false [] ts = refl
flat_map-keep_token ignore_empty (c ∷ t) ts = refl

without_cut :
    (test : ℕ → Bool) (s t : Bytes) (c : ℕ)
    → All (λ x. test x ≡ false) s
    → test c ≡ true
    → s ++ without test t ≡ without test (s ++ ((c ∷ []) ++ t))
without_cut test s t c h hit = rw (without-append test s ((c ∷ []) ++ t), hit, without-All test s h)

split_loop-Tokens :
    (fuel : ℕ) (test : ℕ → Bool) (ignore_empty : Bool) (s : Bytes)
    → length s < fuel
    → (flat_map (λ t. t) (split_loop fuel (find_byte test) 1 ignore_empty s) ≡ without test s)
      × Tokens test ignore_empty (split_loop fuel (find_byte test) 1 ignore_empty s)
unfolding split_loop
split_loop-Tokens zero test ignore_empty s h = elim h [ ]
split_loop-Tokens (suc fuel) test ignore_empty s h = elim (Option-cases (find_byte test s)) [
  | inl e ↦
      let whole = find_byte-none test s e in
      rw (e, split_loop, ← append-nil (keep_token ignore_empty s))
        (
          flat_map-keep_token ignore_empty s [] ∙ append-nil s ∙ sym (without-All test s whole),
          Tokens-keep_token test ignore_empty s [] whole tt,
        )
  | inr (j, e) ↦
      let (inside, (c, cut, hit), before) = find_byte-some test s j e in
      let rest = drop (j + 1) s in
      let (flat, good) =
        split_loop-Tokens fuel test ignore_empty rest (omega (arith, length-drop (j + 1) s)) in
      rw (e, split_loop)
        (
          flat_map-keep_token ignore_empty (take j s) _
              ∙ ap (◌++◌ (take j s)) flat
              ∙ without_cut test (take j s) rest c before hit
              ∙ ap (without test) (cut_at j (c ∷ []) s cut),
          Tokens-keep_token test ignore_empty (take j s) _ before good,
        )
]

-- Splitting at whichever of several characters loses no other byte and keeps their order; no token
-- holds one of the characters, and none is empty when empty ones are ignored.
pub split_on_any_of-Tokens :
    (delim input : Bytes) (ignore_empty : Bool)
    → (flat_map (λ t. t) (split_on_any_of delim input ignore_empty)
        ≡ without (is_one_of delim) input)
      × Tokens (is_one_of delim) ignore_empty (split_on_any_of delim input ignore_empty)
unfolding split_on_any_of
split_on_any_of-Tokens delim input ignore_empty =
    split_loop-Tokens (length input + 1) (is_one_of delim) ignore_empty input (omega arith)
