-- ===== src/Text/Replabels.antt =====
-- flashlight/lib/text/dictionary/Utils.cpp: repeated tokens packed into repetition labels.
pub mod RoundTrip
use flashlight.Prelude.{
  ℕ, zero, suc, ◌+◌, ◌/◌, ◌%◌, ◌≡◌, Bool, true, false, ◌&&◌, List, [], ◌∷◌, ◌++◌, some, none,
  Result, ok, throw, ◌>>=◌, for_each, ltb, get_or, replicate, range_from, if◌then◌else◌,
}
use flashlight.Prelude.Int.{ℤ, pos, negsuc, eqb_ℤ}
use flashlight.Prelude.Maps.{Map, lookup, emplace, int_key}
use flashlight.Strings.{Bytes}
use flashlight.Text.Dictionary.{Dictionary, get_index}

-- `std::to_string` of a number that is not negative: its decimal digits, with fuel.
digits : ℕ → ℕ → Bytes → Bytes
digits zero n later = later
digits (suc fuel) n later =
    if ltb n 10 then (48 + n) ∷ later else digits fuel (n / 10) ((48 + n % 10) ∷ later)

-- `"<" + std::to_string(i) + ">"`
unfoldable pub replabel : ℕ → Bytes
unfolding digits
replabel i = 60 ∷ (digits (i + 1) i [] ++ (62 ∷ []))

-- The loop that asks for the index of each repetition label, from 1 to `max_reps`.
abbrev pub replabel_indices : Dictionary → ℕ → Result (List ℤ)
replabel_indices dict max_reps = for_each (λ i. get_index dict (replabel i)) (range_from 1 max_reps)

-- The label for the repetitions seen, when there are any. The vector has an unused slot 0.
unfoldable pub flush : List ℤ → ℕ → List ℤ
flush value_to_idx zero = []
flush value_to_idx (suc reps) = get_or value_to_idx (suc reps) (pos 0) ∷ []

-- The loop of `packReplabels`: what is pushed back for the tokens that are left.
unfoldable pub pack_loop : List ℤ → ℕ → List ℤ → ℤ → ℕ → List ℤ
unfolding flush
pack_loop value_to_idx max_reps [] prev reps = flush value_to_idx reps
pack_loop value_to_idx max_reps (token ∷ tokens) prev reps =
    elim (eqb_ℤ token prev && ltb reps max_reps) [
      | true ↦ pack_loop value_to_idx max_reps tokens prev (suc reps)
      | false ↦ flush value_to_idx reps ++ (token ∷ pack_loop value_to_idx max_reps tokens token 0)
    ]

unfoldable pub pack_replabels : List ℤ → Dictionary → ℤ → Result (List ℤ)
unfolding pack_loop
pack_replabels [] dict max_reps = ok []
pack_replabels (token ∷ tokens) dict (negsuc _) = ok (token ∷ tokens)
pack_replabels (token ∷ tokens) dict (pos zero) = ok (token ∷ tokens)
pack_replabels (token ∷ tokens) dict (pos (suc reps)) =
    replabel_indices dict (suc reps) >>= λ indices.
    ok (pack_loop (pos 0 ∷ indices) (suc reps) (token ∷ tokens) (negsuc 0) 0)

-- The loop that fills `replabelIdxToValue`, from the label number `i` on.
unfoldable pub idx_to_value : List ℤ → ℕ → Map ℤ ℕ → Map ℤ ℕ
idx_to_value [] i m = m
idx_to_value (idx ∷ indices) i m = idx_to_value indices (i + 1) (emplace idx i m)

-- The loop of `unpackReplabels`.
unfoldable pub unpack_loop : Map ℤ ℕ → List ℤ → ℤ → List ℤ
unpack_loop values [] prev = []
unpack_loop values (token ∷ tokens) prev = elim (lookup token values) [
  | none ↦ token ∷ unpack_loop values tokens token
  | some reps ↦ (elim (eqb_ℤ prev (negsuc 0)) [
    | true ↦ unpack_loop values tokens prev
    | false ↦ replicate reps prev ++ unpack_loop values tokens (negsuc 0)
  ])
]

unfoldable pub unpack_replabels : List ℤ → Dictionary → ℤ → Result (List ℤ)
unfolding unpack_loop idx_to_value
unpack_replabels [] dict max_reps = ok []
unpack_replabels (token ∷ tokens) dict (negsuc _) = ok (token ∷ tokens)
unpack_replabels (token ∷ tokens) dict (pos zero) = ok (token ∷ tokens)
unpack_replabels (token ∷ tokens) dict (pos (suc reps)) =
    replabel_indices dict (suc reps) >>= λ indices.
    ok (unpack_loop (idx_to_value indices 1 []) (token ∷ tokens) (negsuc 0))
