-- ===== src/Text/PartialFileReader/Ending.antt =====
-- The loop of `getLines` ends, whatever the file and the state of the stream.
use flashlight.Prelude.{
  ℕ, zero, suc, ◌+◌, ◌-◌, ◌<◌, ◌≤◌, ◌≡◌, refl, ap, Bool, true, false, List, [], ◌∷◌, some, length,
  drop, ltb, le→ltb, arith, Bool-cases, Option-cases, inl, inr, ◌⊎◌, if_true, if_false,
}
use flashlight.Strings.{Bytes, find_byte}
use flashlight.Strings.Search.{find_byte-some, length-drop}
use flashlight.Text.PartialFileReader.{
  Stream, PartialFileReader, no_position, good, tellg, is_newline, extract_line, getline,
  get_position, has_next_line, get_line, lines_loop, get_lines,
}

pub tellg-good : (s : Stream) → good s ≡ true → tellg s ≡ (s, s.position)
unfolding tellg
tellg-good s h = if_true (good s) _ _ h

pub tellg-bad : (s : Stream) → good s ≡ false → tellg s ≡ (record s { failbit = true }, no_position)
unfolding tellg
tellg-bad s h = if_false (good s) _ _ h

-- A stream that is not good any more gives no further line.
bad_ends :
    (fuel : ℕ) (r : PartialFileReader)
    → r.end ≤ no_position
    → good r.stream ≡ false
    → lines_loop (suc fuel) r ≡ some []
unfolding lines_loop has_next_line get_position
bad_ends fuel r h bad =
    let beyond : ltb (tellg r.stream).1 r.end ≡ false =
      rw (tellg-bad r.stream bad) (le→ltb no_position r.end h) in
    rw beyond refl

-- A line is taken from a good stream, which then stands further on or is no longer good.
extract_line-moves :
    (s : Stream)
    → good s ≡ true
    → (good (extract_line s).0 ≡ false)
      ⊎ ((good (extract_line s).0 ≡ true)
          × ((extract_line s).0.content ≡ s.content)
          × (length s.content - (extract_line s).0.position < length s.content - s.position))
unfolding extract_line good
extract_line-moves s g = elim (Option-cases (find_byte is_newline (drop s.position s.content))) [
  | inl e ↦ inl (rw (e, extract_line) refl)
  | inr (j, e) ↦
      let (inside, _, _) = find_byte-some is_newline (drop s.position s.content) j e in
      inr (rw (e, extract_line) (g, refl, omega (arith, inside, length-drop s.position s.content)))
]

has_next_line-good :
    (r : PartialFileReader)
    → good r.stream ≡ true
    → has_next_line r ≡ (r, ltb r.stream.position r.end)
unfolding has_next_line get_position
has_next_line-good r g = rw (tellg-good r.stream g) refl

get_line-good :
    (r : PartialFileReader)
    → good r.stream ≡ true
    → (get_line r).0 ≡ record r { stream = (extract_line r.stream).0 }
unfolding get_line getline
get_line-good r g =
    ap (λ (p : Stream × Bytes). record r { stream = p.0 }) (if_true (good r.stream) _ _ g)

-- One round, and what the rounds after it give.
round_ends :
    (fuel : ℕ) (r : PartialFileReader) (rest : List Bytes) (more : Bool)
    → has_next_line r ≡ (r, more)
    → lines_loop fuel (get_line r).0 ≡ some rest
    → (lines : List Bytes) × (lines_loop (suc fuel) r ≡ some lines)
unfolding lines_loop
round_ends fuel r rest true checked others = (
  (get_line r).1 ∷ rest,
  rw (checked, others)
      (ap (λ (p : PartialFileReader × Bool). some ((get_line p.0).1 ∷ rest)) checked),
)
round_ends fuel r rest false checked others = ([], rw checked refl)

loop_ends :
    (fuel : ℕ) (r : PartialFileReader)
    → r.end ≤ no_position
    → length r.stream.content - r.stream.position + 1 < fuel
    → (lines : List Bytes) × (lines_loop fuel r ≡ some lines)
loop_ends zero r h enough = absurd (omega arith)
loop_ends (suc zero) r h enough = absurd (omega arith)
loop_ends (suc (suc fuel)) r h enough = elim (Bool-cases (good r.stream)) [
  | inr bad ↦ ([], bad_ends (suc fuel) r h bad)
  | inl g ↦
      let next : PartialFileReader = record r { stream = (extract_line r.stream).0 } in
      let later : (lines : List Bytes) × (lines_loop (suc fuel) next ≡ some lines) =
        elim (extract_line-moves r.stream g) [
          | inl bad ↦ ([], bad_ends fuel next h bad)
          | inr (still_good, same, closer) ↦
              loop_ends (suc fuel) next h (omega (arith, closer, ap length same, enough))
        ] in
      round_ends (suc fuel) r later.0 _ (has_next_line-good r g) (rw (get_line-good r g) later.1)
]

-- `getLines` returns, from any state of a reader whose ending point is a `size_t`.
pub get_lines-ends :
    (r : PartialFileReader)
    → r.end ≤ no_position
    → (lines : List Bytes) × (get_lines r ≡ some lines)
get_lines-ends r h = loop_ends (length r.stream.content + 2) r h (omega arith)
