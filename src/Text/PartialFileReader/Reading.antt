-- ===== src/Text/PartialFileReader/Reading.antt =====
-- A reader that stands at the start of a line reads the lines up to its ending point.
use flashlight.Prelude.{
  ℕ, zero, suc, ◌+◌, ◌-◌, ◌<◌, ◌≤◌, ◌≡◌, refl, sym, ap, ap₂, ◌∙◌, true, false, List, [], ◌∷◌, map,
  Option, some, length, take, drop, ltb, ltb→lt, lt→ltb, le→ltb, arith, Bool-cases, inl, inr,
}
use flashlight.Strings.{Bytes, trim}
use flashlight.Text.PartialFileReader.{
  Stream, PartialFileReader, good, tellg, extract_line, getline, get_position, has_next_line,
  get_line, lines_loop,
}
use flashlight.Text.PartialFileReader.Lines.{
  unlines, AreLines, offset, line_count, find_newline, line_at, offset_mono,
}

-- A stream that no call has failed on.
abbrev pub stream_at : Bytes → ℕ → Stream
stream_at content p = record { content = content; position = p; eofbit = false; failbit = false }

-- Lines `a` to `b`.
abbrev pub slice : ℕ → ℕ → List Bytes → List Bytes
slice a b ls = take (b - a) (drop a ls)

pub getline-position :
    (ls : List Bytes) (p : ℕ)
    → AreLines ls
    → p < length (unlines ls)
    → (getline (stream_at (unlines ls) p)).0 ≡ stream_at (unlines ls) (offset ls (line_count ls p))
unfolding getline good extract_line
getline-position ls p lines h =
    let (j, found, at_end) = find_newline ls p lines h in
    rw (found, extract_line) (ap (stream_at (unlines ls)) at_end)

pub drop-suc :
    {A : Type 0} (xs : List A) (k : ℕ) (x : A) (rest : List A)
    → drop k xs ≡ x ∷ rest
    → drop (suc k) xs ≡ rest
drop-suc [] zero x rest h = cc
drop-suc [] (suc k) x rest h = cc
drop-suc (y ∷ xs) zero x rest h = cc
drop-suc (y ∷ xs) (suc k) x rest h = drop-suc xs k x rest h

offset-suc :
    (ls : List Bytes) (k : ℕ) (l : Bytes) (rest : List Bytes)
    → drop k ls ≡ l ∷ rest
    → offset ls k + suc (length l) ≡ offset ls (suc k)
unfolding offset
offset-suc [] zero l rest h = absurd (ground arith)
offset-suc [] (suc k) l rest h = absurd (ground arith)
offset-suc (y ∷ ls) zero l rest h = let e : y ≡ l = cc in rw e (omega arith)
offset-suc (y ∷ ls) (suc k) l rest h = omega (arith, offset-suc ls k l rest h)

getline-line :
    (ls : List Bytes) (k : ℕ) (l : Bytes) (rest : List Bytes)
    → AreLines ls
    → drop k ls ≡ l ∷ rest
    → getline (stream_at (unlines ls) (offset ls k))
      ≡ (stream_at (unlines ls) (offset ls (suc k)), l)
unfolding getline good extract_line
getline-line ls k l rest lines e =
    let (found, line) = line_at ls k l rest lines e in
    rw (found, extract_line)
      (ap₂ (λ s line. (s, line)) (ap (stream_at (unlines ls)) (offset-suc ls k l rest e)) line)

drop-length :
    {A : Type 0} (xs : List A) (k : ℕ)
    → k < length xs
    → (x : A) × (rest : List A) × (drop k xs ≡ x ∷ rest)
drop-length [] k h = absurd (omega arith)
drop-length (x ∷ xs) zero h = (x, xs, refl)
drop-length (x ∷ xs) (suc k) h = drop-length xs k (omega arith)

-- A reader of a part that starts at line `a` and ends where line `b` starts.
abbrev pub part : List Bytes → ℕ → ℕ → ℕ → ℕ → PartialFileReader
part ls rank total_readers a b = record {
  rank = rank;
  total_readers = total_readers;
  stream = stream_at (unlines ls) (offset ls a);
  end = offset ls b;
}

-- The first line of a slice.
slice-cons :
    (a b : ℕ) (ls : List Bytes) (l : Bytes) (rest : List Bytes)
    → a < b
    → drop a ls ≡ l ∷ rest
    → slice a b ls ≡ l ∷ slice (suc a) b ls
slice-cons a b ls l rest h e =
    let n : b - a ≡ suc (b - suc a) = omega arith in rw (n, e, drop-suc ls a l rest e) refl

slice-nil : (a b : ℕ) (ls : List Bytes) → b ≤ a → slice a b ls ≡ []
slice-nil a b ls h = let n : b - a ≡ 0 = omega arith in rw n refl

-- One round of the loop.
loop-step :
    (fuel : ℕ) (r moved : PartialFileReader) (line : Bytes) (rest : List Bytes)
    → (has_next_line r).1 ≡ true
    → get_line (has_next_line r).0 ≡ (moved, line)
    → lines_loop fuel moved ≡ some rest
    → lines_loop (suc fuel) r ≡ some (line ∷ rest)
unfolding lines_loop
loop-step fuel r moved line rest more got others =
    rw (more, got, others) (ap {B = Option (List Bytes)} (λ p. some (p.1 ∷ rest)) got)

pub lines_loop-part :
    (fuel : ℕ) (ls : List Bytes) (rank total_readers a b : ℕ)
    → AreLines ls
    → a ≤ b
    → b ≤ length ls
    → b < a + fuel
    → lines_loop fuel (part ls rank total_readers a b) ≡ some (map trim (slice a b ls))
unfolding lines_loop has_next_line get_position get_line tellg good getline
lines_loop-part zero ls rank total_readers a b lines ab bn enough = absurd (omega arith)
lines_loop-part (suc fuel) ls rank total_readers a b lines ab bn enough =
    elim (Bool-cases (ltb a b)) [
      | inl more ↦
          let less : a < b = ltb→lt a b more in
          let (l, rest, e) = drop-length ls a (omega (arith, less, bn)) in
          let inside : ltb (offset ls a) (offset ls b) ≡ true =
            lt→ltb (offset ls a) (offset ls b) (offset_mono ls a b less bn) in
          let read : extract_line (stream_at (unlines ls) (offset ls a))
              ≡ (stream_at (unlines ls) (offset ls (suc a)), l) =
            getline-line ls a l rest lines e in
          loop-step fuel (part ls rank total_readers a b) (part ls rank total_readers (suc a) b)
            (trim l) (map trim (slice (suc a) b ls)) inside
            (ap (λ p. (record (part ls rank total_readers a b) { stream = p.0 }, trim p.1)) read)
            (lines_loop-part fuel ls rank total_readers (suc a) b lines (omega (arith, less)) bn
              (omega arith))
          ∙ ap (λ ys. some (map trim ys)) (sym (slice-cons a b ls l rest less e))
      | inr done ↦
          let same : a ≡ b = ground arith in
          let outside : ltb (offset ls a) (offset ls b) ≡ false =
            le→ltb (offset ls a) (offset ls b) (rw same (omega arith)) in
          rw (outside, slice-nil a b ls (omega (arith, same))) refl
    ]
