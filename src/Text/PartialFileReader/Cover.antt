-- ===== src/Text/PartialFileReader/Cover.antt =====
-- The parts of all the readers together, for a file in which every line ends in a newline.
use flashlight.Prelude.{
  ℕ, zero, suc, ◌+◌, ◌-◌, ◌*◌, ◌/◌, ◌<◌, ◌≤◌, ◌≡◌, refl, sym, ap, ◌∙◌, true, false, List, [], ◌∷◌,
  ◌++◌, map, Option, some, Result, ok, ◌>>=◌, for_each, length, take, drop, ltb, ltb→lt, lt→ltb,
  le→ltb, ◌==◌, if◌then◌else◌, arith, Bool-cases, inl, inr, range_from, flat_map, map-append,
}
use flashlight.Prelude.Int.{pos}
use flashlight.Prelude.Ranges.{for_each-map}
use flashlight.Strings.{Bytes, trim}
use flashlight.Text.PartialFileReader.{
  PartialFileReader, unopened, new_reader, load_file, select_end, set_start, good, tellg, seekg,
  get_lines,
}
use flashlight.Text.PartialFileReader.Lines.{
  unlines, AreLines, offset, line_count, line_count_le, line_count_mono, length-unlines,
  length-unlines_ge,
}
use flashlight.Text.PartialFileReader.Reading.{
  stream_at, slice, part, getline-position, lines_loop-part,
}

-- The line at which reader `rank` starts, which is where the one before it ends.
unfoldable pub boundary : List Bytes → ℕ → ℕ → ℕ
boundary ls total_readers rank =
    if rank == 0
    then 0
    else if ltb rank total_readers
    then line_count ls (length (unlines ls) / total_readers * rank)
    else length ls

take-nil : {A : Type 0} (n : ℕ) → take {A = A} n [] ≡ []
take-nil zero = refl
take-nil (suc n) = refl

chunk_inside : (size n r : ℕ) → 0 < size → r < n → size / n * r < size
chunk_inside size n r h k = grind arith

boundary_le : (ls : List Bytes) (n r : ℕ) → boundary ls n r ≤ length ls
unfolding boundary
boundary_le ls n r = ground (arith, line_count_le ls (length (unlines ls) / n * r))

boundary_mono : (ls : List Bytes) (n r : ℕ) → r < n → boundary ls n r ≤ boundary ls n (r + 1)
unfolding boundary
boundary_mono ls n r h =
    let up : length (unlines ls) / n * r ≤ length (unlines ls) / n * (r + 1) = omega arith in
    ground (
      arith,
      line_count_mono ls (length (unlines ls) / n * r) (length (unlines ls) / n * (r + 1)) up,
      line_count_le ls (length (unlines ls) / n * r),
    )

select_end-boundary :
    (ls : List Bytes) (n r p : ℕ)
    → AreLines ls
    → 0 < length (unlines ls)
    → r < n
    → (q : ℕ) × (select_end
          (length (unlines ls))
          (length (unlines ls) / n)
          r
          n
          (stream_at (unlines ls) p)
        ≡ (stream_at (unlines ls) q, offset ls (boundary ls n (r + 1))))
unfolding select_end boundary tellg seekg good
select_end-boundary ls n r p lines h k =
    let c : ℕ = length (unlines ls) / n in
    let inner : (r + 1 == 0) ≡ false = ground arith in
    elim (Bool-cases (ltb (r + 1) n)) [
      | inl more ↦
          let inside : c * (r + 1) < length (unlines ls) =
            chunk_inside (length (unlines ls)) n (r + 1) h (ltb→lt (r + 1) n more) in
          (
            offset ls (line_count ls (c * (r + 1))),
            rw (more, inner, getline-position ls (c * (r + 1)) lines inside) refl,
          )
      | inr last ↦
          (p, rw (last, inner) (ap (λ e. (stream_at (unlines ls) p, e)) (length-unlines ls)))
    ]

set_start-boundary :
    (ls : List Bytes) (n r p : ℕ)
    → AreLines ls
    → 0 < length (unlines ls)
    → r < n
    → set_start (length (unlines ls) / n) r (stream_at (unlines ls) p)
      ≡ stream_at (unlines ls) (offset ls (boundary ls n r))
unfolding set_start boundary seekg offset
set_start-boundary ls n zero p lines h k = ap (stream_at (unlines ls)) (omega arith)
set_start-boundary ls n (suc r) p lines h k =
    let later : ltb 0 (suc r) ≡ true = ground arith in
    let inner : (suc r == 0) ≡ false = ground arith in
    let some_rank : ltb (suc r) n ≡ true = lt→ltb (suc r) n k in
    rw (later, inner, some_rank)
      (getline-position ls (length (unlines ls) / n * suc r) lines
        (chunk_inside (length (unlines ls)) n (suc r) h k))

-- What the reader of one rank reads of a file.
unfoldable pub read_part : ℕ → Bytes → ℕ → Result (Option (List Bytes))
read_part total_readers content rank = new_reader (pos rank) (pos total_readers) >>= λ r.
    load_file content r >>= λ loaded. ok (get_lines loaded)

part_of : List Bytes → ℕ → ℕ → List Bytes
part_of ls n r = map trim (slice (boundary ls n r) (boundary ls n (r + 1)) ls)

load_file-part :
    (ls : List Bytes) (n r : ℕ) (reader : PartialFileReader)
    → AreLines ls
    → 0 < length (unlines ls)
    → r < n
    → reader.rank ≡ r
    → reader.total_readers ≡ n
    → load_file (unlines ls) reader ≡ ok (part ls r n (boundary ls n r) (boundary ls n (r + 1)))
unfolding load_file tellg seekg good
load_file-part ls n r reader lines h k same_rank same_total =
    let some_readers : (n == 0) ≡ false = ground arith in
    let size : ℕ = length (unlines ls) in
    let (q, at_end) = select_end-boundary ls n r size lines h k in
    rw (same_total, same_rank, some_readers, at_end, set_start-boundary ls n r q lines h k) refl

read_part-part_of :
    (ls : List Bytes) (n r : ℕ)
    → AreLines ls
    → 0 < length (unlines ls)
    → r < n
    → read_part n (unlines ls) r ≡ ok (some (part_of ls n r))
unfolding read_part part_of new_reader
read_part-part_of ls n r lines h k =
    let in_range : ltb n r ≡ false = le→ltb n r (omega arith) in
    let a : ℕ = boundary ls n r in
    let b : ℕ = boundary ls n (r + 1) in
    let reader : PartialFileReader = record {
      rank = r;
      total_readers = n;
      stream = unopened;
      end = 0;
    } in
    rw (in_range, load_file-part ls n r reader lines h k refl refl)
      (ap (λ x. ok x)
        (lines_loop-part (length (unlines ls) + 2) ls r n a b lines (boundary_mono ls n r k)
          (boundary_le ls n (r + 1))
          (omega (arith, boundary_le ls n (r + 1), length-unlines_ge ls))))

slice-append-drop : (a b : ℕ) (ls : List Bytes) → a ≤ b → slice a b ls ++ drop b ls ≡ drop a ls
slice-append-drop zero zero ls h = refl
slice-append-drop zero (suc b) [] h = ap (λ xs. xs ++ []) (take-nil (suc b - 0))
slice-append-drop zero (suc b) (l ∷ ls) h =
    let e : suc b - 0 ≡ suc (b - 0) = omega arith in
    rw e (ap (◌∷◌ l) (slice-append-drop zero b ls (omega arith)))
slice-append-drop (suc a) zero ls h = absurd (omega arith)
slice-append-drop (suc a) (suc b) [] h = ap (λ xs. xs ++ []) (take-nil (suc b - suc a))
slice-append-drop (suc a) (suc b) (l ∷ ls) h =
    let e : suc b - suc a ≡ b - a = omega arith in rw e (slice-append-drop a b ls (omega arith))

drop_all : {A : Type 0} (xs : List A) → drop (length xs) xs ≡ []
drop_all [] = refl
drop_all (x ∷ xs) = drop_all xs

parts-append :
    (ls : List Bytes) (n r m : ℕ)
    → 0 < n
    → r + m ≡ n
    → flat_map (λ p. p) (map (part_of ls n) (range_from r m)) ≡ map trim (drop (boundary ls n r) ls)
unfolding part_of boundary
parts-append ls n r zero h e =
    let whole : boundary ls n r ≡ length ls = ground arith in rw (whole, drop_all ls) refl
parts-append ls n r (suc m) h e =
    let a : ℕ = boundary ls n r in
    let b : ℕ = boundary ls n (r + 1) in
    rw (parts-append ls n (r + 1) m h (omega arith)) (
      sym (map-append trim (slice a b ls) (drop b ls))
      ∙ ap (map trim) (slice-append-drop a b ls (boundary_mono ls n r (omega arith))))

map-some : {A B : Type 0} (f : A → B) (xs : List A) → map (λ x. some (f x)) xs ≡ map some (map f xs)
map-some f [] = refl
map-some f (x ∷ xs) = ap (◌∷◌ (some (f x))) (map-some f xs)

-- The readers of a file that is not empty, and in which every line ends in a newline, read each of
-- its lines exactly once and in order, whatever their number: the parts of the ranks one after
-- another are the lines of the file, each trimmed.
pub read_parts-cover :
    (ls : List Bytes) (total_readers : ℕ)
    → AreLines ls
    → 0 < length ls
    → 0 < total_readers
    → (parts : List (List Bytes)) × (for_each
          (read_part total_readers (unlines ls))
          (range_from 0 total_readers)
        ≡ ok (map some parts))
      × (flat_map (λ p. p) parts ≡ map trim ls)
unfolding boundary
read_parts-cover ls n lines some_line some_reader =
    let size : 0 < length (unlines ls) = omega (arith, length-unlines_ge ls, some_line) in
    (
      map (part_of ls n) (range_from 0 n),
      for_each-map (read_part n (unlines ls)) (λ r. some (part_of ls n r)) 0 n
            (λ r k. read_part-part_of ls n r lines size (omega (arith, k)))
          ∙ ap ok (map-some (part_of ls n) (range_from 0 n)),
      parts-append ls n 0 n some_reader (omega arith),
    )
