-- ===== src/Text/PartialFileReader/Lines.antt =====
-- A file in which every line ends in a newline, and the offsets of its lines.
use flashlight.Prelude.{
  ℕ, zero, suc, ◌+◌, ◌-◌, ◌<◌, ◌≤◌, ◌≡◌, ◌≢◌, refl, ap, ◌∙◌, false, List, [], ◌∷◌, ◌++◌, Option,
  some, length, length-append, take, drop, ltb, ltb→lt, ◌==◌, ne→==_false, if◌then◌else◌, arith,
  Bool-cases, inl, inr,
}
use mathlib.Core.Path.{subst}
use flashlight.Strings.{Bytes, find_byte}
use flashlight.Text.PartialFileReader.{is_newline}

-- The file of these lines.
unfoldable pub unlines : List Bytes → Bytes
unlines [] = []
unlines (l ∷ ls) = l ++ (10 ∷ unlines ls)

-- None of the bytes is a newline.
unfoldable pub IsLine : Bytes → Type 0
IsLine [] = Unit
IsLine (c ∷ l) = (c ≢ 10) × IsLine l

unfoldable pub AreLines : List Bytes → Type 0
unfolding IsLine
AreLines [] = Unit
AreLines (l ∷ ls) = IsLine l × AreLines ls

-- Where line `k` starts.
unfoldable pub offset : List Bytes → ℕ → ℕ
offset ls zero = 0
offset [] (suc k) = 0
offset (l ∷ ls) (suc k) = suc (length l) + offset ls k

-- The number of lines that start at or before a position.
unfoldable pub line_count : List Bytes → ℕ → ℕ
line_count [] p = 0
line_count (l ∷ ls) p =
    if ltb p (suc (length l)) then 1 else suc (line_count ls (p - suc (length l)))

pub line_count_le : (ls : List Bytes) (p : ℕ) → line_count ls p ≤ length ls
unfolding line_count
line_count_le [] p = omega arith
line_count_le (l ∷ ls) p = ground (arith, line_count_le ls (p - suc (length l)))

pub line_count_mono : (ls : List Bytes) (p q : ℕ) → p ≤ q → line_count ls p ≤ line_count ls q
unfolding line_count
line_count_mono [] p q h = omega arith
line_count_mono (l ∷ ls) p q h =
    ground (arith, line_count_mono ls (p - suc (length l)) (q - suc (length l)) (omega arith))

pub line_count-offset :
    (ls : List Bytes) (k : ℕ) → k < length ls → line_count ls (offset ls k) ≡ suc k
unfolding line_count offset
line_count-offset [] k h = absurd (omega arith)
line_count-offset (l ∷ ls) zero h = ground arith
line_count-offset (l ∷ ls) (suc k) h =
    let e : suc (length l) + offset ls k - suc (length l) ≡ offset ls k = omega arith in
    let beyond : ltb (suc (length l) + offset ls k) (suc (length l)) ≡ false = ground arith in
    rw (beyond, e) (ap suc (line_count-offset ls k (omega arith)))

pub length-unlines : (ls : List Bytes) → length (unlines ls) ≡ offset ls (length ls)
unfolding unlines offset
length-unlines [] = refl
length-unlines (l ∷ ls) = omega (arith, length-append l (10 ∷ unlines ls), length-unlines ls)

pub length-unlines_ge : (ls : List Bytes) → length ls ≤ length (unlines ls)
unfolding unlines
length-unlines_ge [] = omega arith
length-unlines_ge (l ∷ ls) = omega (arith, length-append l (10 ∷ unlines ls), length-unlines_ge ls)

pub offset_mono : (ls : List Bytes) (j k : ℕ) → j < k → k ≤ length ls → offset ls j < offset ls k
unfolding offset
offset_mono ls j zero h l = absurd (omega arith)
offset_mono [] j (suc k) h l = absurd (omega arith)
offset_mono (x ∷ ls) zero (suc k) h l = omega arith
offset_mono (x ∷ ls) (suc j) (suc k) h l =
    omega (arith, offset_mono ls j k (omega arith) (omega arith))

drop-append_le : (p : ℕ) (l rest : Bytes) → p ≤ length l → drop p (l ++ rest) ≡ drop p l ++ rest
drop-append_le zero l rest h = refl
drop-append_le (suc p) [] rest h = absurd (omega arith)
drop-append_le (suc p) (c ∷ l) rest h = drop-append_le p l rest (omega arith)

drop-append_ge :
    (p : ℕ) (l rest : Bytes) → length l ≤ p → drop p (l ++ rest) ≡ drop (p - length l) rest
drop-append_ge p [] rest h = let e : p - 0 ≡ p = omega arith in rw e refl
drop-append_ge zero (c ∷ l) rest h = absurd (omega arith)
drop-append_ge (suc p) (c ∷ l) rest h =
    let e : suc p - suc (length l) ≡ p - length l = omega arith in
    rw e (drop-append_ge p l rest (omega arith))

find_byte-line :
    (p : ℕ) (l rest : Bytes)
    → p ≤ length l
    → IsLine l
    → find_byte is_newline (drop p l ++ (10 ∷ rest)) ≡ some (length l - p)
unfolding find_byte is_newline IsLine
find_byte-line zero [] rest h line = refl
find_byte-line zero (c ∷ l) rest h line =
    let later : find_byte is_newline (l ++ (10 ∷ rest)) ≡ some (length l - 0) =
      find_byte-line zero l rest (omega arith) line.1 in
    let e : length l - 0 ≡ length l = omega arith in
    let found : find_byte is_newline (l ++ (10 ∷ rest)) ≡ some (length l) =
      later ∙ ap {B = Option ℕ} some e in
    let miss : (c == 10) ≡ false = ne→==_false c 10 line.0 in
    rw (miss, found) (ap {B = Option ℕ} some (omega arith))
find_byte-line (suc p) [] rest h line = absurd (omega arith)
find_byte-line (suc p) (c ∷ l) rest h line =
    let e : suc (length l) - suc p ≡ length l - p = omega arith in
    rw e (find_byte-line p l rest (omega arith) line.1)

-- From any position inside the file the next newline ends the line there.
pub find_newline :
    (ls : List Bytes) (p : ℕ)
    → AreLines ls
    → p < length (unlines ls)
    → (j : ℕ) × (find_byte is_newline (drop p (unlines ls)) ≡ some j)
      × (p + suc j ≡ offset ls (line_count ls p))
unfolding unlines AreLines offset line_count
find_newline [] p lines h = absurd (omega arith)
find_newline (l ∷ ls) p lines h = elim (Bool-cases (ltb p (suc (length l)))) [
  | inl here ↦
      let p_le : p ≤ length l = omega (arith, ltb→lt p (suc (length l)) here) in
      (
        length l - p,
        rw (drop-append_le p l (10 ∷ unlines ls) p_le)
            (find_byte-line p l (unlines ls) p_le lines.0),
        rw here (omega (arith, p_le)),
      )
  | inr later ↦
      let p_ge : suc (length l) ≤ p = ground arith in
      let inside : p - suc (length l) < length (unlines ls) =
        omega (arith, h, p_ge, length-append l (10 ∷ unlines ls)) in
      let (j, found, at_end) = find_newline ls (p - suc (length l)) lines.1 inside in
      let e : p - length l ≡ suc (p - suc (length l)) = omega (arith, p_ge) in
      (
        j,
        rw (drop-append_ge p l (10 ∷ unlines ls) (omega (arith, p_ge)), e) found,
        rw later (omega (arith, at_end, p_ge)),
      )
]

-- The file from the start of a line on.
drop-offset : (ls : List Bytes) (k : ℕ) → drop (offset ls k) (unlines ls) ≡ unlines (drop k ls)
unfolding offset unlines
drop-offset ls zero = refl
drop-offset [] (suc k) = refl
drop-offset (l ∷ ls) (suc k) =
    let e : suc (length l) + offset ls k - length l ≡ suc (offset ls k) = omega arith in
    rw (drop-append_ge (suc (length l) + offset ls k) l (10 ∷ unlines ls) (omega arith), e)
      (drop-offset ls k)

take-append : (l rest : Bytes) → take (length l) (l ++ rest) ≡ l
take-append [] rest = refl
take-append (c ∷ l) rest = ap (◌∷◌ c) (take-append l rest)

AreLines-drop : (ls : List Bytes) (k : ℕ) → AreLines ls → AreLines (drop k ls)
unfolding AreLines
AreLines-drop ls zero h = h
AreLines-drop [] (suc k) h = h
AreLines-drop (l ∷ ls) (suc k) h = AreLines-drop ls k h.1

-- What the search from the start of a line finds is that line.
pub line_at :
    (ls : List Bytes) (k : ℕ) (l : Bytes) (rest : List Bytes)
    → AreLines ls
    → drop k ls ≡ l ∷ rest
    → (find_byte is_newline (drop (offset ls k) (unlines ls)) ≡ some (length l))
      × (take (length l) (drop (offset ls k) (unlines ls)) ≡ l)
unfolding unlines AreLines
line_at ls k l rest lines e =
    let suffix : drop (offset ls k) (unlines ls) ≡ l ++ (10 ∷ unlines rest) =
      drop-offset ls k ∙ ap unlines e in
    let line : IsLine l = (subst AreLines e (AreLines-drop ls k lines)).0 in
    let e₁ : length l - 0 ≡ length l = omega arith in
    rw suffix (
      find_byte-line zero l (unlines rest) (omega arith) line ∙ ap {B = Option ℕ} some e₁,
      take-append l (10 ∷ unlines rest),
    )
