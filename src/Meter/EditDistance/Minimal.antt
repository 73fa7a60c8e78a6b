-- ===== src/Meter/EditDistance/Minimal.antt =====
-- The distance is that of a shortest edit script.
use flashlight.Prelude.{
  ℕ, suc, ◌+◌, ◌≤◌, ◌≡◌, refl, Bool, true, false, ◌&&◌, List, [], ◌∷◌, map, range_from, length, leb,
  if◌then◌else◌, arith,
}
use flashlight.Meter.EditDistance.{
  ErrorState, sum, deletion, insertion, substitution, inserted_only, deleted_only, next_cell,
  next_cells, columns, last, levenstein_distance,
}
use flashlight.Meter.EditDistance.Script.{
  Script, done, deletes, inserts, keeps, replaces, reverse_onto, reverse_onto-twice, Script-reverse,
}

module _ {ℓ} {A : Type ℓ} (same : A → A → Bool) where
  -- There is a script with these numbers, and none is shorter.
  abbrev pub IsBest : List A → List A → ErrorState → Type ℓ
  IsBest xs ys e =
      Script same xs ys e.ndel e.nins e.nsub
      × ((d i u : ℕ) → Script same xs ys d i u → sum e ≤ d + i + u)

  Script-all_inserted : (xs : List A) → Script same xs [] 0 (length xs) 0
  Script-all_inserted [] = done
  Script-all_inserted (x ∷ xs) =
      let e : suc (length xs) ≡ length xs + 1 = omega arith in
      rw e (inserts x (Script-all_inserted xs))

  Script-all_deleted : (ys : List A) → Script same [] ys (length ys) 0 0
  Script-all_deleted [] = done
  Script-all_deleted (y ∷ ys) =
      let e : suc (length ys) ≡ length ys + 1 = omega arith in
      rw e (deletes y (Script-all_deleted ys))

  at_least_inserted : (xs : List A) (d i u : ℕ) → Script same xs [] d i u → length xs ≤ i
  at_least_inserted [] d i u s = omega arith
  at_least_inserted (x ∷ xs) d i u (inserts _ s) = omega (arith, at_least_inserted xs _ _ _ s)

  at_least_deleted : (ys : List A) (d i u : ℕ) → Script same [] ys d i u → length ys ≤ d
  at_least_deleted [] d i u s = omega arith
  at_least_deleted (y ∷ ys) d i u (deletes _ s) = omega (arith, at_least_deleted ys _ _ _ s)

  -- A cell is no greater than any of its three possibilities.
  next_cell-le :
      (x y : A) (above left diagonal : ErrorState)
      → (sum (next_cell same x y above left diagonal) ≤ sum above + 1)
        × (sum (next_cell same x y above left diagonal) ≤ sum left + 1)
        × (sum (next_cell same x y above left diagonal)
            ≤ sum diagonal + (if same x y then 0 else 1))
  unfolding next_cell
  next_cell-le x y above left diagonal = ground arith

  -- No script between longer sequences is shorter than the cell.
  next_cell-least :
      (x : A) (xs : List A) (y : A) (ys : List A) (above left diagonal : ErrorState)
      → IsBest (x ∷ xs) ys above
      → IsBest xs (y ∷ ys) left
      → IsBest xs ys diagonal
      → (d i u : ℕ) → Script same (x ∷ xs) (y ∷ ys) d i u
      → sum (next_cell same x y above left diagonal) ≤ d + i + u
  next_cell-least x xs y ys above left diagonal a l b d i u (deletes _ s) =
      omega (arith, (next_cell-le x y above left diagonal).0, a.1 _ _ _ s)
  next_cell-least x xs y ys above left diagonal a l b d i u (inserts _ s) =
      omega (arith, (next_cell-le x y above left diagonal).1, l.1 _ _ _ s)
  next_cell-least x xs y ys above left diagonal a l b d i u (keeps e s) =
      let third = (next_cell-le x y above left diagonal).2 in
      omega (arith, rw e at third, b.1 _ _ _ s)
  next_cell-least x xs y ys above left diagonal a l b d i u (replaces e s) =
      let third = (next_cell-le x y above left diagonal).2 in
      omega (arith, rw e at third, b.1 _ _ _ s)

  -- There is a script with the numbers of an error state.
  abbrev pub HasScript : List A → List A → ErrorState → Type ℓ
  HasScript xs ys e = Script same xs ys e.ndel e.nins e.nsub

  choose :
      (b : Bool) (e f : ErrorState) (xs ys : List A)
      → (b ≡ true → HasScript xs ys e)
      → (b ≡ false → HasScript xs ys f)
      → HasScript xs ys (if b then e else f)
  choose true e f xs ys on_true on_false = on_true refl
  choose false e f xs ys on_true on_false = on_false refl

  next_cell-script :
      (x : A) (xs : List A) (y : A) (ys : List A) (above left diagonal : ErrorState)
      → HasScript (x ∷ xs) ys above
      → HasScript xs (y ∷ ys) left
      → HasScript xs ys diagonal
      → HasScript (x ∷ xs) (y ∷ ys) (next_cell same x y above left diagonal)
  unfolding next_cell
  next_cell-script x xs y ys above left diagonal a l b =
      let third = sum diagonal + (if same x y then 0 else 1) in
      choose (leb (sum above + 1) (sum left + 1) && leb (sum above + 1) third) (deletion above)
        (if leb (sum left + 1) third
          then insertion left
          else if same x y
          then diagonal
          else substitution diagonal)
        (x ∷ xs) (y ∷ ys) (λ _. deletes y a)
        (λ _.
          choose (leb (sum left + 1) third) (insertion left)
            (if same x y then diagonal else substitution diagonal) (x ∷ xs) (y ∷ ys)
            (λ _. inserts x l)
            (λ _.
              choose (same x y) diagonal (substitution diagonal) (x ∷ xs) (y ∷ ys) (λ e. keeps e b)
                (λ e. replaces e b)))

  next_cell-IsBest :
      (x : A) (xs : List A) (y : A) (ys : List A) (above left diagonal : ErrorState)
      → IsBest (x ∷ xs) ys above
      → IsBest xs (y ∷ ys) left
      → IsBest xs ys diagonal
      → IsBest (x ∷ xs) (y ∷ ys) (next_cell same x y above left diagonal)
  next_cell-IsBest x xs y ys above left diagonal a l b = (
    next_cell-script x xs y ys above left diagonal a.0 l.0 b.0,
    next_cell-least x xs y ys above left diagonal a l b,
  )

  -- The column above the elements of the first input that are left, when those passed are `xs` and
  -- those passed of the second are `ys`, each with the last first.
  abbrev Column : List A → List A → List A → List ErrorState → Type ℓ
  Column xs ys [] [] = Unit {ℓ}
  Column xs ys [] (_ ∷ _) = (true ≡ false) × Unit {ℓ}
  Column xs ys (x ∷ later) [] = (true ≡ false) × Unit {ℓ}
  Column xs ys (x ∷ later) (cell ∷ column) =
      IsBest (x ∷ xs) ys cell × Column (x ∷ xs) ys later column

  next_cells-Column :
      (xs ys later : List A) (y : A) (column : List ErrorState) (diagonal left : ErrorState)
      → IsBest xs ys diagonal
      → IsBest xs (y ∷ ys) left
      → Column xs ys later column
      → Column xs (y ∷ ys) later (next_cells same y later column diagonal left)
  unfolding next_cells
  next_cells-Column xs ys [] y column diagonal left b l c = tt
  next_cells-Column xs ys (x ∷ later) y [] diagonal left b l c =
      absurd (let no : true ≡ false = c.0 in ground arith)
  next_cells-Column xs ys (x ∷ later) y (above ∷ column) diagonal left b l (a, c) =
      let best = next_cell-IsBest x xs y ys above left diagonal a l b in
      (
        best,
        next_cells-Column (x ∷ xs) ys later y column above (next_cell same x y above left diagonal)
            a best c,
      )

  all_deleted : (ys : List A) → IsBest [] ys (deleted_only (length ys))
  all_deleted ys = (Script-all_deleted ys, λ d i u s. omega (arith, at_least_deleted ys d i u s))

  all_inserted : (xs : List A) → IsBest xs [] (inserted_only (length xs))
  all_inserted xs = (Script-all_inserted xs, λ d i u s. omega (arith, at_least_inserted xs d i u s))

  all_deleted_of : (ys : List A) (x : ℕ) → x ≡ length ys → IsBest [] ys (deleted_only x)
  all_deleted_of ys x e = rw e (all_deleted ys)

  columns-Column :
      (later ys ins1 : List A) (x : ℕ) (column : List ErrorState)
      → x ≡ length ys
      → Column [] ys ins1 column
      → (let (head, cells) = columns same ins1 later x (deleted_only x) column in
          IsBest [] (reverse_onto later ys) head × Column [] (reverse_onto later ys) ins1 cells)
  unfolding columns
  columns-Column [] ys ins1 x column passed c = (all_deleted_of ys x passed, c)
  columns-Column (y ∷ later) ys ins1 x column passed c =
      let passed' : x + 1 ≡ length (y ∷ ys) = omega arith in
      columns-Column later (y ∷ ys) ins1 (x + 1)
        (next_cells same y ins1 column (deleted_only x) (deleted_only (x + 1))) passed'
        (next_cells-Column [] ys ins1 y column (deleted_only x) (deleted_only (x + 1))
          (all_deleted_of ys x passed) (all_deleted_of (y ∷ ys) (x + 1) passed') c)

  first-Column :
      (xs later : List A)
      → Column xs [] later (map inserted_only (range_from (length xs + 1) (length later)))
  first-Column xs [] = tt
  first-Column xs (x ∷ later) =
      let e : length xs + 1 ≡ length (x ∷ xs) = omega arith in
      rw e (all_inserted (x ∷ xs), first-Column (x ∷ xs) later)

  last-IsBest :
      (xs ys later : List A) (head : ErrorState) (column : List ErrorState)
      → IsBest xs ys head
      → Column xs ys later column
      → IsBest (reverse_onto later xs) ys (last head column)
  unfolding last
  last-IsBest xs ys [] head [] b c = b
  last-IsBest xs ys [] head (cell ∷ column) b c =
      absurd (let no : true ≡ false = c.0 in ground arith)
  last-IsBest xs ys (x ∷ later) head [] b c = absurd (let no : true ≡ false = c.0 in ground arith)
  last-IsBest xs ys (x ∷ later) head (cell ∷ column) b (a, c) =
      last-IsBest (x ∷ xs) ys later cell column a c

  backwards :
      (xs ys : List A) (e : ErrorState)
      → IsBest (reverse_onto xs []) (reverse_onto ys []) e
      → IsBest xs ys e
  backwards xs ys e (script, least) = (
    rw (reverse_onto-twice xs) at (rw (reverse_onto-twice ys) at (Script-reverse same script)),
    λ d i u s. least d i u (Script-reverse same s),
  )

  -- The error state that levensteinDistance gives for an output and a target is that of an edit script
  -- between them, with as many deletions, insertions and substitutions, and no script has fewer errors.
  pub levenstein_distance-IsBest :
      (output target : List A) → IsBest output target (levenstein_distance same output target)
  unfolding levenstein_distance
  levenstein_distance-IsBest output target =
      let (head, column) =
        columns-Column target [] output 0 (map inserted_only (range_from 1 (length output))) refl
          (first-Column [] output) in
      backwards output target (levenstein_distance same output target)
        (last-IsBest [] (reverse_onto target []) output _ _ head column)
