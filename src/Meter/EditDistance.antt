-- ===== src/Meter/EditDistance.antt =====
-- flashlight/fl/meter/EditDistanceMeter.{h,cpp}. The counters stay below 2^63. The elements compared are
-- of any type with an `==`.
pub mod Script
pub mod Minimal
use flashlight.Prelude.{
  ℕ, zero, suc, ◌+◌, ◌*◌, Bool, true, false, ◌&&◌, List, [], ◌∷◌, leb, range_from, map, length,
  if◌then◌else◌,
}

pub record ErrorState : Type 0 where
  pub ndel : ℕ
  pub nins : ℕ
  pub nsub : ℕ

abbrev pub sum : ErrorState → ℕ
sum e = e.ndel + e.nins + e.nsub

abbrev pub deletion : ErrorState → ErrorState
deletion e = record e { ndel = e.ndel + 1 }

abbrev pub insertion : ErrorState → ErrorState
insertion e = record e { nins = e.nins + 1 }

abbrev pub substitution : ErrorState → ErrorState
substitution e = record e { nsub = e.nsub + 1 }

-- `column[i].nins = i`
abbrev pub inserted_only : ℕ → ErrorState
inserted_only i = record { ndel = 0; nins = i; nsub = 0 }

-- `column[0].ndel = x`
abbrev pub deleted_only : ℕ → ErrorState
deleted_only x = record { ndel = x; nins = 0; nsub = 0 }

-- `column[len1]`
unfoldable pub last : ErrorState → List ErrorState → ErrorState
last head [] = head
last head (cell ∷ column) = last cell column

module _ {ℓ} {A : Type ℓ} (same : A → A → Bool) where
  -- The cell of two elements, from `column[y]`, `column[y - 1]` and `lastdiagonal`. The first of the
  -- smallest possibilities is taken.
  unfoldable pub next_cell : A → A → ErrorState → ErrorState → ErrorState → ErrorState
  next_cell in1 in2 above left diagonal =
      let third = sum diagonal + (if same in1 in2 then 0 else 1) in
      if leb (sum above + 1) (sum left + 1) && leb (sum above + 1) third
      then deletion above
      else if leb (sum left + 1) third
      then insertion left
      else if same in1 in2
      then diagonal
      else substitution diagonal

  -- The inner loop over what is left of the first input and of the column.
  unfoldable pub next_cells :
      A → List A → List ErrorState → ErrorState → ErrorState → List ErrorState
  unfolding next_cell
  next_cells in2 [] column diagonal left = []
  next_cells in2 (in1 ∷ ins1) [] diagonal left = []
  next_cells in2 (in1 ∷ ins1) (above ∷ column) diagonal left =
      let cell = next_cell in1 in2 above left diagonal in
      cell ∷ next_cells in2 ins1 column above cell

  -- The outer loop, with `x` elements of the second input passed: `column[0]` and the others.
  unfoldable pub columns :
      List A → List A → ℕ → ErrorState → List ErrorState → ErrorState × List ErrorState
  unfolding next_cells
  columns ins1 [] x head column = (head, column)
  columns ins1 (in2 ∷ ins2) x head column =
      let head' = record head { ndel = x + 1 } in
      columns ins1 ins2 (x + 1) head' (next_cells in2 ins1 column head head')

  unfoldable pub levenstein_distance : List A → List A → ErrorState
  unfolding columns last
  levenstein_distance ins1 ins2 =
      let (head, column) =
        columns ins1 ins2 0 (inserted_only 0) (map inserted_only (range_from 1 (length ins1))) in
      last head column

pub record EditDistanceMeter : Type 0 where
  pub n : ℕ
  pub ndel : ℕ
  pub nins : ℕ
  pub nsub : ℕ

abbrev pub reset : EditDistanceMeter
reset = record { n = 0; ndel = 0; nins = 0; nsub = 0 }

unfoldable pub add : EditDistanceMeter → ErrorState → ℕ → EditDistanceMeter
add m e n = record {
  n = m.n + n;
  ndel = m.ndel + e.ndel;
  nins = m.nins + e.nins;
  nsub = m.nsub + e.nsub;
}

unfoldable pub add_sequences {ℓ} :
    {A : Type ℓ} → (A → A → Bool) → EditDistanceMeter → List A → List A → EditDistanceMeter
unfolding levenstein_distance add
add_sequences same m output target = add m (levenstein_distance same output target) (length target)

unfoldable pub value : EditDistanceMeter → List ℕ
value m = (m.ndel + m.nins + m.nsub) ∷ m.n ∷ m.ndel ∷ m.nins ∷ m.nsub ∷ []
