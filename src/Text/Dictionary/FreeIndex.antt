-- ===== src/Text/Dictionary/FreeIndex.antt =====
-- The search for a free index ends.
use flashlight.Prelude.{
  ℕ, zero, suc, ◌+◌, ◌≤◌, ◌<◌, ◌≡◌, [], ◌∷◌, some, none, length, arith, leb, if◌then◌else◌,
  Option-cases, Bool-cases, ◌==◌, inl, inr,
}
use flashlight.Prelude.Int.{ℤ, pos, negsuc}
use flashlight.Prelude.Maps.{Map, lookup, int_key}
use flashlight.Strings.{Bytes}
use flashlight.Text.Dictionary.{free_index}

-- How many keys are at least `idx`.
abbrev at_least : ℕ → Map ℤ Bytes → ℕ
at_least idx [] = 0
at_least idx ((pos k, _) ∷ m) = (if leb idx k then 1 else 0) + at_least idx m
at_least idx ((negsuc k, _) ∷ m) = at_least idx m

at_least-le : (idx : ℕ) (m : Map ℤ Bytes) → at_least idx m ≤ length m
at_least-le idx [] = omega arith
at_least-le idx ((pos k, _) ∷ m) = ground (arith, at_least-le idx m)
at_least-le idx ((negsuc k, _) ∷ m) = omega (arith, at_least-le idx m)

at_least_mono : (idx : ℕ) (m : Map ℤ Bytes) → at_least (idx + 1) m ≤ at_least idx m
at_least_mono idx [] = omega arith
at_least_mono idx ((pos k, _) ∷ m) = ground (arith, at_least_mono idx m)
at_least_mono idx ((negsuc k, _) ∷ m) = omega (arith, at_least_mono idx m)

-- A key that is there is passed.
at_least-lt :
    (idx : ℕ) (m : Map ℤ Bytes) (e : Bytes)
    → lookup (pos idx) m ≡ some e
    → at_least (idx + 1) m < at_least idx m
unfolding lookup
at_least-lt idx [] e h = cc
at_least-lt idx ((pos k, v) ∷ m) e h = elim (Bool-cases (k == idx)) [
  | inl hit ↦ ground (arith, at_least_mono idx m)
  | inr miss ↦ ground (arith, at_least-lt idx m e)
]
at_least-lt idx ((negsuc k, v) ∷ m) e h = omega (arith, at_least-lt idx m e h)

free_index_from :
    (fuel idx : ℕ) (m : Map ℤ Bytes)
    → at_least idx m < fuel
    → (i : ℕ) × (free_index fuel idx m ≡ some i) × (lookup (pos i) m ≡ none) × (idx ≤ i)
unfolding free_index
free_index_from zero idx m h = elim h [ ]
free_index_from (suc fuel) idx m h = elim (Option-cases (lookup (pos idx) m)) [
  | inl e ↦ (idx, rw (e, free_index), e, omega arith)
  | inr (v, e) ↦
      let (i, run, free, above) =
        free_index_from fuel (idx + 1) m (omega (arith, at_least-lt idx m v e)) in
      (i, rw (e, free_index) run, free, omega arith)
]

-- With one round more than there are keys the search finds an index that is free.
pub free_index_total :
    (idx : ℕ) (m : Map ℤ Bytes)
    → (i : ℕ) × (free_index (length m + 1) idx m ≡ some i) × (lookup (pos i) m ≡ none) × (idx ≤ i)
free_index_total idx m = free_index_from (length m + 1) idx m (omega (arith, at_least-le idx m))
