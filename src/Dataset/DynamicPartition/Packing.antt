-- ===== src/Dataset/DynamicPartition/Packing.antt =====
-- The batches of `dynamicPartitionByRoundRobin`: as many samples in each as fit.
use flashlight.Prelude.{
  ℕ, zero, suc, ◌+◌, ◌-◌, ◌*◌, ◌≤◌, ◌<◌, ◌≡◌, ◌⊎◌, inl, inr, refl, sym, ap, ◌∙◌, true, false, List,
  [], ◌∷◌, ◌++◌, Result, ok, throw, ◌>>=◌, invalid_argument, length, length-append, append_assoc,
  append-nil, Bool-cases, arith,
}
use mathlib.Core.Path.{subst}
use flashlight.Dataset.DynamicPartition.{Sizes, Packed, pack, close, batches_of}

module _ {Size : Type 0} (sizes : Sizes Size) where
  open sizes use {nought, scale, exceeds, is_below, larger}

  abbrev pub NonNegative : List Size → Type 0
  NonNegative [] = Unit {0}
  NonNegative (s ∷ samples) = (larger nought s ≡ s) × NonNegative samples

  -- No sample exceeds the limit by itself.
  abbrev pub AllFit : List Size → Type 0
  AllFit [] = Unit {0}
  AllFit (s ∷ samples) = (exceeds s ≡ false) × AllFit samples

  abbrev greatest : Size → List Size → Size
  greatest len [] = len
  greatest len (s ∷ group) = greatest (larger len s) group

  -- What a group of samples takes when each is padded to the greatest of them.
  unfoldable pub padded : List Size → Size
  padded group = scale (length group) (greatest nought group)

  -- The batches of samples from number `start` on. A batch that is followed by another is not empty,
  -- fits, and does not fit with the next sample; the group of the last samples is a batch when it
  -- stays below the limit, and is in no batch otherwise.
  pub data IsPacking : ℕ → List Size → List Packed → Type 0 where
    full :
        {start : ℕ} (group : List Size) (s : Size) (rest : List Size) {batches : List Packed}
        → 0 < length group
        → exceeds (padded group) ≡ false
        → exceeds (padded (group ++ (s ∷ []))) ≡ true
        → IsPacking (start + length group) (s ∷ rest) batches
        → IsPacking start (group ++ (s ∷ rest)) ((length group, start) ∷ batches)
    taken :
        {start : ℕ} {group : List Size}
        → exceeds (padded group) ≡ false
        → is_below (padded group) ≡ true
        → IsPacking start group ((length group, start) ∷ [])
    left_over :
        {start : ℕ} {group : List Size}
        → exceeds (padded group) ≡ false
        → is_below (padded group) ≡ false
        → IsPacking start group []

  greatest-snoc :
      (len s : Size) (group : List Size)
      → greatest len (group ++ (s ∷ [])) ≡ larger (greatest len group) s
  greatest-snoc len s [] = refl
  greatest-snoc len s (t ∷ group) = greatest-snoc (larger len t) s group

  padded-snoc :
      (idx start : ℕ) (group : List Size) (s : Size)
      → idx ≡ start + length group
      → padded (group ++ (s ∷ [])) ≡ scale (idx - start + 1) (larger (greatest nought group) s)
  unfolding padded
  padded-snoc idx start group s e =
      let count : length (group ++ (s ∷ [])) ≡ idx - start + 1 =
        omega (arith, length-append group (s ∷ []), e) in
      rw (padded, count, greatest-snoc nought s group) refl

  close-cons :
      (n start : ℕ) (len : Size) (b : Packed) (batches : List Packed)
      → close sizes n (b ∷ batches, start, len) ≡ b ∷ close sizes n (batches, start, len)
  unfolding close
  close-cons n start len b batches = elim (Bool-cases (is_below (scale (n - start) len))) [
    | inl e ↦ rw e refl
    | inr e ↦ rw e refl
  ]

  -- A run of the loop over `rest` when `group` is open, of `n` samples in all: batches, or the exception
  -- for a sample that does not fit.
  abbrev Packs : ℕ → ℕ → List Size → List Size → Result (List Packed × ℕ × Size) → Type 0
  Packs n start group rest r =
      (AllFit rest
        × (batches : List Packed) × (last : ℕ) × (len : Size) × (r ≡ ok (batches, last, len))
        × IsPacking start (group ++ rest) (close sizes n (batches, last, len)))
      ⊎ ((¬ AllFit rest) × (r ≡ throw invalid_argument))

  close-IsPacking :
      (n start : ℕ) (group : List Size)
      → n ≡ start + length group
      → exceeds (padded group) ≡ false
      → IsPacking start group (close sizes n ([], start, greatest nought group))
  unfolding close padded
  close-IsPacking n start group e fits =
      let count : n - start ≡ length group = omega (arith, e) in
      elim (Bool-cases (is_below (scale (n - start) (greatest nought group)))) [
        | inl below ↦
            subst (λ bs. IsPacking start group bs)
              (rw below (ap (λ k. (k, start) ∷ []) (sym count)))
              (IsPacking.taken fits (rw (padded, ← count) below))
        | inr not_below ↦
            subst (λ bs. IsPacking start group bs) (rw not_below refl)
              (IsPacking.left_over fits (rw (padded, ← count) not_below))
      ]

  -- A sample that there is room for.
  join-Packs :
      (n start : ℕ) (group : List Size) (s : Size) (rest : List Size)
      (r : Result (List Packed × ℕ × Size))
      → exceeds s ≡ false
      → Packs n start (group ++ (s ∷ [])) rest r
      → Packs n start group (s ∷ rest) r
  join-Packs n start group s rest r fits (inl (all, batches, last, len, run, packing)) = inl (
    (fits, all),
    batches,
    last,
    len,
    run,
    subst (λ xs. IsPacking start xs (close sizes n (batches, last, len)))
        (append_assoc group (s ∷ []) rest) packing,
  )
  join-Packs n start group s rest r fits (inr (none_fit, run)) =
      inr ((λ (_, all). none_fit all), run)

  -- A sample that opens the next group.
  open-Packs :
      (n start idx : ℕ) (group : List Size) (s : Size) (rest : List Size)
      (r : Result (List Packed × ℕ × Size))
      → idx ≡ start + length group
      → 0 < length group
      → exceeds (padded group) ≡ false
      → exceeds (padded (group ++ (s ∷ []))) ≡ true
      → exceeds s ≡ false
      → Packs n idx (s ∷ []) rest r
      → Packs n start group
          (s ∷ rest)
          (r >>= λ (batches, last, len). ok ((idx - start, start) ∷ batches, last, len))
  open-Packs n start idx group s rest r e some_in fits too_many fits_s
        (inl (all, batches, last, len, run, packing)) =
      let count : length group ≡ idx - start = omega (arith, e) in
      inl (
        (fits_s, all),
        (idx - start, start) ∷ batches,
        last,
        len,
        rw run refl,
        subst (λ bs. IsPacking start (group ++ (s ∷ rest)) bs)
            (ap (λ k. (k, start) ∷ close sizes n (batches, last, len)) count
              ∙ sym (close-cons n last len (idx - start, start) batches))
            (IsPacking.full group s rest some_in fits too_many
              (subst (λ k. IsPacking k (s ∷ rest) (close sizes n (batches, last, len))) e packing)),
      )
  open-Packs n start idx group s rest r e some_in fits too_many fits_s (inr (none_fit, run)) =
      inr ((λ (_, all). none_fit all), rw run refl)

  -- A sample that fits by itself opens a group and is taken into it.
  pack-reopened :
      (fuel : ℕ) (s : Size) (rest : List Size) (idx : ℕ)
      → exceeds s ≡ false
      → larger nought s ≡ s
      → pack sizes (suc fuel) (s ∷ rest) idx idx s
        ≡ pack sizes fuel rest (idx + 1) idx (greatest nought (s ∷ []))
  unfolding pack
  pack-reopened fuel s rest idx fits positive =
      let one : idx - idx + 1 ≡ 1 = omega arith in
      let alone : exceeds (scale (idx - idx + 1) (larger s s)) ≡ false =
        rw (one, sizes.larger_self s, sizes.scale_one s) fits in
      rw (fits, pack, alone)
        (ap (λ len. pack sizes fuel rest (idx + 1) idx len) (sizes.larger_self s ∙ sym positive))

  -- A sample that there is no room for ends the batch, and is looked at again.
  pack-opened :
      (fuel : ℕ) (s : Size) (rest : List Size) (idx start : ℕ) (len : Size)
      → exceeds s ≡ false
      → exceeds (scale (idx - start + 1) (larger len s)) ≡ true
      → exceeds (scale (idx - start) len) ≡ false
      → pack sizes (suc fuel) (s ∷ rest) idx start len ≡ (
          pack sizes fuel (s ∷ rest) idx idx s >>= λ (batches, last, len').
          ok ((idx - start, start) ∷ batches, last, len'))
  unfolding pack
  pack-opened fuel s rest idx start len fits over right = rw (fits, pack, over, right) refl

  -- A group that has no room for a sample that fits by itself is not empty.
  full-nonempty :
      (idx start : ℕ) (group : List Size) (s : Size)
      → larger nought s ≡ s
      → exceeds s ≡ false
      → exceeds (padded (group ++ (s ∷ []))) ≡ true
      → 0 < length group
  unfolding padded
  full-nonempty idx start (t ∷ group) s positive fits too_many = omega arith
  full-nonempty idx start [] s positive fits too_many =
      let alone : exceeds s ≡ true = rw (padded, positive, sizes.scale_one s) at too_many in
      absurd (ground arith)

  pack-Packs :
      (fuel n idx start : ℕ) (group rest : List Size)
      → 2 * length rest ≤ fuel
      → idx ≡ start + length group
      → n ≡ idx + length rest
      → NonNegative rest
      → exceeds (padded group) ≡ false
      → Packs n start group rest (pack sizes fuel rest idx start (greatest nought group))
  unfolding pack padded
  pack-Packs fuel n idx start group [] h e total positive fits = inl (
    tt,
    [],
    start,
    greatest nought group,
    refl,
    subst (λ xs. IsPacking start xs (close sizes n ([], start, greatest nought group)))
        (sym (append-nil group)) (close-IsPacking n start group (omega (arith, e, total)) fits),
  )
  pack-Packs zero n idx start group (s ∷ rest) h e total positive fits = absurd (omega arith)
  pack-Packs (suc zero) n idx start group (s ∷ rest) h e total positive fits = absurd (omega arith)
  pack-Packs (suc (suc fuel)) n idx start group (s ∷ rest) h e total (positive, others) fits =
      elim (Bool-cases (exceeds s)) [
        | inl big ↦ inr ((λ (fits_s, _). absurd (ground arith)), rw (big, pack) refl)
        | inr fits_s ↦
            (elim (Bool-cases
              (exceeds (scale (idx - start + 1) (larger (greatest nought group) s)))) [
                | inr room ↦
                    let joined : exceeds (padded (group ++ (s ∷ []))) ≡ false =
                      ap exceeds (padded-snoc idx start group s e) ∙ room in
                    let run : pack sizes (suc (suc fuel)) (s ∷ rest) idx start
                          (greatest nought group)
                        ≡ pack sizes (suc fuel) rest (idx + 1) start
                            (greatest nought (group ++ (s ∷ []))) =
                      rw (fits_s, pack, room)
                        (ap (λ len. pack sizes (suc fuel) rest (idx + 1) start len)
                          (sym (greatest-snoc nought s group))) in
                    subst (λ r. Packs n start group (s ∷ rest) r) (sym run)
                      (join-Packs n start group s rest _ fits_s (
                        pack-Packs (suc fuel) n (idx + 1) start (group ++ (s ∷ [])) rest
                          (omega arith) (omega (arith, length-append group (s ∷ []), e))
                          (omega (arith, total)) others joined))
                | inl over ↦
                    let too_many : exceeds (padded (group ++ (s ∷ []))) ≡ true =
                      ap exceeds (padded-snoc idx start group s e) ∙ over in
                    let count : length group ≡ idx - start = omega (arith, e) in
                    let right : exceeds (scale (idx - start) (greatest nought group)) ≡ false =
                      ap (λ k. exceeds (scale k (greatest nought group))) (sym count) ∙ fits in
                    let run : pack sizes (suc (suc fuel)) (s ∷ rest) idx start
                          (greatest nought group)
                        ≡ (pack sizes (suc fuel) (s ∷ rest) idx idx s >>= λ (batches, last, len').
                            ok ((idx - start, start) ∷ batches, last, len')) =
                      pack-opened (suc fuel) s rest idx start (greatest nought group) fits_s over
                        right in
                    let single : exceeds (padded (s ∷ [])) ≡ false =
                      rw (padded, positive, sizes.scale_one s) fits_s in
                    subst (λ r. Packs n start group (s ∷ rest) r) (sym run)
                      (open-Packs n start idx group s rest _ e
                        (full-nonempty idx start group s positive fits_s too_many) fits too_many
                        fits_s
                        (subst (λ r. Packs n idx (s ∷ []) rest r)
                          (sym (pack-reopened fuel s rest idx fits_s positive))
                          (pack-Packs fuel n (idx + 1) idx (s ∷ []) rest (omega arith) (omega arith)
                            (omega (arith, total)) others single)))
              ])
      ]

  -- With a limit and sizes that are not below 0, dynamicPartitionByRoundRobin throws
  -- std::invalid_argument when a sample exceeds the limit by itself. Otherwise it packs the samples,
  -- from the first on, into batches that follow one another, each of as many samples as fit, padded to
  -- the greatest. The last group is a batch only if it stays below the limit.
  pub batches_of-IsPacking :
      (samples : List Size)
      → exceeds (padded []) ≡ false
      → NonNegative samples
      → (AllFit samples
          × (batches : List Packed) × (batches_of sizes samples ≡ ok batches)
          × IsPacking 0 samples batches)
        ⊎ ((¬ AllFit samples) × (batches_of sizes samples ≡ throw invalid_argument))
  unfolding batches_of
  batches_of-IsPacking samples limit positive =
      elim (pack-Packs (2 * length samples) (length samples) 0 0 [] samples (omega arith)
        (omega arith) (omega arith) positive limit) [
          | inl (all, batches, last, len, run, packing) ↦
              inl (all, close sizes (length samples) (batches, last, len), rw run refl, packing)
          | inr (none_fit, run) ↦ inr (none_fit, rw run refl)
        ]
