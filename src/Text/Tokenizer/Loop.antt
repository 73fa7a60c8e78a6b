-- ===== src/Text/Tokenizer/Loop.antt =====
-- The loop of a worker counts the tokens of the lines that its reader reads.
use flashlight.Prelude.{
  ℕ, zero, suc, ◌+◌, ◌≡◌, refl, sym, ◌∙◌, ap, Bool, true, false, List, [], ◌∷◌, ◌++◌, some, none,
  length, ltb, if◌then◌else◌, arith, Bool-cases, Option-cases, inl, inr, ◌⊎◌, flat_map,
}
use mathlib.Core.Option.{none-ne-some}
use flashlight.Strings.{Bytes}
use flashlight.Text.PartialFileReader.{
  Stream, PartialFileReader, good, tellg, get_position, has_next_line, get_line, lines_loop,
}
use flashlight.Text.PartialFileReader.Ending.{tellg-good, tellg-bad}
use flashlight.Text.Tokenizer.{
  TokenCountMap, Gathered, tokenize, count_each, count_line, count_loop,
}

-- The tokens of these lines.
unfoldable pub tokens_of : List Bytes → List Bytes
tokens_of lines = flat_map tokenize lines

failed_bad : (s : Stream) → good (record s { failbit = true }) ≡ false
unfolding good
failed_bad s = ground arith

-- To ask for the position twice is to ask once.
tellg-tellg : (s : Stream) → tellg (tellg s).0 ≡ tellg s
tellg-tellg s = elim (Bool-cases (good s)) [
  | inl g ↦ ap tellg (ap (λ (p : Stream × ℕ). p.0) (tellg-good s g))
  | inr bad ↦
      let failed : Stream = record s { failbit = true } in
      ap tellg (ap (λ (p : Stream × ℕ). p.0) (tellg-bad s bad))
      ∙ tellg-bad failed (failed_bad s)
      ∙ sym (tellg-bad s bad)
]

lines_loop-get_position :
    (fuel : ℕ) (r : PartialFileReader) → lines_loop fuel (get_position r).0 ≡ lines_loop fuel r
unfolding lines_loop has_next_line get_position
lines_loop-get_position zero r = refl
lines_loop-get_position (suc fuel) r =
    ap
      (λ (p : Stream × ℕ).
        let rest = lines_loop fuel (get_line (record r { stream = p.0 })).0 in
        if ltb p.1 r.end
        then (elim rest [
          | none ↦ none
          | some lines ↦ some ((get_line (record r { stream = p.0 })).1 ∷ lines)
        ])
        else some [])
      (tellg-tellg r.stream)

out_of_fuel : (r : PartialFileReader) → lines_loop 0 r ≡ none
unfolding lines_loop
out_of_fuel r = refl

lines_loop-cases :
    (fuel : ℕ) (r : PartialFileReader) (lines : List Bytes)
    → lines_loop (suc fuel) r ≡ some lines
    → (((has_next_line r).1 ≡ false) × (lines ≡ []))
      ⊎ ((rest : List Bytes) × ((has_next_line r).1 ≡ true)
          × (lines_loop fuel (get_line (has_next_line r).0).0 ≡ some rest)
          × (lines ≡ (get_line (has_next_line r).0).1 ∷ rest))
unfolding lines_loop
lines_loop-cases fuel r lines h = elim (Bool-cases (has_next_line r).1) [
  | inr done ↦ inl (done, ground arith)
  | inl more ↦ (elim (Option-cases (lines_loop fuel (get_line (has_next_line r).0).0)) [
    | inl out ↦ absurd (ground arith)
    | inr (rest, others) ↦ inr (rest, more, others, ground arith)
  ])
]

count_each-append :
    (xs ys : List Bytes) (m : TokenCountMap)
    → count_each (xs ++ ys) m ≡ count_each ys (count_each xs m)
unfolding count_each
count_each-append [] ys m = refl
count_each-append (x ∷ xs) ys m = count_each-append xs ys _

-- What the worker has gathered at the end.
pub record Counts (lines : List Bytes) (g g' : Gathered) : Type 0 where
  pub counted : g'.token_count_map ≡ count_each (tokens_of lines) g.token_count_map
  pub numbered : g'.sentences ≡ g.sentences + length lines

count_line-Counts :
    (gen : Bool) (r : PartialFileReader) (line : Bytes) (g : Gathered)
    → ((count_line gen r line g).1.token_count_map ≡ count_each (tokenize line) g.token_count_map)
      × ((count_line gen r line g).1.sentences ≡ suc g.sentences)
unfolding count_line
count_line-Counts true r line g = (refl, refl)
count_line-Counts false r line g = (refl, refl)

count_line-reader :
    (gen : Bool) (r : PartialFileReader) (line : Bytes) (g : Gathered) (fuel : ℕ)
    → lines_loop fuel (count_line gen r line g).0 ≡ lines_loop fuel r
unfolding count_line
count_line-reader true r line g fuel = lines_loop-get_position fuel r
count_line-reader false r line g fuel = refl

pub count_loop-Counts :
    (fuel : ℕ) (gen : Bool) (r : PartialFileReader) (g : Gathered) (lines : List Bytes)
    → lines_loop fuel r ≡ some lines
    → (g' : Gathered) × (count_loop fuel gen r g ≡ some g') × Counts lines g g'
unfolding count_loop count_each tokens_of
count_loop-Counts zero gen r g lines h = absurd (none-ne-some _ (sym (out_of_fuel r) ∙ h))
count_loop-Counts (suc fuel) gen r g lines h = elim (lines_loop-cases fuel r lines h) [
  | inl (done, empty) ↦
      (g, rw done refl, record { counted = rw empty refl; numbered = rw empty (omega arith) })
  | inr (rest, more, others, e) ↦
      let moved : PartialFileReader = (get_line (has_next_line r).0).0 in
      let line : Bytes = (get_line (has_next_line r).0).1 in
      let step : PartialFileReader × Gathered = count_line gen moved line g in
      let (g', result, counts) =
        count_loop-Counts fuel gen step.0 step.1 rest
          (count_line-reader gen moved line g fuel ∙ others) in
      let (tokens, number) = count_line-Counts gen moved line g in
      (
        g',
        rw more result,
        record {
          counted =
              counts.counted
              ∙ ap (count_each (tokens_of rest)) tokens
              ∙ sym (count_each-append (tokenize line) (tokens_of rest) g.token_count_map)
              ∙ ap (λ ls. count_each (tokens_of ls) g.token_count_map) (sym e);
          numbered = omega (arith, counts.numbered, number, ap length e);
        },
      )
]
