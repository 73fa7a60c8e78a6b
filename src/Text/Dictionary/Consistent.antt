-- ===== src/Text/Dictionary/Consistent.antt =====
-- The two maps of a dictionary agree, and what additions do to lookups.
use flashlight.Prelude.{
  ◌≡◌, sym, ap, ◌∙◌, some, none, arith, if◌then◌else◌, Option-cases, Bool-cases, inl, inr,
}
use flashlight.Prelude.Int.{ℤ, eqb_ℤ, eqb_ℤ_iff}
use flashlight.Prelude.Maps.{
  Map, lookup, insert, int_key, lookup-insert, lookup-insert_self, lookup-insert_ne, same_self,
  same_ne,
}
use mathlib.Core.Option.{none-ne-some}
use flashlight.Strings.{Bytes}
use flashlight.Text.Dictionary.{Dictionary, bytes_key, empty, added, keep_first}

-- The first entry of an index has that index, and every entry's index has a first entry.
pub record IsConsistent (d : Dictionary) : Type 0 where
  pub back : (i : ℤ) (e : Bytes) → lookup i d.idx2entry ≡ some e → lookup e d.entry2idx ≡ some i
  pub forth :
      (e : Bytes) (i : ℤ)
      → lookup e d.entry2idx ≡ some i
      → (f : Bytes) × (lookup i d.idx2entry ≡ some f)

pub empty-IsConsistent : IsConsistent empty
unfolding lookup
empty-IsConsistent = record { back = λ i e h. cc; forth = λ e i h. absurd (ground arith) }

pub lookup-keep_first_taken :
    (idx : ℤ) (entry f : Bytes) (m : Map ℤ Bytes) (i : ℤ)
    → lookup i m ≡ some f
    → lookup i (keep_first idx entry m) ≡ some f
unfolding keep_first
lookup-keep_first_taken idx entry f m i h = elim (Option-cases (lookup idx m)) [
  | inl e ↦
      rw (e, keep_first)
        (lookup-insert_ne idx i entry m
            (λ same. absurd (none-ne-some _ (sym e ∙ ap (λ k. lookup k m) same ∙ h)))
          ∙ h)
  | inr (g, e) ↦ rw (e, keep_first) h
]

pub lookup-keep_first_free :
    (idx : ℤ) (entry : Bytes) (m : Map ℤ Bytes) (i : ℤ)
    → lookup i m ≡ none
    → lookup i (keep_first idx entry m) ≡ (if eqb_ℤ idx i then some entry else none)
unfolding keep_first
lookup-keep_first_free idx entry m i h = elim (Option-cases (lookup idx m)) [
  | inl e ↦ rw (e, keep_first, lookup-insert idx i entry m, h)
  | inr (g, e) ↦
      rw
        (
          e,
          keep_first,
          same_ne idx i
              (λ same. absurd (none-ne-some _ (sym h ∙ ap (λ k. lookup k m) (sym same) ∙ e))),
        )
        h
]

module _ (d : Dictionary) (entry : Bytes) (idx : ℤ) where
  pub added-IsConsistent :
      lookup entry d.entry2idx ≡ none → IsConsistent d → IsConsistent (added d entry idx)
  added-IsConsistent fresh c = record { back = back; forth = forth }
    where
      back :
          (i : ℤ) (e : Bytes)
          → lookup i (keep_first idx entry d.idx2entry) ≡ some e
          → lookup e (insert entry idx d.entry2idx) ≡ some i
      back i e h = elim (Option-cases (lookup i d.idx2entry)) [
        | inl free ↦
            let new = sym (lookup-keep_first_free idx entry d.idx2entry i free) ∙ h in
            let here : idx ≡ i = (eqb_ℤ_iff idx i).0 (ground arith) in
            let it : entry ≡ e = ground arith in
            rw (← here, ← it) (lookup-insert_self entry idx d.entry2idx)
        | inr (f, taken) ↦
            let kept = lookup-keep_first_taken idx entry f d.idx2entry i taken in
            let it : f ≡ e = cc in
            let old = rw it at (c.back i f taken) in
            lookup-insert_ne entry e idx d.entry2idx
              (λ same. none-ne-some _ (sym fresh ∙ ap (λ k. lookup k d.entry2idx) same ∙ old))
            ∙ old
      ]

      first_of_idx : (f : Bytes) × (lookup idx (keep_first idx entry d.idx2entry) ≡ some f)
      first_of_idx = elim (Option-cases (lookup idx d.idx2entry)) [
        | inl free ↦ (
          entry,
          lookup-keep_first_free idx entry d.idx2entry idx free ∙ ground (arith, same_self idx),
        )
        | inr (f, taken) ↦ (f, lookup-keep_first_taken idx entry f d.idx2entry idx taken)
      ]

      forth :
          (e : Bytes) (i : ℤ)
          → lookup e (insert entry idx d.entry2idx) ≡ some i
          → (f : Bytes) × (lookup i (keep_first idx entry d.idx2entry) ≡ some f)
      forth e i h = elim (Bool-cases (bytes_key.same entry e)) [
        | inl same ↦
            let it : idx ≡ i = ground (arith, lookup-insert entry e idx d.entry2idx) in
            rw (← it) first_of_idx
        | inr differs ↦
            let old : lookup e d.entry2idx ≡ some i =
              ground (arith, lookup-insert entry e idx d.entry2idx) in
            let (f, taken) = c.forth e i old in
            (f, lookup-keep_first_taken idx entry f d.idx2entry i taken)
      ]
