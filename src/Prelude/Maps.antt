-- ===== src/Prelude/Maps.antt =====
-- Maps as association lists, over keys with a Boolean test of equality.
use flashlight.Prelude.{
  suc, ◌≡◌, ◌≢◌, ◌↔◌, refl, sym, ap, ◌∙◌, Bool, true, false, List, [], ◌∷◌, Option, some, none,
  if◌then◌else◌, length, arith, Bool-cases, Option-cases, inl, inr,
}
use flashlight.Prelude.Int.{ℤ, eqb_ℤ, eqb_ℤ_iff}
use mathlib.Core.Option.{none-ne-some}

pub record Key {ℓ} (K : Type ℓ) : Type ℓ where
  pub same : K → K → Bool
  pub same_iff : (a b : K) → (same a b ≡ true) ↔ (a ≡ b)

instance abbrev pub int_key : Key ℤ
int_key = record { same = eqb_ℤ; same_iff = eqb_ℤ_iff }

abbrev pub Map {ℓ κ} : Type ℓ → Type κ → Type (ℓ ⊔ κ)
Map K V = List (K × V)

module _ {ℓ} {K : Type ℓ} ⦃key : Key K⦄ where
  pub same_self : (k : K) → key.same k k ≡ true
  same_self k = (key.same_iff k k).1 refl

  pub same_ne : (k j : K) → k ≢ j → key.same k j ≡ false
  same_ne k j h = elim (Bool-cases (key.same k j)) [
    | inl e ↦ absurd (h ((key.same_iff k j).0 e))
    | inr e ↦ e
  ]

module _ {ℓ κ} {K : Type ℓ} {V : Type κ} ⦃key : Key K⦄ where
  -- `find`
  unfoldable pub lookup : K → Map K V → Option V
  lookup k [] = none
  lookup k ((j, v) ∷ m) = if key.same j k then some v else lookup k m

  -- `m[k] = v`; a new key goes to the end.
  unfoldable pub insert : K → V → Map K V → Map K V
  insert k v [] = (k, v) ∷ []
  insert k v ((j, w) ∷ m) = if key.same j k then (j, v) ∷ m else (j, w) ∷ insert k v m

  pub lookup-insert :
      (k j : K) (v : V) (m : Map K V)
      → lookup j (insert k v m) ≡ (if key.same k j then some v else lookup j m)
  unfolding lookup insert
  lookup-insert k j v [] = refl
  lookup-insert k j v ((i, w) ∷ m) =
      ground (arith, key.same_iff k j, key.same_iff i k, key.same_iff i j, lookup-insert k j v m)

  pub lookup-insert_self : (k : K) (v : V) (m : Map K V) → lookup k (insert k v m) ≡ some v
  lookup-insert_self k v m = rw (lookup-insert k k v m, same_self k)

  pub lookup-insert_ne :
      (k j : K) (v : V) (m : Map K V) → k ≢ j → lookup j (insert k v m) ≡ lookup j m
  lookup-insert_ne k j v m h = rw (lookup-insert k j v m, same_ne k j h)

  pub length-insert_new :
      (k : K) (v : V) (m : Map K V) → lookup k m ≡ none → length (insert k v m) ≡ suc (length m)
  unfolding lookup insert
  length-insert_new k v [] h = refl
  length-insert_new k v ((j, w) ∷ m) h = elim (Bool-cases (key.same j k)) [
    | inl e ↦ absurd (ground arith)
    | inr e ↦ rw (e, length-insert_new k v m (ground arith))
  ]

  -- `emplace`, which leaves a key that is there.
  unfoldable pub emplace : K → V → Map K V → Map K V
  emplace k v m = elim (lookup k m) [ none ↦ insert k v m | some _ ↦ m ]

  pub lookup-emplace_taken :
      (k j : K) (v w : V) (m : Map K V) → lookup j m ≡ some w → lookup j (emplace k v m) ≡ some w
  unfolding emplace
  lookup-emplace_taken k j v w m h = elim (Option-cases (lookup k m)) [
    | inr (u, e) ↦ rw (e, emplace) h
    | inl e ↦
        rw (e, emplace)
          (lookup-insert_ne k j v m
              (λ same. absurd (none-ne-some _ (sym e ∙ ap (λ i. lookup i m) same ∙ h)))
            ∙ h)
  ]

  pub lookup-emplace_free :
      (k j : K) (v : V) (m : Map K V)
      → lookup j m ≡ none
      → lookup j (emplace k v m) ≡ (if key.same k j then some v else none)
  unfolding emplace
  lookup-emplace_free k j v m h = elim (Option-cases (lookup k m)) [
    | inl e ↦ rw (e, emplace, lookup-insert k j v m, h)
    | inr (u, e) ↦
        rw
          (
            e,
            emplace,
            same_ne k j
                (λ same. absurd (none-ne-some _ (sym h ∙ ap (λ i. lookup i m) (sym same) ∙ e))),
          )
          h
  ]
