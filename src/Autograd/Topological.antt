-- ===== src/Autograd/Topological.antt =====
-- The order of the backward pass: a variable after all those that are computed from it.
use mathlib.Core.List.{reverse, reverse-append, reverse-reverse}
use flashlight.Prelude.{
  ℕ, zero, suc, ◌+◌, ◌<◌, ◌≡◌, refl, sym, ap, ◌∙◌, true, false, List, [], ◌∷◌, ◌++◌, Option, some,
  arith, Bool-cases, inl, inr, ◌⊎◌, ◌==◌,
}
use flashlight.Autograd.{Graph, mem, get_inputs, visit_each, visit, build}

-- All of these come before a variable.
unfoldable pub AllBelow : ℕ → List ℕ → Type 0
AllBelow n [] = Unit
AllBelow n (x ∷ xs) = (x < n) × AllBelow n xs

-- The inputs of a variable are made before it.
unfoldable pub InputsOlder {ℓ} : {G : Type ℓ} → ℕ → Graph G → Type 0
unfolding AllBelow
InputsOlder n [] = Unit
InputsOlder n (s ∷ graph) = AllBelow n s.inputs × InputsOlder (n + 1) graph

unfoldable pub AllIn : List ℕ → List ℕ → Type 0
AllIn [] ys = Unit
AllIn (x ∷ xs) ys = (mem x ys ≡ true) × AllIn xs ys

AllIn-mono :
    (xs ys zs : List ℕ) → ((x : ℕ) → mem x ys ≡ true → mem x zs ≡ true) → AllIn xs ys → AllIn xs zs
unfolding AllIn
AllIn-mono [] ys zs more all = tt
AllIn-mono (x ∷ xs) ys zs more (first, all) = (more x first, AllIn-mono xs ys zs more all)

visit_each-cons :
    (step : ℕ → List ℕ × List ℕ → Option (List ℕ × List ℕ)) (v : ℕ) (vs : List ℕ)
    (s s' : List ℕ × List ℕ)
    → step v s ≡ some s'
    → visit_each step (v ∷ vs) s ≡ visit_each step vs s'
unfolding visit_each
visit_each-cons step v vs s s' e = rw (e, visit_each) refl

module _ {ℓ} {G : Type ℓ} where
  -- Each variable stands once, before all of its inputs.
  unfoldable pub IsTopological : Graph G → List ℕ → Type 0
  unfolding AllIn
  IsTopological graph [] = Unit
  IsTopological graph (v ∷ vs) =
      AllIn (get_inputs graph v) vs × (mem v vs ≡ false) × IsTopological graph vs

  get_inputs-AllBelow :
      (n : ℕ) (graph : Graph G) (v : ℕ)
      → InputsOlder n graph
      → AllBelow (n + v) (get_inputs graph v)
  unfolding InputsOlder AllBelow get_inputs
  get_inputs-AllBelow n [] v older = tt
  get_inputs-AllBelow n (s ∷ graph) zero (first, older) =
      let e : n + 0 ≡ n = omega arith in rw e first
  get_inputs-AllBelow n (s ∷ graph) (suc v) (first, older) =
      let e : n + suc v ≡ n + 1 + v = omega arith in
      rw e (get_inputs-AllBelow (n + 1) graph v older)

  -- What a visit of variables below `n` leaves: an order, with nothing lost and nothing from `n` on new.
  record IsVisited (graph : Graph G) (n : ℕ) (cache cache' : List ℕ) : Type 0 where
    topological : IsTopological graph cache'
    kept : (x : ℕ) → mem x cache ≡ true → mem x cache' ≡ true
    fresh : (x : ℕ) → mem x cache' ≡ true → (mem x cache ≡ true) ⊎ (x < n)

  module _ (graph : Graph G) where
    visit_each-IsVisited :
        (n : ℕ) (step : ℕ → List ℕ × List ℕ → Option (List ℕ × List ℕ))
        → ((v : ℕ) (cache dag : List ℕ)
            → v < n
            → IsTopological graph cache
            → dag ≡ reverse cache
            → (cache' : List ℕ) × (dag' : List ℕ) × (step v (cache, dag) ≡ some (cache', dag'))
              × IsVisited graph n cache cache'
              × (mem v cache' ≡ true)
              × (dag' ≡ reverse cache'))
        → (xs cache dag : List ℕ) → AllBelow n xs
        → IsTopological graph cache
        → dag ≡ reverse cache
        → (cache' : List ℕ) × (dag' : List ℕ) × (visit_each step xs (cache, dag)
            ≡ some (cache', dag'))
          × IsVisited graph n cache cache'
          × AllIn xs cache'
          × (dag' ≡ reverse cache')
    unfolding visit_each AllBelow AllIn
    visit_each-IsVisited n step visits [] cache dag below order e = (
      cache,
      dag,
      refl,
      record { topological = order; kept = λ x h. h; fresh = λ x h. inl h },
      tt,
      e,
    )
    visit_each-IsVisited n step visits (v ∷ xs) cache dag (first, below) order e =
        let (c₁, d₁, done, visited, there, e₁) = visits v cache dag first order e in
        let (c₂, d₂, others, visited₂, all, e₂) =
          visit_each-IsVisited n step visits xs c₁ d₁ below visited.topological e₁ in
        (
          c₂,
          d₂,
          visit_each-cons step v xs (cache, dag) (c₁, d₁) done ∙ others,
          record {
            topological = visited₂.topological;
            kept = λ x h. visited₂.kept x (visited.kept x h);
            fresh = λ x h. elim (visited₂.fresh x h) [
              | inl earlier ↦ visited.fresh x earlier
              | inr below_n ↦ inr below_n
            ];
          },
          (visited₂.kept v there, all),
          e₂,
        )

    visit-there :
        (fuel v : ℕ) (cache dag : List ℕ)
        → mem v cache ≡ true
        → visit (suc fuel) graph v (cache, dag) ≡ some (cache, dag)
    unfolding visit
    visit-there fuel v cache dag e = rw (e, visit) refl

    visit-new :
        (fuel v : ℕ) (cache dag cache' dag' : List ℕ)
        → mem v cache ≡ false
        → visit_each (visit fuel graph) (get_inputs graph v) (cache, dag) ≡ some (cache', dag')
        → visit (suc fuel) graph v (cache, dag) ≡ some (v ∷ cache', dag' ++ (v ∷ []))
    unfolding visit
    visit-new fuel v cache dag cache' dag' e others = rw (e, others, visit) refl

    -- A variable that is put before those it is computed from.
    push-IsVisited :
        (v : ℕ) (cache cache' : List ℕ)
        → mem v cache ≡ false
        → IsVisited graph v cache cache'
        → AllIn (get_inputs graph v) cache'
        → IsVisited graph (suc v) cache (v ∷ cache')
    unfolding IsTopological mem
    push-IsVisited v cache cache' new visited inputs =
        let alone : mem v cache' ≡ false = elim (Bool-cases (mem v cache')) [
          | inr e ↦ e
          | inl e ↦ elim (visited.fresh v e) [
            | inl there ↦ absurd (ground arith)
            | inr less ↦ absurd (omega (arith, less))
          ]
        ] in
        record {
          topological = (inputs, alone, visited.topological);
          kept = λ x h. ground (arith, visited.kept x h);
          fresh = λ x h. elim (Bool-cases (x == v)) [
            | inl same ↦ inr (ground arith)
            | inr other ↦ elim (visited.fresh x (ground arith)) [
              | inl earlier ↦ inl earlier
              | inr below ↦ inr (omega (arith, below))
            ]
          ];
        }

    visit-IsVisited :
        (fuel v : ℕ) (cache dag : List ℕ)
        → InputsOlder 0 graph
        → v < fuel
        → IsTopological graph cache
        → dag ≡ reverse cache
        → (cache' : List ℕ) × (dag' : List ℕ) × (visit fuel graph v (cache, dag)
            ≡ some (cache', dag'))
          × IsVisited graph (suc v) cache cache'
          × (mem v cache' ≡ true)
          × (dag' ≡ reverse cache')
    unfolding visit IsTopological mem
    visit-IsVisited zero v cache dag older h order e = absurd (omega arith)
    visit-IsVisited (suc fuel) v cache dag older h order e = elim (Bool-cases (mem v cache)) [
      | inl there ↦ (
        cache,
        dag,
        visit-there fuel v cache dag there,
        record { topological = order; kept = λ x k. k; fresh = λ x k. inl k },
        there,
        e,
      )
      | inr new ↦
          let below : AllBelow v (get_inputs graph v) =
            let at_zero : 0 + v ≡ v = omega arith in
            rw at_zero at (get_inputs-AllBelow 0 graph v older) in
          let (cache', dag', others, visited, inputs, e') =
            visit_each-IsVisited v (visit fuel graph)
              (λ u c d less order_c e_c.
                let (c', d', done, visited_u, there_u, e_u) =
                  visit-IsVisited fuel u c d older (omega (arith, less, h)) order_c e_c in
                (
                  c',
                  d',
                  done,
                  record {
                    topological = visited_u.topological;
                    kept = visited_u.kept;
                    fresh = λ x k. elim (visited_u.fresh x k) [
                      | inl earlier ↦ inl earlier
                      | inr below_u ↦ inr (omega (arith, below_u, less))
                    ];
                  },
                  there_u,
                  e_u,
                ))
              (get_inputs graph v) cache dag below order e in
          (
            v ∷ cache',
            dag' ++ (v ∷ []),
            visit-new fuel v cache dag cache' dag' new others,
            push-IsVisited v cache cache' new visited inputs,
            ground arith,
            ap (λ xs. xs ++ (v ∷ [])) e' ∙ sym (reverse-append (v ∷ []) cache'),
          )
    ]

    -- The pass of `backward` over the graph that `build` gives: it ends, and it takes each variable that
    -- the root is computed from once, before all of its inputs. The inputs of a variable have to be older
    -- than the variable, as they are when a graph is made.
    pub build-IsTopological :
        (v : ℕ)
        → InputsOlder 0 graph
        → (dag : List ℕ) × (build graph v ≡ some dag)
          × IsTopological graph (reverse dag)
          × (mem v (reverse dag) ≡ true)
    unfolding build IsTopological
    build-IsTopological v older =
        let (cache, dag, done, visited, there, e) =
          visit-IsVisited (suc v) v [] [] older (omega arith) tt refl in
        let back : reverse dag ≡ cache = ap reverse e ∙ reverse-reverse cache in
        (dag, rw (done, build) refl, rw back visited.topological, rw back there)
