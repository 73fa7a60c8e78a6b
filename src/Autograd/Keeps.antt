-- ===== src/Autograd/Keeps.antt =====
-- What the turn of one variable leaves as it is.
use flashlight.Prelude.{
  ℕ, zero, suc, ◌≡◌, ◌≢◌, refl, ◌∙◌, Bool, false, List, [], ◌∷◌, Option, some, none, ok,
  Result-cases, Option-cases, arith, Bool-cases, inl, inr, get_elem?, set, get_elem?-set_self,
  get_elem?-set_ne, lt_of_get_elem?, ◌==◌,
}
use flashlight.Autograd.{
  SharedGrad, Graph, mem, get_inputs, accumulate, add_grad, add_grads, apply_grad_func,
  clear_inputs,
}

-- An element of a list is not one that is not in it.
get_elem?-out : (xs : List ℕ) (i u v : ℕ) → get_elem? xs i ≡ some u → mem v xs ≡ false → u ≢ v
unfolding mem
get_elem?-out [] i u v e out = absurd (ground arith)
get_elem?-out (x ∷ xs) zero u v e out = ground arith
get_elem?-out (x ∷ xs) (suc i) u v e out =
    let rest : mem v xs ≡ false = ground arith in get_elem?-out xs i u v e rest

module _ {ℓ} {G : Type ℓ} where
  -- The gradient of a variable.
  unfoldable pub grad_at : Graph G → ℕ → Option G
  grad_at graph v = elim (get_elem? graph v) [ none ↦ none | some s ↦ s.grad ]

  get_inputs-set :
      (graph : Graph G) (u : ℕ) (s : SharedGrad G) (grad : Option G) (w : ℕ)
      → get_elem? graph u ≡ some s
      → get_inputs (set graph u (record s { grad = grad })) w ≡ get_inputs graph w
  unfolding get_inputs
  get_inputs-set graph u s grad w e = elim (Bool-cases (u == w)) [
    | inl same ↦
        let eq : u ≡ w = ground arith in
        let there : get_elem? graph w ≡ some s = rw (← eq) e in
        let after : get_elem? (set graph u (record s { grad = grad })) w
            ≡ some (record s { grad = grad }) =
          rw (← eq) (get_elem?-set_self graph u _ (lt_of_get_elem? graph u s e)) in
        rw (after, there, get_inputs) refl
    | inr other ↦
        let ne : u ≢ w = ground arith in
        rw (get_elem?-set_ne graph u w (record s { grad = grad }) ne, get_inputs) refl
  ]

  grad_at-set_ne :
      (graph : Graph G) (u : ℕ) (s : SharedGrad G) (v : ℕ)
      → u ≢ v
      → grad_at (set graph u s) v ≡ grad_at graph v
  unfolding grad_at
  grad_at-set_ne graph u s v ne = rw (get_elem?-set_ne graph u v s ne, grad_at) refl

  grad_at-set_self :
      (graph : Graph G) (u : ℕ) (s s' : SharedGrad G)
      → s'.grad ≡ s.grad
      → get_elem? graph u ≡ some s
      → grad_at (set graph u s') u ≡ grad_at graph u
  unfolding grad_at
  grad_at-set_self graph u s s' same e =
      rw (get_elem?-set_self graph u s' (lt_of_get_elem? graph u s e), e, grad_at) same

  -- What a piece of the pass leaves of a variable's gradient, and of the inputs of the others.
  pub record Keeps (v : ℕ) (graph graph' : Graph G) : Type ℓ where
    pub grad : grad_at graph' v ≡ grad_at graph v
    pub inputs : (w : ℕ) → get_inputs graph' w ≡ get_inputs graph w

  module _ (plus : G → G → G) (same_type : ℕ → G → Bool) where
    add_grad-Keeps :
        (u : ℕ) (g : G) (graph graph' : Graph G) (v : ℕ)
        → u ≢ v
        → add_grad plus same_type u g graph ≡ ok graph'
        → Keeps v graph graph'
    unfolding add_grad
    add_grad-Keeps u g graph graph' v ne h = elim (Option-cases (get_elem? graph u)) [
      | inl missing ↦ absurd (ground arith)
      | inr (s, e) ↦ elim (Bool-cases s.calc_grad) [
        | inr off ↦
            let same : graph' ≡ graph = ground arith in
            rw same record { grad = refl; inputs = λ w. refl }
        | inl on ↦ elim (Bool-cases (same_type u g)) [
          | inr other ↦ absurd (ground arith)
          | inl fits ↦
              let written : graph' ≡ set graph u (record s { grad = accumulate plus s.grad g }) =
                ground arith in
              rw written record {
                grad = grad_at-set_ne graph u _ v ne;
                inputs = λ w. get_inputs-set graph u s (accumulate plus s.grad g) w e;
              }
        ]
      ]
    ]

    add_grads-Keeps :
        (inputs : List ℕ) (gs : List (ℕ × G)) (graph graph' : Graph G) (v : ℕ)
        → mem v inputs ≡ false
        → add_grads plus same_type inputs gs graph ≡ ok graph'
        → Keeps v graph graph'
    unfolding add_grads
    add_grads-Keeps inputs [] graph graph' v out h =
        let same : graph' ≡ graph = ground arith in
        rw same record { grad = refl; inputs = λ w. refl }
    add_grads-Keeps inputs ((i, g) ∷ gs) graph graph' v out h =
        elim (Option-cases (get_elem? inputs i)) [
          | inl missing ↦ absurd (ground arith)
          | inr (u, e) ↦ elim (Result-cases (add_grad plus same_type u g graph)) [
            | inr (_, thrown) ↦ absurd (ground arith)
            | inl (graph₁, added) ↦
                let first : Keeps v graph graph₁ =
                  add_grad-Keeps u g graph graph₁ v (get_elem?-out inputs i u v e out) added in
                let rest : add_grads plus same_type inputs gs graph₁ ≡ ok graph' = ground arith in
                let others : Keeps v graph₁ graph' =
                  add_grads-Keeps inputs gs graph₁ graph' v out rest in
                record {
                  grad = others.grad ∙ first.grad;
                  inputs = λ w. others.inputs w ∙ first.inputs w;
                }
          ]
        ]

    pub apply_grad_func-Keeps :
        (s : SharedGrad G) (graph graph' : Graph G) (v : ℕ)
        → mem v s.inputs ≡ false
        → apply_grad_func plus same_type s graph ≡ ok graph'
        → Keeps v graph graph'
    unfolding apply_grad_func
    apply_grad_func-Keeps s graph graph' v out h = elim (Option-cases s.grad_func) [
      | inl e ↦
          let same : graph' ≡ graph = ground arith in
          rw same record { grad = refl; inputs = λ w. refl }
      | inr (f, e) ↦ elim (Option-cases s.grad) [
        | inl missing ↦ absurd (ground arith)
        | inr (g, there) ↦
            let added : add_grads plus same_type s.inputs (f g) graph ≡ ok graph' = ground arith in
            add_grads-Keeps s.inputs (f g) graph graph' v out added
      ]
    ]

  pub grad_at-clear_inputs :
      (graph : Graph G) (u v : ℕ) → grad_at (clear_inputs u graph) v ≡ grad_at graph v
  unfolding clear_inputs
  grad_at-clear_inputs graph u v = elim (Option-cases (get_elem? graph u)) [
    | inl e ↦ rw (e, clear_inputs) refl
    | inr (s, e) ↦
        rw (e, clear_inputs)
          (elim (Bool-cases (u == v)) [
            | inr other ↦
                let ne : u ≢ v = ground arith in
                grad_at-set_ne graph u (record s { inputs = [] }) v ne
            | inl same ↦
                let eq : u ≡ v = ground arith in
                rw (← eq) (grad_at-set_self graph u s (record s { inputs = [] }) refl e)
          ])
  ]

  pub get_inputs-clear_inputs :
      (graph : Graph G) (u w : ℕ) → u ≢ w → get_inputs (clear_inputs u graph) w ≡ get_inputs graph w
  unfolding clear_inputs get_inputs
  get_inputs-clear_inputs graph u w ne = elim (Option-cases (get_elem? graph u)) [
    | inl e ↦ rw (e, clear_inputs) refl
    | inr (s, e) ↦
        rw (e, clear_inputs)
          (rw (get_elem?-set_ne graph u w (record s { inputs = [] }) ne, get_inputs) refl)
  ]

  pub get_inputs-some :
      (graph : Graph G) (u : ℕ) (s : SharedGrad G)
      → get_elem? graph u ≡ some s
      → get_inputs graph u ≡ s.inputs
  unfolding get_inputs
  get_inputs-some graph u s e = rw (e, get_inputs) refl
