-- ===== src/Autograd/Final.antt =====
-- When the backward pass reaches a variable, the gradient there is complete.
use flashlight.Prelude.{
  ℕ, ◌≡◌, ◌≢◌, refl, ◌∙◌, Bool, false, List, [], ◌∷◌, ok, Result-cases, Option-cases, arith,
  Bool-cases, inl, inr, get_elem?, ◌==◌,
}
use flashlight.Autograd.{
  Graph, mem, get_inputs, apply_grad_func, clear_inputs, calc_grad_inputs, calc_each,
}
use flashlight.Autograd.Topological.{AllIn, IsTopological}
use flashlight.Autograd.Keeps.{
  grad_at, Keeps, apply_grad_func-Keeps, grad_at-clear_inputs, get_inputs-clear_inputs,
  get_inputs-some,
}

AllIn-out : (xs ys : List ℕ) (v : ℕ) → AllIn xs ys → mem v ys ≡ false → mem v xs ≡ false
unfolding AllIn mem
AllIn-out [] ys v all out = refl
AllIn-out (x ∷ xs) ys v (first, all) out = elim (Bool-cases (v == x)) [
  | inl same ↦ let eq : v ≡ x = ground arith in absurd (ground arith)
  | inr other ↦ rw (other, mem) (AllIn-out xs ys v all out)
]

module _ {ℓ} {G : Type ℓ} where
  -- The gradients and the inputs of the others after the turn of a variable.
  record KeepsOthers (u v : ℕ) (graph graph' : Graph G) : Type ℓ where
    grad : grad_at graph' v ≡ grad_at graph v
    inputs : (w : ℕ) → u ≢ w → get_inputs graph' w ≡ get_inputs graph w

  IsTopological-congr :
      (graph graph' : Graph G) (u : ℕ) (vs : List ℕ)
      → ((w : ℕ) → u ≢ w → get_inputs graph' w ≡ get_inputs graph w)
      → mem u vs ≡ false
      → IsTopological graph vs
      → IsTopological graph' vs
  unfolding IsTopological mem
  IsTopological-congr graph graph' u [] same out order = tt
  IsTopological-congr graph graph' u (w ∷ vs) same out (inputs, alone, order) =
      let ne : u ≢ w = ground arith in
      let rest : mem u vs ≡ false = ground arith in
      (rw (same w ne) inputs, alone, IsTopological-congr graph graph' u vs same rest order)

  module _ (plus : G → G → G) (same_type : ℕ → G → Bool) where
    calc_grad_inputs-KeepsOthers :
        (retain_graph : Bool) (u v : ℕ) (graph graph' : Graph G)
        → mem v (get_inputs graph u) ≡ false
        → calc_grad_inputs plus same_type retain_graph u graph ≡ ok graph'
        → KeepsOthers u v graph graph'
    unfolding calc_grad_inputs
    calc_grad_inputs-KeepsOthers retain_graph u v graph graph' out h =
        elim (Option-cases (get_elem? graph u)) [
          | inl missing ↦ absurd (ground arith)
          | inr (s, e) ↦ elim (Result-cases (apply_grad_func plus same_type s graph)) [
            | inr (_, thrown) ↦ absurd (ground arith)
            | inl (graph₁, applied) ↦
                let out_s : mem v s.inputs ≡ false = rw (get_inputs-some graph u s e) at out in
                let keeps : Keeps v graph graph₁ =
                  apply_grad_func-Keeps plus same_type s graph graph₁ v out_s applied in
                elim (Bool-cases retain_graph) [
                  | inl yes_ ↦
                      let same : graph' ≡ graph₁ = ground arith in
                      rw same record { grad = keeps.grad; inputs = λ w _. keeps.inputs w }
                  | inr no_ ↦
                      let cleared : graph' ≡ clear_inputs u graph₁ = ground arith in
                      rw cleared record {
                        grad = grad_at-clear_inputs graph₁ u v ∙ keeps.grad;
                        inputs = λ w ne. get_inputs-clear_inputs graph₁ u w ne ∙ keeps.inputs w;
                      }
                ]
          ]
        ]

    calc_each-grad_at :
        (retain_graph : Bool) (vs : List ℕ) (v : ℕ) (graph graph' : Graph G)
        → IsTopological graph vs
        → mem v vs ≡ false
        → calc_each plus same_type retain_graph vs graph ≡ ok graph'
        → grad_at graph' v ≡ grad_at graph v
    unfolding calc_each IsTopological mem
    calc_each-grad_at retain_graph [] v graph graph' order out h =
        let same : graph' ≡ graph = ground arith in rw same refl
    calc_each-grad_at retain_graph (u ∷ vs) v graph graph' (inputs, alone, order) out h =
        elim (Result-cases (calc_grad_inputs plus same_type retain_graph u graph)) [
          | inr (_, thrown) ↦ absurd (ground arith)
          | inl (graph₁, done) ↦
              let out_vs : mem v vs ≡ false = ground arith in
              let keeps : KeepsOthers u v graph graph₁ =
                calc_grad_inputs-KeepsOthers retain_graph u v graph graph₁
                  (AllIn-out (get_inputs graph u) vs v inputs out_vs) done in
              let rest : calc_each plus same_type retain_graph vs graph₁ ≡ ok graph' =
                ground arith in
              calc_each-grad_at retain_graph vs v graph₁ graph'
                (IsTopological-congr graph graph₁ u vs keeps.inputs alone order) out_vs rest
              ∙ keeps.grad
        ]

    -- When the backward pass comes to a variable, in an order in which each variable stands once and
    -- before its inputs, the gradient of the variable is complete: neither its own turn nor any of those
    -- that follow changes it, if the pass returns.
    pub calc_each-final :
        (retain_graph : Bool) (v : ℕ) (vs : List ℕ) (graph graph' : Graph G)
        → IsTopological graph (v ∷ vs)
        → calc_each plus same_type retain_graph (v ∷ vs) graph ≡ ok graph'
        → grad_at graph' v ≡ grad_at graph v
    unfolding calc_each IsTopological
    calc_each-final retain_graph v vs graph graph' (inputs, alone, order) h =
        elim (Result-cases (calc_grad_inputs plus same_type retain_graph v graph)) [
          | inr (_, thrown) ↦ absurd (ground arith)
          | inl (graph₁, done) ↦
              let keeps : KeepsOthers v v graph graph₁ =
                calc_grad_inputs-KeepsOthers retain_graph v v graph graph₁
                  (AllIn-out (get_inputs graph v) vs v inputs alone) done in
              let rest : calc_each plus same_type retain_graph vs graph₁ ≡ ok graph' =
                ground arith in
              calc_each-grad_at retain_graph vs v graph₁ graph'
                (IsTopological-congr graph graph₁ v vs keeps.inputs alone order) alone rest
              ∙ keeps.grad
        ]
