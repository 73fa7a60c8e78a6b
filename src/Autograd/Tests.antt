-- ===== src/Autograd/Tests.antt =====
-- The theorem on the order of the backward pass at a concrete input, and runs of the code.
use mathlib.Core.List.{reverse}
use flashlight.Prelude.{ℕ, ◌+◌, ◌≡◌, refl, true, false, List, [], ◌∷◌, none, some, ok, arith}
use flashlight.Autograd.{
  SharedGrad, Graph, new_leaf, new_variable, is_calc_grad, any_calc_grad, mem, get_inputs,
  visit_each, visit, build, accumulate, add_grad, add_grads, apply_grad_func, clear_inputs,
  calc_grad_inputs, calc_each, backward,
}
use flashlight.Autograd.Keeps.{grad_at}
use flashlight.Autograd.Final.{calc_each-final}
use flashlight.Autograd.Topological.{
  AllIn, AllBelow, InputsOlder, IsTopological, build-IsTopological,
}

-- Two leaves, their sum, and the sum of that with the first leaf.
abbrev both : ℕ → List (ℕ × ℕ)
both g = (0, g) ∷ (1, g) ∷ []

abbrev variable : List ℕ → SharedGrad ℕ
variable inputs = record { calc_grad = true; inputs = inputs; grad = none; grad_func = some both }

abbrev sums : Graph ℕ
sums = new_leaf true ∷ new_leaf true ∷ variable (0 ∷ 1 ∷ []) ∷ variable (2 ∷ 0 ∷ []) ∷ []

sums-InputsOlder : InputsOlder 0 sums
unfolding InputsOlder AllBelow
sums-InputsOlder =
    (tt, (tt, ((omega arith, (omega arith, tt)), ((omega arith, (omega arith, tt)), tt))))

build-IsTopological_example :
    (dag : List ℕ) × (build sums 3 ≡ some dag)
    × IsTopological sums (reverse dag)
    × (mem 3 (reverse dag) ≡ true)
build-IsTopological_example = build-IsTopological sums 3 sums-InputsOlder

build_run : build sums 3 ≡ some (0 ∷ 1 ∷ 2 ∷ 3 ∷ [])
unfolding build visit visit_each get_inputs mem
build_run = refl

new_run :
    new_variable (0 ∷ 1 ∷ []) both (new_leaf true ∷ new_leaf true ∷ [])
    ≡ new_leaf true ∷ new_leaf true ∷ variable (0 ∷ 1 ∷ []) ∷ []
unfolding new_variable any_calc_grad is_calc_grad
new_run = refl

-- The gradient of the first leaf counts both of its uses.
backward_run :
    backward (λ a b. a + b) (λ _ _. true) 3 1 true sums
    ≡ ok (
        some (
          record (new_leaf true) { grad = some 2 }
          ∷ record (new_leaf true) { grad = some 1 }
          ∷ record (variable (0 ∷ 1 ∷ [])) { grad = some 1 }
          ∷ record (variable (2 ∷ 0 ∷ [])) { grad = some 1 }
          ∷ []))
unfolding backward add_grad accumulate build visit visit_each get_inputs mem calc_each
    calc_grad_inputs apply_grad_func add_grads clear_inputs
backward_run = refl

-- The pass from the root, once its own gradient is there.
abbrev started : Graph ℕ
started =
    new_leaf true
    ∷ new_leaf true
    ∷ variable (0 ∷ 1 ∷ [])
    ∷ record (variable (2 ∷ 0 ∷ [])) { grad = some 1 }
    ∷ []

abbrev finished : Graph ℕ
finished =
    record (new_leaf true) { grad = some 2 }
    ∷ record (new_leaf true) { grad = some 1 }
    ∷ record (variable []) { grad = some 1 }
    ∷ record (variable []) { grad = some 1 }
    ∷ []

started-IsTopological : IsTopological started (3 ∷ 2 ∷ 1 ∷ 0 ∷ [])
unfolding IsTopological AllIn get_inputs mem
started-IsTopological =
    ((refl, (refl, tt)), refl, ((refl, (refl, tt)), refl, (tt, refl, (tt, refl, tt))))

pass_run : calc_each (λ a b. a + b) (λ _ _. true) false (3 ∷ 2 ∷ 1 ∷ 0 ∷ []) started ≡ ok finished
unfolding calc_each calc_grad_inputs apply_grad_func add_grads add_grad accumulate clear_inputs
pass_run = refl

calc_each-final_example : grad_at finished 3 ≡ grad_at started 3
calc_each-final_example =
    calc_each-final (λ a b. a + b) (λ _ _. true) false 3 (2 ∷ 1 ∷ 0 ∷ []) started finished
      started-IsTopological pass_run
