-- ===== src/Autograd.antt =====
-- flashlight/fl/autograd/Variable.{h,cpp}: the graph behind variables, and the backward pass over it. A
-- SharedGrad is a cell, and a shared_ptr to it is its number. The arrays of gradients are of a
-- parameter type with a sum; a gradient function says what it adds to which of the inputs.
pub mod Topological
pub mod Keeps
pub mod Final
mod Tests
use mathlib.Core.List.{reverse}
use flashlight.Prelude.{
  ℕ, zero, suc, ◌+◌, Bool, true, false, not, ◌||◌, List, [], ◌∷◌, ◌++◌, Option, some, none, Result,
  ok, throw, Error, ◌>>=◌, length, get_elem?, set, require, ◌==◌, if◌then◌else◌,
}

pub record SharedGrad {ℓ} (G : Type ℓ) : Type ℓ where
  pub calc_grad : Bool
  pub inputs : List ℕ
  pub grad : Option G
  pub grad_func : Option (G → List (ℕ × G))

abbrev pub Graph {ℓ} : Type ℓ → Type ℓ
Graph G = List (SharedGrad G)

unfoldable pub mem : ℕ → List ℕ → Bool
mem x [] = false
mem x (y ∷ ys) = x == y || mem x ys

-- The loop over the inputs of a variable in `build`.
unfoldable pub visit_each :
    (ℕ → List ℕ × List ℕ → Option (List ℕ × List ℕ))
    → List ℕ
    → List ℕ × List ℕ
    → Option (List ℕ × List ℕ)
visit_each visit [] s = some s
visit_each visit (v ∷ vs) s = elim (visit v s) [ none ↦ none | some s' ↦ visit_each visit vs s' ]

module _ {ℓ} {G : Type ℓ} where
  -- `Variable(data, calcGrad)`
  abbrev pub new_leaf : Bool → SharedGrad G
  new_leaf calc_grad = record { calc_grad = calc_grad; inputs = []; grad = none; grad_func = none }

  unfoldable pub is_calc_grad : Graph G → ℕ → Bool
  is_calc_grad graph v = elim (get_elem? graph v) [ none ↦ false | some s ↦ s.calc_grad ]

  unfoldable pub any_calc_grad : Graph G → List ℕ → Bool
  unfolding is_calc_grad
  any_calc_grad graph [] = false
  any_calc_grad graph (v ∷ vs) = is_calc_grad graph v || any_calc_grad graph vs

  -- `Variable(data, inputs, gradFunc)`, in a cell after the others.
  unfoldable pub new_variable : List ℕ → (G → List (ℕ × G)) → Graph G → Graph G
  unfolding any_calc_grad
  new_variable inputs grad_func graph =
      graph
      ++ ((if any_calc_grad graph inputs
            then record {
              calc_grad = true;
              inputs = inputs;
              grad = none;
              grad_func = some grad_func;
            }
            else new_leaf false)
          ∷ [])

  unfoldable pub get_inputs : Graph G → ℕ → List ℕ
  get_inputs graph v = elim (get_elem? graph v) [ none ↦ [] | some s ↦ s.inputs ]

  unfoldable pub is_grad_available : SharedGrad G → Bool
  is_grad_available s =
      if s.calc_grad then (elim s.grad [ none ↦ false | some _ ↦ true ]) else false

  -- `grad()`
  unfoldable pub grad_of : SharedGrad G → Result G
  grad_of s = if not s.calc_grad then throw Error.logic_error else require s.grad Error.logic_error

  unfoldable pub zero_grad : SharedGrad G → SharedGrad G
  zero_grad s = record s { grad = none }

  unfoldable pub set_calc_grad : Bool → SharedGrad G → SharedGrad G
  set_calc_grad calc_grad s =
      if calc_grad
      then record s { calc_grad = true }
      else record { calc_grad = false; inputs = []; grad = none; grad_func = none }

  unfoldable pub clear_inputs : ℕ → Graph G → Graph G
  clear_inputs v graph = elim (get_elem? graph v) [
    | none ↦ graph
    | some s ↦ set graph v (record s { inputs = [] })
  ]

  -- The first gradient of a variable, or the sum with those that came before.
  unfoldable pub accumulate : (G → G → G) → Option G → G → Option G
  accumulate plus none child_grad = some child_grad
  accumulate plus (some grad) child_grad = some (plus grad child_grad)

  -- `recurse` of `build`, on fuel: the variables that are in the cache, and the graph so far.
  unfoldable pub visit : ℕ → Graph G → ℕ → List ℕ × List ℕ → Option (List ℕ × List ℕ)
  unfolding mem get_inputs visit_each
  visit zero graph v s = none
  visit (suc fuel) graph v (cache, dag) = elim (mem v cache) [
    | true ↦ some (cache, dag)
    | false ↦ (elim (visit_each (visit fuel graph) (get_inputs graph v) (cache, dag)) [
      | none ↦ none
      | some (cache', dag') ↦ some (v ∷ cache', dag' ++ (v ∷ []))
    ])
  ]

  -- `build`, with one round of fuel for each variable that is not younger.
  unfoldable pub build : Graph G → ℕ → Option (List ℕ)
  unfolding visit
  build graph v = elim (visit (suc v) graph v ([], [])) [
    | none ↦ none
    | some (cache, dag) ↦ some dag
  ]

module _ {ℓ} {G : Type ℓ} (plus : G → G → G) (same_type : ℕ → G → Bool) where
  -- `addGrad`; `same_type` compares the type of a variable's data with that of a gradient.
  unfoldable pub add_grad : ℕ → G → Graph G → Result (Graph G)
  unfolding accumulate
  add_grad v child_grad graph = require (get_elem? graph v) Error.undefined_behaviour >>= λ s.
      if not s.calc_grad
      then ok graph
      else if not (same_type v child_grad)
      then throw Error.invalid_argument
      else ok (set graph v (record s { grad = accumulate plus s.grad child_grad }))

  -- What a gradient function adds to the inputs.
  unfoldable pub add_grads : List ℕ → List (ℕ × G) → Graph G → Result (Graph G)
  unfolding add_grad
  add_grads inputs [] graph = ok graph
  add_grads inputs ((i, g) ∷ gs) graph =
      require (get_elem? inputs i) Error.undefined_behaviour >>= λ v.
      add_grad v g graph >>= λ graph'. add_grads inputs gs graph'

  unfoldable pub apply_grad_func : SharedGrad G → Graph G → Result (Graph G)
  unfolding add_grads
  apply_grad_func s graph = elim s.grad_func [
    | none ↦ ok graph
    | some f ↦ require s.grad Error.logic_error >>= λ grad. add_grads s.inputs (f grad) graph
  ]

  unfoldable pub calc_grad_inputs : Bool → ℕ → Graph G → Result (Graph G)
  unfolding apply_grad_func clear_inputs
  calc_grad_inputs retain_graph v graph =
      require (get_elem? graph v) Error.undefined_behaviour >>= λ s.
      apply_grad_func s graph >>= λ graph'.
      ok (if retain_graph then graph' else clear_inputs v graph')

  unfoldable pub calc_each : Bool → List ℕ → Graph G → Result (Graph G)
  unfolding calc_grad_inputs
  calc_each retain_graph [] graph = ok graph
  calc_each retain_graph (v ∷ vs) graph =
      calc_grad_inputs retain_graph v graph >>= λ graph'. calc_each retain_graph vs graph'

  -- `backward`, without the hooks, which the caller of the library registers.
  unfoldable pub backward : ℕ → G → Bool → Graph G → Result (Option (Graph G))
  unfolding add_grad build calc_each
  backward v grad retain_graph graph = add_grad v grad graph >>= λ graph'. elim (build graph' v) [
    | none ↦ ok none
    | some dag ↦ calc_each retain_graph (reverse dag) graph' >>= λ graph''. ok (some graph'')
  ]
