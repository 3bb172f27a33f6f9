-- ===== src/Graph.antt =====
-- src/core/dx_graph_api.cpp: the operator registry, graphs built node by node, and their compilation
-- to a plan. Texts are lists of bytes. A call that is given a null handle is refused with -1 (0 by
-- `dx_operator_is_registered`) and changes nothing; the handles are given here. That memory runs out
-- is not modelled.
pub mod Register
pub mod Order
pub mod Compile
pub mod Tests
use dx_ai_st.Base.{
  ℕ, zero, suc, ◌+◌, Bool, true, false, ◌&&◌, ◌||◌, not, Option, none, some, List, [], ◌∷◌, ◌++◌, ℤ,
  pos, minus, if◌then◌else◌, ltb, leb, ◌==◌, u32_mod, ◌%◌, length, get_elem?, get_or, set,
  replicate,
}
use dx_ai_st.Base.Table.{find, emplace}
use dx_ai_st.Base.Text.{Text, same_text, valid_text}

-- dx_operator_registry_t
pub record Registry : Type 0 where
  pub operators : List Text
  pub frozen : Bool

pub contains : List Text → Text → Bool
contains [] name = false
contains (t ∷ ts) name = same_text t name || contains ts name

pub dx_operator_register : Registry → Text → ℤ × Registry
unfolding contains
dx_operator_register registry name =
    if not (valid_text name)
    then (minus 1, registry)
    else if registry.frozen
    then (minus 2, registry)
    else (
      pos 0,
      record registry {
        operators =
            if contains registry.operators name
            then registry.operators
            else name ∷ registry.operators;
      },
    )

pub dx_operator_registry_freeze : Registry → ℤ × Registry
dx_operator_registry_freeze registry = (pos 0, record registry { frozen = true })

pub dx_operator_is_registered : Registry → Text → Bool
unfolding contains
dx_operator_is_registered registry name = valid_text name && contains registry.operators name

-- dx_graph_node_t, and the nodes of a dx_graph_t
pub record Node : Type 0 where
  pub id : ℕ
  pub operator_name : Text
  pub dependencies : List ℕ

pub all_below : ℕ → List ℕ → Bool
all_below n [] = true
all_below n (d ∷ ds) = ltb d n && all_below n ds

-- The registry is the one that the graph points to, as it is at the call.
pub dx_graph_add_node : Registry → List Node → Text → List ℕ → ℤ × List Node × Option ℕ
unfolding dx_operator_is_registered all_below
dx_graph_add_node registry nodes operator_name dependencies =
    if not (valid_text operator_name)
    then (minus 1, nodes, none)
    else if not (dx_operator_is_registered registry operator_name)
    then (minus 2, nodes, none)
    else if not (all_below (length nodes) dependencies)
    then (minus 3, nodes, none)
    else (
      pos 0,
      nodes
          ++ record {
            id = length nodes % u32_mod;
            operator_name = operator_name;
            dependencies = dependencies;
          }
            ∷ [],
      some (length nodes % u32_mod),
    )

-- The two vectors that `visit_node` fills by reference.
pub record Walk : Type 0 where
  pub marks : List ℕ
  pub order : List ℕ

-- `visited` is `true`, `rejected` is `false`; `exhausted` is that the fuel ran out.
pub data Visit : Type 0 where
  visited : Walk → Visit
  rejected exhausted : Visit

-- The loop over the dependencies, for a given way to visit one.
pub visit_all : (ℕ → Walk → Visit) → List ℕ → Walk → Visit
visit_all visit [] walk = visited walk
visit_all visit (d ∷ ds) walk = elim (visit d walk) [
  | visited w ↦ visit_all visit ds w
  | rejected ↦ rejected
  | exhausted ↦ exhausted
]

finish_visit : ℕ → Visit → Visit
finish_visit id (visited w) =
    visited (record { marks = set w.marks id 2; order = w.order ++ id ∷ [] })
finish_visit id v = v

enter : (ℕ → Walk → Visit) → Node → ℕ → Walk → Visit
unfolding visit_all finish_visit
enter visit node id walk =
    if not (node.id == id)
    then rejected
    else if get_or walk.marks id 0 == 1
    then rejected
    else if get_or walk.marks id 0 == 2
    then visited walk
    else finish_visit id
        (visit_all visit node.dependencies (record walk { marks = set walk.marks id 1 }))

-- Each call in a chain of calls marks a node, so the number of nodes and one is fuel enough.
pub visit_node : ℕ → List Node → ℕ → Walk → Visit
unfolding enter
visit_node zero nodes id walk = exhausted
visit_node (suc fuel) nodes id walk = elim (get_elem? nodes id) [
  | none ↦ rejected
  | some node ↦ enter (visit_node fuel nodes) node id walk
]

-- dx_plan_t
pub record Plan : Type 0 where
  pub order : List ℕ
  pub names : List (ℕ × Text)

pub data Compiled : Type 0 where
  planned : Plan → Compiled
  invalid out_of_fuel : Compiled

pub node_name : List Node → ℕ → Text
node_name nodes id = elim (get_elem? nodes id) [ none ↦ [] | some n ↦ n.operator_name ]

-- The loop over all nodes, for the `left` nodes from `id` on.
pub compile_loop : ℕ → ℕ → List Node → ℕ → Walk → List (ℕ × Text) → Compiled
unfolding node_name
compile_loop fuel zero nodes id walk names = planned (record { order = walk.order; names = names })
compile_loop fuel (suc left) nodes id walk names = elim (visit_node fuel nodes id walk) [
  | visited w ↦ compile_loop fuel left nodes (suc id) w (emplace id (node_name nodes id) names)
  | rejected ↦ invalid
  | exhausted ↦ out_of_fuel
]

-- `planned` is the code 0, `invalid` the code -2.
pub dx_graph_compile : List Node → Compiled
unfolding compile_loop
dx_graph_compile nodes =
    compile_loop (suc (length nodes)) (length nodes) nodes 0
      (record { marks = replicate (length nodes) 0; order = [] }) []

pub dx_plan_node_count : Plan → ℕ
dx_plan_node_count plan = length plan.order % u32_mod

name_at : ℕ → Option Text → ℕ → ℤ × Option (ℕ × Text)
name_at id none capacity = (minus 2, none)
name_at id (some name) capacity =
    if ltb capacity (length name + 1) then (minus 2, none) else (pos 0, some (id, name))

pub dx_plan_node_at : Plan → ℕ → ℕ → ℤ × Option (ℕ × Text)
unfolding name_at
dx_plan_node_at plan order_index capacity =
    if capacity == 0 then (minus 1, none) else elim (get_elem? plan.order order_index) [
      | none ↦ (minus 1, none)
      | some id ↦ name_at id (find id plan.names) capacity
    ]
