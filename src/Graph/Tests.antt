-- ===== src/Graph/Tests.antt =====
-- A graph of src/core/dx_graph_api.cpp with two operators, and the theorems at it.
use dx_ai_st.Base.{ℕ, ◌<◌, ◌≡◌, refl, true, false, [], ◌∷◌, some, pos, arith, length}
use dx_ai_st.Base.Text.{Text}
use dx_ai_st.Graph.{
  Registry, Node, Plan, planned, dx_graph_add_node, dx_graph_compile, visit_node, Compiled,
  dx_plan_node_at, contains, node_name,
}
use dx_ai_st.Graph.Register.{run, run_frozen, register, freeze}
use dx_ai_st.Graph.Order.{Built, empty, added, IsOrdered}
use dx_ai_st.Graph.Compile.{upto, compile-Built}

abbrev gemm : Text
gemm = 103 ∷ 101 ∷ 109 ∷ 109 ∷ []

abbrev relu : Text
relu = 114 ∷ 101 ∷ 108 ∷ 117 ∷ []

abbrev operators : Registry
operators = record { operators = gemm ∷ relu ∷ []; frozen = false }

abbrev first : Node
first = record { id = 0; operator_name = gemm; dependencies = [] }

abbrev second : Node
second = record { id = 1; operator_name = relu; dependencies = 0 ∷ [] }

two-Built : Built (first ∷ second ∷ [])
unfolding dx_graph_add_node contains
two-Built =
    added operators relu (0 ∷ []) (added operators gemm [] empty (omega arith) refl) (omega arith)
      refl

compile-Built_example :
    (plan : Plan) × (dx_graph_compile (first ∷ second ∷ []) ≡ planned plan)
    × (plan.order ≡ upto 0 2)
    × IsOrdered 0 (first ∷ second ∷ [])
    × ((i capacity : ℕ)
        → i < 2
        → length (node_name (first ∷ second ∷ []) i) < capacity
        → dx_plan_node_at plan i capacity ≡ (pos 0, some (i, node_name (first ∷ second ∷ []) i)))
compile-Built_example = compile-Built two-Built

run_frozen_example :
    run (record operators { frozen = true }) (register gemm ∷ freeze ∷ [])
    ≡ record operators { frozen = true }
run_frozen_example =
    run_frozen (record operators { frozen = true }) (register gemm ∷ freeze ∷ []) refl

-- A hand-made cycle, which no client can build, is refused.
cycle_refused :
    dx_graph_compile (
      record { id = 0; operator_name = gemm; dependencies = 1 ∷ [] }
      ∷ record { id = 1; operator_name = relu; dependencies = 0 ∷ [] }
      ∷ [])
    ≡ Compiled.invalid
unfolding dx_graph_compile visit_node
cycle_refused = refl
