-- ===== src/Command.antt =====
-- src/dxgraph/dxgraph.cpp: a graph of commands that is put in order by Kahn's algorithm. A node's function
-- is known by a number. The vectors of `compile` are functions: it reads and writes them at node ids alone,
-- which are positions, and the counters are uint32_t. The Direct3D calls around it are left out.
pub mod Count
pub mod Edges
pub mod Drain
pub mod Order
pub mod Ranked
mod Tests
use dx_ai_st.Base.{
  ℕ, zero, suc, ◌+◌, ◌-◌, ◌%◌, Bool, true, false, Option, none, some, List, [], ◌∷◌, ◌++◌,
  if◌then◌else◌, leb, ◌==◌, u32_mod, length, get_elem?,
}
use dx_ai_st.Base.Text.{Text}

pub record GraphNode : Type 0 where
  pub id : ℕ
  pub name : Text
  pub func : ℕ
  pub dependencies : List ℕ

pub record CommandGraph : Type 0 where
  pub nodes : List GraphNode
  pub order : List ℕ
  pub compiled : Bool

abbrev pub new_graph : CommandGraph
new_graph = record { nodes = []; order = []; compiled = false }

unfoldable pub add_node : CommandGraph → Text → ℕ → List ℕ → ℕ × CommandGraph
add_node g name func deps =
    let id = length g.nodes % u32_mod in
    (
      id,
      record g {
        nodes = g.nodes ++ record { id = id; name = name; func = func; dependencies = deps } ∷ [];
        compiled = false;
      },
    )

-- The vectors that `compile` fills first.
pub record EdgeTable : Type 0 where
  pub in_degree : ℕ → ℕ
  pub adj : ℕ → List ℕ

abbrev pub no_edges : EdgeTable
no_edges = record { in_degree = λ v. 0; adj = λ v. [] }

-- A function with another value at one place.
abbrev pub update {ℓ} : {A : Type ℓ} → (ℕ → A) → ℕ → A → ℕ → A
update f k x j = if k == j then x else f j

pub add_edge : ℕ → ℕ → EdgeTable → EdgeTable
add_edge id dep e = record {
  in_degree = update e.in_degree id ((e.in_degree id + 1) % u32_mod);
  adj = update e.adj dep (e.adj dep ++ id ∷ []);
}

-- `none` is that a dependency is no node.
pub add_dependencies : ℕ → ℕ → List ℕ → EdgeTable → Option EdgeTable
unfolding add_edge
add_dependencies size id [] e = some e
add_dependencies size id (dep ∷ deps) e =
    let rest = add_dependencies size id deps (add_edge id dep e) in
    if leb size dep then none else rest

pub add_edges : ℕ → List GraphNode → EdgeTable → Option EdgeTable
unfolding add_dependencies
add_edges size [] e = some e
add_edges size (node ∷ nodes) e = elim (add_dependencies size node.id node.dependencies e) [
  | none ↦ none
  | some f ↦ add_edges size nodes f
]

-- The nodes from `i` on that wait for nothing.
pub ready_from : (ℕ → ℕ) → ℕ → ℕ → List ℕ
ready_from in_degree i zero = []
ready_from in_degree i (suc n) =
    let rest = ready_from in_degree (i + 1) n in if in_degree i == 0 then i ∷ rest else rest

-- The loop over `adj[id]`.
pub release : List ℕ → (ℕ → ℕ) → List ℕ → (ℕ → ℕ) × List ℕ
release [] in_degree ready = (in_degree, ready)
release (next ∷ nexts) in_degree ready =
    let d = (in_degree next + u32_mod - 1) % u32_mod in
    release nexts (update in_degree next d) (if d == 0 then ready ++ next ∷ [] else ready)

-- The loop over the queue, on fuel; `none` is that the fuel is spent.
pub drain : ℕ → (ℕ → List ℕ) → (ℕ → ℕ) → List ℕ → List ℕ → Option (List ℕ)
unfolding release
drain fuel adj in_degree [] order = some order
drain zero adj in_degree (id ∷ ready) order = none
drain (suc fuel) adj in_degree (id ∷ ready) order =
    let after = release (adj id) in_degree ready in
    drain fuel adj after.0 after.1 (order ++ id ∷ [])

-- How `compile` ends; the middle two are its exceptions.
pub data Compiled : Type 0 where
  done invalid_dependency cycle out_of_fuel : Compiled

pub finish_compile : CommandGraph → Option (List ℕ) → Compiled × CommandGraph
finish_compile g none = (out_of_fuel, g)
finish_compile g (some order) =
    if length order == length g.nodes
    then (done, record g { order = order; compiled = true })
    else (cycle, record g { order = order })

-- The fuel is one for each node.
unfoldable pub compile : CommandGraph → Compiled × CommandGraph
unfolding add_edges ready_from drain finish_compile
compile g = elim (add_edges (length g.nodes) g.nodes no_edges) [
  | none ↦ (invalid_dependency, g)
  | some e ↦
      finish_compile g
        (drain (length g.nodes) e.adj e.in_degree (ready_from e.in_degree 0 (length g.nodes)) [])
]

-- The functions that `execute` calls for an order.
pub calls : List GraphNode → List ℕ → List ℕ
calls nodes [] = []
calls nodes (id ∷ order) = elim (get_elem? nodes id) [
  | none ↦ calls nodes order
  | some node ↦ node.func ∷ calls nodes order
]

-- The functions run once the graph is in order; an exception leaves `execute` before the first.
pub run_calls : Compiled → CommandGraph → Compiled × CommandGraph × List ℕ
unfolding calls
run_calls done g = (done, g, calls g.nodes g.order)
run_calls failure g = (failure, g, [])

-- `execute` up to the submission.
pub execute : CommandGraph → Compiled × CommandGraph × List ℕ
unfolding compile run_calls
execute g =
    if g.compiled then run_calls done g else let result = compile g in run_calls result.0 result.1
