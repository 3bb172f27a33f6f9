-- ===== src/Graph/Compile.antt =====
-- The plan that src/core/dx_graph_api.cpp compiles from a graph, and what a client reads of it.
use dx_ai_st.Base.{
  ℕ, zero, suc, ◌+◌, ◌≤◌, ◌<◌, ◌≡◌, refl, sym, ap, ◌∙◌, subst, false, none, some, List, [], ◌∷◌,
  ◌++◌, ltb, ◌==◌, pos, arith, length, get_elem?, replicate, length-replicate, get_or-replicate,
  append_assoc, append-nil, Bool-cases, inl, inr,
}
use dx_ai_st.Base.Text.{Text}
use dx_ai_st.Base.Table.{find, emplace, find-emplace}
use dx_ai_st.Graph.{
  Node, Walk, Plan, planned, compile_loop, node_name, dx_graph_compile, dx_plan_node_at, name_at,
}
use dx_ai_st.Graph.Order.{
  Built, Built-IsOrdered, IsOrdered, IsMarked, visit_next, after, after-IsMarked,
}

-- The ids from `k` on, `m` of them.
abbrev pub upto : ℕ → ℕ → List ℕ
upto k zero = []
upto k (suc m) = k ∷ upto (suc k) m

get_elem?-upto : (k m i : ℕ) → i < m → get_elem? (upto k m) i ≡ some (k + i)
get_elem?-upto k zero i h = absurd (omega arith)
get_elem?-upto k (suc m) zero h = ap some (omega arith)
get_elem?-upto k (suc m) (suc i) h =
    get_elem?-upto (suc k) m i (omega arith) ∙ ap some (omega arith)

-- The names of the first `k` nodes are noted, and no others.
record IsNamed (nodes : List Node) (k : ℕ) (names : List (ℕ × Text)) : Type 0 where
  noted : (j : ℕ) → j < k → find j names ≡ some (node_name nodes j)
  fresh : (j : ℕ) → k ≤ j → find j names ≡ none

emplace-IsNamed :
    (nodes : List Node) (k : ℕ) (names : List (ℕ × Text))
    → IsNamed nodes k names
    → IsNamed nodes (suc k) (emplace k (node_name nodes k) names)
emplace-IsNamed nodes k names n =
    let put = λ (j : ℕ). find-emplace k j (node_name nodes k) names (n.fresh k (omega arith)) in
    record {
      noted = λ j h. elim (Bool-cases (k == j)) [
        | inl e ↦ let same : k ≡ j = ground arith in put j ∙ rw (e, same)
        | inr e ↦ put j ∙ rw e (n.noted j (ground arith))
      ];
      fresh =
          λ j h. let e : (k == j) ≡ false = ground arith in put j ∙ rw e (n.fresh j (omega arith));
    }

-- What the loop leaves when it starts at node `id` with `left` nodes to go.
abbrev Ends : List Node → ℕ → ℕ → ℕ → Walk → List (ℕ × Text) → Type 0
Ends nodes fuel left id w names =
    (all : List (ℕ × Text)) × (compile_loop fuel left nodes id w names
      ≡ planned (record { order = w.order ++ upto id left; names = all }))
    × IsNamed nodes (id + left) all

compile_loop-Ends :
    (nodes : List Node) (fuel left id : ℕ) (w : Walk) (names : List (ℕ × Text))
    → IsOrdered 0 nodes
    → id + left ≡ length nodes
    → IsMarked id (length nodes) w.marks
    → IsNamed nodes id names
    → Ends nodes (suc (suc fuel)) left id w names
unfolding compile_loop
compile_loop-Ends nodes fuel zero id w names o e m n =
    let same : id ≡ id + 0 = omega arith in
    (
      names,
      ap (λ (t : List ℕ). planned (record { order = t; names = names })) (sym (append-nil w.order)),
      subst (λ t. IsNamed nodes t names) same n,
    )
compile_loop-Ends nodes fuel (suc left) id w names o e m n =
    let next = emplace id (node_name nodes id) names in
    let v = visit_next fuel nodes id w o (omega arith) m in
    let (all, run, noted) =
      compile_loop-Ends nodes fuel left (suc id) (after id w) next o (omega arith)
        (after-IsMarked id (length nodes) w.marks (omega arith) m)
        (emplace-IsNamed nodes id names n) in
    let same : suc id + left ≡ id + suc left = omega arith in
    (
      all,
      rw (v, compile_loop)
          (run
            ∙ ap (λ (t : List ℕ). planned (record { order = t; names = all }))
                (append_assoc w.order (id ∷ []) (upto (suc id) left))),
      subst (λ t. IsNamed nodes t all) same noted,
    )

start-IsMarked : (n : ℕ) → IsMarked 0 n (replicate n 0)
start-IsMarked n = record {
  size = length-replicate n 0;
  done = λ j h. absurd (omega arith);
  todo = λ j h. get_or-replicate n j 0;
}

start-IsNamed : (nodes : List Node) → IsNamed nodes 0 []
unfolding find
start-IsNamed nodes = record { noted = λ j h. absurd (omega arith); fresh = λ j h. refl }

-- The plan lists every id once, in rising order, and its names are those of the nodes.
record IsPlanOf (nodes : List Node) (plan : Plan) : Type 0 where
  order : plan.order ≡ upto 0 (length nodes)
  names : IsNamed nodes (length nodes) plan.names

compile_ends :
    (nodes : List Node)
    → IsOrdered 0 nodes
    → (plan : Plan) × (dx_graph_compile nodes ≡ planned plan) × IsPlanOf nodes plan
unfolding dx_graph_compile compile_loop
compile_ends [] o =
    (record { order = []; names = [] }, refl, record { order = refl; names = start-IsNamed [] })
compile_ends (n ∷ ns) o =
    let nodes = n ∷ ns in
    let (all, run, noted) =
      compile_loop-Ends nodes (length ns) (length nodes) 0
        (record { marks = replicate (length nodes) 0; order = [] }) [] o (omega arith)
        (start-IsMarked (length nodes)) (start-IsNamed nodes) in
    let same : 0 + length nodes ≡ length nodes = omega arith in
    (
      record { order = upto 0 (length nodes); names = all },
      run,
      record { order = refl; names = subst (λ t. IsNamed nodes t all) same noted },
    )

plan_node_read :
    (nodes : List Node) (plan : Plan) (i capacity : ℕ)
    → IsPlanOf nodes plan
    → i < length nodes
    → length (node_name nodes i) < capacity
    → dx_plan_node_at plan i capacity ≡ (pos 0, some (i, node_name nodes i))
unfolding dx_plan_node_at name_at
plan_node_read nodes plan i capacity p h fits =
    let at : get_elem? plan.order i ≡ some i =
      ap (λ (t : List ℕ). get_elem? t i) p.order
      ∙ get_elem?-upto 0 (length nodes) i h
      ∙ ap some (omega arith) in
    let wide : (capacity == 0) ≡ false = ground arith in
    let name = node_name nodes i in
    let room : ltb capacity (length name + 1) ≡ false = ground arith in
    rw (wide, at, p.names.noted i h, room)

-- Every graph that a client can build compiles: `dx_graph_compile` never finds a cycle nor runs out
-- of fuel, its plan runs the nodes in the order of their ids, which count from 0 and of which each node depends
-- on smaller ones alone, and `dx_plan_node_at` gives at each place below the number of nodes that node's id and
-- operator name, where the buffer has room for the name and its end.
pub compile-Built :
    {nodes : List Node}
    → Built nodes
    → (plan : Plan) × (dx_graph_compile nodes ≡ planned plan)
      × (plan.order ≡ upto 0 (length nodes))
      × IsOrdered 0 nodes
      × ((i capacity : ℕ)
          → i < length nodes
          → length (node_name nodes i) < capacity
          → dx_plan_node_at plan i capacity ≡ (pos 0, some (i, node_name nodes i)))
compile-Built {nodes} b =
    let (plan, e, p) = compile_ends nodes (Built-IsOrdered b) in
    (
      plan,
      e,
      p.order,
      Built-IsOrdered b,
      λ i capacity h fits. plan_node_read nodes plan i capacity p h fits,
    )
