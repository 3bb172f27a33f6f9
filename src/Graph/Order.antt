-- ===== src/Graph/Order.antt =====
-- Graphs that are built by src/core/dx_graph_api.cpp, and the order in which they are compiled.
use dx_ai_st.Base.{
  ℕ, zero, suc, ◌+◌, ◌%◌, ◌≤◌, ◌<◌, ◌≡◌, ◌≢◌, refl, ◌∙◌, subst, true, some, List, [], ◌∷◌, ◌++◌,
  ◌==◌, u32_mod, arith, length, get_elem?, get_or, set, length-set, get_or-set_self, get_or-set_ne,
  get_elem?-some, Bool-cases, inl, inr,
}
use dx_ai_st.Base.Text.{Text}
use dx_ai_st.Graph.{
  Registry, Node, dx_graph_add_node, all_below, Walk, Visit, visited, visit_all, enter,
  finish_visit, visit_node,
}

abbrev pub AllLt : ℕ → List ℕ → Type 0
AllLt n [] = Unit
AllLt n (d ∷ ds) = (d < n) × AllLt n ds

-- Each node has its place for an id, counted from `k`, and depends on earlier ids alone.
abbrev pub IsOrdered : ℕ → List Node → Type 0
IsOrdered k [] = Unit
IsOrdered k (n ∷ ns) = (n.id ≡ k) × AllLt k n.dependencies × IsOrdered (suc k) ns

all_below_sound : (n : ℕ) (ds : List ℕ) → all_below n ds ≡ true → AllLt n ds
unfolding all_below
all_below_sound n [] h = tt
all_below_sound n (d ∷ ds) h = ground (arith, all_below_sound n ds)

append-IsOrdered :
    (k : ℕ) (ns : List Node) (n : Node)
    → IsOrdered k ns
    → n.id ≡ k + length ns
    → AllLt (k + length ns) n.dependencies
    → IsOrdered k (ns ++ n ∷ [])
append-IsOrdered k [] n o e l =
    let same : k + 0 ≡ k = omega arith in (e ∙ same, subst (λ t. AllLt t n.dependencies) same l, tt)
append-IsOrdered k (m ∷ ns) n o e l =
    let same : k + suc (length ns) ≡ suc k + length ns = omega arith in
    (
      o.0,
      o.1,
      append-IsOrdered (suc k) ns n o.2 (e ∙ same) (subst (λ t. AllLt t n.dependencies) same l),
    )

-- Every graph that a client can build: calls of `dx_graph_add_node` from the empty graph, whatever
-- the registry holds at each, on a graph whose ids fit in 32 bits.
pub data Built : List Node → Type 0 where
  empty : Built []
  added :
      {ns : List Node} (registry : Registry) (name : Text) (ds : List ℕ) {ms : List Node}
      → Built ns
      → length ns < u32_mod
      → (dx_graph_add_node registry ns name ds).1 ≡ ms
      → Built ms

add_node-IsOrdered :
    (registry : Registry) (ns : List Node) (name : Text) (ds : List ℕ)
    → IsOrdered 0 ns
    → length ns < u32_mod
    → IsOrdered 0 (dx_graph_add_node registry ns name ds).1
unfolding dx_graph_add_node
add_node-IsOrdered registry ns name ds o h = ground (
  arith,
  all_below_sound (length ns) ds,
  append-IsOrdered 0 ns
      (record { id = length ns % u32_mod; operator_name = name; dependencies = ds }) o,
)

pub Built-IsOrdered : {ns : List Node} → Built ns → IsOrdered 0 ns
Built-IsOrdered empty = tt
Built-IsOrdered (added {ns} registry name ds b h e) =
    subst (IsOrdered 0) e (add_node-IsOrdered registry ns name ds (Built-IsOrdered b) h)

ordered_get :
    (k i : ℕ) (ns : List Node) (n : Node)
    → IsOrdered k ns
    → get_elem? ns i ≡ some n
    → (n.id ≡ k + i) × AllLt (k + i) n.dependencies
ordered_get k i [] n o e = absurd (cc)
ordered_get k zero (m ∷ ns) n o e =
    let same : m ≡ n = cc in
    let z : k ≡ k + 0 = omega arith in
    subst (λ t. (t.id ≡ k + 0) × AllLt (k + 0) t.dependencies) same
      (o.0 ∙ z, subst (λ t. AllLt t m.dependencies) z o.1)
ordered_get k (suc i) (m ∷ ns) n o e =
    let s : suc k + i ≡ k + suc i = omega arith in
    subst (λ t. (n.id ≡ t) × AllLt t n.dependencies) s (ordered_get (suc k) i ns n o.2 e)

-- The first `k` nodes are done and the others were not met.
pub record IsMarked (k n : ℕ) (marks : List ℕ) : Type 0 where
  pub size : length marks ≡ n
  pub done : (j : ℕ) → j < k → get_or marks j 0 ≡ 2
  pub todo : (j : ℕ) → k ≤ j → get_or marks j 0 ≡ 0

-- Entering a node that is done changes nothing.
enter_done :
    (visit : ℕ → Walk → Visit) (node : Node) (j : ℕ) (walk : Walk)
    → node.id ≡ j
    → get_or walk.marks j 0 ≡ 2
    → enter visit node j walk ≡ visited walk
unfolding enter
enter_done visit node j walk e m = ground arith

visit_done :
    (fuel : ℕ) (nodes : List Node) (j : ℕ) (walk : Walk)
    → IsOrdered 0 nodes
    → j < length nodes
    → get_or walk.marks j 0 ≡ 2
    → visit_node (suc fuel) nodes j walk ≡ visited walk
unfolding visit_node
visit_done fuel nodes j walk o h m =
    let (n, e) = get_elem?-some nodes j h in
    rw (e, visit_node)
      (enter_done (visit_node fuel nodes) n j walk ((ordered_get 0 j nodes n o e).0 ∙ omega arith)
        m)

visit_all_done :
    (fuel : ℕ) (nodes : List Node) (k : ℕ) (ds : List ℕ) (walk : Walk)
    → IsOrdered 0 nodes
    → k ≤ length nodes
    → AllLt k ds
    → ((j : ℕ) → j < k → get_or walk.marks j 0 ≡ 2)
    → visit_all (visit_node (suc fuel) nodes) ds walk ≡ visited walk
unfolding visit_all
visit_all_done fuel nodes k [] walk o h l m = refl
visit_all_done fuel nodes k (d ∷ ds) walk o h l m =
    rw (visit_done fuel nodes d walk o (omega (arith, l.0)) (m d l.0), visit_all)
      (visit_all_done fuel nodes k ds walk o h l.1 m)

-- The walk after node `k`: it is done, and stands last in the order.
abbrev pub after : ℕ → Walk → Walk
after k w = record { marks = set (set w.marks k 1) k 2; order = w.order ++ k ∷ [] }

-- Entering a node that was not met, with all its dependencies done.
enter_new :
    (visit : ℕ → Walk → Visit) (node : Node) (k : ℕ) (w : Walk)
    → node.id ≡ k
    → get_or w.marks k 0 ≡ 0
    → visit_all visit node.dependencies (record w { marks = set w.marks k 1 })
      ≡ visited (record w { marks = set w.marks k 1 })
    → enter visit node k w ≡ visited (after k w)
unfolding enter finish_visit
enter_new visit node k w e m v = ground arith

pub visit_next :
    (fuel : ℕ) (nodes : List Node) (k : ℕ) (w : Walk)
    → IsOrdered 0 nodes
    → k < length nodes
    → IsMarked k (length nodes) w.marks
    → visit_node (suc (suc fuel)) nodes k w ≡ visited (after k w)
unfolding visit_node
visit_next fuel nodes k w o h m =
    let (n, e) = get_elem?-some nodes k h in
    let g = ordered_get 0 k nodes n o e in
    let z : 0 + k ≡ k = omega arith in
    let below : AllLt k n.dependencies = subst (λ t. AllLt t n.dependencies) z g.1 in
    rw (e, visit_node)
      (enter_new (visit_node (suc fuel) nodes) n k w (g.0 ∙ z) (m.todo k (omega arith)) (
        visit_all_done fuel nodes k n.dependencies (record w { marks = set w.marks k 1 }) o
          (omega arith) below (λ j lt. get_or-set_ne w.marks k j 1 0 (omega arith) ∙ m.done j lt)))

pub after-IsMarked :
    (k n : ℕ) (marks : List ℕ)
    → k < n
    → IsMarked k n marks
    → IsMarked (suc k) n (set (set marks k 1) k 2)
after-IsMarked k n marks h m = record {
  size = length-set (set marks k 1) k 2 ∙ length-set marks k 1 ∙ m.size;
  done = λ j lt. elim (Bool-cases (j == k)) [
    | inl e ↦
        let same : k ≡ j = ground arith in
        subst (λ t. get_or (set (set marks k 1) k 2) t 0 ≡ 2) same
          (get_or-set_self (set marks k 1) k 2 0 (omega (arith, length-set marks k 1, m.size)))
    | inr e ↦
        let other : k ≢ j = ground arith in
        get_or-set_ne (set marks k 1) k j 2 0 other
        ∙ get_or-set_ne marks k j 1 0 other
        ∙ m.done j (ground arith)
  ];
  todo = λ j le.
      get_or-set_ne (set marks k 1) k j 2 0 (omega arith)
      ∙ get_or-set_ne marks k j 1 0 (omega arith)
      ∙ m.todo j (omega arith);
}
