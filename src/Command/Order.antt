-- ===== src/Command/Order.antt =====
-- The order that `compile` of src/dxgraph/dxgraph.cpp finds.
use mathlib.Core.Logic.{◌⊎◌}
use dx_ai_st.Base.{
  ℕ, zero, suc, ◌+◌, ◌≤◌, ◌<◌, ◌≡◌, refl, sym, ap, ◌∙◌, subst, inl, inr, true, none, some, List, [],
  ◌∷◌, ◌++◌, arith, if◌then◌else◌, ◌==◌, ==_iff, append-nil, append_assoc, ltb, u32_mod, length,
  get_elem?, Option-cases, Bool-cases,
}
use dx_ai_st.Base.Text.{Text}
use dx_ai_st.Command.{
  GraphNode, CommandGraph, no_edges, add_node, add_edges, ready_from, done, invalid_dependency,
  out_of_fuel, finish_compile, compile,
}
use dx_ai_st.Command.Count.{count, count-append, IsDistinct, below_full, length-below}
use dx_ai_st.Command.Edges.{into, between, used, used-into, add_edges-HasEdges}
use dx_ai_st.Command.Drain.{IsOrdered, IsInStep, drain-IsInStep, start-IsInStep}

-- The id of each node is its position, counted from `i` on.
abbrev pub IsNumbered : ℕ → List GraphNode → Type 0
IsNumbered i [] = Unit
IsNumbered i (node ∷ ns) = (node.id ≡ i) × IsNumbered (i + 1) ns

-- Nodes whose ids are their positions, and whose dependencies a uint32_t can count.
pub record IsNumberable (ns : List GraphNode) : Type 0 where
  pub numbered : IsNumbered 0 ns
  pub few : (v : ℕ) → into ns v < u32_mod

numbered_into :
    (ns : List GraphNode) (i v : ℕ)
    → IsNumbered i ns
    → (v < i) ⊎ (i + length ns ≤ v)
    → into ns v ≡ 0
numbered_into [] i v w h = refl
numbered_into (node ∷ ns) i v w h =
    let rest =
      numbered_into ns (i + 1) v w.1
        (elim h [ inl a ↦ inl (omega arith) | inr b ↦ inr (omega arith) ]) in
    ground (arith, w.0, rest)

numbered_between :
    (ns : List GraphNode) (i k d : ℕ) (node : GraphNode)
    → IsNumbered i ns
    → get_elem? ns k ≡ some node
    → count d node.dependencies ≤ between ns d (i + k)
numbered_between [] i k d node w h = absurd (ground arith)
numbered_between (x ∷ ns) i zero d node w h = ground (arith, w.0)
numbered_between (x ∷ ns) i (suc k) d node w h =
    let rest = numbered_between ns (i + 1) k d node w.1 h in
    let same : i + 1 + k ≡ i + suc k = omega arith in omega (arith, rest, ap (between ns d) same)

-- How `compile` ends: a dependency that is no node, or an order that its loop has filled.
pub data Ends (g : CommandGraph) : Type 0 where
  refused :
      add_edges (length g.nodes) g.nodes no_edges ≡ none
      → compile g ≡ (invalid_dependency, g)
      → Ends g
  drained :
      (out : List ℕ) (degree : ℕ → ℕ)
      → IsInStep g.nodes (length g.nodes) out [] degree []
      → IsOrdered g.nodes [] out
      → compile g ≡ finish_compile g (some out)
      → Ends g

pub compile-Ends : (g : CommandGraph) → IsNumberable g.nodes → Ends g
unfolding compile
compile-Ends g w = elim (Option-cases (add_edges (length g.nodes) g.nodes no_edges)) [
  | inl e ↦ refused e (simp (e, compile) refl)
  | inr (f, e) ↦
      let n = length g.nodes in
      let has = add_edges-HasEdges n g.nodes no_edges f (λ v. omega (arith, w.few v)) e in
      let (out, degree, ran, step, ordered) =
        drain-IsInStep g.nodes n (λ v h. numbered_into g.nodes 0 v w.numbered (inr (omega arith)))
          f.adj (λ u v. omega (arith, has.targets u v)) n [] (ready_from f.in_degree 0 n)
          f.in_degree
          (start-IsInStep g.nodes n f.in_degree (λ v. omega (arith, has.degree v)) w.few) tt
          (omega arith) in
      drained out degree step ordered (simp (e, compile, ran) refl)
]

-- `compile` comes to an end on any graph whose ids are its nodes' positions and whose nodes have fewer than
-- 2 ^ 32 dependencies: one round of its loop for each node is enough.
pub compile_ends : (g : CommandGraph) → IsNumberable g.nodes → ¬ ((compile g).0 ≡ out_of_fuel)
unfolding finish_compile
compile_ends g w h = elim (compile-Ends g w) [
  | refused e c ↦ absurd (ground (arith, c, h))
  | drained out degree s o c ↦ absurd (ground (arith, c, h))
]

IsOrdered-at :
    (ns : List GraphNode) (before xs : List ℕ) (v : ℕ) (ys : List ℕ)
    → IsOrdered ns before (xs ++ v ∷ ys)
    → used ns (before ++ xs) v ≡ into ns v
IsOrdered-at ns before [] v ys o = ap (λ zs. used ns zs v) (append-nil before) ∙ o.0
IsOrdered-at ns before (x ∷ xs) v ys o =
    ap (λ zs. used ns zs v) (sym (append_assoc before (x ∷ []) xs))
    ∙ IsOrdered-at ns (before ++ x ∷ []) xs v ys o.1

-- A node that is counted in full has all that it depends on before it.
depends_before :
    (ns : List GraphNode) (xs : List ℕ) (v d : ℕ) (node : GraphNode)
    → IsNumbered 0 ns
    → IsDistinct xs
    → used ns xs v ≡ into ns v
    → get_elem? ns v ≡ some node
    → 0 < count d node.dependencies
    → 0 < count d xs
depends_before ns xs v d node w distinct full at h = elim (Bool-cases (count d xs == 0)) [
  | inr e ↦ ground (arith, e)
  | inl e ↦
      let more : IsDistinct (d ∷ xs) = λ x. ground (arith, e, distinct x, ==_iff d x) in
      let edge : count d node.dependencies ≤ between ns d v = omega (
        arith,
        numbered_between ns 0 v d node w at,
        ap (between ns d) (let z : 0 + v ≡ v = omega arith in z),
      ) in
      absurd (omega (arith, used-into ns (d ∷ xs) v more, full, h, edge))
]

-- What an order promises: each node once, and each behind the nodes that it depends on.
pub record IsTopological (ns : List GraphNode) (order : List ℕ) : Type 0 where
  pub once : (v : ℕ) → count v order ≡ (if ltb v (length ns) then 1 else 0)
  pub behind :
      (xs : List ℕ) (v : ℕ) (ys : List ℕ) (node : GraphNode) (d : ℕ)
      → order ≡ xs ++ v ∷ ys
      → get_elem? ns v ≡ some node
      → 0 < count d node.dependencies
      → 0 < count d xs

drained-IsTopological :
    (ns : List GraphNode) (out : List ℕ) (degree : ℕ → ℕ)
    → IsNumbered 0 ns
    → IsInStep ns (length ns) out [] degree []
    → IsOrdered ns [] out
    → length out ≡ length ns
    → IsTopological ns out
drained-IsTopological ns out degree w s o full = record {
  once = λ v. elim (Bool-cases (ltb v (length ns))) [
    | inl e ↦
        let one : count v out ≡ 1 =
          below_full (length ns) (λ u. count u out) v distinct
            (omega (arith, full, length-below (length ns) out outside)) (ground (arith, e)) in
        ground (arith, e, one)
    | inr e ↦ ground (arith, e, s.pushed v)
  ];
  behind = λ xs v ys node d split at h.
      depends_before ns xs v d node w
        (λ x. omega (arith, distinct x, ap (count x) split, count-append x xs (v ∷ ys)))
        (IsOrdered-at ns [] xs v ys (subst (IsOrdered ns []) split o)) at h;
}
  where
    distinct : IsDistinct out
    distinct x = ground (arith, s.pushed x)

    outside : (x : ℕ) → length ns ≤ x → count x out ≡ 0
    outside x h = ground (arith, s.pushed x, h)

-- If `compile` returns, the graph is marked as compiled, its nodes are as they were, and its order holds each
-- of them once and after all the nodes that it depends on. The ids are the nodes' positions, and each node
-- has fewer than 2 ^ 32 dependencies.
pub compile-IsTopological :
    (g h : CommandGraph)
    → IsNumberable g.nodes
    → compile g ≡ (done, h)
    → (h.compiled ≡ true) × (h.nodes ≡ g.nodes) × IsTopological g.nodes h.order
unfolding finish_compile
compile-IsTopological g h w e = elim (compile-Ends g w) [
  | refused n c ↦ absurd (ground (arith, c, e))
  | drained out degree s o c ↦ elim (Bool-cases (length out == length g.nodes)) [
    | inr f ↦ absurd (ground (arith, c, e, f))
    | inl f ↦
        let same : record g { order = out; compiled = true } ≡ h = ground (arith, c, e, f) in
        let t =
          drained-IsTopological g.nodes out degree w.numbered s o
            ((==_iff (length out) (length g.nodes)).0 f) in
        subst
          (λ (k : CommandGraph).
            (k.compiled ≡ true) × (k.nodes ≡ g.nodes) × IsTopological g.nodes k.order)
          same (refl, refl, t)
  ]
]

-- Adding a node keeps the ids in step with the positions.
IsNumbered-snoc :
    (ns : List GraphNode) (i : ℕ) (node : GraphNode)
    → IsNumbered i ns
    → node.id ≡ i + length ns
    → IsNumbered i (ns ++ node ∷ [])
IsNumbered-snoc [] i node w e = (omega (arith, e), tt)
IsNumbered-snoc (x ∷ ns) i node w e = (w.0, IsNumbered-snoc ns (i + 1) node w.1 (omega (arith, e)))

pub add_node-IsNumbered :
    (g : CommandGraph) (name : Text) (func : ℕ) (deps : List ℕ)
    → length g.nodes < u32_mod
    → IsNumbered 0 g.nodes
    → IsNumbered 0 (add_node g name func deps).1.nodes
unfolding add_node
add_node-IsNumbered g name func deps small w = IsNumbered-snoc g.nodes 0 _ w (omega arith)
