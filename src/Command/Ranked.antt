-- ===== src/Command/Ranked.antt =====
-- A graph without a cycle compiles (src/dxgraph/dxgraph.cpp).
use dx_ai_st.Base.{
  ℕ, zero, suc, ◌≤◌, ◌<◌, ◌≡◌, true, List, [], ◌∷◌, arith, ◌==◌, ==_iff, length, Bool-cases, inl,
  inr, ◌∙◌,
}
use dx_ai_st.Command.{GraphNode, CommandGraph, no_edges, done, finish_compile, compile}
use dx_ai_st.Command.Count.{count, below_ones, length-below}
use dx_ai_st.Command.Edges.{into, between, used, into-used, DependBelow, AreBelow, add_edges-some}
use dx_ai_st.Command.Drain.{IsInStep}
use dx_ai_st.Command.Order.{IsNumberable, refused, drained, compile-Ends}

-- A rank that grows from each dependency to the node: there is no cycle.
abbrev pub AreLower : (ℕ → ℕ) → ℕ → List ℕ → Type 0
AreLower rank top [] = Unit
AreLower rank top (dep ∷ deps) = (rank dep < top) × AreLower rank top deps

abbrev pub IsRanked : (ℕ → ℕ) → List GraphNode → Type 0
IsRanked rank [] = Unit
IsRanked rank (node ∷ ns) = AreLower rank (rank node.id) node.dependencies × IsRanked rank ns

lower_count :
    (rank : ℕ → ℕ) (top u : ℕ) (deps : List ℕ)
    → AreLower rank top deps
    → 0 < count u deps
    → rank u < top
lower_count rank top u [] a h = absurd (omega (arith, h))
lower_count rank top u (dep ∷ deps) a h = elim (Bool-cases (dep == u)) [
  | inl e ↦ ground (arith, a.0, (==_iff dep u).0 e)
  | inr e ↦ lower_count rank top u deps a.1 (ground (arith, e, h))
]

below_count : (size u : ℕ) (deps : List ℕ) → AreBelow size deps → 0 < count u deps → u < size
below_count size u [] a h = absurd (omega (arith, h))
below_count size u (dep ∷ deps) a h = elim (Bool-cases (dep == u)) [
  | inl e ↦ ground (arith, a.0, (==_iff dep u).0 e)
  | inr e ↦ below_count size u deps a.1 (ground (arith, e, h))
]

-- An edge leads from a node to one of a higher rank.
edge_ranked :
    (rank : ℕ → ℕ) (size u v : ℕ) (ns : List GraphNode)
    → IsRanked rank ns
    → DependBelow size ns
    → 0 < between ns u v
    → (rank u < rank v) × (u < size)
edge_ranked rank size u v [] r b h = absurd (omega (arith, h))
edge_ranked rank size u v (node ∷ ns) r b h = elim (Bool-cases (node.id == v)) [
  | inr e ↦ edge_ranked rank size u v ns r.1 b.1 (ground (arith, e, h))
  | inl e ↦ elim (Bool-cases (count u node.dependencies == 0)) [
    | inl f ↦ edge_ranked rank size u v ns r.1 b.1 (ground (arith, e, f, h))
    | inr f ↦
        let some_edge : 0 < count u node.dependencies = ground (arith, f) in
        (
          ground (
            arith,
            (==_iff node.id v).0 e,
            lower_count rank (rank node.id) u node.dependencies r.0 some_edge,
          ),
          below_count size u node.dependencies b.0 some_edge,
        )
  ]
]

module _ (rank : ℕ → ℕ) (ns : List GraphNode) (out : List ℕ) (degree : ℕ → ℕ) (r : IsRanked rank ns)
    (b : DependBelow (length ns) ns) (s : IsInStep ns (length ns) out [] degree []) where
  -- By induction on the rank, no node is left out.
  none_left : (k v : ℕ) → rank v < k → v < length ns → 0 < count v out
  none_left zero v h l = absurd (omega (arith, h))
  none_left (suc k) v h l =
      let enough : into ns v ≤ used ns out v = into-used ns out v (λ u p.
        let e = edge_ranked rank (length ns) u v ns r b p in
        none_left k u (omega (arith, e.0, h)) e.1) in
      ground (arith, s.waits v, s.pushed v, l, enough)

  all_drained : length out ≡ length ns
  all_drained =
      let outside : (x : ℕ) → length ns ≤ x → count x out ≡ 0 =
        λ x h. ground (arith, s.pushed x, h) in
      let lengths = length-below (length ns) out outside in
      lengths
      ∙ below_ones (length ns) (λ u. count u out)
          (λ u l. ground (arith, none_left (suc (rank u)) u (omega arith) l, s.pushed u))

-- A graph without a cycle compiles: if some rank grows from each dependency to the node that has it, and each
-- dependency is a node, `compile` returns. The ids are the nodes' positions, and each node has fewer than
-- 2 ^ 32 dependencies.
pub compile-IsRanked :
    (g : CommandGraph) (rank : ℕ → ℕ)
    → IsNumberable g.nodes
    → DependBelow (length g.nodes) g.nodes
    → IsRanked rank g.nodes
    → (h : CommandGraph) × (compile g ≡ (done, h))
unfolding finish_compile
compile-IsRanked g rank w b r = elim (compile-Ends g w) [
  | refused e c ↦
      let (f, i) = add_edges-some (length g.nodes) g.nodes no_edges b in
      absurd (ground (arith, e, i))
  | drained out degree s o c ↦ (
    record g { order = out; compiled = true },
    ground (arith, c, all_drained rank g.nodes out degree r b s),
  )
]
