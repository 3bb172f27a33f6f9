-- ===== src/Command/Edges.antt =====
-- The counters and the lists that `compile` of src/dxgraph/dxgraph.cpp fills, against the nodes themselves.
use dx_ai_st.Base.{
  ℕ, ◌+◌, ◌≤◌, ◌<◌, ◌≡◌, refl, ap, ◌∙◌, Bool, true, false, some, List, [], ◌∷◌, arith,
  if◌then◌else◌, ◌==◌, ==_refl, leb, u32_mod, length, Option-cases, Bool-cases, inl, inr,
}
use dx_ai_st.Command.{GraphNode, EdgeTable, add_edge, add_dependencies, add_edges}
use dx_ai_st.Command.Count.{count, sum, count-append, sum_add, sum_zero, sum_is, IsDistinct}

-- How many dependencies the node has that stands under an id, and how often `u` is one of them.
abbrev pub into : List GraphNode → ℕ → ℕ
into [] v = 0
into (node ∷ ns) v = (if node.id == v then length node.dependencies else 0) + into ns v

abbrev pub between : List GraphNode → ℕ → ℕ → ℕ
between [] u v = 0
between (node ∷ ns) u v = (if node.id == v then count u node.dependencies else 0) + between ns u v

-- The dependencies of `v` among the nodes of a list.
abbrev pub used : List GraphNode → List ℕ → ℕ → ℕ
used ns xs v = sum xs (λ u. between ns u v)

-- What is known of a table: the edges of `ns`, on top of those of `e`.
pub record HasEdges (ns : List GraphNode) (e f : EdgeTable) : Type 0 where
  pub degree : (v : ℕ) → f.in_degree v ≡ e.in_degree v + into ns v
  pub targets : (u v : ℕ) → count v (f.adj u) ≡ count v (e.adj u) + between ns u v

-- The same for the dependencies of one node.
record HasSome (id : ℕ) (deps : List ℕ) (e f : EdgeTable) : Type 0 where
  degree : (v : ℕ) → f.in_degree v ≡ e.in_degree v + (if id == v then length deps else 0)
  targets :
      (u v : ℕ) → count v (f.adj u) ≡ count v (e.adj u) + (if id == v then count u deps else 0)

add_edge-HasSome :
    (id dep : ℕ) (e : EdgeTable)
    → e.in_degree id + 1 < u32_mod
    → HasSome id (dep ∷ []) e (add_edge id dep e)
unfolding add_edge
add_edge-HasSome id dep e small = record {
  degree = λ v. ground arith;
  targets = λ u v. ground (arith, count-append v (e.adj dep) (id ∷ []));
}

add_dependencies-HasSome :
    (size id : ℕ) (deps : List ℕ) (e f : EdgeTable)
    → e.in_degree id + length deps < u32_mod
    → add_dependencies size id deps e ≡ some f
    → HasSome id deps e f
unfolding add_dependencies
add_dependencies-HasSome size id [] e f small h = record {
  degree = λ v. ground arith;
  targets = λ u v. ground arith;
}
add_dependencies-HasSome size id (dep ∷ deps) e f small h = elim (Bool-cases (leb size dep)) [
  | inl i ↦ absurd (ground (arith, i))
  | inr i ↦
      let one = add_edge-HasSome id dep e (omega arith) in
      let rest =
        add_dependencies-HasSome size id deps (add_edge id dep e) f
          (ground (arith, one.degree id, ==_refl id)) (ground (arith, i)) in
      record {
        degree = λ v. ground (arith, one.degree v, rest.degree v);
        targets = λ u v. ground (arith, one.targets u v, rest.targets u v);
      }
]

pub add_edges-HasEdges :
    (size : ℕ) (ns : List GraphNode) (e f : EdgeTable)
    → ((v : ℕ) → e.in_degree v + into ns v < u32_mod)
    → add_edges size ns e ≡ some f
    → HasEdges ns e f
unfolding add_edges
add_edges-HasEdges size [] e f small h = record {
  degree = λ v. ground arith;
  targets = λ u v. ground arith;
}
add_edges-HasEdges size (node ∷ ns) e f small h =
    elim (Option-cases (add_dependencies size node.id node.dependencies e)) [
      | inl i ↦ absurd (ground (arith, i))
      | inr (g, i) ↦
          let one =
            add_dependencies-HasSome size node.id node.dependencies e g
              (ground (arith, small node.id, ==_refl node.id)) i in
          let rest =
            add_edges-HasEdges size ns g f (λ v. omega (arith, one.degree v, small v))
              (ground (arith, i)) in
          record {
            degree = λ v. omega (arith, one.degree v, rest.degree v);
            targets = λ u v. omega (arith, one.targets u v, rest.targets u v);
          }
    ]

-- Every dependency of these nodes is below `size`.
abbrev pub AreBelow : ℕ → List ℕ → Type 0
AreBelow size [] = Unit
AreBelow size (dep ∷ deps) = (dep < size) × AreBelow size deps

abbrev pub DependBelow : ℕ → List GraphNode → Type 0
DependBelow size [] = Unit
DependBelow size (node ∷ ns) = AreBelow size node.dependencies × DependBelow size ns

add_dependencies-some :
    (size id : ℕ) (deps : List ℕ) (e : EdgeTable)
    → AreBelow size deps
    → (f : EdgeTable) × (add_dependencies size id deps e ≡ some f)
unfolding add_dependencies
add_dependencies-some size id [] e b = (e, refl)
add_dependencies-some size id (dep ∷ deps) e b =
    let (f, h) = add_dependencies-some size id deps (add_edge id dep e) b.1 in
    (f, ground (arith, h, b.0))

pub add_edges-some :
    (size : ℕ) (ns : List GraphNode) (e : EdgeTable)
    → DependBelow size ns
    → (f : EdgeTable) × (add_edges size ns e ≡ some f)
unfolding add_edges
add_edges-some size [] e b = (e, refl)
add_edges-some size (node ∷ ns) e b =
    let (f, h) = add_dependencies-some size node.id node.dependencies e b.0 in
    let (g, i) = add_edges-some size ns f b.1 in (g, simp (h, add_edges) i)

-- Among distinct nodes, what depends on them depends on no more than there is.
sum_into : (deps xs : List ℕ) → IsDistinct xs → sum xs (λ u. count u deps) ≤ length deps
sum_into [] xs d = omega (arith, sum_zero xs)
sum_into (dep ∷ deps) xs d =
    let split : sum xs (λ u. count u (dep ∷ deps))
        ≡ sum xs (λ u. if dep == u then 1 else 0) + sum xs (λ u. count u deps) =
      sum_add xs (λ u. if dep == u then 1 else 0) (λ u. count u deps) in
    omega (arith, split, sum_is dep xs, d dep, sum_into deps xs d)

sum_if :
    (c : Bool) (xs : List ℕ) (f : ℕ → ℕ)
    → sum xs (λ u. if c then f u else 0) ≡ (if c then sum xs f else 0)
sum_if true xs f = refl
sum_if false xs f = sum_zero xs

used_cons :
    (node : GraphNode) (ns : List GraphNode) (xs : List ℕ) (v : ℕ)
    → used (node ∷ ns) xs v
      ≡ (if node.id == v then sum xs (λ u. count u node.dependencies) else 0) + used ns xs v
used_cons node ns xs v =
    sum_add xs (λ u. if node.id == v then count u node.dependencies else 0) (λ u. between ns u v)
    ∙ ap (λ t. t + used ns xs v) (sum_if (node.id == v) xs (λ u. count u node.dependencies))

pub used-into :
    (ns : List GraphNode) (xs : List ℕ) (v : ℕ) → IsDistinct xs → used ns xs v ≤ into ns v
used-into [] xs v d = omega (arith, sum_zero xs)
used-into (node ∷ ns) xs v d =
    ground (arith, used_cons node ns xs v, sum_into node.dependencies xs d, used-into ns xs v d)

-- If all that a node depends on is in a list, the list accounts for all of its dependencies.
into_sum :
    (deps xs : List ℕ)
    → ((u : ℕ) → 0 < count u deps → 0 < count u xs)
    → length deps ≤ sum xs (λ u. count u deps)
into_sum [] xs h = omega arith
into_sum (dep ∷ deps) xs h =
    let split : sum xs (λ u. count u (dep ∷ deps))
        ≡ sum xs (λ u. if dep == u then 1 else 0) + sum xs (λ u. count u deps) =
      sum_add xs (λ u. if dep == u then 1 else 0) (λ u. count u deps) in
    let rest = into_sum deps xs (λ u p. h u (omega (arith, p))) in
    let here : 0 < count dep (dep ∷ deps) = ground (arith, ==_refl dep) in
    omega (arith, split, sum_is dep xs, rest, h dep here)

pub into-used :
    (ns : List GraphNode) (xs : List ℕ) (v : ℕ)
    → ((u : ℕ) → 0 < between ns u v → 0 < count u xs)
    → into ns v ≤ used ns xs v
into-used [] xs v h = omega arith
into-used (node ∷ ns) xs v h = elim (Bool-cases (node.id == v)) [
  | inl e ↦ ground (
    arith,
    e,
    used_cons node ns xs v,
    into_sum node.dependencies xs (λ u p. h u (ground (arith, e, p))),
    into-used ns xs v (λ u p. h u (omega (arith, p))),
  )
  | inr e ↦
      ground (arith, e, used_cons node ns xs v, into-used ns xs v (λ u p. h u (omega (arith, p))))
]
