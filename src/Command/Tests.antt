-- ===== src/Command/Tests.antt =====
-- A graph whose first node waits for its last one, for src/dxgraph/dxgraph.cpp.
use dx_ai_st.Base.{ℕ, ◌+◌, ◌≡◌, refl, true, false, [], ◌∷◌, arith, if◌then◌else◌, ◌==◌}
use dx_ai_st.Command.{CommandGraph, done, cycle, out_of_fuel, new_graph, add_node, compile}
use dx_ai_st.Command.Order.{IsNumberable, IsTopological, compile-IsTopological, compile_ends}
use dx_ai_st.Command.Ranked.{compile-IsRanked}

abbrev built : CommandGraph
built = record {
  nodes =
      record { id = 0; name = []; func = 10; dependencies = 2 ∷ [] }
      ∷ record { id = 1; name = []; func = 11; dependencies = 0 ∷ 2 ∷ [] }
      ∷ record { id = 2; name = []; func = 12; dependencies = [] }
      ∷ [];
  order = [];
  compiled = false;
}

abbrev ordered : CommandGraph
ordered = record built { order = 2 ∷ 0 ∷ 1 ∷ []; compiled = true }

added :
    (add_node (add_node (add_node new_graph [] 10 (2 ∷ [])).1 [] 11 (0 ∷ 2 ∷ [])).1 [] 12 []).1
    ≡ built
unfolding add_node
added = refl

built-IsNumberable : IsNumberable built.nodes
built-IsNumberable = record { numbered = (refl, (refl, (refl, tt))); few = λ v. ground arith }

compile_runs : compile built ≡ (done, ordered)
unfolding compile
compile_runs = refl

compile_ends_example : ¬ ((compile built).0 ≡ out_of_fuel)
compile_ends_example = compile_ends built built-IsNumberable

compile-IsTopological_example :
    (ordered.compiled ≡ true)
    × (ordered.nodes ≡ built.nodes)
    × IsTopological built.nodes ordered.order
compile-IsTopological_example = compile-IsTopological built ordered built-IsNumberable compile_runs

abbrev rank : ℕ → ℕ
rank v = if v == 2 then 0 else v + 1

compile-IsRanked_example : (h : CommandGraph) × (compile built ≡ (done, h))
compile-IsRanked_example =
    compile-IsRanked built rank built-IsNumberable
      (((omega arith, tt), ((omega arith, (omega arith, tt)), (tt, tt))))
      (((omega arith, tt), ((omega arith, (omega arith, tt)), (tt, tt))))

-- Two nodes that wait for each other.
abbrev knot : CommandGraph
knot = record {
  nodes =
      record { id = 0; name = []; func = 10; dependencies = 1 ∷ [] }
      ∷ record { id = 1; name = []; func = 11; dependencies = 0 ∷ [] }
      ∷ [];
  order = [];
  compiled = false;
}

knot_runs : (compile knot).0 ≡ cycle
unfolding compile
knot_runs = refl
