-- ===== src/Command/Drain.antt =====
-- The loops of `compile` of src/dxgraph/dxgraph.cpp keep the counters and the queue in step.
use dx_ai_st.Base.{
  ℕ, zero, suc, ◌+◌, ◌-◌, ◌%◌, ◌≤◌, ◌<◌, ◌≡◌, refl, sym, ap, ◌∙◌, ◌&&◌, some, List, [], ◌∷◌, ◌++◌,
  arith, if◌then◌else◌, ◌==◌, ==_refl, ==_iff, ltb, leb, u32_mod, length, length-append,
  append_assoc, append-nil,
}
use dx_ai_st.Command.{GraphNode, update, ready_from, release, drain}
use dx_ai_st.Command.Count.{count, count-append, sum-append, IsDistinct, distinct_length}
use dx_ai_st.Command.Edges.{into, between, used, used-into}

-- Each node of the order comes after all that it depends on, behind the nodes of `before`.
abbrev pub IsOrdered : List GraphNode → List ℕ → List ℕ → Type 0
IsOrdered ns before [] = Unit
IsOrdered ns before (v ∷ order) =
    (used ns before v ≡ into ns v) × IsOrdered ns (before ++ v ∷ []) order

-- The order, the queue and the counters while the edges to `pending` are still to be taken off.
pub record IsInStep (ns : List GraphNode) (n : ℕ) (order ready : List ℕ) (degree : ℕ → ℕ)
    (pending : List ℕ) : Type 0 where
  pub waits : (v : ℕ) → degree v + used ns order v ≡ into ns v + count v pending
  pub small : (v : ℕ) → degree v < u32_mod
  pub pushed : (v : ℕ) → count v order + count v ready ≡ (if ltb v n && degree v == 0 then 1 else 0)
  pub counted : (v : ℕ) → count v pending ≤ into ns v

module _ (ns : List GraphNode) (n : ℕ) (bounded : (v : ℕ) → n ≤ v → into ns v ≡ 0) where
  order-IsDistinct :
      (order ready : List ℕ) (degree : ℕ → ℕ) (pending : List ℕ)
      → IsInStep ns n order ready degree pending
      → IsDistinct order
  order-IsDistinct order ready degree pending s x = ground (arith, s.pushed x)

  -- One edge is taken off.
  release_step :
      (v : ℕ) (pending order ready : List ℕ) (degree : ℕ → ℕ)
      → IsInStep ns n order ready degree (v ∷ pending)
      → let d = (degree v + u32_mod - 1) % u32_mod in
        IsInStep ns n order (if d == 0 then ready ++ v ∷ [] else ready) (update degree v d) pending
  release_step v pending order ready degree s =
      let positive : 0 < degree v = ground (
        arith,
        s.waits v,
        ==_refl v,
        used-into ns order v (order-IsDistinct order ready degree (v ∷ pending) s),
      ) in
      let less : (degree v + u32_mod - 1) % u32_mod ≡ degree v - 1 = omega (arith, s.small v) in
      let inside : v < n = ground (arith, bounded v, s.counted v, ==_refl v) in
      record {
        waits = λ w. ground (arith, less, positive, s.waits w, ==_iff v w);
        small = λ w. ground (arith, less, s.small w);
        pushed = λ w.
            ground (
              arith,
              less,
              positive,
              inside,
              s.pushed w,
              count-append w ready (v ∷ []),
              ==_iff v w,
            );
        counted = λ w. omega (arith, s.counted w);
      }

  release-IsInStep :
      (pending order ready : List ℕ) (degree : ℕ → ℕ)
      → IsInStep ns n order ready degree pending
      → let r = release pending degree ready in IsInStep ns n order r.1 r.0 []
  unfolding release
  release-IsInStep [] order ready degree s = s
  release-IsInStep (v ∷ pending) order ready degree s =
      release-IsInStep pending order _ _ (release_step v pending order ready degree s)

  module _ (adj : ℕ → List ℕ) (targets : (u v : ℕ) → count v (adj u) ≡ between ns u v) where
    -- The front of the queue moves to the order, and its edges become pending.
    take_front :
        (id : ℕ) (order ready : List ℕ) (degree : ℕ → ℕ)
        → IsInStep ns n order (id ∷ ready) degree []
        → IsInStep ns n (order ++ id ∷ []) ready degree (adj id)
    take_front id order ready degree s = record {
      waits = λ v.
          omega (arith, s.waits v, sum-append order (id ∷ []) (λ u. between ns u v), targets id v);
      small = s.small;
      pushed = λ v. omega (arith, s.pushed v, count-append v order (id ∷ []));
      counted = λ v. omega (arith, targets id v, used-into ns (id ∷ []) v (λ x. ground arith));
    }

    room :
        (id : ℕ) (order ready : List ℕ) (degree : ℕ → ℕ)
        → IsInStep ns n order (id ∷ ready) degree []
        → length order < n
    room id order ready degree s =
        let d =
          distinct_length n (order ++ id ∷ [])
            (λ x. ground (arith, s.pushed x, count-append x order (id ∷ [])))
            (λ x l. ground (arith, s.pushed x, l, count-append x order (id ∷ []))) in
        omega (arith, d, length-append order (id ∷ []))

    IsOrdered-snoc :
        (before order : List ℕ) (id : ℕ)
        → IsOrdered ns before order
        → used ns (before ++ order) id ≡ into ns id
        → IsOrdered ns before (order ++ id ∷ [])
    IsOrdered-snoc before [] id o h = (ap (λ xs. used ns xs id) (sym (append-nil before)) ∙ h, tt)
    IsOrdered-snoc before (v ∷ order) id o h = (
      o.0,
      IsOrdered-snoc (before ++ v ∷ []) order id o.1
          (ap (λ xs. used ns xs id) (append_assoc before (v ∷ []) order) ∙ h),
    )

    -- The loop ends within one step for each node that is not in the order, with an empty queue.
    pub drain-IsInStep :
        (fuel : ℕ) (order ready : List ℕ) (degree : ℕ → ℕ)
        → IsInStep ns n order ready degree []
        → IsOrdered ns [] order
        → n ≤ length order + fuel
        → (out : List ℕ) × (degree' : ℕ → ℕ) × (drain fuel adj degree ready order ≡ some out)
          × IsInStep ns n out [] degree' []
          × IsOrdered ns [] out
    unfolding drain
    drain-IsInStep fuel order [] degree s o h = (order, degree, refl, s, o)
    drain-IsInStep zero order (id ∷ ready) degree s o h =
        absurd (omega (arith, room id order ready degree s))
    drain-IsInStep (suc fuel) order (id ∷ ready) degree s o h =
        let first : used ns order id ≡ into ns id =
          ground (arith, s.pushed id, s.waits id, ==_refl id) in
        drain-IsInStep fuel (order ++ id ∷ []) _ _
          (release-IsInStep (adj id) (order ++ id ∷ []) ready degree
            (take_front id order ready degree s))
          (IsOrdered-snoc [] order id o first) (omega (arith, length-append order (id ∷ [])))

-- The queue that the loop starts from holds each node without dependencies once.
ready_from-count :
    (degree : ℕ → ℕ) (i n v : ℕ)
    → count v (ready_from degree i n)
      ≡ (if leb i v && (ltb v (i + n) && degree v == 0) then 1 else 0)
unfolding ready_from
ready_from-count degree i zero v = ground arith
ready_from-count degree i (suc n) v =
    ground (arith, ready_from-count degree (i + 1) n v, ==_iff i v)

pub start-IsInStep :
    (ns : List GraphNode) (n : ℕ) (degree : ℕ → ℕ)
    → ((v : ℕ) → degree v ≡ into ns v)
    → ((v : ℕ) → into ns v < u32_mod)
    → IsInStep ns n [] (ready_from degree 0 n) degree []
start-IsInStep ns n degree same small = record {
  waits = λ v. omega (arith, same v);
  small = λ v. omega (arith, same v, small v);
  pushed = λ v. ground (arith, ready_from-count degree 0 n v);
  counted = λ v. omega arith;
}
