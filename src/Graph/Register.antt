-- ===== src/Graph/Register.antt =====
-- The operator registry of src/core/dx_graph_api.cpp as a set of names that a freeze closes.
use dx_ai_st.Base.{
  ◌≡◌, refl, true, false, ◌||◌, ◌&&◌, pos, arith, Bool-cases, inl, inr, List, [], ◌∷◌,
}
use dx_ai_st.Base.Text.{Text, same_text, valid_text, same_text_eq}
use dx_ai_st.Graph.{
  Registry, contains, dx_operator_register, dx_operator_registry_freeze, dx_operator_is_registered,
}

-- A call on a registry.
pub data Call : Type 0 where
  register : Text → Call
  freeze : Call

pub apply : Registry → Call → Registry
unfolding dx_operator_register dx_operator_registry_freeze
apply r (register name) = (dx_operator_register r name).1
apply r freeze = (dx_operator_registry_freeze r).1

pub run : Registry → List Call → Registry
unfolding apply
run r [] = r
run r (c ∷ cs) = run (apply r c) cs

contains-register :
    (r : Registry) (name other : Text)
    → valid_text name ≡ true
    → r.frozen ≡ false
    → contains (dx_operator_register r name).1.operators other
      ≡ (same_text name other || contains r.operators other)
unfolding dx_operator_register contains
contains-register r name other v open' = elim (Bool-cases (contains r.operators name)) [
  | inl e ↦ elim (Bool-cases (same_text name other)) [
    | inl s ↦ let same = same_text_eq name other s in rw (v, open', e, s) (rw same at e)
    | inr s ↦ rw (v, open', e, s)
  ]
  | inr e ↦ rw (v, open', e)
]

register_code :
    (r : Registry) (name : Text)
    → valid_text name ≡ true
    → r.frozen ≡ false
    → (dx_operator_register r name).0 ≡ pos 0
unfolding dx_operator_register
register_code r name v o = ground arith

-- While the registry is open, registering a valid name returns 0, and afterwards exactly that name
-- is registered besides those that were, however often it is done.
pub is_registered-register :
    (r : Registry) (name other : Text)
    → valid_text name ≡ true
    → r.frozen ≡ false
    → ((dx_operator_register r name).0 ≡ pos 0)
      × (dx_operator_is_registered (dx_operator_register r name).1 other
          ≡ (valid_text other && (same_text name other || contains r.operators other)))
unfolding dx_operator_is_registered
is_registered-register r name other v open' =
    (register_code r name v open', rw (contains-register r name other v open'))

apply_frozen : (r : Registry) (c : Call) → r.frozen ≡ true → apply r c ≡ r
unfolding apply dx_operator_register dx_operator_registry_freeze
apply_frozen r (register name) f = ground arith
apply_frozen r freeze f = ground arith

-- A frozen registry is final: no sequence of calls changes it.
pub run_frozen : (r : Registry) (cs : List Call) → r.frozen ≡ true → run r cs ≡ r
unfolding run
run_frozen r [] f = refl
run_frozen r (c ∷ cs) f = rw (apply_frozen r c f) (run_frozen r cs f)
