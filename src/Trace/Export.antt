-- ===== src/Trace/Export.antt =====
-- The export of src/core/dx_trace_api.cpp against a plain description of the file.
use dx_ai_st.Base.{
  ℕ, ◌≡◌, sym, ap, ◌∙◌, true, false, List, [], ◌∷◌, ◌++◌, if◌then◌else◌, map, append_assoc,
  append-nil, Bool-cases, inl, inr,
}
use dx_ai_st.Base.Text.{Text}
use dx_ai_st.Trace.{Event, Session, Wording, render, export_loop, dx_trace_export}

-- The events that are complete, in order.
pub completed : List Event → List Event
completed [] = []
completed (e ∷ es) = if e.complete then e ∷ completed es else completed es

-- Texts with a comma before each.
pub each_after_comma : List Text → Text
each_after_comma [] = []
each_after_comma (t ∷ ts) = b',' ∷ (t ++ each_after_comma ts)

-- Texts with a comma between any two.
pub joined : List Text → Text
unfolding each_after_comma
joined [] = []
joined (t ∷ ts) = t ++ each_after_comma ts

module _ (decimal : ℕ → Text) (w : Wording) where
  rest_of_loop :
      (es : List Event) (output : Text)
      → export_loop decimal w false es output
        ≡ output ++ each_after_comma (map (render decimal w) (completed es))
  unfolding export_loop completed each_after_comma
  rest_of_loop [] output = sym (append-nil output)
  rest_of_loop (e ∷ es) output = elim (Bool-cases e.complete) [
    | inl c ↦
        simp c (rest_of_loop es ((output ++ b',' ∷ []) ++ render decimal w e) ∙ simp append_assoc)
    | inr c ↦ simp c (rest_of_loop es output)
  ]

  whole_loop :
      (es : List Event) (output : Text)
      → export_loop decimal w true es output
        ≡ output ++ joined (map (render decimal w) (completed es))
  unfolding export_loop completed joined
  whole_loop [] output = sym (append-nil output)
  whole_loop (e ∷ es) output = elim (Bool-cases e.complete) [
    | inl c ↦ simp c (rest_of_loop es (output ++ render decimal w e) ∙ simp append_assoc)
    | inr c ↦ simp c (whole_loop es output)
  ]

-- The file holds the head, then exactly the complete events, in the order in which they began, with
-- a comma between any two and none before the first or behind the last, then the tail.
pub export_joined :
    (decimal : ℕ → Text) (w : Wording) (session : Session)
    → dx_trace_export decimal w session
      ≡ (w.head ++ joined (map (render decimal w) (completed session.events))) ++ w.tail
unfolding dx_trace_export
export_joined decimal w session =
    ap (λ (t : Text). t ++ w.tail) (whole_loop decimal w session.events w.head)
