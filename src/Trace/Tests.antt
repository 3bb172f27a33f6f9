-- ===== src/Trace/Tests.antt =====
-- A session of src/core/dx_trace_api.cpp, and the theorems at it.
use dx_ai_st.Base.{ℕ, ◌+◌, ◌≡◌, refl, false, [], ◌∷◌, ◌++◌, some, pos, minus, arith, map}
use dx_ai_st.Base.Text.{Text}
use dx_ai_st.Trace.{
  Session, Span, trace_wording, dx_trace_begin, dx_trace_end, dx_trace_export, json_escape, render,
  escape_byte,
}
use dx_ai_st.Trace.Escape.{unescape, unescape-json_escape}
use dx_ai_st.Trace.Export.{export_joined, joined, completed}
use dx_ai_st.Trace.Spans.{end-begin, finished}

abbrev gemm : Text
gemm = 103 ∷ 34 ∷ []

abbrev gpu : Text
gpu = 103 ∷ 112 ∷ 117 ∷ []

abbrev session : Session
session = record { name = gpu; events = [] }

-- A backslash is byte 92.
escaped_backslash : json_escape (92 ∷ 10 ∷ []) ≡ 92 ∷ 92 ∷ 92 ∷ 110 ∷ []
unfolding json_escape escape_byte
escaped_backslash = refl

unescape-json_escape_example : unescape false (json_escape gemm) ≡ some gemm
unescape-json_escape_example = unescape-json_escape gemm

end-begin_example :
    (mid last : Session) × (span done : Span) × (dx_trace_begin 5 1 session gpu gemm 9
      ≡ (pos 0, mid, some span))
    × (dx_trace_end 8 mid span ≡ (pos 0, last, done))
    × (last.events ≡ [] ++ finished gpu gemm 9 1 5 8 ∷ [])
    × (dx_trace_end 20 last done ≡ (minus 1, last, done))
end-begin_example = end-begin session gpu gemm 9 1 5 8 20 refl refl (omega arith) (omega arith)

abbrev decimal : ℕ → Text
decimal n = (48 + n) ∷ []

abbrev two_spans : Session
two_spans = record session { events = finished gpu gemm 1 1 5 8 ∷ finished gpu gpu 2 1 6 7 ∷ [] }

export_joined_example :
    dx_trace_export decimal trace_wording two_spans
    ≡ (trace_wording.head
        ++ joined (map (render decimal trace_wording) (completed two_spans.events)))
      ++ trace_wording.tail
export_joined_example = export_joined decimal trace_wording two_spans
