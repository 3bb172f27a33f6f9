-- ===== src/Trace.antt =====
-- src/core/dx_trace_api.cpp: spans of work that are recorded and exported as JSON. An event is known
-- by its place in the session, a text is a list of bytes. The clock (`now`, microseconds since the
-- session began), the thread id and the decimal print of a number come from outside. That memory
-- runs out is not modelled.
pub mod Spans
pub mod Escape
pub mod Export
mod Tests
use dx_ai_st.Base.{
  ℕ, ◌+◌, ◌-◌, ◌%◌, Bool, true, false, ◌||◌, not, Option, none, some, List, [], ◌∷◌, ◌++◌, ℤ, pos,
  minus, if◌then◌else◌, ◌==◌, u64_mod, length, get_elem?, set,
}
use dx_ai_st.Base.Text.{Text, valid_text}

-- dx_trace_event_t
pub record Event : Type 0 where
  pub category : Text
  pub name : Text
  pub request_id : ℕ
  pub thread_id : ℕ
  pub begin_us : ℕ
  pub duration_us : ℕ
  pub complete : Bool

-- dx_trace_session_t
pub record Session : Type 0 where
  pub name : Text
  pub events : List Event

-- dx_trace_span_t: the event is its place in the session.
pub record Span : Type 0 where
  pub event : ℕ
  pub ended : Bool

-- A null out pointer or a logger that fails is refused; here both are in order.
pub dx_trace_session_create : Text → ℤ × Option Session
dx_trace_session_create name =
    if not (valid_text name)
    then (minus 1, none)
    else (pos 0, some (record { name = name; events = [] }))

pub dx_trace_begin : ℕ → ℕ → Session → Text → Text → ℕ → ℤ × Session × Option Span
dx_trace_begin now thread session category name request_id =
    if not (valid_text category) || not (valid_text name) then (minus 1, session, none) else (
      pos 0,
      record session {
        events =
            session.events
            ++ record {
              category = category;
              name = name;
              request_id = request_id;
              thread_id = thread;
              begin_us = now;
              duration_us = 0;
              complete = false;
            }
              ∷ [];
      },
      some (record { event = length session.events; ended = false }),
    )

pub end_event : ℕ → Session → Span → Event → ℤ × Session × Span
end_event now session span e = if e.complete then (minus 2, session, span) else (
  pos 0,
  record session {
    events =
        set session.events span.event
          (record e { duration_us = (now + u64_mod - e.begin_us) % u64_mod; complete = true });
  },
  record span { ended = true },
)

-- A span of another session is a stray pointer, and is not met.
pub dx_trace_end : ℕ → Session → Span → ℤ × Session × Span
unfolding end_event
dx_trace_end now session span =
    if span.ended then (minus 1, session, span) else elim (get_elem? session.events span.event) [
      | none ↦ (minus 1, session, span)
      | some e ↦ end_event now session span e
    ]

pub escape_byte : ℕ → Text
escape_byte ch =
    if ch == b'\\'
    then b'\\' ∷ b'\\' ∷ []
    else if ch == 34
    then b'\\' ∷ 34 ∷ []
    else if ch == 10
    then b'\\' ∷ b'n' ∷ []
    else if ch == 13
    then b'\\' ∷ b'r' ∷ []
    else ch ∷ []

pub json_escape : Text → Text
unfolding escape_byte
json_escape [] = []
json_escape (ch ∷ value) = escape_byte ch ++ json_escape value

-- The pieces of literal text of `dx_trace_export`.
pub record Wording : Type 0 where
  pub head : Text
  pub name : Text
  pub category : Text
  pub begin : Text
  pub duration : Text
  pub thread : Text
  pub request : Text
  pub close : Text
  pub tail : Text

-- The pieces that the source writes, byte by byte.
abbrev pub trace_wording : Wording
trace_wording = record {
  head =
      123 ∷ 34 ∷ 116 ∷ 114 ∷ 97 ∷ 99 ∷ 101 ∷ 69 ∷ 118 ∷ 101 ∷ 110 ∷ 116 ∷ 115 ∷ 34 ∷ 58 ∷ 91 ∷ [];
  name = 123 ∷ 34 ∷ 110 ∷ 97 ∷ 109 ∷ 101 ∷ 34 ∷ 58 ∷ 34 ∷ [];
  category = 34 ∷ 44 ∷ 34 ∷ 99 ∷ 97 ∷ 116 ∷ 34 ∷ 58 ∷ 34 ∷ [];
  begin = 34 ∷ 44 ∷ 34 ∷ 112 ∷ 104 ∷ 34 ∷ 58 ∷ 34 ∷ 88 ∷ 34 ∷ 44 ∷ 34 ∷ 116 ∷ 115 ∷ 34 ∷ 58 ∷ [];
  duration = 44 ∷ 34 ∷ 100 ∷ 117 ∷ 114 ∷ 34 ∷ 58 ∷ [];
  thread = 44 ∷ 34 ∷ 112 ∷ 105 ∷ 100 ∷ 34 ∷ 58 ∷ 49 ∷ 44 ∷ 34 ∷ 116 ∷ 105 ∷ 100 ∷ 34 ∷ 58 ∷ [];
  request =
      44 ∷ 34 ∷ 97 ∷ 114 ∷ 103 ∷ 115 ∷ 34 ∷ 58 ∷ 123 ∷ 34 ∷ 114 ∷ 101 ∷ 113 ∷ 117 ∷ 101 ∷ 115 ∷ 116
      ∷ 95 ∷ 105 ∷ 100 ∷ 34 ∷ 58 ∷ [];
  close = 125 ∷ 125 ∷ [];
  tail = 93 ∷ 125 ∷ 10 ∷ [];
}

module _ (decimal : ℕ → Text) (w : Wording) where
  pub render : Event → Text
  unfolding json_escape
  render e =
      w.name
      ++ (json_escape e.name
          ++ (w.category
              ++ (json_escape e.category
                  ++ (w.begin
                      ++ (decimal e.begin_us
                          ++ (w.duration
                              ++ (decimal e.duration_us
                                  ++ (w.thread
                                      ++ (decimal e.thread_id
                                          ++ (w.request
                                              ++ (decimal e.request_id ++ w.close)))))))))))

  -- The loop of `dx_trace_export`, with its flag `first`.
  pub export_loop : Bool → List Event → Text → Text
  unfolding render
  export_loop first [] output = output
  export_loop first (e ∷ events) output =
      if not e.complete
      then export_loop first events output
      else export_loop false events ((if first then output else output ++ b',' ∷ []) ++ render e)

  -- What the file holds, where it could be opened and written.
  pub dx_trace_export : Session → Text
  unfolding export_loop
  dx_trace_export session = export_loop true session.events w.head ++ w.tail

pub dx_trace_event_count : Session → ℕ
dx_trace_event_count session = length session.events
