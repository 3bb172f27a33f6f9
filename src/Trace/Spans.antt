-- ===== src/Trace/Spans.antt =====
-- The life of a span of src/core/dx_trace_api.cpp.
use dx_ai_st.Base.{
  ℕ, ◌+◌, ◌-◌, ◌%◌, ◌≤◌, ◌<◌, ◌≡◌, refl, ap, true, false, some, List, [], ◌∷◌, ◌++◌, pos, minus,
  arith, u64_mod, length, get_elem?, set,
}
use dx_ai_st.Base.Text.{Text, valid_text}
use dx_ai_st.Trace.{Event, Session, Span, dx_trace_begin, dx_trace_end, end_event}

-- The event that `dx_trace_begin` records and `dx_trace_end` finishes.
abbrev pub finished : Text → Text → ℕ → ℕ → ℕ → ℕ → Event
finished category name request_id thread began now = record {
  category = category;
  name = name;
  request_id = request_id;
  thread_id = thread;
  begin_us = began;
  duration_us = now - began;
  complete = true;
}

get_elem?-append_end : (es : List Event) (e : Event) → get_elem? (es ++ e ∷ []) (length es) ≡ some e
get_elem?-append_end [] e = refl
get_elem?-append_end (x ∷ es) e = get_elem?-append_end es e

set-append_end : (es : List Event) (e f : Event) → set (es ++ e ∷ []) (length es) f ≡ es ++ f ∷ []
set-append_end [] e f = refl
set-append_end (x ∷ es) e f = ap (◌∷◌ x) (set-append_end es e f)

abbrev begun : Text → Text → ℕ → ℕ → ℕ → Event
begun category name request_id thread began = record {
  category = category;
  name = name;
  request_id = request_id;
  thread_id = thread;
  begin_us = began;
  duration_us = 0;
  complete = false;
}

begin_lem :
    (session : Session) (category name : Text) (request_id thread began : ℕ)
    → valid_text category ≡ true
    → valid_text name ≡ true
    → dx_trace_begin began thread session category name request_id ≡ (
      pos 0,
      record session {
        events = session.events ++ begun category name request_id thread began ∷ [];
      },
      some (record { event = length session.events; ended = false }),
    )
unfolding dx_trace_begin
begin_lem session category name request_id thread began vc vn = rw (vc, vn)

end_lem :
    (session : Session) (category name : Text) (request_id thread began now : ℕ)
    → began ≤ now
    → now < u64_mod
    → dx_trace_end now
        (record session {
          events = session.events ++ begun category name request_id thread began ∷ [];
        })
        (record { event = length session.events; ended = false })
      ≡ (
        pos 0,
        record session {
          events = session.events ++ finished category name request_id thread began now ∷ [];
        },
        record { event = length session.events; ended = true },
      )
unfolding dx_trace_end end_event
end_lem session category name request_id thread began now le lt =
    let e = begun category name request_id thread began in
    let span : (now + u64_mod - began) % u64_mod ≡ now - began = omega arith in
    rw (get_elem?-append_end session.events e, dx_trace_end)
      (rw
        (set-append_end session.events e
          (record e { duration_us = (now + u64_mod - began) % u64_mod; complete = true }))
        (rw span))

-- A span that is begun with usable texts can be ended, at a clock that did not go back: both calls
-- return 0, and together they add one event to the session, complete, with the time between them;
-- all earlier events stay as they are. Ending the span again returns -1 and changes nothing.
pub end-begin :
    (session : Session) (category name : Text) (request_id thread began now later : ℕ)
    → valid_text category ≡ true
    → valid_text name ≡ true
    → began ≤ now
    → now < u64_mod
    → (mid last : Session) × (span done : Span) × (dx_trace_begin began thread session category name
          request_id
        ≡ (pos 0, mid, some span))
      × (dx_trace_end now mid span ≡ (pos 0, last, done))
      × (last.events ≡ session.events ++ finished category name request_id thread began now ∷ [])
      × (dx_trace_end later last done ≡ (minus 1, last, done))
unfolding dx_trace_end
end-begin session category name request_id thread began now later vc vn le lt = (
  record session { events = session.events ++ begun category name request_id thread began ∷ [] },
  record session {
    events = session.events ++ finished category name request_id thread began now ∷ [];
  },
  record { event = length session.events; ended = false },
  record { event = length session.events; ended = true },
  begin_lem session category name request_id thread began vc vn,
  end_lem session category name request_id thread began now le lt,
  refl,
  refl,
)
