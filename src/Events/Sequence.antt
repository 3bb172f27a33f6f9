-- ===== src/Events/Sequence.antt =====
-- The numbers of the events of a stream (src/core/dx_stream_api.cpp), and waiting for them.
use dx_ai_st.Base.{
  ℕ, ◌+◌, ◌≤◌, ◌<◌, ◌≡◌, refl, true, false, Option, none, some, List, [], ◌∷◌, pos, arith, u64_mod,
  length, ap, ◌∙◌, subst, sym,
}
use dx_ai_st.Events.{
  Stream, Event, RecordEnv, WaitEnv, dx_stream_record_event, dx_event_wait, dx_event_is_complete,
}

-- The stream after a number of records, and the events that came out, the first one first.
unfoldable pub record_all : List RecordEnv → Stream → List Event
record_all [] stream = []
record_all (env ∷ envs) stream =
    let r = dx_stream_record_event env stream in
    elim r.2 [ none ↦ record_all envs r.1 | some e ↦ e ∷ record_all envs r.1 ]

-- The numbers rise along the list, and each is `low` or above.
abbrev pub Rising : ℕ → List Event → Type 0
Rising low [] = Unit
Rising low (e ∷ es) = (low ≤ e.sequence) × Rising (e.sequence + 1) es

Rising-mono : (m n : ℕ) (es : List Event) → m ≤ n → Rising n es → Rising m es
Rising-mono m n [] h r = tt
Rising-mono m n (e ∷ es) h r = (omega arith, r.1)

-- One record: the number moves on by one at most, and an event takes the number there was.
record_step :
    (env : RecordEnv) (stream : Stream)
    → stream.next_sequence + 1 < u64_mod
    → let r = dx_stream_record_event env stream in
      (stream.next_sequence ≤ r.1.next_sequence)
      × (r.1.next_sequence ≤ stream.next_sequence + 1)
      × ((e : Event)
          → r.2 ≡ some e
          → (e.sequence ≡ stream.next_sequence) × (r.1.next_sequence ≡ stream.next_sequence + 1))
unfolding dx_stream_record_event
record_step env stream h = (ground arith, ground arith, λ e p. (ground arith, ground arith))

-- The list that begins with the event of a record, if there is one.
Rising-cons :
    (low next : ℕ) (o : Option Event) (rest : List Event)
    → low ≤ next
    → ((e : Event) → o ≡ some e → (e.sequence ≡ low) × (next ≡ low + 1))
    → Rising next rest
    → Rising low (elim o [ none ↦ rest | some e ↦ e ∷ rest ])
Rising-cons low next none rest h step r = Rising-mono low next rest h r
Rising-cons low next (some e) rest h step r =
    let (at, on) = step e refl in
    (omega arith, subst (λ n. Rising n rest) (on ∙ ap (λ n. n + 1) (sym at)) r)

-- However many events are recorded on a stream, and whichever records fail, the numbers of those
-- that succeed rise strictly, so no two events of a stream share a number. The counter has not
-- reached 2 ^ 64.
pub record_all-Rising :
    (envs : List RecordEnv) (stream : Stream)
    → stream.next_sequence + length envs < u64_mod
    → Rising stream.next_sequence (record_all envs stream)
unfolding record_all
record_all-Rising [] stream h = tt
record_all-Rising (env ∷ envs) stream h =
    let r = dx_stream_record_event env stream in
    let st = record_step env stream (omega arith) in
    let rest = record_all-Rising envs r.1 (omega arith) in
    Rising-cons stream.next_sequence r.1.next_sequence r.2 (record_all envs r.1) st.0 st.2 rest

-- A stream without a queue completes its events at once: where a record returns 0, waiting for the
-- event returns 0 for any timeout, whatever else happens, and the event counts as complete.
pub wait-record_host :
    (env : RecordEnv) (wait : WaitEnv) (stream next : Stream) (e : Event) (timeout_ms completed : ℕ)
    → stream.queue ≡ false
    → dx_stream_record_event env stream ≡ (pos 0, next, some e)
    → (dx_event_wait wait e timeout_ms ≡ some (pos 0)) × (dx_event_is_complete completed e ≡ true)
unfolding dx_stream_record_event dx_event_wait dx_event_is_complete
wait-record_host env wait stream next e timeout_ms completed q r = ground arith

-- An event recorded on a stream with a queue counts as complete exactly when the fence has come to
-- the number that the stream had at the record, and a wait for it then returns 0 for any timeout.
pub wait-record_queue :
    (env : RecordEnv) (wait : WaitEnv) (stream next : Stream) (e : Event) (timeout_ms : ℕ)
    → stream.queue ≡ true
    → dx_stream_record_event env stream ≡ (pos 0, next, some e)
    → ((dx_event_is_complete wait.completed e ≡ true) → stream.next_sequence ≤ wait.completed)
      × (stream.next_sequence ≤ wait.completed
          → (dx_event_is_complete wait.completed e ≡ true)
            × (dx_event_wait wait e timeout_ms ≡ some (pos 0)))
unfolding dx_stream_record_event dx_event_wait dx_event_is_complete
wait-record_queue env wait stream next e timeout_ms q r =
    (λ h. ground arith, λ h. (ground arith, ground arith))
