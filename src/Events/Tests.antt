-- ===== src/Events/Tests.antt =====
-- A stream of src/core/dx_stream_api.cpp without a queue and one with a queue, and the theorems at
-- them.
use dx_ai_st.Base.{◌≤◌, ◌≡◌, refl, true, false, [], ◌∷◌, some, pos, arith}
use dx_ai_st.Events.{
  Stream, Event, RecordEnv, WaitEnv, timeout, dx_stream_record_event, dx_event_wait,
  dx_event_is_complete, create_stream_internal,
}
use dx_ai_st.Events.Sequence.{record_all, Rising, record_all-Rising, wait-record_queue}

abbrev queued : Stream
queued = record { kind = 0; next_sequence = 1; queue = true }

abbrev host : Stream
host = record { kind = 3; next_sequence = 1; queue = false }

abbrev works : RecordEnv
works = record { memory = true; fence = true; handle = true; signal = true }

abbrev no_signal : RecordEnv
no_signal = record works { signal = false }

abbrev behind : WaitEnv
behind = record { completed = 0; registers = true; waited = timeout }

created :
    create_stream_internal (record { memory = true; logger = true; queue = true }) true 0
    ≡ (pos 0, some queued)
unfolding create_stream_internal
created = refl

-- The second record fails after it took its number.
three_records :
    record_all (works ∷ no_signal ∷ works ∷ []) queued
    ≡ record { sequence = 1; complete = false; fence = true }
      ∷ record { sequence = 3; complete = false; fence = true }
      ∷ []
unfolding record_all dx_stream_record_event
three_records = refl

record_all-Rising_example : Rising 1 (record_all (works ∷ no_signal ∷ works ∷ []) queued)
record_all-Rising_example = record_all-Rising (works ∷ no_signal ∷ works ∷ []) queued (omega arith)

host_records : dx_stream_record_event works host ≡ (
  pos 0,
  record host { next_sequence = 2 },
  some (record { sequence = 1; complete = true; fence = false }),
)
unfolding dx_stream_record_event
host_records = refl

queue_records : dx_stream_record_event works queued ≡ (
  pos 0,
  record queued { next_sequence = 2 },
  some (record { sequence = 1; complete = false; fence = true }),
)
unfolding dx_stream_record_event
queue_records = refl

wait-record_queue_example :
    let e : Event = record { sequence = 1; complete = false; fence = true } in
    ((dx_event_is_complete behind.completed e ≡ true) → 1 ≤ behind.completed)
    × (1 ≤ behind.completed
        → (dx_event_is_complete behind.completed e ≡ true)
          × (dx_event_wait behind e 7 ≡ some (pos 0)))
wait-record_queue_example =
    wait-record_queue works behind queued (record queued { next_sequence = 2 })
      (record { sequence = 1; complete = false; fence = true }) 7 refl queue_records
