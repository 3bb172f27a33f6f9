-- ===== src/Events.antt =====
-- src/core/dx_stream_api.cpp: streams that number the events recorded on them, and waiting for an
-- event. A stream with a Direct3D queue completes an event through a fence, any other at once. The
-- device's answers are arguments; null handles are refused with -1 (0) and not given here, and that
-- the text of a log line finds no memory is not modelled.
pub mod Sequence
mod Tests
use dx_ai_st.Base.{
  ℕ, ◌+◌, ◌%◌, Bool, true, false, ◌&&◌, not, Option, none, some, List, [], ◌∷◌, ℤ, pos, minus,
  if◌then◌else◌, ◌-◌, ltb, leb, ◌==◌, u64_mod, u32_mod,
}
use dx_ai_st.Memory.{Platform, windows, posix}

-- dx_stream_kind_t: DX_STREAM_HOST is the last one.
abbrev pub host_kind : ℕ
host_kind = 3

-- dx_stream_t; `queue` is whether it has a device and a queue.
pub record Stream : Type 0 where
  pub kind : ℕ
  pub next_sequence : ℕ
  pub queue : Bool

-- dx_event_t; `fence` is whether it has a fence and a handle.
pub record Event : Type 0 where
  pub sequence : ℕ
  pub complete : Bool
  pub fence : Bool

-- Whether `make_unique`, the logger and `CreateCommandQueue` succeed.
pub record CreateEnv : Type 0 where
  pub memory : Bool
  pub logger : Bool
  pub queue : Bool

-- `native_device` is whether a device is given to a Windows build.
unfoldable pub create_stream_internal : CreateEnv → Bool → ℕ → ℤ × Option Stream
create_stream_internal env native_device kind =
    if ltb host_kind kind
    then (minus 1, none)
    else if not env.memory
    then (minus 4, none)
    else if not env.logger
    then (minus 2, none)
    else if not (native_device && not (kind == host_kind))
    then (pos 0, some (record { kind = kind; next_sequence = 1; queue = false }))
    else if not env.queue
    then (minus 3, none)
    else (pos 0, some (record { kind = kind; next_sequence = 1; queue = true }))

unfoldable pub dx_stream_create : CreateEnv → ℕ → ℤ × Option Stream
unfolding create_stream_internal
dx_stream_create env kind = create_stream_internal env false kind

unfoldable pub dx_stream_create_for_native_device :
    Platform → CreateEnv → Option ℕ → ℕ → ℤ × Option Stream
unfolding create_stream_internal
dx_stream_create_for_native_device windows env none kind = (minus 1, none)
dx_stream_create_for_native_device windows env (some device) kind =
    create_stream_internal env true kind
dx_stream_create_for_native_device posix env device kind = create_stream_internal env false kind

-- Which calls of `dx_stream_record_event` succeed.
pub record RecordEnv : Type 0 where
  pub memory : Bool
  pub fence : Bool
  pub handle : Bool
  pub signal : Bool

-- A number that was taken is not given back when a later call fails.
pub dx_stream_record_event : RecordEnv → Stream → ℤ × Stream × Option Event
dx_stream_record_event env stream =
    if not env.memory
    then (minus 5, stream, none)
    else if not stream.queue
    then (pos 0, taken, some (record { sequence = number; complete = true; fence = false }))
    else if not env.fence
    then (minus 2, taken, none)
    else if not env.handle
    then (minus 3, taken, none)
    else if not env.signal
    then (minus 4, taken, none)
    else (pos 0, taken, some (record { sequence = number; complete = false; fence = true }))
  where
    number : ℕ
    number = stream.next_sequence

    taken : Stream
    taken = record stream { next_sequence = (stream.next_sequence + 1) % u64_mod }

-- What `WaitForSingleObject` answers.
pub data Waited : Type 0 where
  object timeout other : Waited

-- The fence's value at the call, whether `SetEventOnCompletion` succeeds, and how a wait for the
-- fence's handle ends, if it ends.
pub record WaitEnv : Type 0 where
  pub completed : ℕ
  pub registers : Bool
  pub waited : Waited

abbrev pub forever : ℕ
forever = u32_mod - 1

-- `none` is a call that does not return: nothing completes the event any more.
pub dx_event_wait : WaitEnv → Event → ℕ → Option ℤ
dx_event_wait env event timeout_ms =
    if event.fence
    then (if leb event.sequence env.completed
        then some (pos 0)
        else if not env.registers
        then some (minus 2)
        else some (elim env.waited [ object ↦ pos 0 | timeout ↦ pos 1 | other ↦ minus 3 ]))
    else if event.complete
    then some (pos 0)
    else if timeout_ms == forever
    then none
    else some (pos 1)

pub dx_event_is_complete : ℕ → Event → Bool
dx_event_is_complete completed event =
    if event.fence then leb event.sequence completed else event.complete
