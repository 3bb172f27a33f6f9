-- ===== src/CApi/Device/Queue.antt =====
-- The queue of a device of src/core/dx_c_api.cpp.
use dx_ai_st.Base.{ℕ, ◌≡◌, refl, true, false, none, some, pos, arith}
use dx_ai_st.Memory.{windows}
use dx_ai_st.Device.{cpu_backend, dx12_backend, dx_execution_device_native_handle}
use dx_ai_st.Events.{
  CreateEnv, host_kind, create_stream_internal, dx_stream_create,
  dx_stream_create_for_native_device,
}
use dx_ai_st.CApi.{cleared, CDevice, CQueue}
use dx_ai_st.CApi.Device.{compute_kind, create_queue_stream, dx_device_queue}

-- The execution device and the memory pool of a device are on the same hardware.
pub data Hardware : CDevice → Type 0 where
  on_cpu :
      {d : CDevice}
      → d.execution.backend ≡ cpu_backend
      → d.execution.dx12_device ≡ none
      → d.memory.device ≡ none
      → Hardware d
  on_adapter :
      {d : CDevice} (a : ℕ)
      → d.execution.backend ≡ dx12_backend
      → d.execution.dx12_device ≡ some a
      → d.memory.device ≡ some a
      → Hardware d

-- A stream of Direct3D where the memory is on an adapter, and a host stream where it is not.
abbrev pub Serves : CDevice → CQueue → Type 0
Serves d q = elim d.memory.device [
  | none ↦ (q.stream.kind ≡ host_kind) × (q.stream.queue ≡ false)
  | some a ↦ (q.stream.kind ≡ compute_kind) × (q.stream.queue ≡ true)
]

-- On Windows, where memory, logger and `CreateCommandQueue` succeed, a device whose parts are on the same
-- hardware gets a queue of its own: a compute stream with a command queue if the device's memory is on an
-- adapter, and a host stream with none if it is not.
pub device_queue-Serves :
    (env : CreateEnv) (d : CDevice)
    → env.memory ≡ true
    → env.logger ≡ true
    → env.queue ≡ true
    → Hardware d
    → (q : CQueue) × (dx_device_queue windows env true d ≡ (pos 0, cleared, some q))
      × (q.device ≡ d.address)
      × Serves d q
unfolding dx_device_queue create_queue_stream create_stream_internal dx_stream_create
    dx_stream_create_for_native_device dx_execution_device_native_handle
device_queue-Serves env d m l n (on_cpu b e p) = (
  record {
    device = d.address;
    stream = record { kind = host_kind; next_sequence = 1; queue = false };
  },
  ground (arith, m, l, n, b, e),
  refl,
  rw p (refl, refl),
)
device_queue-Serves env d m l n (on_adapter a b e p) = (
  record {
    device = d.address;
    stream = record { kind = compute_kind; next_sequence = 1; queue = true };
  },
  ground (arith, m, l, n, b, e),
  refl,
  rw p (refl, refl),
)
