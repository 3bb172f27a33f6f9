-- ===== src/CApi/Device.antt =====
-- Devices and queues of src/core/dx_c_api.cpp. An operation of another interface gives an object exactly
-- where it returns 0, so the model looks at the object.
pub mod Ready
pub mod Queue
use dx_ai_st.Base.{
  ℕ, zero, suc, Bool, true, false, not, Option, none, some, ℤ, pos, minus, if◌then◌else◌, leb, ◌==◌,
}
use dx_ai_st.Memory.{Platform, Pool, dx_memory_pool_create, dx_memory_pool_create_for_native_device}
use dx_ai_st.Device.{
  DeviceInfo, DeviceManager, ManagerEnv, ExecutionDevice, dx12_backend, info_size,
  dx_device_manager_create, dx_device_manager_count, dx_device_manager_get_info,
  dx_device_manager_open, dx_execution_device_native_handle,
}
use dx_ai_st.Events.{
  Stream, CreateEnv, host_kind, dx_stream_create, dx_stream_create_for_native_device,
}
use dx_ai_st.CApi.{
  LastError, cleared, create_device_manager, create_device_index, create_device_open,
  create_device_pool, create_device_memory, get_info_argument, queue_stream, queue_memory, CDevice,
  CQueue, component_result, valid_header, invalid_argument, not_found, allocation_failed,
}

-- What the outside answers while a device is made; `object` is the address of the device object.
pub record DeviceEnv : Type 0 where
  pub manager : ManagerEnv
  pub creates : ℕ → Bool
  pub opens : Bool
  pub pool_memory : Bool
  pub pool_logger : ℤ
  pub object : Option ℕ

-- The status, the text of `dx_last_error` and the out parameter, where null stands for nothing.
abbrev pub Answer : Type 0 → Type 0
Answer A = ℤ × LastError × Option A

pub failure : {A : Type 0} → ℤ × LastError → Answer A
failure (code, error) = (code, error, none)

-- The fields are copied one by one; the texts have the same size.
abbrev pub c_info : DeviceInfo → DeviceInfo
c_info info = record info { struct_size = info_size; api_version = 1 }

pub create_object : DeviceEnv → DeviceInfo → ExecutionDevice → Pool → Answer CDevice
create_object env info execution pool = elim env.object [
  | none ↦ (allocation_failed, create_device_memory, none)
  | some address ↦ (
    pos 0,
    cleared,
    some (record { address = address; execution = execution; memory = pool; info = c_info info }),
  )
]

pub create_pool : Platform → DeviceEnv → Option ℕ → ℤ × Option Pool
create_pool platform env none = dx_memory_pool_create platform true env.pool_memory env.pool_logger
create_pool platform env (some native_device) =
    dx_memory_pool_create_for_native_device platform (some native_device) true env.pool_memory
      env.pool_logger

pub with_execution : Platform → DeviceEnv → DeviceInfo → ExecutionDevice → Answer CDevice
unfolding create_pool create_object failure component_result
with_execution platform env info execution =
    let (code, made) =
      create_pool platform env (dx_execution_device_native_handle platform execution) in
    elim made [
      | none ↦ failure (component_result code create_device_pool)
      | some pool ↦ create_object env info execution pool
    ]

pub with_info : Platform → DeviceEnv → DeviceManager → ℕ → DeviceInfo → Answer CDevice
unfolding with_execution failure component_result
with_info platform env manager index info =
    let (code, made) = dx_device_manager_open platform env.creates env.opens manager index in
    elim made [
      | none ↦ failure (component_result code create_device_open)
      | some execution ↦ with_execution platform env info execution
    ]

pub with_manager : Platform → DeviceEnv → ℕ → DeviceManager → Answer CDevice
unfolding with_info
with_manager platform env index manager =
    if leb (dx_device_manager_count manager) index
    then (not_found, create_device_index, none)
    else elim (dx_device_manager_get_info manager index info_size).1 [
      | none ↦ (not_found, create_device_index, none)
      | some info ↦ with_info platform env manager index info
    ]

-- With an out pointer; a null one is refused with -1.
unfoldable pub dx_create_device : Platform → DeviceEnv → ℕ → Answer CDevice
unfolding with_manager failure component_result
dx_create_device platform env index =
    let (code, made) = dx_device_manager_create platform env.manager in
    elim made [
      | none ↦ failure (component_result code create_device_manager)
      | some manager ↦ with_manager platform env index manager
    ]

-- The size and the version are those that the caller put into the out parameter.
pub dx_device_get_info : CDevice → ℕ → ℕ → ℤ × LastError × Option DeviceInfo
unfolding valid_header
dx_device_get_info device struct_size api_version =
    if valid_header struct_size api_version info_size
    then (pos 0, cleared, some device.info)
    else (invalid_argument, get_info_argument, none)

abbrev pub compute_kind : ℕ
compute_kind = 0

pub create_queue_stream : Platform → CreateEnv → ExecutionDevice → ℤ × Option Stream
create_queue_stream platform env execution =
    if execution.backend == dx12_backend
    then dx_stream_create_for_native_device platform env
        (dx_execution_device_native_handle platform execution) compute_kind
    else dx_stream_create env host_kind

-- `wrapper` is whether the queue object can be made.
unfoldable pub dx_device_queue : Platform → CreateEnv → Bool → CDevice → Answer CQueue
unfolding create_queue_stream failure component_result
dx_device_queue platform env wrapper device =
    let (code, made) = create_queue_stream platform env device.execution in
    elim made [
      | none ↦ failure (component_result code queue_stream)
      | some stream ↦
          if wrapper
          then (pos 0, cleared, some (record { device = device.address; stream = stream }))
          else (allocation_failed, queue_memory, none)
    ]
