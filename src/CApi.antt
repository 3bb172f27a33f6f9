-- ===== src/CApi.antt =====
-- src/core/dx_c_api.cpp: the flat C interface over the device, memory, stream and operator interfaces.
-- A device owns its memory pool, a buffer holds a handle of that pool, and each call sets the text that
-- `dx_last_error` gives. Objects are known by their addresses.
pub mod Device
pub mod Buffer
pub mod Transfer
pub mod Operators
mod Tests
use dx_ai_st.Base.{
  ℕ, zero, suc, Bool, ◌&&◌, Option, none, some, ℤ, pos, minus, leb, ◌==◌, u32_mod, ◌-◌,
  if◌then◌else◌,
}
use dx_ai_st.Memory.{Pool, Allocation}
use dx_ai_st.Device.{DeviceInfo, ExecutionDevice}
use dx_ai_st.Events.{Stream}

-- dx_c_status_t
abbrev pub invalid_argument : ℤ
invalid_argument = minus 1

abbrev pub not_found : ℤ
not_found = minus 2

abbrev pub allocation_failed : ℤ
allocation_failed = minus 3

abbrev pub dependency_failed : ℤ
dependency_failed = minus 4

abbrev pub unsupported : ℤ
unsupported = minus 6

abbrev pub device_error : ℤ
device_error = minus 7

abbrev pub internal_error : ℤ
internal_error = minus 8

-- What `last_error` holds: nothing, or a text by the function and the reason that it names.
pub data LastError : Type 0 where
  cleared : LastError
  create_device_out_is_null create_device_manager create_device_index create_device_open : LastError
  create_device_pool create_device_memory : LastError
  get_info_argument : LastError
  queue_argument queue_stream queue_memory : LastError
  create_buffer_argument create_buffer_location create_buffer_memory : LastError
  upload_argument upload_range upload_unavailable upload_failed : LastError
  download_argument download_range download_unavailable download_failed : LastError
  copy_queue copy_failed fill_queue fill_failed gemm_queue gemm_failed : LastError

-- dx_device_s
pub record CDevice : Type 0 where
  pub address : ℕ
  pub execution : ExecutionDevice
  pub memory : Pool
  pub info : DeviceInfo

-- dx_queue_s
pub record CQueue : Type 0 where
  pub device : ℕ
  pub stream : Stream

-- dx_buffer_s
pub record CBuffer : Type 0 where
  pub device : ℕ
  pub allocation : Option ℕ

pub component_result : ℤ → LastError → ℤ × LastError
component_result (pos zero) operation = (pos 0, cleared)
component_result (ℤ.negsuc zero) operation = (invalid_argument, operation)
component_result (ℤ.negsuc (suc (suc zero))) operation = (allocation_failed, operation)
component_result _ operation = (dependency_failed, operation)

pub operator_result : ℤ → LastError → ℤ × LastError
operator_result (pos zero) operation = (pos 0, cleared)
operator_result (ℤ.negsuc zero) operation = (invalid_argument, operation)
operator_result (ℤ.negsuc (suc zero)) operation = (invalid_argument, operation)
operator_result _ operation = (internal_error, operation)

pub valid_header : ℕ → ℕ → ℕ → Bool
valid_header struct_size api_version expected_size =
    leb expected_size struct_size && api_version == 1

abbrev pub no_location : ℕ
no_location = u32_mod - 1

-- DX_C_BUFFER_DEFAULT, UPLOAD and READBACK to DX_MEMORY_DEVICE, UPLOAD and READBACK
unfoldable pub map_location : ℕ → ℕ
map_location location =
    if location == 1
    then 3
    else if location == 2
    then 1
    else if location == 3
    then 2
    else no_location
