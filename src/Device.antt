-- ===== src/Device.antt =====
-- src/core/dx_device_api.cpp: the adapters that DXGI enumerates and the CPU behind them. What DXGI and
-- Direct3D answer is an argument; an enumeration ends, and null handles are not given.
pub mod Manager
pub mod Listed
mod Tests
use dx_ai_st.Base.{
  ℕ, ◌%◌, Bool, true, false, not, Option, none, some, List, [], ◌∷◌, ◌++◌, ℤ, pos, minus,
  if◌then◌else◌, ltb, leb, ◌==◌, u32_mod, length, get_elem?,
}
use dx_ai_st.Base.Text.{Text}
use dx_ai_st.Memory.{Platform, windows, posix}

-- dx_device_backend_t
abbrev pub unknown_backend : ℕ
unknown_backend = 0

abbrev pub dx12_backend : ℕ
dx12_backend = 1

abbrev pub cpu_backend : ℕ
cpu_backend = 2

-- COMPUTE and FP16, and CPU_REFERENCE, of dx_device_capability_t.
abbrev pub dx12_capabilities : ℕ
dx12_capabilities = 3

abbrev pub cpu_reference : ℕ
cpu_reference = 2147483648

abbrev pub info_size : ℕ
info_size = 184

-- dx_device_info_t
pub record DeviceInfo : Type 0 where
  pub struct_size : ℕ
  pub api_version : ℕ
  pub backend : ℕ
  pub vendor_id : ℕ
  pub device_id : ℕ
  pub capabilities : ℕ
  pub is_software : ℕ
  pub dedicated_video_memory : ℕ
  pub dedicated_system_memory : ℕ
  pub shared_system_memory : ℕ
  pub name : Text

-- dx_device_manager_t; an adapter is a number.
pub record DeviceManager : Type 0 where
  pub devices : List DeviceInfo
  pub adapters : List ℕ

-- DXGI_ADAPTER_DESC3; `name` is what the conversion to UTF-8 gives, empty where it fails.
pub record AdapterDesc : Type 0 where
  pub adapter : ℕ
  pub software : Bool
  pub vendor_id : ℕ
  pub device_id : ℕ
  pub video_memory : ℕ
  pub system_memory : ℕ
  pub shared_memory : ℕ
  pub name : Text

-- What the enumeration answers at an index: an adapter with its description, or a failure of
-- `EnumAdapterByGpuPreference` or of `GetDesc3`.
pub data Enumerated : Type 0 where
  failed : Enumerated
  found : AdapterDesc → Enumerated

-- "CPU reference backend"
abbrev pub cpu_name : Text
cpu_name =
    67 ∷ 80 ∷ 85 ∷ 32 ∷ 114 ∷ 101 ∷ 102 ∷ 101 ∷ 114 ∷ 101 ∷ 110 ∷ 99 ∷ 101 ∷ 32 ∷ 98 ∷ 97 ∷ 99 ∷ 107
    ∷ 101 ∷ 110 ∷ 100 ∷ []

abbrev pub cpu_info : DeviceInfo
cpu_info = record {
  struct_size = info_size;
  api_version = 1;
  backend = cpu_backend;
  vendor_id = 0;
  device_id = 0;
  capabilities = cpu_reference;
  is_software = 1;
  dedicated_video_memory = 0;
  dedicated_system_memory = 0;
  shared_system_memory = 0;
  name = cpu_name;
}

abbrev pub adapter_info : AdapterDesc → DeviceInfo
adapter_info d = record {
  struct_size = info_size;
  api_version = 1;
  backend = dx12_backend;
  vendor_id = d.vendor_id;
  device_id = d.device_id;
  capabilities = dx12_capabilities;
  is_software = 0;
  dedicated_video_memory = d.video_memory;
  dedicated_system_memory = d.system_memory;
  shared_system_memory = d.shared_memory;
  name = d.name;
}

unfoldable pub append_adapter : AdapterDesc → DeviceManager → DeviceManager
append_adapter d manager = if d.software then manager else record {
  devices = manager.devices ++ adapter_info d ∷ [];
  adapters = manager.adapters ++ d.adapter ∷ [];
}

-- The loop of `append_dxgi_adapters`.
unfoldable pub enumerate_adapters : List Enumerated → DeviceManager → DeviceManager
unfolding append_adapter
enumerate_adapters [] manager = manager
enumerate_adapters (failed ∷ answers) manager = enumerate_adapters answers manager
enumerate_adapters (found d ∷ answers) manager =
    enumerate_adapters answers (append_adapter d manager)

-- `none` is that the factory could not be made.
unfoldable pub append_dxgi_adapters : Option (List Enumerated) → DeviceManager → DeviceManager
unfolding enumerate_adapters
append_dxgi_adapters none manager = manager
append_dxgi_adapters (some answers) manager = enumerate_adapters answers manager

pub record ManagerEnv : Type 0 where
  pub memory : Bool
  pub logger : Bool
  pub dxgi : Option (List Enumerated)

abbrev pub empty_manager : DeviceManager
empty_manager = record { devices = []; adapters = [] }

unfoldable pub fill_manager : Platform → Option (List Enumerated) → DeviceManager
unfolding append_dxgi_adapters
fill_manager platform dxgi = record manager { devices = manager.devices ++ cpu_info ∷ [] }
  where
    manager : DeviceManager
    manager = elim platform [
      | windows ↦ append_dxgi_adapters dxgi empty_manager
      | posix ↦ empty_manager
    ]

unfoldable pub dx_device_manager_create : Platform → ManagerEnv → ℤ × Option DeviceManager
unfolding fill_manager
dx_device_manager_create platform env =
    if not env.memory
    then (minus 3, none)
    else if not env.logger
    then (minus 2, none)
    else (pos 0, some (fill_manager platform env.dxgi))

unfoldable pub dx_device_manager_count : DeviceManager → ℕ
dx_device_manager_count manager = length manager.devices % u32_mod

-- `struct_size` is the one that the caller put into the out parameter.
unfoldable pub dx_device_manager_get_info : DeviceManager → ℕ → ℕ → ℤ × Option DeviceInfo
dx_device_manager_get_info manager index struct_size = elim (get_elem? manager.devices index) [
  | none ↦ (minus 1, none)
  | some info ↦ if ltb struct_size info_size then (minus 1, none) else (pos 0, some info)
]

-- dx_execution_device_t; the Direct3D device is known by its adapter.
pub record ExecutionDevice : Type 0 where
  pub backend : ℕ
  pub dx12_device : Option ℕ

-- `D3D12CreateDevice` on an adapter that may be missing.
pub open_dx12 : (ℕ → Bool) → Option ℕ → ℤ × Option ExecutionDevice
open_dx12 creates none = (minus 2, none)
open_dx12 creates (some adapter) =
    if creates adapter
    then (pos 0, some (record { backend = dx12_backend; dx12_device = some adapter }))
    else (minus 2, none)

pub open_info : Platform → (ℕ → Bool) → DeviceManager → ℕ → DeviceInfo → ℤ × Option ExecutionDevice
unfolding open_dx12
open_info windows creates manager index info =
    if info.backend == dx12_backend
    then open_dx12 creates (get_elem? manager.adapters index)
    else (pos 0, some (record { backend = info.backend; dx12_device = none }))
open_info posix creates manager index info =
    (pos 0, some (record { backend = info.backend; dx12_device = none }))

-- `memory` is whether the device object can be made.
pub dx_device_manager_open :
    Platform → (ℕ → Bool) → Bool → DeviceManager → ℕ → ℤ × Option ExecutionDevice
unfolding open_info
dx_device_manager_open platform creates memory manager index =
    elim (get_elem? manager.devices index) [
      | none ↦ (minus 1, none)
      | some info ↦
          if not memory then (minus 3, none) else open_info platform creates manager index info
    ]

unfoldable pub dx_execution_device_native_handle : Platform → ExecutionDevice → Option ℕ
dx_execution_device_native_handle windows device = device.dx12_device
dx_execution_device_native_handle posix device = none
