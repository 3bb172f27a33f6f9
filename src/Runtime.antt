-- ===== src/Runtime.antt =====
-- src/core/dx_runtime_api.cpp: a runtime holds a logger and a device manager, and selects a backend once.
pub mod Selected
mod Tests
use dx_ai_st.Base.{
  ℕ, zero, suc, ◌+◌, Bool, true, false, ◌&&◌, not, Option, none, some, ℤ, pos, minus, if◌then◌else◌,
  ltb, leb, ◌==◌, [], ◌∷◌,
}
use dx_ai_st.Base.Text.{Text}
use dx_ai_st.Memory.{Platform, windows, posix}
use dx_ai_st.Device.{
  DeviceInfo, DeviceManager, ManagerEnv, dx12_backend, info_size, dx_device_manager_create,
  dx_device_manager_count, dx_device_manager_get_info,
}
use dx_ai_st.Log.{
  Environment, FileSystem, ComponentLogger, dx_component_logger_create, dx_component_logger_modes,
  dx_component_logger_enabled,
}

-- dx_backend_preference_t
abbrev pub auto : ℕ
auto = 0

abbrev pub dx12 : ℕ
dx12 = 1

abbrev pub hip : ℕ
hip = 2

abbrev pub cpu : ℕ
cpu = 3

pub record Runtime : Type 0 where
  pub logger : ComponentLogger
  pub devices : DeviceManager
  pub requested_backend : ℕ
  pub selected_backend : ℕ
  pub backend_name : Text

unfoldable pub valid_backend : ℕ → Bool
valid_backend value = leb value cpu

-- The loop of `has_dx12_device` from `index` on, with `n` devices to go.
unfoldable pub dx12_from : DeviceManager → ℕ → ℕ → Bool
dx12_from devices index zero = false
dx12_from devices index (suc n) =
    let rest = dx12_from devices (index + 1) n in
    elim (dx_device_manager_get_info devices index info_size).1 [
      | none ↦ rest
      | some info ↦ if info.backend == dx12_backend then true else rest
    ]

unfoldable pub has_dx12_device : DeviceManager → Bool
unfolding dx12_from
has_dx12_device devices = dx12_from devices 0 (dx_device_manager_count devices)

-- The backend and its name.
unfoldable pub select_backend : Platform → DeviceManager → ℕ → ℕ × Text
unfolding has_dx12_device
select_backend posix devices preference = (cpu, b'c' ∷ b'p' ∷ b'u' ∷ [])
select_backend windows devices preference =
    if preference == cpu
    then (cpu, b'c' ∷ b'p' ∷ b'u' ∷ [])
    else if preference == hip
    then (hip, b'h' ∷ b'i' ∷ b'p' ∷ [])
    else if has_dx12_device devices
    then (dx12, b'd' ∷ b'x' ∷ b'1' ∷ b'2' ∷ [])
    else (cpu, b'c' ∷ b'p' ∷ b'u' ∷ [])

-- "dxruntime"
abbrev pub runtime_name : Text
runtime_name = b'd' ∷ b'x' ∷ b'r' ∷ b'u' ∷ b'n' ∷ b't' ∷ b'i' ∷ b'm' ∷ b'e' ∷ []

pub record RuntimeEnv : Type 0 where
  pub environment : Environment
  pub files : FileSystem
  pub memory : Bool
  pub logger_memory : Bool
  pub manager : ManagerEnv

unfoldable pub make_runtime : Platform → ComponentLogger → DeviceManager → ℕ → Runtime
unfolding select_backend
make_runtime platform logger devices requested =
    let selected = select_backend platform devices requested in
    record {
      logger = logger;
      devices = devices;
      requested_backend = requested;
      selected_backend = selected.0;
      backend_name = selected.1;
    }

unfoldable pub with_logger : Platform → RuntimeEnv → ℕ → ComponentLogger → ℤ × Option Runtime
unfolding make_runtime
with_logger platform env requested logger = elim (dx_device_manager_create platform env.manager).1 [
  | none ↦ (minus 4, none)
  | some devices ↦ (pos 0, some (make_runtime platform logger devices requested))
]

-- `config` is the backend that the caller prefers, if there is a configuration.
unfoldable pub dx_runtime_create : Platform → RuntimeEnv → Option ℕ → ℤ × Option Runtime
unfolding with_logger valid_backend
dx_runtime_create platform env config =
    let requested = elim config as (λ x. ℕ) [ none ↦ auto | some preference ↦ preference ] in
    if not (valid_backend requested)
    then (minus 2, none)
    else if not env.memory
    then (minus 5, none)
    else elim (dx_component_logger_create env.environment env.files env.logger_memory
        (some runtime_name)).1 [
          | none ↦ (minus 3, none)
          | some logger ↦ with_logger platform env requested logger
        ]

-- dx_runtime_info_t; the names are shorter than its text.
pub record RuntimeInfo : Type 0 where
  pub selected_backend : ℕ
  pub logger_modes : ℕ
  pub device_count : ℕ
  pub backend_name : Text

abbrev pub runtime_info_size : ℕ
runtime_info_size = 52

pub dx_runtime_get_info : Runtime → ℕ → ℤ × Option RuntimeInfo
dx_runtime_get_info runtime struct_size =
    if ltb struct_size runtime_info_size then (minus 1, none) else (
      pos 0,
      some (record {
        selected_backend = runtime.selected_backend;
        logger_modes = dx_component_logger_modes (some runtime.logger);
        device_count = dx_device_manager_count runtime.devices;
        backend_name = runtime.backend_name;
      }),
    )

pub dx_runtime_component_enabled : Runtime → ℕ → ℕ
dx_runtime_component_enabled runtime mode = dx_component_logger_enabled (some runtime.logger) mode
