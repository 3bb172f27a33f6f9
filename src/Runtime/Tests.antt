-- ===== src/Runtime/Tests.antt =====
-- A machine with a graphics card and no logging, for src/core/dx_runtime_api.cpp.
use dx_ai_st.Base.{◌≡◌, refl, true, false, none, some, [], ◌∷◌, pos, arith}
use dx_ai_st.Memory.{windows}
use dx_ai_st.Device.{
  AdapterDesc, found, cpu_info, adapter_info, fill_manager, append_dxgi_adapters,
  enumerate_adapters, append_adapter, dx_device_manager_create, dx_device_manager_count,
  dx_device_manager_get_info,
}
use dx_ai_st.Log.{
  dx_component_logger_create, initialize, new_logger, read_modes, prefix, environment_enabled,
  lower_ascii, add_mode,
}
use dx_ai_st.Runtime.{
  Runtime, RuntimeEnv, runtime_name, dx12, auto, dx_runtime_create, valid_backend, with_logger,
  make_runtime, select_backend, has_dx12_device, dx12_from,
}
use dx_ai_st.Runtime.Selected.{IsSelected, select-create}

abbrev card : AdapterDesc
card = record {
  adapter = 9;
  software = false;
  vendor_id = 4318;
  device_id = 8708;
  video_memory = 8589934592;
  system_memory = 0;
  shared_memory = 0;
  name = [];
}

abbrev env : RuntimeEnv
env = record {
  environment = λ name. none;
  files = record { module_logs = true; current = true; current_logs = true; opens = true };
  memory = true;
  logger_memory = true;
  manager = record { memory = true; logger = true; dxgi = some (found card ∷ []) };
}

abbrev made : Runtime
made = record {
  logger = record {
    component = runtime_name;
    modes = 0;
    initialized = true;
    file_open = false;
    records = [];
  };
  devices = record { devices = adapter_info card ∷ cpu_info ∷ []; adapters = 9 ∷ [] };
  requested_backend = auto;
  selected_backend = dx12;
  backend_name = b'd' ∷ b'x' ∷ b'1' ∷ b'2' ∷ [];
}

runtime_runs : dx_runtime_create windows env none ≡ (pos 0, some made)
unfolding dx_runtime_create valid_backend with_logger make_runtime select_backend has_dx12_device
    dx12_from dx_component_logger_create initialize new_logger read_modes prefix environment_enabled
    lower_ascii add_mode dx_device_manager_create fill_manager append_dxgi_adapters
    enumerate_adapters append_adapter dx_device_manager_count dx_device_manager_get_info
runtime_runs = refl

select-create_example : IsSelected env none made
unfolding fill_manager append_dxgi_adapters enumerate_adapters append_adapter
select-create_example = select-create env none made runtime_runs (omega arith)
