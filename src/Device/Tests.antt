-- ===== src/Device/Tests.antt =====
-- A machine with a software adapter, a failing one and a graphics card, for src/core/dx_device_api.cpp.
use dx_ai_st.Base.{
  ℕ, ◌<◌, ◌≡◌, refl, Bool, true, false, some, List, [], ◌∷◌, ◌++◌, pos, ◌==◌, length,
}
use dx_ai_st.Memory.{windows}
use dx_ai_st.Device.{
  DeviceInfo, DeviceManager, AdapterDesc, failed, found, ManagerEnv, cpu_info,
  dx_device_manager_create,
}
use dx_ai_st.Device.Manager.{Opens, open-create}

abbrev warp : AdapterDesc
warp = record {
  adapter = 7;
  software = true;
  vendor_id = 5140;
  device_id = 140;
  video_memory = 0;
  system_memory = 0;
  shared_memory = 0;
  name = [];
}

abbrev card : AdapterDesc
card = record {
  adapter = 9;
  software = false;
  vendor_id = 4318;
  device_id = 8708;
  video_memory = 8589934592;
  system_memory = 0;
  shared_memory = 0;
  name = [];
}

abbrev machine : ManagerEnv
machine = record {
  memory = true;
  logger = true;
  dxgi = some (found warp ∷ failed ∷ found card ∷ []);
}

abbrev only_nine : ℕ → Bool
only_nine a = a == 9

open-create_example :
    (m : DeviceManager) × (dx_device_manager_create windows machine ≡ (pos 0, some m))
    × ((native : List DeviceInfo) × (m.devices ≡ native ++ cpu_info ∷ []))
    × ((i : ℕ) → i < length m.devices → Opens only_nine m i)
open-create_example = open-create machine only_nine refl refl
