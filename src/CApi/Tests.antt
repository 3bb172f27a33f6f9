-- ===== src/CApi/Tests.antt =====
-- Runs of the flat C interface of src/core/dx_c_api.cpp, and its theorems at them.
use dx_ai_st.Base.{◌≡◌, refl, true, false, none, some, [], ◌∷◌, ◌++◌, pos, arith, drop, ◌==◌}
use dx_ai_st.Base.Table.{find, assign}
use dx_ai_st.Memory.{windows, posix, common, Allocation, Desc, new_pool, range_valid}
use dx_ai_st.Memory.Alloc.{AllocEnv}
use dx_ai_st.Memory.Alloc.Keeps.{IsFresh}
use dx_ai_st.Memory.History.{new_pool-IsExact}
use dx_ai_st.Memory.Transfer.{CopyEnv, dx_memory_upload, dx_memory_download}
use dx_ai_st.Device.{
  cpu_info, cpu_backend, fill_manager, found, enumerate_adapters, append_dxgi_adapters,
  append_adapter,
}
use dx_ai_st.CApi.{CDevice, CBuffer, cleared}
use dx_ai_st.CApi.Buffer.{dx_create_buffer_ex}
use dx_ai_st.CApi.Buffer.Owned.{Creation, create_buffer-Creation}
use dx_ai_st.CApi.Transfer.{dx_upload, dx_download, Transferred}
use dx_ai_st.CApi.Transfer.RoundTrip.{download-upload_buffer}
use dx_ai_st.CApi.Device.{DeviceEnv, dx_create_device}
use dx_ai_st.CApi.Device.Ready.{IsEnough, Outcome, create_device-Outcome}

abbrev host_device : CDevice
host_device = record {
  address = 64;
  execution = record { backend = cpu_backend; dx12_device = none };
  memory = new_pool posix none;
  info = cpu_info;
}

abbrev upload_desc : Desc
upload_desc = record { struct_size = 32; api_version = 1; bytes = 4; alignment = 0; location = 2 }

abbrev block_at : AllocEnv
block_at = record {
  object = some 7;
  committed = none;
  mapped = none;
  block = some 4096;
  inserts = true;
  garbage = 1 ∷ 2 ∷ 3 ∷ 4 ∷ [];
}

host_device-IsFresh : IsFresh block_at host_device.memory
unfolding new_pool find
host_device-IsFresh h e = refl

create_buffer-Creation_example :
    Creation host_device upload_desc
      (dx_create_buffer_ex posix block_at false host_device upload_desc)
unfolding new_pool
create_buffer-Creation_example =
    create_buffer-Creation posix block_at false host_device upload_desc
      (new_pool-IsExact posix none) host_device-IsFresh (omega arith)

abbrev first_buffer : CBuffer
first_buffer = record { device = 64; allocation = some 7 }

abbrev block : Allocation
block = record {
  address = some 4096;
  bytes = 4;
  alignment = 256;
  location = 1;
  resource = none;
  state = common;
  contents = 1 ∷ 2 ∷ 3 ∷ 4 ∷ [];
}

abbrev holding : Allocation → CDevice
holding a = record host_device {
  memory = record (new_pool posix none) { allocations = (7, a) ∷ [] };
}

abbrev answers : CopyEnv
answers = record {
  staging = true;
  staging_map = true;
  queue = true;
  allocator = true;
  list = true;
  close = true;
  fence = true;
  event = true;
  signal_and_wait = true;
  readback_map = true;
  ran = true;
}

abbrev uploaded : Transferred
uploaded = record {
  code = pos 0;
  device = holding (record block { contents = 1 ∷ 8 ∷ 9 ∷ 4 ∷ [] });
  error = cleared;
  bytes = 8 ∷ 9 ∷ [];
}

abbrev downloaded : Transferred
downloaded = record {
  code = pos 0;
  device = uploaded.device;
  error = cleared;
  bytes = 8 ∷ 9 ∷ 0 ∷ [];
}

upload_runs : dx_upload posix answers (holding block) first_buffer 1 (8 ∷ 9 ∷ []) 2 ≡ some uploaded
unfolding dx_upload dx_memory_upload range_valid find assign
upload_runs = refl

download_runs :
    dx_download posix answers uploaded.device first_buffer 1 (0 ∷ 0 ∷ 0 ∷ []) 2 ≡ some downloaded
unfolding dx_download dx_memory_download range_valid find assign
download_runs = refl

download-upload_buffer_example : downloaded.bytes ≡ (8 ∷ 9 ∷ []) ++ drop 2 (0 ∷ 0 ∷ 0 ∷ [])
unfolding find
download-upload_buffer_example =
    download-upload_buffer posix answers answers (holding block) first_buffer 1 (8 ∷ 9 ∷ [])
      (0 ∷ 0 ∷ 0 ∷ []) 7 block uploaded downloaded refl refl refl upload_runs refl download_runs
      refl

abbrev machine : DeviceEnv
machine = record {
  manager = record {
    memory = true;
    logger = true;
    dxgi = some (
        found (record {
          adapter = 9;
          software = false;
          vendor_id = 4318;
          device_id = 8708;
          video_memory = 8589934592;
          system_memory = 0;
          shared_memory = 0;
          name = [];
        })
        ∷ []);
  };
  creates = λ a. a == 9;
  opens = true;
  pool_memory = true;
  pool_logger = pos 0;
  object = some 64;
}

machine-IsEnough : IsEnough machine
machine-IsEnough = record {
  manager = refl;
  logger = refl;
  opens = refl;
  pool_memory = refl;
  pool_logger = refl;
  object = (64, refl);
}

create_device-Outcome_example : Outcome machine 0 (dx_create_device windows machine 0)
unfolding fill_manager append_dxgi_adapters enumerate_adapters append_adapter
create_device-Outcome_example = create_device-Outcome machine 0 machine-IsEnough (omega arith)
