-- ===== src/Memory/Tests.antt =====
-- Runs of the memory pool of src/core/dx_memory_api.cpp, and the theorems at them.
use dx_ai_st.Base.{
  ◌<◌, ◌≤◌, ◌+◌, ◌⊎◌, ◌≡◌, refl, true, false, none, some, [], ◌∷◌, ◌++◌, pos, minus, arith, drop,
}
use dx_ai_st.Base.Table.{find, emplace}
use dx_ai_st.Memory.{
  windows, posix, Pool, Desc, Allocation, handle, common, new_pool, is_power_of_two, range_valid,
}
use dx_ai_st.Memory.Alloc.{AllocEnv, dx_memory_alloc}
use dx_ai_st.Memory.Alloc.Outcome.{Outcome, count_allocation}
use dx_ai_st.Memory.Alloc.Keeps.{IsFresh}
use dx_ai_st.Memory.Free.{dx_memory_free, free_aligned}
use dx_ai_st.Memory.Free.Keeps.{free_twice, uncount}
use dx_ai_st.Memory.History.{Reach, here, next, allocates, IsExact, Reach-IsExact, free-alloc}
use dx_ai_st.Memory.Transfer.{CopyEnv, Copied, dx_memory_upload, dx_memory_download}
use dx_ai_st.Memory.Transfer.Frame.{IsFramed, upload-IsFramed}
use dx_ai_st.Memory.Transfer.RoundTrip.{download-upload}

abbrev small_desc : Desc
small_desc = record { struct_size = 32; api_version = 1; bytes = 4; alignment = 0; location = 0 }

abbrev block_at : AllocEnv
block_at = record {
  object = some 7;
  committed = none;
  mapped = none;
  block = some 4096;
  inserts = true;
  garbage = 1 ∷ 2 ∷ 3 ∷ 4 ∷ [];
}

abbrev start : Pool
start = new_pool posix none

abbrev block : Allocation
block = record {
  address = some 4096;
  bytes = 4;
  alignment = 256;
  location = 0;
  resource = none;
  state = common;
  contents = 1 ∷ 2 ∷ 3 ∷ 4 ∷ [];
}

abbrev one_block : Pool
one_block = count_allocation start small_desc 7 block

alloc_runs :
    dx_memory_alloc posix block_at (some start) (some small_desc) true
    ≡ record { code = pos 0; pool = some one_block; out = handle 7 }
unfolding dx_memory_alloc is_power_of_two
alloc_runs = refl

start-IsFresh : IsFresh block_at start
unfolding new_pool find
start-IsFresh h e = refl

one_step : Reach posix start one_block
unfolding new_pool dx_memory_alloc is_power_of_two
one_step = next here (allocates block_at small_desc start-IsFresh (omega arith) refl)

Reach-IsExact_example : IsExact one_block
Reach-IsExact_example = Reach-IsExact none one_step

start-IsExact : IsExact start
start-IsExact = Reach-IsExact none here

free-alloc_example :
    (r : Pool) × ((dx_memory_free posix (some one_block) (some 7)).0 ≡ pos 0)
    × ((dx_memory_free posix (some one_block) (some 7)).1 ≡ some r)
    × (r.allocations ≡ start.allocations)
    × (r.stats.live_bytes ≡ start.stats.live_bytes)
unfolding dx_memory_alloc is_power_of_two new_pool
free-alloc_example =
    free-alloc posix block_at start one_block small_desc 7 start-IsExact start-IsFresh (omega arith)
      refl refl

one_block-IsExact : IsExact one_block
one_block-IsExact = Reach-IsExact none one_step

abbrev emptied : Pool
emptied = uncount one_block 7 block

free_runs :
    dx_memory_free posix (some one_block) (some 7)
    ≡ (pos 0, some emptied, free_aligned (some 4096) ∷ [])
unfolding dx_memory_free find new_pool emplace
free_runs = refl

free_twice_example : dx_memory_free posix (some emptied) (some 7) ≡ (minus 2, some emptied, [])
free_twice_example =
    free_twice posix one_block emptied 7 (free_aligned (some 4096) ∷ []) one_block-IsExact.valid
      free_runs

-- Direct3D answers every call, and the queue has run.
abbrev answers : CopyEnv
answers = record {
  staging = true;
  staging_map = true;
  queue = true;
  allocator = true;
  list = true;
  close = true;
  fence = true;
  event = true;
  signal_and_wait = true;
  readback_map = true;
  ran = true;
}

-- Memory on the device, which no address maps.
abbrev device_block : Allocation
device_block = record block { address = none; resource = some 9 }

abbrev after_upload : Copied
after_upload = record {
  code = pos 0;
  allocation = record device_block { contents = 1 ∷ 8 ∷ 9 ∷ 4 ∷ [] };
  buffer = 8 ∷ 9 ∷ [];
}

abbrev after_download : Copied
after_download = record {
  code = pos 0;
  allocation = after_upload.allocation;
  buffer = 8 ∷ 9 ∷ 0 ∷ [];
}

upload_runs :
    dx_memory_upload windows answers (some true) (some device_block) 1 (some (8 ∷ 9 ∷ [])) 2
    ≡ some after_upload
unfolding dx_memory_upload range_valid
upload_runs = refl

download_runs :
    dx_memory_download windows answers
      (some true)
      (some after_upload.allocation)
      1
      (some (0 ∷ 0 ∷ 0 ∷ []))
      2
    ≡ some after_download
unfolding dx_memory_download range_valid
download_runs = refl

download-upload_example : after_download.buffer ≡ (8 ∷ 9 ∷ []) ++ drop 2 (0 ∷ 0 ∷ 0 ∷ [])
download-upload_example =
    download-upload windows answers answers true device_block 1 (8 ∷ 9 ∷ []) (0 ∷ 0 ∷ 0 ∷ [])
      after_upload after_download refl upload_runs refl download_runs refl

upload-IsFramed_example :
    ((device_block.bytes < 1 + 2)
      × (after_upload.code ≡ minus 1)
      × (after_upload.allocation ≡ device_block))
    ⊎ ((1 + 2 ≤ device_block.bytes) × IsFramed device_block 1 2 after_upload.allocation)
upload-IsFramed_example =
    upload-IsFramed windows answers true device_block 1 (8 ∷ 9 ∷ []) 2 after_upload refl upload_runs

abbrev no_queue : CopyEnv
no_queue = record answers { queue = false }

abbrev refused_upload : Copied
refused_upload = record { code = minus 5; allocation = device_block; buffer = 8 ∷ 9 ∷ [] }

upload_fails :
    dx_memory_upload windows no_queue (some true) (some device_block) 1 (some (8 ∷ 9 ∷ [])) 2
    ≡ some refused_upload
unfolding dx_memory_upload range_valid
upload_fails = refl
