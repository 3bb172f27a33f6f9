-- ===== src/Memory.antt =====
-- src/core/dx_memory_api.cpp: the allocation pool behind the C interface. An operation takes the
-- pool, what the outside answers during the call (`AllocEnv`, `CopyEnv`), and returns the status
-- code, the new pool and what it wrote through the out parameter. Handles and addresses are
-- numbers. The mutex makes the operations atomic; that locking fails is not modelled.
pub mod Alloc
pub mod Tests
pub mod Valid
pub mod Transfer
pub mod History
pub mod Power
pub mod Free
use Prim.Native.Nat.{bit_and}
use dx_ai_st.Base.{
  ℕ, zero, suc, ◌+◌, ◌-◌, ◌%◌, max, Bool, true, false, ◌&&◌, ◌||◌, not, Option, none, some, List,
  [], ◌∷◌, ◌++◌, ℤ, pos, minus, if◌then◌else◌, ltb, leb, ◌==◌, u64_mod,
}
use dx_ai_st.Base.Table.{find, erase, emplace}

-- Which branch of `#ifdef _WIN32` is built.
pub data Platform : Type 0 where
  windows posix : Platform

-- dx_memory_location_t
abbrev pub host : ℕ
host = 0

abbrev pub upload : ℕ
upload = 1

abbrev pub readback : ℕ
readback = 2

abbrev pub gpu_upload : ℕ
gpu_upload = 4

abbrev pub managed : ℕ
managed = 5

-- D3D12_RESOURCE_STATE_COMMON and D3D12_RESOURCE_STATE_GENERIC_READ, COPY_DEST, COPY_SOURCE
pub data ResourceState : Type 0 where
  common generic_read copy_dest copy_source : ResourceState

-- dx_memory_desc_t
pub record Desc : Type 0 where
  pub struct_size : ℕ
  pub api_version : ℕ
  pub bytes : ℕ
  pub alignment : ℕ
  pub location : ℕ

-- dx_memory_stats_t
pub record Stats : Type 0 where
  pub struct_size : ℕ
  pub api_version : ℕ
  pub allocation_count : ℕ
  pub live_bytes : ℕ
  pub peak_bytes : ℕ
  pub allocation_failures : ℕ

-- dx_memory_allocation_t; `contents` is the memory that it stands for, byte by byte.
pub record Allocation : Type 0 where
  pub address : Option ℕ
  pub bytes : ℕ
  pub alignment : ℕ
  pub location : ℕ
  pub resource : Option ℕ
  pub state : ResourceState
  pub contents : List ℕ

-- dx_memory_pool_t, without its logger
pub record Pool : Type 0 where
  pub allocations : List (ℕ × Allocation)
  pub stats : Stats
  pub device : Option ℕ

-- What an out parameter holds after the call.
pub data Slot : Type 0 where
  unwritten null : Slot
  handle : ℕ → Slot

pub record Reply : Type 0 where
  pub code : ℤ
  pub pool : Option Pool
  pub out : Slot

abbrev pub desc_size : ℕ
desc_size = 32

abbrev pub stats_size : ℕ
stats_size = 40

abbrev pub api_version : ℕ
api_version = 1

unfoldable pub is_power_of_two : ℕ → Bool
is_power_of_two value = not (value == 0) && bit_and value (value - 1) == 0

unfoldable pub range_valid : ℕ → ℕ → ℕ → Bool
range_valid size offset bytes = leb offset size && leb bytes (size - offset)

-- `dx_memory_pool_create` and `dx_memory_pool_create_for_native_device`: `fresh` is whether
-- `make_unique` succeeds, `logger` the code of `dx_component_logger_create`.
unfoldable pub new_pool : Platform → Option ℕ → Pool
new_pool platform native_device = record {
  allocations = [];
  stats = record {
    struct_size = stats_size;
    api_version = api_version;
    allocation_count = 0;
    live_bytes = 0;
    peak_bytes = 0;
    allocation_failures = 0;
  };
  device = elim platform [ windows ↦ native_device | posix ↦ none ];
}

unfoldable pub is_zero : ℤ → Bool
is_zero (pos zero) = true
is_zero _ = false

unfoldable pub create_pool_internal : Platform → Option ℕ → Bool → Bool → ℤ → ℤ × Option Pool
unfolding new_pool is_zero
create_pool_internal platform native_device out fresh logger =
    if not out
    then (minus 1, none)
    else if not fresh
    then (minus 3, none)
    else if not (is_zero logger)
    then (minus 2, none)
    else (pos 0, some (new_pool platform native_device))

unfoldable pub dx_memory_pool_create : Platform → Bool → Bool → ℤ → ℤ × Option Pool
unfolding create_pool_internal
dx_memory_pool_create platform out fresh logger =
    create_pool_internal platform none out fresh logger

unfoldable pub dx_memory_pool_create_for_native_device :
    Platform → Option ℕ → Bool → Bool → ℤ → ℤ × Option Pool
unfolding create_pool_internal
dx_memory_pool_create_for_native_device windows none out fresh logger = (minus 1, none)
dx_memory_pool_create_for_native_device platform native_device out fresh logger =
    create_pool_internal platform native_device out fresh logger
