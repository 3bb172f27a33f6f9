-- ===== src/Memory/Alloc.antt =====
-- `dx_memory_alloc` of src/core/dx_memory_api.cpp, with its D3D12 path. The outside (`AllocEnv`)
-- answers the calls that leave the file; each early return is a branch.
pub mod Outcome
pub mod Keeps
use dx_ai_st.Base.{
  ℕ, zero, suc, ◌+◌, ◌%◌, max, Bool, true, false, ◌||◌, not, Option, none, some, List, ℤ, pos,
  minus, if◌then◌else◌, ltb, ◌==◌, u64_mod,
}
use dx_ai_st.Base.Table.{emplace}
use dx_ai_st.Memory.{
  Platform, windows, posix, Pool, Desc, Allocation, Reply, unwritten, null, handle, common,
  generic_read, host, upload, readback, gpu_upload, managed, is_power_of_two, desc_size,
  api_version,
}

-- What the outside answers while `dx_memory_alloc` runs.
pub record AllocEnv : Type 0 where
  -- the object of `make_unique`, `none` for `std::bad_alloc`
  pub object : Option ℕ
  -- the resource of `CreateCommittedResource`, and the address that `Map` gives
  pub committed : Option ℕ
  pub mapped : Option ℕ
  -- the block of `_aligned_malloc` or `posix_memalign`
  pub block : Option ℕ
  -- whether the insertion in the table finds memory
  pub inserts : Bool
  -- what the new memory holds
  pub garbage : List ℕ

-- The allocation is passed by reference, so it comes back beside the code.
allocate_d3d12_resource : Pool → Desc → AllocEnv → Allocation → ℤ × Allocation
allocate_d3d12_resource pool desc env allocation =
    if no_device || desc.location == host || desc.location == managed
    then (pos 1, allocation)
    else elim env.committed [
      | none ↦ (minus 1, placed)
      | some r ↦
          if default_heap then (pos 0, record placed { resource = some r }) else elim env.mapped [
            | none ↦ (minus 2, placed)
            | some a ↦ (pos 0, record placed { resource = some r; address = some a })
          ]
    ]
  where
    no_device : Bool
    no_device = elim pool.device [ none ↦ true | some d ↦ false ]

    default_heap : Bool
    default_heap =
        not (desc.location == readback || desc.location == upload || desc.location == gpu_upload)

    placed : Allocation
    placed = record allocation { state = if default_heap then common else generic_read }

fail_alloc : Pool → ℕ → Reply
fail_alloc pool code = record {
  code = minus code;
  pool = some (record pool {
    stats = record (pool.stats) {
      allocation_failures = (pool.stats.allocation_failures + 1) % u64_mod;
    };
  });
  out = null;
}

-- The locked block at the end of `dx_memory_alloc`.
commit_alloc : Pool → Desc → ℕ → Allocation → Reply
commit_alloc pool desc object allocation = record {
  code = pos 0;
  pool = some (record pool {
    allocations = emplace object allocation pool.allocations;
    stats = record (pool.stats) {
      allocation_count = (pool.stats.allocation_count + 1) % u64_mod;
      live_bytes = live;
      peak_bytes = max pool.stats.peak_bytes live;
    };
  });
  out = handle object;
}
  where
    live : ℕ
    live = (pool.stats.live_bytes + desc.bytes) % u64_mod

insert_alloc : Pool → Desc → AllocEnv → ℕ → Allocation → Reply
unfolding fail_alloc commit_alloc
insert_alloc pool desc env object allocation =
    if env.inserts then commit_alloc pool desc object allocation else fail_alloc pool 6

-- The branch without a native resource.
host_alloc : Pool → Desc → AllocEnv → ℕ → Allocation → Reply
unfolding fail_alloc insert_alloc
host_alloc pool desc env object allocation = elim env.block [
  | none ↦ fail_alloc pool 5
  | some a ↦ insert_alloc pool desc env object (record allocation { address = some a })
]

-- `native_resource` is that the code is 0; a negative code is a failure.
place_alloc : Pool → Desc → AllocEnv → ℕ → ℤ × Allocation → Reply
unfolding fail_alloc insert_alloc host_alloc
place_alloc pool desc env object (ℤ.negsuc n, allocation) = fail_alloc pool 4
place_alloc pool desc env object (pos zero, allocation) =
    insert_alloc pool desc env object allocation
place_alloc pool desc env object (pos (suc n), allocation) =
    host_alloc pool desc env object allocation

new_allocation : Desc → ℕ → AllocEnv → Allocation
new_allocation desc alignment env = record {
  address = none;
  bytes = desc.bytes;
  alignment = alignment;
  location = desc.location;
  resource = none;
  state = common;
  contents = env.garbage;
}

checked_alloc : Platform → AllocEnv → Pool → Desc → ℕ → ℕ → Reply
unfolding place_alloc host_alloc allocate_d3d12_resource new_allocation
checked_alloc windows env pool desc alignment object =
    place_alloc pool desc env object
      (allocate_d3d12_resource pool desc env (new_allocation desc alignment env))
checked_alloc posix env pool desc alignment object =
    host_alloc pool desc env object (new_allocation desc alignment env)

abbrev pub effective_alignment : Desc → ℕ
effective_alignment desc = if desc.alignment == 0 then 256 else desc.alignment

refused : Pool → ℕ → Reply
refused pool code = record { code = minus code; pool = some pool; out = null }

abbrev pub bad_desc : Desc → Bool
bad_desc desc =
    ltb desc.struct_size desc_size || not (desc.api_version == api_version) || desc.bytes == 0

abbrev pub bad_alignment : Desc → Bool
bad_alignment desc =
    not (is_power_of_two (effective_alignment desc)) || ltb (effective_alignment desc) 8

alloc_in : Platform → AllocEnv → Pool → Desc → Reply
unfolding fail_alloc checked_alloc refused
alloc_in platform env pool desc =
    if bad_desc desc
    then refused pool 2
    else if bad_alignment desc
    then refused pool 3
    else elim env.object [
      | none ↦ fail_alloc pool 6
      | some object ↦ checked_alloc platform env pool desc (effective_alignment desc) object
    ]

unfoldable pub dx_memory_alloc : Platform → AllocEnv → Option Pool → Option Desc → Bool → Reply
unfolding alloc_in
dx_memory_alloc platform env (some pool) (some desc) true = alloc_in platform env pool desc
dx_memory_alloc platform env pool desc out = record { code = minus 1; pool = pool; out = unwritten }
