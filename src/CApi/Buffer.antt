-- ===== src/CApi/Buffer.antt =====
-- Buffers of src/core/dx_c_api.cpp: made by `dx_create_buffer_ex`, given back by `dx_destroy_buffer`.
pub mod Owned
use dx_ai_st.Base.{
  ℕ, zero, suc, Bool, true, false, ◌||◌, not, Option, none, some, ℤ, pos, minus, if◌then◌else◌, ltb,
  ◌==◌,
}
use dx_ai_st.Memory.{Platform, Pool, Desc, Reply, Slot, desc_size, handle}
use dx_ai_st.Memory.Alloc.{AllocEnv, dx_memory_alloc}
use dx_ai_st.Memory.Free.{dx_memory_free}
use dx_ai_st.CApi.{
  LastError, cleared, create_buffer_argument, create_buffer_location, create_buffer_memory, CDevice,
  CBuffer, component_result, valid_header, map_location, no_location, invalid_argument,
  allocation_failed,
}

-- What the out parameter holds after the call.
pub data BufferSlot : Type 0 where
  unwritten null : BufferSlot
  made : CBuffer → BufferSlot

pub record Created : Type 0 where
  pub code : ℤ
  pub error : LastError
  pub device : CDevice
  pub out : BufferSlot

-- The device with the pool that a call on it leaves.
pub with_pool : CDevice → Option Pool → CDevice
with_pool device none = device
with_pool device (some pool) = record device { memory = pool }

abbrev pub memory_desc : Desc → Desc
memory_desc desc = record {
  struct_size = desc_size;
  api_version = 1;
  bytes = desc.bytes;
  alignment = desc.alignment;
  location = map_location desc.location;
}

pub allocation_of : Slot → Option ℕ
allocation_of (handle h) = some h
allocation_of _ = none

-- After `dx_memory_alloc` returned 0; `wrapper` is whether the buffer object can be made.
pub wrap_buffer : Platform → Bool → CDevice → Option ℕ → Created
unfolding with_pool
wrap_buffer platform true device allocation = record {
  code = pos 0;
  error = cleared;
  device = device;
  out = made (record { device = device.address; allocation = allocation });
}
wrap_buffer platform false device allocation = record {
  code = allocation_failed;
  error = create_buffer_memory;
  device = with_pool device (dx_memory_free platform (some device.memory) allocation).1;
  out = null;
}

pub finish_buffer : Platform → Bool → CDevice → Reply → Created
unfolding wrap_buffer with_pool allocation_of component_result
finish_buffer platform wrapper device reply = elim reply.code [
  | pos zero ↦ wrap_buffer platform wrapper (with_pool device reply.pool) (allocation_of reply.out)
  | c ↦
      let failure = component_result c create_buffer_memory in
      record {
        code = failure.0;
        error = failure.1;
        device = with_pool device reply.pool;
        out = null;
      }
]

pub refuse_buffer : CDevice → LastError → BufferSlot → Created
refuse_buffer device error out = record {
  code = invalid_argument;
  error = error;
  device = device;
  out = out;
}

-- With a device, a descriptor and an out pointer; a null one gives the same answer as a bad header.
unfoldable pub dx_create_buffer_ex : Platform → AllocEnv → Bool → CDevice → Desc → Created
unfolding finish_buffer refuse_buffer valid_header
dx_create_buffer_ex platform env wrapper device desc =
    if not (valid_header desc.struct_size desc.api_version desc_size) || desc.bytes == 0
    then refuse_buffer device create_buffer_argument unwritten
    else if map_location desc.location == no_location
    then refuse_buffer device create_buffer_location null
    else finish_buffer platform wrapper device
        (dx_memory_alloc platform env (some device.memory) (some (memory_desc desc)) true)

-- The location is an int: a negative one is none of the three.
pub dx_create_buffer : Platform → AllocEnv → Bool → CDevice → ℕ → ℤ → Created
unfolding dx_create_buffer_ex
dx_create_buffer platform env wrapper device bytes location =
    dx_create_buffer_ex platform env wrapper device (record {
      struct_size = desc_size;
      api_version = 1;
      bytes = bytes;
      alignment = 0;
      location = elim location [ pos n ↦ n | ℤ.negsuc n ↦ no_location ];
    })

-- `device` is the one that the buffer points to.
pub dx_destroy_buffer : Platform → CDevice → CBuffer → CDevice
unfolding with_pool
dx_destroy_buffer platform device buffer = elim buffer.allocation [
  | none ↦ device
  | some h ↦ with_pool device (dx_memory_free platform (some device.memory) (some h)).1
]
