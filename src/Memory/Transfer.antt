-- ===== src/Memory/Transfer.antt =====
-- `dx_memory_upload`, `dx_memory_download` and `execute_buffer_copy` of src/core/dx_memory_api.cpp,
-- on the object that the handle points to. A host buffer is a list of bytes. Of Direct3D the model
-- takes only which call fails (`CopyEnv`); a queue that was waited for has made its copy.
pub mod RoundTrip
pub mod Frame
use dx_ai_st.Base.{
  ℕ, zero, suc, ◌+◌, ◌-◌, Bool, true, false, ◌||◌, ◌&&◌, not, Option, none, some, List, [], ◌∷◌,
  ◌++◌, ℤ, pos, minus, if◌then◌else◌, ltb, ◌==◌, length, take, drop,
}
use dx_ai_st.Memory.{
  Platform, windows, posix, Allocation, ResourceState, copy_dest, copy_source, range_valid,
}

-- memcpy(destination + offset, source, bytes)
unfoldable pub copy_to : List ℕ → ℕ → List ℕ → List ℕ
copy_to destination offset source =
    take offset destination ++ (source ++ drop (offset + length source) destination)

-- The bytes from `offset` on.
unfoldable pub read_at : List ℕ → ℕ → ℕ → List ℕ
read_at source offset bytes = take bytes (drop offset source)

-- Which of the calls of `execute_buffer_copy` succeed. `ran` is whether the queue had made the copy
-- when a later call failed.
pub record CopyEnv : Type 0 where
  pub staging : Bool
  pub staging_map : Bool
  pub queue : Bool
  pub allocator : Bool
  pub list : Bool
  pub close : Bool
  pub fence : Bool
  pub event : Bool
  pub signal_and_wait : Bool
  pub readback_map : Bool
  pub ran : Bool

pub record Copied : Type 0 where
  pub code : ℤ
  pub allocation : Allocation
  pub buffer : List ℕ

-- What is recorded on the command list.
pub data Command : Type 0 where
  transition : ResourceState → ResourceState → Command
  copy_region : Command

pub recorded : ResourceState → Bool → List Command
recorded prior true = transition prior copy_dest ∷ copy_region ∷ transition copy_dest prior ∷ []
recorded prior false =
    transition prior copy_source ∷ copy_region ∷ transition copy_source prior ∷ []

-- The state of the resource after the commands; `none` where a barrier names another state.
pub state_eq : ResourceState → ResourceState → Bool
state_eq ResourceState.common ResourceState.common = true
state_eq ResourceState.generic_read ResourceState.generic_read = true
state_eq copy_dest copy_dest = true
state_eq copy_source copy_source = true
state_eq _ _ = false

pub run_commands : List Command → ResourceState → Option ResourceState
unfolding state_eq
run_commands [] s = some s
run_commands (copy_region ∷ cs) s = run_commands cs s
run_commands (transition before after ∷ cs) s =
    let rest = run_commands cs after in if state_eq before s then rest else none

copied : Allocation → ℕ → List ℕ → ℕ → Allocation
unfolding copy_to
copied a offset buffer bytes = record a { contents = copy_to a.contents offset (take bytes buffer) }

-- The effect of the queue on the allocation: an upload writes it, a download reads it.
on_queue : Bool → Allocation → ℕ → List ℕ → ℕ → Allocation
unfolding copied
on_queue true a offset buffer bytes = copied a offset buffer bytes
on_queue false a offset buffer bytes = a

finish_copy : CopyEnv → Allocation → ℕ → List ℕ → ℕ → Bool → Copied
unfolding on_queue copy_to read_at
finish_copy env a offset buffer bytes upload =
    if not env.fence
    then failed 9
    else if not env.event
    then failed 10
    else if not env.signal_and_wait
    then failed 11
    else if upload
    then record { code = pos 0; allocation = done; buffer = buffer }
    else if not env.readback_map
    then record { code = minus 12; allocation = done; buffer = buffer }
    else record {
      code = pos 0;
      allocation = done;
      buffer = copy_to buffer 0 (read_at a.contents offset bytes);
    }
  where
    done : Allocation
    done = on_queue upload a offset buffer bytes

    failed : ℕ → Copied
    failed code = record {
      code = minus code;
      allocation = if env.ran then done else a;
      buffer = buffer;
    }

-- Null pointers are not passed by the two callers.
pub execute_buffer_copy : CopyEnv → Bool → Allocation → ℕ → List ℕ → ℕ → Bool → Copied
unfolding finish_copy
execute_buffer_copy env has_device a offset buffer bytes upload =
    if no_resource || bytes == 0 || not has_device
    then failed 1
    else if ltb a.bytes offset || ltb (a.bytes - offset) bytes
    then failed 2
    else if not env.staging
    then failed 3
    else if upload && not env.staging_map
    then failed 4
    else if not env.queue
    then failed 5
    else if not env.allocator
    then failed 6
    else if not env.list
    then failed 7
    else if not env.close
    then failed 8
    else finish_copy env a offset buffer bytes upload
  where
    no_resource : Bool
    no_resource = elim a.resource [ none ↦ true | some r ↦ false ]

    failed : ℕ → Copied
    failed code = record { code = minus code; allocation = a; buffer = buffer }

mapped : Allocation → Bool
mapped a = elim a.address [ none ↦ false | some p ↦ true ]

-- Here the pool and all pointers are given; a null pointer is the code -1.
upload_in : Platform → CopyEnv → Bool → Allocation → ℕ → List ℕ → ℕ → Copied
unfolding mapped copied execute_buffer_copy
upload_in platform env has_device a offset source bytes =
    if not (range_valid a.bytes offset bytes)
    then record { code = minus 1; allocation = a; buffer = source }
    else if mapped a
    then record { code = pos 0; allocation = copied a offset source bytes; buffer = source }
    else elim platform [
      | windows ↦ execute_buffer_copy env has_device a offset source bytes true
      | posix ↦ record { code = minus 3; allocation = a; buffer = source }
    ]

-- `pool` is whether the pool has a device, if there is a pool.
unfoldable pub dx_memory_upload :
    Platform → CopyEnv → Option Bool → Option Allocation → ℕ → Option (List ℕ) → ℕ → Option Copied
unfolding upload_in
dx_memory_upload platform env (some has_device) (some a) offset (some source) bytes =
    some (upload_in platform env has_device a offset source bytes)
dx_memory_upload platform env pool destination offset source bytes = none

download_in : Platform → CopyEnv → Bool → Allocation → ℕ → List ℕ → ℕ → Copied
unfolding mapped copy_to read_at execute_buffer_copy
download_in platform env has_device a offset destination bytes =
    if not (range_valid a.bytes offset bytes)
    then record { code = minus 1; allocation = a; buffer = destination }
    else if mapped a
    then record {
      code = pos 0;
      allocation = a;
      buffer = copy_to destination 0 (read_at a.contents offset bytes);
    }
    else elim platform [
      | windows ↦ execute_buffer_copy env has_device a offset destination bytes false
      | posix ↦ record { code = minus 3; allocation = a; buffer = destination }
    ]

unfoldable pub dx_memory_download :
    Platform → CopyEnv → Option Bool → Option Allocation → ℕ → Option (List ℕ) → ℕ → Option Copied
unfolding download_in
dx_memory_download platform env (some has_device) (some a) offset (some destination) bytes =
    some (download_in platform env has_device a offset destination bytes)
dx_memory_download platform env pool source offset destination bytes = none
