-- ===== src/CApi/Buffer/Owned.antt =====
-- Who owns the memory of a buffer of src/core/dx_c_api.cpp: the buffer that is handed out, or nobody.
use dx_ai_st.Base.{
  ℕ, subst, zero, suc, ◌+◌, ◌<◌, ◌≡◌, refl, ◌∙◌, ◌⊎◌, inl, inr, Bool, true, false, some, ℤ, pos,
  u64_mod, arith, Bool-cases, not, ◌||◌, ◌==◌, ==_refl,
}
use dx_ai_st.Base.Table.{find, erase, find-emplace, erase-emplace}
use dx_ai_st.Memory.{Platform, Pool, Desc, Reply, Allocation, desc_size, handle}
use dx_ai_st.Memory.Valid.{total}
use dx_ai_st.Memory.Alloc.{AllocEnv, dx_memory_alloc}
use dx_ai_st.Memory.Alloc.Outcome.{
  Outcome, rejected, failed, allocated, alloc-Outcome, count_allocation,
}
use dx_ai_st.Memory.Alloc.Keeps.{IsFresh}
use dx_ai_st.Memory.Free.Keeps.{free_found}
use dx_ai_st.Memory.History.{IsExact, free-alloc}
use dx_ai_st.CApi.{
  LastError, cleared, create_buffer_memory, CDevice, CBuffer, component_result, valid_header,
  map_location, no_location,
}
use dx_ai_st.CApi.Buffer.{
  BufferSlot, unwritten, made, Created, with_pool, memory_desc, allocation_of, wrap_buffer,
  finish_buffer, refuse_buffer, dx_create_buffer_ex, dx_destroy_buffer,
}

-- That the devices own the same memory: the same objects stand in their pools, and as many bytes are live.
pub record OwnsSame (d e : CDevice) : Type 0 where
  pub same : d.memory.allocations ≡ e.memory.allocations
  pub live : d.memory.stats.live_bytes ≡ e.memory.stats.live_bytes

-- The two ends of a creation.
pub data Creation (device : CDevice) (desc : Desc) (r : Created) : Type 0 where
  owned :
      (h : ℕ) (a : Allocation)
      → r.code ≡ pos 0
      → r.error ≡ cleared
      → r.out ≡ made (record { device = device.address; allocation = some h })
      → find h r.device.memory.allocations ≡ some a
      → a.bytes ≡ desc.bytes
      → erase h r.device.memory.allocations ≡ device.memory.allocations
      → r.device.memory.stats.live_bytes ≡ device.memory.stats.live_bytes + desc.bytes
      → Creation device desc r
  nothing :
      (k : ℕ)
      → r.code ≡ ℤ.negsuc k
      → (r.out ≡ BufferSlot.null) ⊎ (r.out ≡ unwritten)
      → OwnsSame r.device device
      → Creation device desc r

same_device : (d : CDevice) → OwnsSame d d
same_device d = record { same = refl; live = refl }

component_failure :
    (k : ℕ) (e : LastError) → (j : ℕ) × ((component_result (ℤ.negsuc k) e).0 ≡ ℤ.negsuc j)
unfolding component_result
component_failure zero e = (0, refl)
component_failure (suc zero) e = (3, refl)
component_failure (suc (suc zero)) e = (2, refl)
component_failure (suc (suc (suc k))) e = (3, refl)

-- A call of `dx_memory_alloc` that failed.
finish_failure :
    (platform : Platform) (wrapper : Bool) (device : CDevice) (desc : Desc) (q : Pool)
    (reply : Reply) (k : ℕ)
    → reply.code ≡ ℤ.negsuc k
    → reply.pool ≡ some q
    → q.allocations ≡ device.memory.allocations
    → q.stats.live_bytes ≡ device.memory.stats.live_bytes
    → Creation device desc (finish_buffer platform wrapper device reply)
unfolding finish_buffer with_pool
finish_failure platform wrapper device desc q reply k c e s l =
    let f = component_failure k create_buffer_memory in
    simp (c, e, finish_buffer) (nothing f.0 f.1 (inl refl) (record { same = s; live = l }))

module _ (platform : Platform) (env : AllocEnv) (device : CDevice) (desc : Desc)
    (exact : IsExact device.memory) (fresh : IsFresh env device.memory)
    (small : total device.memory.allocations + desc.bytes < u64_mod) where
  abbrev reply : Reply
  reply = dx_memory_alloc platform env (some device.memory) (some (memory_desc desc)) true

  -- The buffer object finds memory or the allocation is freed again.
  wrap-Creation :
      (wrapper : Bool) (h : ℕ) (a : Allocation)
      → env.object ≡ some h
      → reply.out ≡ handle h
      → reply.code ≡ pos 0
      → a.bytes ≡ desc.bytes
      → reply.pool ≡ some (count_allocation device.memory (memory_desc desc) h a)
      → Creation device desc (finish_buffer platform wrapper device reply)
  unfolding finish_buffer wrap_buffer with_pool allocation_of
  wrap-Creation true h a object o c b e =
      simp (c, e, o, finish_buffer)
        (owned h a refl refl refl
          (find-emplace h h a device.memory.allocations (fresh h object) ∙ rw (==_refl h)) b
          (erase-emplace h a device.memory.allocations (fresh h object))
          (omega (arith, exact.exact)))
  wrap-Creation false h a object o c b e =
      let q = count_allocation device.memory (memory_desc desc) h a in
      let (r, f, g, s, l) =
        free-alloc platform env device.memory q (memory_desc desc) h exact fresh small o e in
      simp (c, e, o, finish_buffer, g) (nothing 2 refl (inl refl) (record { same = s; live = l }))

  finish-Creation :
      (wrapper : Bool)
      → Outcome env device.memory (memory_desc desc) reply
      → Creation device desc (finish_buffer platform wrapper device reply)
  finish-Creation wrapper (rejected (inl c) e o) =
      finish_failure platform wrapper device desc device.memory reply 1 c e refl refl
  finish-Creation wrapper (rejected (inr c) e o) =
      finish_failure platform wrapper device desc device.memory reply 2 c e refl refl
  finish-Creation wrapper (failed (suc n) c l u e o) =
      finish_failure platform wrapper device desc _ reply n c e refl refl
  finish-Creation wrapper (failed zero c l u e o) = absurd (omega arith)
  finish-Creation wrapper (allocated h a ok object c o b al e) =
      wrap-Creation wrapper h a object o c b e

-- From a device whose pool is exact, with a fresh object whose bytes fit in the address space,
-- `dx_create_buffer_ex` ends in one of two ways. It returns 0 and a buffer of this device, whose handle
-- stands in the pool with the size that was asked for, beside what stood there. Or it returns a
-- negative code and no buffer, and the pool holds the same objects and as many live bytes as before,
-- also where the memory was there and the buffer object could not be made.
pub create_buffer-Creation :
    (platform : Platform) (env : AllocEnv) (wrapper : Bool) (device : CDevice) (desc : Desc)
    → IsExact device.memory
    → IsFresh env device.memory
    → total device.memory.allocations + desc.bytes < u64_mod
    → Creation device desc (dx_create_buffer_ex platform env wrapper device desc)
unfolding dx_create_buffer_ex refuse_buffer
create_buffer-Creation platform env wrapper device desc exact fresh small =
    elim (Bool-cases
      (not (valid_header desc.struct_size desc.api_version desc_size) || desc.bytes == 0)) [
        | inl e ↦ rw e (nothing 0 refl (inr refl) (same_device device))
        | inr e ↦ rw e (elim (Bool-cases (map_location desc.location == no_location)) [
          | inl f ↦ rw f (nothing 0 refl (inl refl) (same_device device))
          | inr f ↦ rw f (
              finish-Creation platform env device desc exact fresh small wrapper
                (alloc-Outcome platform env device.memory (memory_desc desc)))
        ])
      ]

destroy-owned :
    (platform : Platform) (device : CDevice) (desc : Desc) (r : Created) (b : CBuffer)
    → IsExact device.memory
    → desc.bytes < u64_mod
    → total device.memory.allocations + desc.bytes < u64_mod
    → r.out ≡ made b
    → Creation device desc r
    → OwnsSame (dx_destroy_buffer platform r.device b) device
unfolding dx_destroy_buffer with_pool
destroy-owned platform device desc r b x fits small o (nothing k c (inl n) s) = absurd (cc)
destroy-owned platform device desc r b x fits small o (nothing k c (inr n) s) = absurd (cc)
destroy-owned platform device desc r b x fits small o (owned h a c e out f bytes erased live) =
    let same : record { device = device.address; allocation = some h } ≡ b = ground arith in
    subst (λ t. OwnsSame (dx_destroy_buffer platform r.device t) device) same
      (simp (free_found platform r.device.memory h a f, with_pool)
        (record { same = erased; live = omega (arith, x.exact, live, bytes) }))

-- What `dx_create_buffer_ex` makes, `dx_destroy_buffer` takes back: the pool of the device then holds the
-- objects and the live bytes that it held before the two calls. The device's pool is exact, the object is
-- fresh and the bytes fit in the address space.
pub destroy-create_buffer :
    (platform : Platform) (env : AllocEnv) (wrapper : Bool) (device : CDevice) (desc : Desc)
    (b : CBuffer)
    → IsExact device.memory
    → IsFresh env device.memory
    → total device.memory.allocations + desc.bytes < u64_mod
    → (dx_create_buffer_ex platform env wrapper device desc).out ≡ made b
    → OwnsSame
        (dx_destroy_buffer platform (dx_create_buffer_ex platform env wrapper device desc).device b)
        device
destroy-create_buffer platform env wrapper device desc b x fresh small o =
    destroy-owned platform device desc _ b x (omega arith) small o
      (create_buffer-Creation platform env wrapper device desc x fresh small)
