-- ===== src/Memory/Alloc/Outcome.antt =====
-- The ways in which `dx_memory_alloc` ends.
use dx_ai_st.Base.{
  ℕ, zero, suc, ◌+◌, ◌%◌, ◌≤◌, ◌<◌, max, ◌≡◌, refl, ◌⊎◌, inl, inr, true, false, some, ℤ, pos, minus,
  u64_mod, arith, Bool-cases, Option-cases, if◌then◌else◌,
}
use dx_ai_st.Base.Table.{emplace}
use dx_ai_st.Memory.{
  Platform, windows, posix, Pool, Desc, Allocation, Reply, null, handle, is_power_of_two, desc_size,
  api_version,
}
use dx_ai_st.Memory.Alloc.{
  AllocEnv, bad_desc, bad_alignment, dx_memory_alloc, effective_alignment, alloc_in, checked_alloc,
  place_alloc, host_alloc, insert_alloc, fail_alloc, commit_alloc, refused, allocate_d3d12_resource,
  new_allocation,
}

-- A failure is counted, and nothing else changes.
abbrev pub count_failure : Pool → Pool
count_failure p = record p {
  stats = record (p.stats) { allocation_failures = (p.stats.allocation_failures + 1) % u64_mod };
}

abbrev pub live_after : Pool → Desc → ℕ
live_after p desc = (p.stats.live_bytes + desc.bytes) % u64_mod

-- The object enters the table, and its bytes the counters.
abbrev pub count_allocation : Pool → Desc → ℕ → Allocation → Pool
count_allocation p desc h a = record p {
  allocations = emplace h a p.allocations;
  stats = record (p.stats) {
    allocation_count = (p.stats.allocation_count + 1) % u64_mod;
    live_bytes = live_after p desc;
    peak_bytes = max p.stats.peak_bytes (live_after p desc);
  };
}

pub record IsAccepted (desc : Desc) : Type 0 where
  pub sized : desc_size ≤ desc.struct_size
  pub version : desc.api_version ≡ api_version
  pub nonempty : 0 < desc.bytes
  pub power : is_power_of_two (effective_alignment desc) ≡ true
  pub wide : 8 ≤ effective_alignment desc

pub data Outcome (env : AllocEnv) (p : Pool) (desc : Desc) (r : Reply) : Type 0 where
  rejected :
      (r.code ≡ minus 2) ⊎ (r.code ≡ minus 3)
      → r.pool ≡ some p
      → r.out ≡ null
      → Outcome env p desc r
  failed :
      (n : ℕ)
      → r.code ≡ minus n
      → 4 ≤ n
      → n ≤ 6
      → r.pool ≡ some (count_failure p)
      → r.out ≡ null
      → Outcome env p desc r
  allocated :
      (h : ℕ) (a : Allocation)
      → IsAccepted desc
      → env.object ≡ some h
      → r.code ≡ pos 0
      → r.out ≡ handle h
      → a.bytes ≡ desc.bytes
      → a.alignment ≡ effective_alignment desc
      → r.pool ≡ some (count_allocation p desc h a)
      → Outcome env p desc r

fail-Outcome :
    (env : AllocEnv) (p : Pool) (desc : Desc) (n : ℕ)
    → 4 ≤ n
    → n ≤ 6
    → Outcome env p desc (fail_alloc p n)
unfolding fail_alloc
fail-Outcome env p desc n l u = failed n refl l u refl refl

module _ (env : AllocEnv) (p : Pool) (desc : Desc) (h : ℕ) (ok : IsAccepted desc)
    (object : env.object ≡ some h) where
  insert-Outcome :
      (a : Allocation)
      → a.bytes ≡ desc.bytes
      → a.alignment ≡ effective_alignment desc
      → Outcome env p desc (insert_alloc p desc env h a)
  unfolding insert_alloc
  insert-Outcome a b al =
      elim env.inserts
        as (λ c. Outcome env p desc (if c then commit_alloc p desc h a else fail_alloc p 6)) [
          | true ↦ allocated h a ok object refl refl b al refl
          | false ↦ fail-Outcome env p desc 6 (omega arith) (omega arith)
        ]

  host-Outcome :
      (a : Allocation)
      → a.bytes ≡ desc.bytes
      → a.alignment ≡ effective_alignment desc
      → Outcome env p desc (host_alloc p desc env h a)
  unfolding host_alloc
  host-Outcome a b al = elim (Option-cases env.block) [
    | inl e ↦ simp (e, host_alloc) (fail-Outcome env p desc 5 (omega arith) (omega arith))
    | inr (x, e) ↦ simp (e, host_alloc) (insert-Outcome (record a { address = some x }) b al)
  ]

  place-Outcome :
      (c : ℤ) (a : Allocation)
      → a.bytes ≡ desc.bytes
      → a.alignment ≡ effective_alignment desc
      → Outcome env p desc (place_alloc p desc env h (c, a))
  unfolding place_alloc
  place-Outcome (ℤ.negsuc n) a b al = fail-Outcome env p desc 4 (omega arith) (omega arith)
  place-Outcome (pos zero) a b al = insert-Outcome a b al
  place-Outcome (pos (suc n)) a b al = host-Outcome a b al

  -- The native path sets neither the size nor the alignment.
  native_keeps :
      (a : Allocation)
      → ((allocate_d3d12_resource p desc env a).1.bytes ≡ a.bytes)
        × ((allocate_d3d12_resource p desc env a).1.alignment ≡ a.alignment)
  unfolding allocate_d3d12_resource
  native_keeps a = ground arith

  checked-Outcome :
      (platform : Platform)
      → Outcome env p desc (checked_alloc platform env p desc (effective_alignment desc) h)
  unfolding checked_alloc new_allocation
  checked-Outcome posix =
      host-Outcome (new_allocation desc (effective_alignment desc) env) refl refl
  checked-Outcome windows =
      let a = new_allocation desc (effective_alignment desc) env in
      let r = allocate_d3d12_resource p desc env a in
      place-Outcome r.0 r.1 (native_keeps a).0 (native_keeps a).1

guards_accept : (desc : Desc) → bad_desc desc ≡ false → bad_alignment desc ≡ false → IsAccepted desc
guards_accept desc e f = ground arith

alloc_in-Outcome :
    (platform : Platform) (env : AllocEnv) (p : Pool) (desc : Desc)
    → Outcome env p desc (alloc_in platform env p desc)
unfolding alloc_in refused
alloc_in-Outcome platform env p desc = elim (Bool-cases (bad_desc desc)) [
  | inl e ↦ rw e (rejected (inl refl) refl refl)
  | inr e ↦ rw e (elim (Bool-cases (bad_alignment desc)) [
    | inl f ↦ rw f (rejected (inr refl) refl refl)
    | inr f ↦ rw f (elim (Option-cases env.object) [
      | inl g ↦ simp (g, alloc_in) (fail-Outcome env p desc 6 (omega arith) (omega arith))
      | inr (h, g) ↦
          simp (g, alloc_in) (checked-Outcome env p desc h (guards_accept desc e f) g platform)
    ])
  ])
]

pub alloc-Outcome :
    (platform : Platform) (env : AllocEnv) (p : Pool) (desc : Desc)
    → Outcome env p desc (dx_memory_alloc platform env (some p) (some desc) true)
unfolding dx_memory_alloc
alloc-Outcome platform env p desc = alloc_in-Outcome platform env p desc
