-- ===== src/Memory/Alloc/Keeps.antt =====
-- `dx_memory_alloc` keeps the table and the counters of the pool in agreement.
use dx_ai_st.Base.{ℕ, ◌+◌, ◌<◌, ◌≡◌, true, none, some, u64_mod, arith}
use dx_ai_st.Base.Table.{find, emplace, emplace-Distinct}
use dx_ai_st.Memory.{Platform, Pool, Desc, Allocation, Reply}
use dx_ai_st.Memory.Valid.{IsValid, IsWellFormed, Leaves, total, Entries}
use dx_ai_st.Memory.Alloc.{AllocEnv, effective_alignment, dx_memory_alloc}
use dx_ai_st.Memory.Alloc.Outcome.{
  Outcome, rejected, failed, allocated, alloc-Outcome, count_allocation, IsAccepted,
}

-- `operator new` gives no object that is still in the table.
abbrev pub IsFresh : AllocEnv → Pool → Type 0
IsFresh env p = (h : ℕ) → env.object ≡ some h → find h p.allocations ≡ none

emplace-total :
    (h : ℕ) (a : Allocation) (p : Pool)
    → find h p.allocations ≡ none
    → total (emplace h a p.allocations) ≡ a.bytes + total p.allocations
unfolding emplace
emplace-total h a p e = ground arith

emplace-Entries :
    (h : ℕ) (a : Allocation) (p : Pool)
    → find h p.allocations ≡ none
    → IsWellFormed a
    → Entries p.allocations
    → Entries (emplace h a p.allocations)
unfolding emplace
emplace-Entries h a p e w es = ground arith

accepted-IsWellFormed :
    (desc : Desc) (a : Allocation)
    → IsAccepted desc
    → desc.bytes < u64_mod
    → a.bytes ≡ desc.bytes
    → a.alignment ≡ effective_alignment desc
    → IsWellFormed a
accepted-IsWellFormed desc a ok fits b al = ground arith

count_allocation-IsValid :
    (p : Pool) (desc : Desc) (h : ℕ) (a : Allocation)
    → IsValid p
    → find h p.allocations ≡ none
    → IsWellFormed a
    → a.bytes ≡ desc.bytes
    → IsValid (count_allocation p desc h a)
count_allocation-IsValid p desc h a v fresh w b = record {
  live = omega (arith, emplace-total h a p fresh, v.live);
  peak = omega arith;
  distinct = emplace-Distinct h a p.allocations fresh v.distinct;
  entries = emplace-Entries h a p fresh w v.entries;
}

Outcome-IsValid :
    (env : AllocEnv) (p : Pool) (desc : Desc) (r : Reply)
    → IsValid p
    → desc.bytes < u64_mod
    → IsFresh env p
    → Outcome env p desc r
    → Leaves IsValid r.pool
Outcome-IsValid env p desc r v fits fresh (rejected c e o) = simp e v
Outcome-IsValid env p desc r v fits fresh (failed n c l u e o) =
    simp e (record { live = v.live; peak = v.peak; distinct = v.distinct; entries = v.entries })
Outcome-IsValid env p desc r v fits fresh (allocated h a ok object c o b al e) = simp e (
    count_allocation-IsValid p desc h a v (fresh h object)
      (accepted-IsWellFormed desc a ok fits b al) b)

pub alloc-IsValid :
    (platform : Platform) (env : AllocEnv) (p : Pool) (desc : Desc)
    → IsValid p
    → desc.bytes < u64_mod
    → IsFresh env p
    → Leaves IsValid (dx_memory_alloc platform env (some p) (some desc) true).pool
alloc-IsValid platform env p desc v fits fresh =
    Outcome-IsValid env p desc (dx_memory_alloc platform env (some p) (some desc) true) v fits fresh
      (alloc-Outcome platform env p desc)
