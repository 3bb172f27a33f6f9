-- ===== src/Memory/History.antt =====
-- The pools that calls of src/core/dx_memory_api.cpp lead to, and an allocation given back.
use dx_ai_st.Base.{
  ℕ, ◌+◌, ◌<◌, ◌≡◌, refl, true, Option, none, some, u64_mod, arith, inl, inr, Option-cases, pos,
  ◌∙◌, ap, subst, ==_refl,
}
use dx_ai_st.Base.Table.{find, emplace, erase-emplace, find-emplace}
use dx_ai_st.Memory.{Platform, Pool, Desc, Allocation, Reply, handle, new_pool}
use dx_ai_st.Memory.Valid.{IsValid, Leaves, total, total-erase}
use dx_ai_st.Memory.Alloc.{AllocEnv, dx_memory_alloc}
use dx_ai_st.Memory.Alloc.Outcome.{
  Outcome, rejected, failed, allocated, alloc-Outcome, count_allocation,
}
use dx_ai_st.Memory.Alloc.Keeps.{IsFresh, alloc-IsValid}
use dx_ai_st.Memory.Free.{dx_memory_free}
use dx_ai_st.Memory.Free.Keeps.{uncount, free-IsValid, free_found, free_missing}

-- A call on the pool. An object is fresh, and what is live fits in the address space.
pub data Step (platform : Platform) (p q : Pool) : Type 0 where
  allocates :
      (env : AllocEnv) (desc : Desc)
      → IsFresh env p
      → total p.allocations + desc.bytes < u64_mod
      → (dx_memory_alloc platform env (some p) (some desc) true).pool ≡ some q
      → Step platform p q
  frees : (h : ℕ) → (dx_memory_free platform (some p) (some h)).1 ≡ some q → Step platform p q

pub data Reach (platform : Platform) (p : Pool) : Pool → Type 0 where
  here : Reach platform p p
  next : {q r : Pool} → Reach platform p q → Step platform q r → Reach platform p r

-- The live count is exact: what is live has not wrapped.
pub record IsExact (p : Pool) : Type 0 where
  pub valid : IsValid p
  pub small : total p.allocations < u64_mod
  pub exact : p.stats.live_bytes ≡ total p.allocations

Leaves-eq : (P : Pool → Type 0) (o : Option Pool) (q : Pool) → o ≡ some q → Leaves P o → P q
Leaves-eq P none q e l = absurd l
Leaves-eq P (some p) q e l = subst P (ground arith) l

alloc_small :
    (env : AllocEnv) (p : Pool) (desc : Desc) (r : Reply)
    → IsFresh env p
    → total p.allocations + desc.bytes < u64_mod
    → Outcome env p desc r
    → Leaves (λ q. total q.allocations < u64_mod) r.pool
unfolding emplace
alloc_small env p desc r fresh small (rejected c e o) = simp e (omega arith)
alloc_small env p desc r fresh small (failed n c l u e o) = simp e (omega arith)
alloc_small env p desc r fresh small (allocated h a ok object c o b al e) =
    simp (e, emplace, fresh h object) (omega arith)

free_small :
    (platform : Platform) (p : Pool) (h : ℕ)
    → total p.allocations < u64_mod
    → Leaves (λ q. total q.allocations < u64_mod) (dx_memory_free platform (some p) (some h)).1
free_small platform p h small = elim (Option-cases (find h p.allocations)) [
  | inl e ↦ rw (free_missing platform p h e) small
  | inr (a, e) ↦ rw (free_found platform p h a e) (omega (arith, total-erase h p.allocations a e))
]

IsExact-of : (p : Pool) → IsValid p → total p.allocations < u64_mod → IsExact p
IsExact-of p v small = record { valid = v; small = small; exact = omega (arith, v.live) }

Step-IsExact : {platform : Platform} {p q : Pool} → Step platform p q → IsExact p → IsExact q
Step-IsExact {platform} {p} {q} (allocates env desc fresh small e) x =
    IsExact-of q
      (Leaves-eq IsValid _ q e (alloc-IsValid platform env p desc x.valid (omega arith) fresh))
      (Leaves-eq (λ q. total q.allocations < u64_mod) _ q e
        (alloc_small env p desc _ fresh small (alloc-Outcome platform env p desc)))
Step-IsExact {platform} {p} {q} (frees h e) x =
    IsExact-of q (Leaves-eq IsValid _ q e (free-IsValid platform p h x.valid x.small))
      (Leaves-eq (λ q. total q.allocations < u64_mod) _ q e (free_small platform p h x.small))

pub new_pool-IsExact :
    (platform : Platform) (device : Option ℕ) → IsExact (new_pool platform device)
unfolding new_pool
new_pool-IsExact platform device = record {
  valid = record { live = omega arith; peak = omega arith; distinct = tt; entries = tt };
  small = omega arith;
  exact = refl;
}

-- After any calls of `dx_memory_alloc` and `dx_memory_free` on a new pool, in any order and with any
-- answers from outside, the live count is
-- the sum of the sizes in the table, the peak is no less, no object stands twice, and each entry has
-- a size above 0 and an alignment that is a power of two and at least 8. The calls are those whose
-- new objects are not in the table and whose live bytes stay below 2 ^ 64.
pub Reach-IsExact :
    {platform : Platform} (device : Option ℕ) {q : Pool}
    → Reach platform (new_pool platform device) q
    → IsExact q
Reach-IsExact {platform} device here = new_pool-IsExact platform device
Reach-IsExact device (next r s) = Step-IsExact s (Reach-IsExact device r)

-- That `dx_memory_free` takes the object out, and the table and the live count are those of `p`.
abbrev Undoes : Platform → Pool → Pool → ℕ → Type 0
Undoes platform p q h =
    (r : Pool) × ((dx_memory_free platform (some q) (some h)).0 ≡ pos 0)
    × ((dx_memory_free platform (some q) (some h)).1 ≡ some r)
    × (r.allocations ≡ p.allocations)
    × (r.stats.live_bytes ≡ p.stats.live_bytes)

count_allocation-Undoes :
    (platform : Platform) (p : Pool) (desc : Desc) (h : ℕ) (a : Allocation)
    → IsExact p
    → find h p.allocations ≡ none
    → a.bytes ≡ desc.bytes
    → total p.allocations + desc.bytes < u64_mod
    → Undoes platform p (count_allocation p desc h a) h
count_allocation-Undoes platform p desc h a x fresh b small =
    let q = count_allocation p desc h a in
    let e : find h q.allocations ≡ some a =
      find-emplace h h a p.allocations fresh ∙ rw (==_refl h) in
    let f = free_found platform q h a e in
    (
      uncount q h a,
      ap (λ t. t.0) f,
      ap (λ t. t.1) f,
      erase-emplace h a p.allocations fresh,
      omega (arith, x.exact, x.small),
    )

Outcome-Undoes :
    (platform : Platform) (env : AllocEnv) (p q : Pool) (desc : Desc) (h : ℕ) (reply : Reply)
    → IsExact p
    → IsFresh env p
    → total p.allocations + desc.bytes < u64_mod
    → reply.out ≡ handle h
    → reply.pool ≡ some q
    → Outcome env p desc reply
    → Undoes platform p q h
Outcome-Undoes platform env p q desc h reply x fresh small o e (rejected c e' o') = absurd (cc)
Outcome-Undoes platform env p q desc h reply x fresh small o e (failed n c l u e' o') = absurd (cc)
Outcome-Undoes platform env p q desc h reply x fresh small o e
      (allocated k a ok object c o' b al e') =
    let same : count_allocation p desc k a ≡ q = ground arith in
    let one : k ≡ h = ground arith in
    subst (λ t. Undoes platform p t h) same
      (subst (λ t. Undoes platform p (count_allocation p desc k a) t) one
        (count_allocation-Undoes platform p desc k a x (fresh k object) b small))

-- What `dx_memory_alloc` hands out, `dx_memory_free` takes back: freeing the new object returns 0
-- and leaves the table and the live count as they were before the two calls. The pool is one whose
-- live count is exact, the object is fresh and the bytes fit in the address space.
pub free-alloc :
    (platform : Platform) (env : AllocEnv) (p q : Pool) (desc : Desc) (h : ℕ)
    → IsExact p
    → IsFresh env p
    → total p.allocations + desc.bytes < u64_mod
    → (dx_memory_alloc platform env (some p) (some desc) true).out ≡ handle h
    → (dx_memory_alloc platform env (some p) (some desc) true).pool ≡ some q
    → (r : Pool) × ((dx_memory_free platform (some q) (some h)).0 ≡ pos 0)
      × ((dx_memory_free platform (some q) (some h)).1 ≡ some r)
      × (r.allocations ≡ p.allocations)
      × (r.stats.live_bytes ≡ p.stats.live_bytes)
free-alloc platform env p q desc h x fresh small o e =
    Outcome-Undoes platform env p q desc h (dx_memory_alloc platform env (some p) (some desc) true)
      x fresh small o e (alloc-Outcome platform env p desc)
