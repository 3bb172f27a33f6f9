-- ===== src/Memory/Free/Keeps.antt =====
-- `dx_memory_free` on every branch, and that it keeps the pool's table and counters in agreement.
use dx_ai_st.Base.{
  ℕ, ◌+◌, ◌-◌, ◌%◌, ◌<◌, ◌≡◌, none, some, List, [], inl, inr, pos, minus, u64_mod, arith,
  Option-cases,
}
use dx_ai_st.Base.Table.{find, erase, erase-Distinct, find-erase_self}
use dx_ai_st.Memory.{Platform, Pool, Allocation}
use dx_ai_st.Memory.Valid.{IsValid, Leaves, total, total-erase, erase-Entries, find-IsWellFormed}
use dx_ai_st.Memory.Free.{Release, dx_memory_free, free_in, release}

-- The pool after an allocation of the table left it.
abbrev pub uncount : Pool → ℕ → Allocation → Pool
uncount p h a = record p {
  allocations = erase h p.allocations;
  stats = record (p.stats) { live_bytes = (p.stats.live_bytes + u64_mod - a.bytes) % u64_mod };
}

pub free_missing :
    (platform : Platform) (p : Pool) (h : ℕ)
    → find h p.allocations ≡ none
    → dx_memory_free platform (some p) (some h) ≡ (minus 2, some p, [])
unfolding dx_memory_free
free_missing platform p h e = simp (e, free_in)

pub free_found :
    (platform : Platform) (p : Pool) (h : ℕ) (a : Allocation)
    → find h p.allocations ≡ some a
    → dx_memory_free platform (some p) (some h) ≡ (pos 0, some (uncount p h a), release platform a)
unfolding dx_memory_free
free_found platform p h a e = simp (e, free_in)

-- What is subtracted is part of the count, so the difference modulo 2 ^ 64 is exact.
wrap_sub :
    (live b rest : ℕ)
    → live ≡ (b + rest) % u64_mod
    → b < u64_mod
    → (live + u64_mod - b) % u64_mod ≡ rest % u64_mod
wrap_sub live b rest e h = omega arith

uncount-IsValid :
    (p : Pool) (h : ℕ) (a : Allocation)
    → IsValid p
    → find h p.allocations ≡ some a
    → total p.allocations < u64_mod
    → IsValid (uncount p h a)
uncount-IsValid p h a v e small = record {
  live =
      wrap_sub p.stats.live_bytes a.bytes (total (erase h p.allocations))
        (omega (arith, v.live, total-erase h p.allocations a e))
        (find-IsWellFormed h p.allocations a v.entries e).fits;
  peak = omega (arith, v.live, v.peak, total-erase h p.allocations a e);
  distinct = erase-Distinct h p.allocations v.distinct;
  entries = erase-Entries h p.allocations v.entries;
}

pub free-IsValid :
    (platform : Platform) (p : Pool) (h : ℕ)
    → IsValid p
    → total p.allocations < u64_mod
    → Leaves IsValid (dx_memory_free platform (some p) (some h)).1
free-IsValid platform p h v small = elim (Option-cases (find h p.allocations)) [
  | inl e ↦ rw (free_missing platform p h e) v
  | inr (a, e) ↦ rw (free_found platform p h a e) (uncount-IsValid p h a v e small)
]

-- A handle that was freed is no longer in the table of a pool that is valid: a second call with it
-- returns -2, releases nothing and changes nothing.
pub free_twice :
    (platform : Platform) (p q : Pool) (h : ℕ) (calls : List Release)
    → IsValid p
    → dx_memory_free platform (some p) (some h) ≡ (pos 0, some q, calls)
    → dx_memory_free platform (some q) (some h) ≡ (minus 2, some q, [])
free_twice platform p q h calls v e = elim (Option-cases (find h p.allocations)) [
  | inl f ↦ absurd (cc (free_missing platform p h f))
  | inr (a, f) ↦
      free_missing platform q h
        (ground (arith, free_found platform p h a f, find-erase_self h p.allocations v.distinct))
]
