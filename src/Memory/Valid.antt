-- ===== src/Memory/Valid.antt =====
-- What the table and the counters of a pool of src/core/dx_memory_api.cpp promise together.
use dx_ai_st.Base.{
  ℕ, ◌+◌, ◌%◌, ◌≤◌, ◌<◌, ◌≡◌, true, Option, none, some, List, [], ◌∷◌, u64_mod, arith,
}
use dx_ai_st.Base.Table.{find, erase, Distinct}
use dx_ai_st.Memory.{Pool, Allocation, is_power_of_two}

-- The bytes of all live allocations.
abbrev pub total : List (ℕ × Allocation) → ℕ
total [] = 0
total ((h, a) ∷ m) = a.bytes + total m

-- What `dx_memory_alloc` checks of a request.
pub record IsWellFormed (a : Allocation) : Type 0 where
  pub nonempty : 0 < a.bytes
  pub fits : a.bytes < u64_mod
  pub power : is_power_of_two a.alignment ≡ true
  pub wide : 8 ≤ a.alignment

abbrev pub Entries : List (ℕ × Allocation) → Type 0
Entries [] = Unit
Entries ((h, a) ∷ m) = IsWellFormed a × Entries m

pub record IsValid (p : Pool) : Type 0 where
  pub live : p.stats.live_bytes ≡ total p.allocations % u64_mod
  pub peak : p.stats.live_bytes ≤ p.stats.peak_bytes
  pub distinct : Distinct p.allocations
  pub entries : Entries p.allocations

-- The pool that a call leaves.
abbrev pub Leaves : (Pool → Type 0) → Option Pool → Type 0
Leaves P none = ⊥
Leaves P (some q) = P q

pub total-erase :
    (h : ℕ) (m : List (ℕ × Allocation)) (a : Allocation)
    → find h m ≡ some a
    → total m ≡ a.bytes + total (erase h m)
unfolding find erase
total-erase h [] a e = absurd (ground arith)
total-erase h ((k, b) ∷ m) a e = ground (arith, total-erase h m a)

pub erase-Entries : (h : ℕ) (m : List (ℕ × Allocation)) → Entries m → Entries (erase h m)
unfolding erase
erase-Entries h [] e = tt
erase-Entries h ((k, b) ∷ m) e = ground (arith, erase-Entries h m e.1)

pub find-IsWellFormed :
    (h : ℕ) (m : List (ℕ × Allocation)) (a : Allocation)
    → Entries m
    → find h m ≡ some a
    → IsWellFormed a
unfolding find
find-IsWellFormed h [] a es e = absurd (ground arith)
find-IsWellFormed h ((k, b) ∷ m) a es e = ground (arith, find-IsWellFormed h m a es.1)
