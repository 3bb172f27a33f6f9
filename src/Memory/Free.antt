-- ===== src/Memory/Free.antt =====
-- `dx_memory_free`, the pool's destructor and `dx_memory_get_stats` of
-- src/core/dx_memory_api.cpp. Memory is released by calls to the outside, which are listed.
pub mod Keeps
use dx_ai_st.Base.{
  ℕ, ◌+◌, ◌-◌, ◌%◌, Option, none, some, List, [], ◌∷◌, ◌++◌, ℤ, pos, minus, if◌then◌else◌, ltb,
  u64_mod,
}
use dx_ai_st.Base.Table.{find, erase}
use dx_ai_st.Memory.{Platform, windows, posix, Pool, Stats, Allocation, stats_size}

-- The calls to the outside that release memory.
pub data Release : Type 0 where
  unmap : ℕ → Release
  free_aligned : Option ℕ → Release

pub release : Platform → Allocation → List Release
release posix a = free_aligned a.address ∷ []
release windows a = elim a.address [
  | none ↦ free_aligned a.address ∷ []
  | some p ↦ elim a.resource [
    | none ↦ free_aligned a.address ∷ []
    | some r ↦ unmap r ∷ free_aligned a.address ∷ []
  ]
]

free_in : Platform → Pool → ℕ → Option Allocation → ℤ × Option Pool × List Release
unfolding release
free_in platform pool object none = (minus 2, some pool, [])
free_in platform pool object (some a) = (
  pos 0,
  some (record pool {
    allocations = erase object pool.allocations;
    stats = record (pool.stats) {
      live_bytes = (pool.stats.live_bytes + u64_mod - a.bytes) % u64_mod;
    };
  }),
  release platform a,
)

unfoldable pub dx_memory_free : Platform → Option Pool → Option ℕ → ℤ × Option Pool × List Release
unfolding free_in
dx_memory_free platform (some pool) (some object) =
    free_in platform pool object (find object pool.allocations)
dx_memory_free platform pool object = (minus 1, pool, [])

pub release_all : Platform → List (ℕ × Allocation) → List Release
unfolding release
release_all platform [] = []
release_all platform ((object, a) ∷ rest) = release platform a ++ release_all platform rest

-- The destructor of `dx_memory_pool_t`.
pub dx_memory_pool_destroy : Platform → Option Pool → List Release
unfolding release_all
dx_memory_pool_destroy platform none = []
dx_memory_pool_destroy platform (some pool) = release_all platform pool.allocations

pub dx_memory_get_stats : Option Pool → Option ℕ → ℤ × Option Stats
dx_memory_get_stats (some pool) (some size) =
    if ltb size stats_size then (minus 1, none) else (pos 0, some pool.stats)
dx_memory_get_stats pool size = (minus 1, none)
