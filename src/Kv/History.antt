-- ===== src/Kv/History.antt =====
-- What clients of src/dxkv/dxkv.cpp hold, after any sequence of calls.
use dx_ai_st.Base.{
  ℕ, ◌+◌, ◌<◌, ◌≡◌, Bool, false, some, List, [], ◌∷◌, u32_mod, if◌then◌else◌, ◌==◌, length, get_or,
}
use dx_ai_st.Kv.{
  KvCacheConfig, KvCacheManager, new_manager, pool_exhausted, allocate_sequence, free_sequence,
}

-- How often an id stands in a list.
abbrev pub times : ℕ → List ℕ → ℕ
times k [] = 0
times k (id ∷ ids) = (if id == k then 1 else 0) + times k ids

-- A list without the first of an id.
abbrev pub without : ℕ → List ℕ → List ℕ
without k [] = []
without k (id ∷ ids) = if id == k then ids else id ∷ without k ids

-- An answer that is an id joins those that the clients hold.
abbrev pub hold : ℕ → List ℕ → List ℕ
hold id held = if id == pool_exhausted then held else id ∷ held

-- A cache and the ids that its clients hold, after calls of `allocate_sequence` and after clients gave ids
-- that they hold back to `free_sequence`.
pub data Reach (config : KvCacheConfig) : KvCacheManager → List ℕ → Type 0 where
  made : {kv : KvCacheManager} → new_manager config ≡ some kv → Reach config kv []
  allocated :
      {kv : KvCacheManager} {held : List ℕ}
      → Reach config kv held
      → Reach config (allocate_sequence kv).1 (hold (allocate_sequence kv).0 held)
  freed :
      {kv : KvCacheManager} {held : List ℕ} (id : ℕ)
      → 0 < times id held
      → Reach config kv held
      → Reach config (free_sequence id kv) (without id held)

abbrev taken : KvCacheManager → ℕ → Bool
taken kv k = get_or kv.allocated_pages k false

-- The pages that are taken are the ids that are held, each of them once.
record IsHeld (kv : KvCacheManager) (held : List ℕ) : Type 0 where
  small : length kv.allocated_pages < u32_mod
  count : (k : ℕ) → times k held ≡ (if taken kv k then 1 else 0)
