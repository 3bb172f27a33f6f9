-- ===== src/Kv.antt =====
-- src/dxkv/dxkv.cpp: the pages of a key/value cache, handed out as sequence ids. The two buffers of
-- the device are here by their size only; that the device fails to create one is not modelled.
pub mod Pages
pub mod History
mod Tests
use dx_ai_st.Base.{
  ℕ, ◌+◌, ◌-◌, ◌*◌, ◌/◌, ◌%◌, Bool, true, false, not, Option, none, some, List, [], ◌∷◌,
  if◌then◌else◌, ltb, ◌==◌, u32_mod, u64_mod, length, set, replicate,
}

-- KVCacheConfig
pub record KvCacheConfig : Type 0 where
  pub num_layers : ℕ
  pub num_heads : ℕ
  pub head_dim : ℕ
  pub max_seq_len : ℕ
  pub page_size : ℕ

-- KVCacheManager
pub record KvCacheManager : Type 0 where
  pub buffer_bytes : ℕ
  pub allocated_pages : List Bool

-- Elements of two bytes; the products are those of uint64_t.
pub bytes_per_buffer : KvCacheConfig → ℕ
bytes_per_buffer config =
    config.num_layers * config.num_heads % u64_mod * config.max_seq_len % u64_mod * config.head_dim
    % u64_mod * 2 % u64_mod

-- The sum is one of uint32_t.
pub page_count : KvCacheConfig → ℕ
page_count config =
    (config.max_seq_len + config.page_size + u32_mod - 1) % u32_mod / config.page_size

-- `none` is a division by 0.
pub new_manager : KvCacheConfig → Option KvCacheManager
unfolding bytes_per_buffer page_count
new_manager config =
    if config.page_size == 0
    then none
    else some (record {
      buffer_bytes = bytes_per_buffer config;
      allocated_pages = replicate (page_count config) false;
    })

abbrev pub pool_exhausted : ℕ
pool_exhausted = u32_mod - 1

-- The loop of `allocate_sequence` at index `i`: the id, and the pages from there on.
pub allocate_loop : List Bool → ℕ → ℕ × List Bool
allocate_loop [] i = (pool_exhausted, [])
allocate_loop (page ∷ pages) i =
    let rest = allocate_loop pages (i + 1) in
    if not page then (i % u32_mod, true ∷ pages) else (rest.0, page ∷ rest.1)

pub allocate_sequence : KvCacheManager → ℕ × KvCacheManager
unfolding allocate_loop
allocate_sequence kv =
    let r = allocate_loop kv.allocated_pages 0 in (r.0, record kv { allocated_pages = r.1 })

pub free_sequence : ℕ → KvCacheManager → KvCacheManager
free_sequence seq_id kv =
    if ltb seq_id (length kv.allocated_pages)
    then record kv { allocated_pages = set kv.allocated_pages seq_id false }
    else kv
