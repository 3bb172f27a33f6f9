-- ===== src/Kv/Tests.antt =====
-- A cache of src/dxkv/dxkv.cpp with two pages, and the theorems at it.
use dx_ai_st.Base.{◌≡◌, refl, true, false, [], ◌∷◌}
use dx_ai_st.Kv.{KvCacheConfig, KvCacheManager, allocate_loop, allocate_sequence}

abbrev cache : KvCacheManager
cache = record { buffer_bytes = 128; allocated_pages = true ∷ false ∷ [] }

abbrev cache_left : KvCacheManager
cache_left = record { buffer_bytes = 128; allocated_pages = false ∷ true ∷ [] }

second_page :
    allocate_sequence cache ≡ (1, record { buffer_bytes = 128; allocated_pages = true ∷ true ∷ [] })
unfolding allocate_sequence allocate_loop
second_page = refl

abbrev two_pages : KvCacheConfig
two_pages = record { num_layers = 2; num_heads = 1; head_dim = 2; max_seq_len = 16; page_size = 8 }
