-- ===== src/Context/Tests.antt =====
-- An engine of src/dxcontext/dxcontext.cpp with a window of four tokens, and the theorems at it.
use dx_ai_st.Base.{ℕ, ◌+◌, ◌%◌, ◌<◌, ◌≡◌, true, [], ◌∷◌, some, arith, u32_mod}
use dx_ai_st.Context.{
  ContextConfig, LongContextEngine, Translation, q4_0, new_engine, translate_context_for_model,
}
use dx_ai_st.Context.Split.{
  append, set_target, apply_all, appended, IsSplit, new_engine-apply_all, translate_fits,
  translate_wraps,
}

abbrev small : ContextConfig
small = record {
  max_tokens = 4096;
  active_target_tokens = 8;
  num_heads = 2;
  head_dim = 2;
  sliding_window = 4;
  quant_type = q4_0;
  enable_offloading = true;
}

-- An engine with a number of active tokens.
abbrev holding : ℕ → LongContextEngine
holding n = record {
  config = small;
  stats = record {
    active_tokens = n;
    target_tokens = 8;
    vram_tokens = 4;
    sysram_tokens = n;
    vram_bytes = 32;
    sysram_bytes = 32;
  };
  vram_kv_cache = 32;
  sysram_kv_cache = some 32;
}

new_engine-apply_all_example :
    let calls = append 3 ∷ set_target 100 ∷ append 4 ∷ [] in
    IsSplit (apply_all calls (new_engine small))
    × ((apply_all calls (new_engine small)).stats.active_tokens % u32_mod
        ≡ appended calls % u32_mod)
new_engine-apply_all_example =
    new_engine-apply_all small (append 3 ∷ set_target 100 ∷ append 4 ∷ [])

translate_fits_example :
    (t : Translation) × (translate_context_for_model 4096 (holding 10000) ≡ some t)
    × (t.anchor + t.recent ≡ 4096)
    × (t.anchor + t.recent + t.middle ≡ 10000)
translate_fits_example =
    translate_fits 4096 (holding 10000) (omega arith) (omega arith) (omega arith)

translate_wraps_example :
    (t : Translation) × (translate_context_for_model 100 (holding 200) ≡ some t)
    × (200 < t.anchor + t.recent)
    × (4294967168 < t.middle)
translate_wraps_example =
    translate_wraps 100 (holding 200) (omega arith) (omega arith) (omega arith)
