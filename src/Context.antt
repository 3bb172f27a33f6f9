-- ===== src/Context.antt =====
-- src/dxcontext/dxcontext.cpp: the bookkeeping of a long context, whose last tokens are in video
-- memory and whose others are in system memory. A buffer of the device is its size in bytes; that the
-- device fails to create one, the floating-point `compression_ratio` and the copies that
-- `offload_cold_context` and `prefetch_context` queue are not modelled.
pub mod Split
mod Tests
use dx_ai_st.Base.{
  ℕ, ◌+◌, ◌-◌, ◌*◌, ◌/◌, ◌%◌, min, Bool, true, false, ◌&&◌, Option, none, some, if◌then◌else◌, ltb,
  leb, u32_mod, u64_mod,
}

-- ContextQuantType; `uncompressed` is its None.
pub data ContextQuantType : Type 0 where
  uncompressed int8 q4_0 : ContextQuantType

-- ContextConfig, less `enable_compression`.
pub record ContextConfig : Type 0 where
  pub max_tokens : ℕ
  pub active_target_tokens : ℕ
  pub num_heads : ℕ
  pub head_dim : ℕ
  pub sliding_window : ℕ
  pub quant_type : ContextQuantType
  pub enable_offloading : Bool

-- ContextStats, less `compression_ratio`.
pub record ContextStats : Type 0 where
  pub active_tokens : ℕ
  pub target_tokens : ℕ
  pub vram_tokens : ℕ
  pub sysram_tokens : ℕ
  pub vram_bytes : ℕ
  pub sysram_bytes : ℕ

-- LongContextEngine
pub record LongContextEngine : Type 0 where
  pub config : ContextConfig
  pub stats : ContextStats
  pub vram_kv_cache : ℕ
  pub sysram_kv_cache : Option ℕ

pub calculate_kv_bytes : ℕ → ℕ → ℕ → ContextQuantType → ℕ
calculate_kv_bytes tokens heads dim quant = elim quant [
  | int8 ↦ raw_bytes / 2
  | q4_0 ↦ raw_bytes / 4
  | uncompressed ↦ raw_bytes
]
  where
    raw_bytes : ℕ
    raw_bytes = tokens * heads % u64_mod * dim % u64_mod * 2 % u64_mod * 4 % u64_mod

-- The tokens that do not fit the window.
pub cold_tokens : ContextConfig → ℕ
cold_tokens config =
    if ltb config.sliding_window config.active_target_tokens
    then config.active_target_tokens - config.sliding_window
    else 0

-- `calculate_kv_bytes` for a number of tokens of a configuration.
pub config_bytes : ContextConfig → ℕ → ℕ
unfolding calculate_kv_bytes
config_bytes config tokens =
    calculate_kv_bytes tokens config.num_heads config.head_dim config.quant_type

pub new_engine : ContextConfig → LongContextEngine
unfolding config_bytes cold_tokens
new_engine config =
    if config.enable_offloading && ltb 0 (cold_tokens config)
    then made sys_bytes (some sys_bytes)
    else made 0 none
  where
    sys_bytes : ℕ
    sys_bytes = config_bytes config (cold_tokens config)

    made : ℕ → Option ℕ → LongContextEngine
    made bytes cache = record {
      config = config;
      stats = record {
        active_tokens = 0;
        target_tokens = config.active_target_tokens;
        vram_tokens = 0;
        sysram_tokens = 0;
        vram_bytes = config_bytes config config.sliding_window;
        sysram_bytes = bytes;
      };
      vram_kv_cache = config_bytes config config.sliding_window;
      sysram_kv_cache = cache;
    }

pub set_target_context_length : ℕ → LongContextEngine → LongContextEngine
unfolding config_bytes cold_tokens
set_target_context_length target engine =
    if config.enable_offloading && ltb 0 sys_bytes
    then record {
      config = config;
      stats = record stats { sysram_bytes = sys_bytes };
      vram_kv_cache = engine.vram_kv_cache;
      sysram_kv_cache = some sys_bytes;
    }
    else record {
      config = config;
      stats = stats;
      vram_kv_cache = engine.vram_kv_cache;
      sysram_kv_cache = engine.sysram_kv_cache;
    }
  where
    config : ContextConfig
    config = record engine.config { active_target_tokens = min target engine.config.max_tokens }

    stats : ContextStats
    stats = record engine.stats { target_tokens = config.active_target_tokens }

    sys_bytes : ℕ
    sys_bytes = config_bytes config (cold_tokens config)

pub append_tokens : ℕ → LongContextEngine → LongContextEngine
append_tokens num_tokens engine = record {
  config = engine.config;
  stats = record engine.stats {
    active_tokens = active;
    vram_tokens = min active engine.config.sliding_window;
    sysram_tokens =
        if ltb engine.config.sliding_window active
        then active - engine.config.sliding_window
        else 0;
  };
  vram_kv_cache = engine.vram_kv_cache;
  sysram_kv_cache = engine.sysram_kv_cache;
}
  where
    active : ℕ
    active = (engine.stats.active_tokens + num_tokens) % u32_mod

-- The three token counts that `translate_context_for_model` reports, if it comes to that.
pub record Translation : Type 0 where
  pub anchor : ℕ
  pub recent : ℕ
  pub middle : ℕ

abbrev pub prompt_anchor_tokens : ℕ
prompt_anchor_tokens = 128

pub translate_context_for_model : ℕ → LongContextEngine → Option Translation
translate_context_for_model model_max_context engine =
    if leb engine.stats.active_tokens model_max_context
    then none
    else some (record {
      anchor = prompt_anchor_tokens;
      recent = recent_window_tokens;
      middle =
          (engine.stats.active_tokens
            + u32_mod
            - (prompt_anchor_tokens + recent_window_tokens) % u32_mod)
          % u32_mod;
    })
  where
    recent_window_tokens : ℕ
    recent_window_tokens =
        if ltb prompt_anchor_tokens model_max_context
        then model_max_context - prompt_anchor_tokens
        else model_max_context
