-- ===== src/Context/Split.antt =====
-- How src/dxcontext/dxcontext.cpp splits the tokens of a context.
use dx_ai_st.Base.{
  ℕ, ◌+◌, ◌-◌, ◌%◌, ◌<◌, ◌≤◌, ◌≡◌, refl, min, true, false, List, [], ◌∷◌, some, arith, u32_mod, ltb,
  leb,
}
use dx_ai_st.Context.{
  ContextConfig, LongContextEngine, Translation, new_engine, append_tokens,
  set_target_context_length, translate_context_for_model,
}

-- A call that changes the engine.
pub data Call : Type 0 where
  append : ℕ → Call
  set_target : ℕ → Call

pub apply : Call → LongContextEngine → LongContextEngine
apply (append n) e = append_tokens n e
apply (set_target n) e = set_target_context_length n e

pub apply_all : List Call → LongContextEngine → LongContextEngine
unfolding apply
apply_all [] e = e
apply_all (c ∷ cs) e = apply_all cs (apply c e)

-- The tokens that the calls append, together.
pub appended : List Call → ℕ
appended [] = 0
appended (append n ∷ cs) = n + appended cs
appended (set_target n ∷ cs) = appended cs

-- The active tokens are those in video memory, at most a window, and those in system memory, of
-- which there are none before the window is full; the target is the configured one.
abbrev pub IsSplit : LongContextEngine → Type 0
IsSplit e =
    (e.stats.vram_tokens ≡ min e.stats.active_tokens e.config.sliding_window)
    × (e.stats.vram_tokens + e.stats.sysram_tokens ≡ e.stats.active_tokens)
    × (e.stats.target_tokens ≡ e.config.active_target_tokens)

new_engine-IsSplit : (config : ContextConfig) → IsSplit (new_engine config)
unfolding new_engine
new_engine-IsSplit config = (ground arith, ground arith, ground arith)

new_engine-active : (config : ContextConfig) → (new_engine config).stats.active_tokens ≡ 0
unfolding new_engine
new_engine-active config = ground arith

apply-IsSplit : (c : Call) (e : LongContextEngine) → IsSplit e → IsSplit (apply c e)
unfolding apply append_tokens set_target_context_length
apply-IsSplit (append n) e s = (refl, ground arith, s.2)
apply-IsSplit (set_target n) e s = (ground arith, ground arith, ground arith)

apply_all-IsSplit : (cs : List Call) (e : LongContextEngine) → IsSplit e → IsSplit (apply_all cs e)
unfolding apply_all
apply_all-IsSplit [] e s = s
apply_all-IsSplit (c ∷ cs) e s = apply_all-IsSplit cs (apply c e) (apply-IsSplit c e s)

apply_all-active :
    (cs : List Call) (e : LongContextEngine)
    → (apply_all cs e).stats.active_tokens % u32_mod
      ≡ (e.stats.active_tokens + appended cs) % u32_mod
unfolding apply_all appended apply append_tokens set_target_context_length
apply_all-active [] e = omega arith
apply_all-active (append n ∷ cs) e = omega (arith, apply_all-active cs (append_tokens n e))
apply_all-active (set_target n ∷ cs) e =
    ground (arith, apply_all-active cs (set_target_context_length n e))

-- Whatever calls append tokens and move the target of a new engine: the active tokens are those in
-- video memory, at most a window, and those in system memory; modulo 2 ^ 32 they are all tokens that
-- were appended, and the target in the statistics is the configured one.
pub new_engine-apply_all :
    (config : ContextConfig) (cs : List Call)
    → IsSplit (apply_all cs (new_engine config))
      × ((apply_all cs (new_engine config)).stats.active_tokens % u32_mod ≡ appended cs % u32_mod)
new_engine-apply_all config cs = (
  apply_all-IsSplit cs (new_engine config) (new_engine-IsSplit config),
  omega (arith, apply_all-active cs (new_engine config), new_engine-active config),
)

-- A context that is larger than a model's window of more than 128 tokens is split without loss: the
-- anchor and the recent tokens fill the window, and with the middle they are all active tokens.
pub translate_fits :
    (model_max : ℕ) (e : LongContextEngine)
    → 128 < model_max
    → model_max < e.stats.active_tokens
    → e.stats.active_tokens < u32_mod
    → (t : Translation) × (translate_context_for_model model_max e ≡ some t)
      × (t.anchor + t.recent ≡ model_max)
      × (t.anchor + t.recent + t.middle ≡ e.stats.active_tokens)
unfolding translate_context_for_model
translate_fits model_max e small over machine =
    let t : Translation = record {
      anchor = 128;
      recent = model_max - 128;
      middle = e.stats.active_tokens - model_max;
    } in
    let over_test : leb e.stats.active_tokens model_max ≡ false = ground arith in
    let room_test : ltb 128 model_max ≡ true = ground arith in
    let middle : (e.stats.active_tokens + u32_mod - (128 + (model_max - 128)) % u32_mod) % u32_mod
        ≡ e.stats.active_tokens - model_max =
      omega arith in
    (t, rw (over_test, room_test, middle), omega arith, omega arith)

-- For a model's window of at most 128 tokens and a context that is larger than the window by less
-- than 128, the anchor and the recent tokens are more than the context has, and the middle wraps
-- around to more than 2 ^ 32 - 128 tokens.
pub translate_wraps :
    (model_max : ℕ) (e : LongContextEngine)
    → model_max ≤ 128
    → model_max < e.stats.active_tokens
    → e.stats.active_tokens < 128 + model_max
    → (t : Translation) × (translate_context_for_model model_max e ≡ some t)
      × (e.stats.active_tokens < t.anchor + t.recent)
      × (u32_mod - 128 < t.middle)
unfolding translate_context_for_model
translate_wraps model_max e small over near =
    let t : Translation = record {
      anchor = 128;
      recent = model_max;
      middle = e.stats.active_tokens + u32_mod - (128 + model_max);
    } in
    let over_test : leb e.stats.active_tokens model_max ≡ false = ground arith in
    let room_test : ltb 128 model_max ≡ false = ground arith in
    let middle : (e.stats.active_tokens + u32_mod - (128 + model_max) % u32_mod) % u32_mod
        ≡ e.stats.active_tokens + u32_mod - (128 + model_max) =
      omega arith in
    (t, rw (over_test, room_test, middle), omega arith, omega arith)
