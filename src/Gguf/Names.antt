-- ===== src/Gguf/Names.antt =====
-- The texts that src/dxmodel/dxmodel.cpp looks for and writes.
use dx_ai_st.Base.{[], ◌∷◌}
use dx_ai_st.Base.Text.{Text}

abbrev pub dot_gguf : Text
dot_gguf = b'.' ∷ b'g' ∷ b'g' ∷ b'u' ∷ b'f' ∷ []

abbrev pub dot_safetensors : Text
dot_safetensors =
    b'.' ∷ b's' ∷ b'a' ∷ b'f' ∷ b'e' ∷ b't' ∷ b'e' ∷ b'n' ∷ b's' ∷ b'o' ∷ b'r' ∷ b's' ∷ []

abbrev pub mtp : Text
mtp = b'm' ∷ b't' ∷ b'p' ∷ []

abbrev pub speculative : Text
speculative = b's' ∷ b'p' ∷ b'e' ∷ b'c' ∷ b'u' ∷ b'l' ∷ b'a' ∷ b't' ∷ b'i' ∷ b'v' ∷ b'e' ∷ []

abbrev pub kv_a : Text
kv_a = b'k' ∷ b'v' ∷ b'_' ∷ b'a' ∷ []

abbrev pub kv_b : Text
kv_b = b'k' ∷ b'v' ∷ b'_' ∷ b'b' ∷ []

abbrev pub q_a : Text
q_a = b'q' ∷ b'_' ∷ b'a' ∷ []

abbrev pub deepseek_v3 : Text
deepseek_v3 = b'd' ∷ b'e' ∷ b'e' ∷ b'p' ∷ b's' ∷ b'e' ∷ b'e' ∷ b'k' ∷ b'_' ∷ b'v' ∷ b'3' ∷ []

abbrev pub deepseek_v3_mtp : Text
deepseek_v3_mtp =
    b'd' ∷ b'e' ∷ b'e' ∷ b'p' ∷ b's' ∷ b'e' ∷ b'e' ∷ b'k' ∷ b'_' ∷ b'v' ∷ b'3' ∷ b'_' ∷ b'm' ∷ b't'
    ∷ b'p' ∷ []

abbrev pub deepseek_v3_mla : Text
deepseek_v3_mla =
    b'd' ∷ b'e' ∷ b'e' ∷ b'p' ∷ b's' ∷ b'e' ∷ b'e' ∷ b'k' ∷ b'_' ∷ b'v' ∷ b'3' ∷ b'_' ∷ b'm' ∷ b'l'
    ∷ b'a' ∷ []

abbrev pub transformer_gqa : Text
transformer_gqa =
    b't' ∷ b'r' ∷ b'a' ∷ b'n' ∷ b's' ∷ b'f' ∷ b'o' ∷ b'r' ∷ b'm' ∷ b'e' ∷ b'r' ∷ b'_' ∷ b'g' ∷ b'q'
    ∷ b'a' ∷ []

abbrev pub deepseek_r1_dflash : Text
deepseek_r1_dflash =
    b'd' ∷ b'e' ∷ b'e' ∷ b'p' ∷ b's' ∷ b'e' ∷ b'e' ∷ b'k' ∷ b'_' ∷ b'r' ∷ b'1' ∷ b'_' ∷ b'd' ∷ b'f'
    ∷ b'l' ∷ b'a' ∷ b's' ∷ b'h' ∷ []
