-- ===== src/Model/Tests.antt =====
-- A small GGUF file opened with src/core/dx_model_api.cpp, and the theorem at it.
use dx_ai_st.Base.{ℕ, ◌≡◌, refl, true, false, List, [], ◌∷◌, some, pos, arith, take}
use dx_ai_st.Base.Text.{Text}
use dx_ai_st.Io.{File, portable, dx_io_provider_create}
use dx_ai_st.Model.{
  Model, gguf, onnx, gguf_magic, OpenEnv, detect_format, extension_is, last_dot, dx_model_open,
  dx_model_read,
}
use dx_ai_st.Model.Open.{dx_model_open-gguf}

abbrev path : Text
path = 97 ∷ 46 ∷ 98 ∷ 46 ∷ 111 ∷ 110 ∷ 110 ∷ 120 ∷ []

abbrev content : List ℕ
content = 71 ∷ 71 ∷ 85 ∷ 70 ∷ 3 ∷ []

abbrev small : File
small = record { bytes = some content; tells = true; delivers = 64 }

abbrev ready : OpenEnv
ready = record {
  memory = true;
  logger = true;
  provider = record { windows = false; has_directstorage = false; memory = true; logger = true };
}

-- The extension counts where the magic is not there, and only the last one.
by_extension : detect_format path (1 ∷ 2 ∷ 3 ∷ 4 ∷ []) ≡ onnx
unfolding detect_format extension_is last_dot
by_extension = refl

provider_ready : dx_io_provider_create ready.provider 0 ≡ (pos 0, some portable)
unfolding dx_io_provider_create
provider_ready = refl

dx_model_open-gguf_example :
    (m : Model) × (dx_model_open ready small path ≡ (pos 0, some m))
    × (m.bytes ≡ 5)
    × (take 4 content ≡ gguf_magic → m.format ≡ gguf)
    × (m.format ≡ gguf → take 4 content ≡ gguf_magic)
    × (dx_model_read small m 0 m.bytes ≡ (pos 0, content))
dx_model_open-gguf_example =
    dx_model_open-gguf ready small path content portable refl refl refl (omega arith) (omega arith)
      (omega arith) refl refl provider_ready
