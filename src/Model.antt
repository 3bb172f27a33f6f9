-- ===== src/Model.antt =====
-- src/core/dx_model_api.cpp: a model file, its container format and reads from it. The file stays as
-- it is while it is open; null pointers are refused and not given here.
pub mod Open
mod Tests
use dx_ai_st.Base.{
  ℕ, Bool, true, false, ◌&&◌, not, Option, none, some, List, [], ◌∷◌, ℤ, pos, minus, if◌then◌else◌,
  leb, ◌==◌, length, take,
}
use dx_ai_st.Base.Text.{Text, valid_text, same_text}
use dx_ai_st.Io.{File, ProviderEnv, auto, dx_io_provider_create, dx_io_read_file}

-- dx_model_format_t; the format of no model is left out.
pub data ModelFormat : Type 0 where
  generic gguf safetensors onnx : ModelFormat

-- dx_model_t; the provider is its kind.
pub record Model : Type 0 where
  pub provider : ℕ
  pub bytes : ℕ
  pub format : ModelFormat
  pub path : Text

-- The size that `tellg` answers; 0 for a file that is not there.
pub file_size : File → ℕ
file_size file = elim file.bytes [ none ↦ 0 | some bytes ↦ if file.tells then length bytes else 0 ]

-- The text from its last dot on.
pub last_dot : Text → Option Text
last_dot [] = none
last_dot (c ∷ name) = elim (last_dot name) [
  | some extension ↦ some extension
  | none ↦ if c == b'.' then some (c ∷ name) else none
]

pub extension_is : Text → Text → Bool
unfolding last_dot
extension_is path extension = elim (last_dot path) [
  | none ↦ false
  | some found ↦ same_text found extension
]

abbrev pub gguf_magic : Text
gguf_magic = b'G' ∷ b'G' ∷ b'U' ∷ b'F' ∷ []

abbrev pub dot_safetensors : Text
dot_safetensors =
    b'.' ∷ b's' ∷ b'a' ∷ b'f' ∷ b'e' ∷ b't' ∷ b'e' ∷ b'n' ∷ b's' ∷ b'o' ∷ b'r' ∷ b's' ∷ []

abbrev pub dot_onnx : Text
dot_onnx = b'.' ∷ b'o' ∷ b'n' ∷ b'n' ∷ b'x' ∷ []

-- `prefix` is the bytes that were read.
pub detect_format : Text → List ℕ → ModelFormat
unfolding extension_is
detect_format path prefix =
    if leb 4 (length prefix) && same_text (take 4 prefix) gguf_magic
    then gguf
    else if extension_is path dot_safetensors
    then safetensors
    else if extension_is path dot_onnx
    then onnx
    else generic

pub record OpenEnv : Type 0 where
  pub memory : Bool
  pub logger : Bool
  pub provider : ProviderEnv

-- The status of the read is ignored.
pub dx_model_open : OpenEnv → File → Text → ℤ × Option Model
unfolding file_size detect_format
dx_model_open env file path =
    if not (valid_text path)
    then (minus 1, none)
    else if file_size file == 0
    then (minus 2, none)
    else if not env.memory
    then (minus 4, none)
    else if not env.logger
    then (minus 3, none)
    else elim (dx_io_provider_create env.provider auto).1 [
      | none ↦ (minus 3, none)
      | some provider ↦ (
        pos 0,
        some (record {
          provider = provider;
          bytes = file_size file;
          format = detect_format path (dx_io_read_file file path 0 8).1;
          path = path;
        }),
      )
    ]

pub dx_model_read : File → Model → ℕ → ℕ → ℤ × List ℕ
dx_model_read file model offset capacity = dx_io_read_file file model.path offset capacity
