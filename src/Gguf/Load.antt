-- ===== src/Gguf/Load.antt =====
-- src/dxmodel/dxmodel.cpp, the loader: the tensors and the architecture of a model file. A mapping
-- that could not be made is `none`.
use dx_ai_st.Base.{
  ℕ, zero, suc, ◌+◌, ◌%◌, Bool, true, false, ◌||◌, not, Option, none, some, List, [], ◌∷◌, ◌++◌,
  if◌then◌else◌, ltb, ◌==◌, u64_mod, length,
}
use dx_ai_st.Base.Text.{Text, same_text}
use dx_ai_st.Gguf.Names.{
  dot_gguf, dot_safetensors, mtp, speculative, kv_a, kv_b, q_a, deepseek_v3, deepseek_v3_mtp,
  deepseek_v3_mla, transformer_gqa, deepseek_r1_dflash,
}
use dx_ai_st.Gguf.{Outcome, ok, ◌>>=◌, read_le, read_gguf_string, skip_gguf_val}

-- The constructors that the loader writes, and the one that a new loader has.
pub data TensorDataType : Type 0 where
  fp16 q8_0 q4_0 : TensorDataType

pub data ModelFormat : Type 0 where
  unknown gguf safetensors : ModelFormat

pub data AttentionType : Type 0 where
  gqa mla multi_token dflash : AttentionType

-- TensorInfo, less `size_bytes`, which stays 0.
pub record TensorInfo : Type 0 where
  pub name : Text
  pub type : TensorDataType
  pub dims : List ℕ
  pub offset_bytes : ℕ

-- ModelArchConfig, less the fields that nothing here writes.
pub record ModelArchConfig : Type 0 where
  pub arch_name : Text
  pub attention_type : AttentionType
  pub num_mtp_depth : ℕ
  pub kv_compressed_dim : ℕ

pub record ModelLoader : Type 0 where
  pub format : ModelFormat
  pub filepath : Text
  pub arch_config : ModelArchConfig
  pub tensors : List (Text × TensorInfo)

abbrev pub new_loader : ModelLoader
new_loader = record {
  format = unknown;
  filepath = [];
  arch_config = record {
    arch_name = deepseek_v3;
    attention_type = mla;
    num_mtp_depth = 1;
    kv_compressed_dim = 512;
  };
  tensors = [];
}

unfoldable pub begins_with : Text → Text → Bool
begins_with [] text = true
begins_with (c ∷ part) [] = false
begins_with (c ∷ part) (d ∷ text) = if c == d then begins_with part text else false

-- `text.find(part) != npos`
unfoldable pub has_part : Text → Text → Bool
unfolding begins_with
has_part part [] = begins_with part []
has_part part (c ∷ text) = begins_with part (c ∷ text) || has_part part text

-- Assignment through `operator[]` of `m_tensors`.
unfoldable pub put_tensor : Text → TensorInfo → List (Text × TensorInfo) → List (Text × TensorInfo)
put_tensor name info [] = (name, info) ∷ []
put_tensor name info ((other, old) ∷ rest) =
    if same_text other name then (other, info) ∷ rest else (other, old) ∷ put_tensor name info rest

-- What is left of a value after its key: its type, then the value.
unfoldable pub skip_value : ℕ → List ℕ → (ℕ → Outcome ℕ) → ℕ → Outcome ℕ
skip_value fuel file rest offset =
    if ltb (length file) ((offset + 4) % u64_mod)
    then ok offset
    else read_le 4 file offset >>= λ val_type.
        skip_gguf_val fuel file val_type ((offset + 4) % u64_mod) >>= rest

-- The loop over the metadata; it ends early where the file does.
unfoldable pub skip_metadata : ℕ → List ℕ → ℕ → ℕ → Outcome ℕ
skip_metadata fuel file zero offset = ok offset
skip_metadata fuel file (suc n) offset =
    read_gguf_string file offset >>= λ key. skip_value fuel file (skip_metadata fuel file n) key.1

unfoldable pub read_dims : List ℕ → ℕ → ℕ → List ℕ → Outcome (List ℕ × ℕ)
read_dims file zero offset dims = ok (dims, offset)
read_dims file (suc n) offset dims =
    if ltb (length file) ((offset + 8) % u64_mod)
    then ok (dims, offset)
    else read_le 8 file offset >>= λ dim_val.
        read_dims file n ((offset + 8) % u64_mod) (dims ++ dim_val ∷ [])

unfoldable pub data_type : ℕ → TensorDataType
data_type ggml_type = if ggml_type == 7 then q8_0 else if ggml_type == 2 then q4_0 else fp16

-- The type and the offset of a tensor, behind its dimensions.
unfoldable pub read_place : List ℕ → Text → List ℕ → ℕ → Outcome (Option (TensorInfo × ℕ))
unfolding data_type
read_place file name dims offset =
    if ltb (length file) ((offset + 12) % u64_mod)
    then ok none
    else read_le 4 file offset >>= λ ggml_type. read_le 8 file (offset + 4) >>= λ t_offset. ok (
        some (
          record { name = name; type = data_type ggml_type; dims = dims; offset_bytes = t_offset },
          (offset + 12) % u64_mod,
        ))

-- The dimensions of a tensor and what follows, behind its name.
unfoldable pub read_shape : List ℕ → Text → ℕ → Outcome (Option (TensorInfo × ℕ))
read_shape file name offset =
    if ltb (length file) ((offset + 4) % u64_mod)
    then ok none
    else read_le 4 file offset >>= λ n_dims.
        read_dims file n_dims ((offset + 4) % u64_mod) [] >>= λ r. read_place file name r.0 r.1

-- One descriptor and the offset behind it; `none` is the `break` of the loop.
unfoldable pub read_tensor : List ℕ → ℕ → Outcome (Option (TensorInfo × ℕ))
read_tensor file offset = read_gguf_string file offset >>= λ r. read_shape file r.0 r.1

-- What the loop over the descriptors keeps.
pub record Scan : Type 0 where
  pub tensors : List (Text × TensorInfo)
  pub has_mtp_layers : Bool
  pub has_mla_tensors : Bool

unfoldable pub note_tensor : TensorInfo → Scan → Scan
unfolding put_tensor has_part
note_tensor info scan = record {
  tensors = put_tensor info.name info scan.tensors;
  has_mtp_layers = has_part mtp info.name || has_part speculative info.name || scan.has_mtp_layers;
  has_mla_tensors =
      has_part kv_a info.name
      || has_part kv_b info.name
      || has_part q_a info.name
      || scan.has_mla_tensors;
}

unfoldable pub scan_tensors : List ℕ → ℕ → ℕ → Scan → Outcome Scan
scan_tensors file zero offset scan = ok scan
scan_tensors file (suc n) offset scan = read_tensor file offset >>= λ found. elim found [
  | none ↦ ok scan
  | some r ↦ scan_tensors file n r.1 (note_tensor r.0 scan)
]

unfoldable pub choose_arch : Scan → ModelArchConfig → ModelArchConfig
choose_arch scan arch =
    if scan.has_mtp_layers
    then record arch {
      arch_name = deepseek_v3_mtp;
      attention_type = multi_token;
      num_mtp_depth = 1;
    }
    else if scan.has_mla_tensors
    then record arch { arch_name = deepseek_v3_mla; attention_type = mla; kv_compressed_dim = 512 }
    else record arch { arch_name = transformer_gqa; attention_type = gqa }

unfoldable pub finish_load : ModelLoader → Scan → Bool × ModelLoader
unfolding choose_arch
finish_load loader scan = (
  true,
  record loader {
    format = gguf;
    arch_config = choose_arch scan loader.arch_config;
    tensors = scan.tensors;
  },
)

-- The "GGUF" of the first four bytes.
abbrev pub gguf_magic : ℕ
gguf_magic = 0x46554747

-- Behind the test of the magic: the counts, the metadata, the descriptors.
unfoldable pub parse_body : ℕ → ModelLoader → List ℕ → Outcome (Bool × ModelLoader)
parse_body fuel loader file = read_le 8 file 8 >>= λ tensor_count. read_le 8 file 16 >>= λ kv_count.
    skip_metadata fuel file kv_count 24 >>= λ offset.
    scan_tensors file tensor_count offset
      (record { tensors = loader.tensors; has_mtp_layers = false; has_mla_tensors = false })
    >>= λ scan. ok (finish_load loader scan)

unfoldable pub parse_gguf : ℕ → ModelLoader → Option (List ℕ) → Outcome (Bool × ModelLoader)
parse_gguf fuel loader none = ok (false, loader)
parse_gguf fuel loader (some file) =
    if ltb (length file) 24
    then ok (false, loader)
    else read_le 4 file 0 >>= λ magic.
        if not (magic == gguf_magic) then ok (false, loader) else parse_body fuel loader file

pub parse_safetensors : ModelLoader → Option (List ℕ) → Bool × ModelLoader
parse_safetensors loader none = (false, loader)
parse_safetensors loader (some []) = (false, loader)
parse_safetensors loader (some (b ∷ bytes)) = (
  true,
  record loader {
    format = safetensors;
    arch_config = record (loader.arch_config) {
      arch_name = deepseek_r1_dflash;
      attention_type = dflash;
    };
  },
)

pub load_file : ℕ → ModelLoader → Text → Option (List ℕ) → Outcome (Bool × ModelLoader)
unfolding parse_gguf parse_safetensors has_part
load_file fuel loader filepath mapping =
    if has_part dot_gguf filepath
    then parse_gguf fuel named mapping
    else if has_part dot_safetensors filepath
    then ok (parse_safetensors named mapping)
    else parse_gguf fuel named mapping
  where
    named : ModelLoader
    named = record loader { filepath = filepath }
