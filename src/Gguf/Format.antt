-- ===== src/Gguf/Format.antt =====
-- The GGUF format as a description: what a writer puts into a file. Numbers are little-endian, a
-- string and an array stand behind their length, an array also behind the type of its elements.
use dx_ai_st.Base.{
  ℕ, zero, suc, ◌/◌, ◌%◌, ◌<◌, ◌≡◌, max, List, [], ◌∷◌, ◌++◌, u32_mod, u64_mod, length,
}
use dx_ai_st.Base.Text.{Text}
use dx_ai_st.Gguf.{string_type, array_type}

-- The `n` bytes of a number.
unfoldable pub le_bytes : ℕ → ℕ → List ℕ
le_bytes zero x = []
le_bytes (suc n) x = x % 256 ∷ le_bytes n (x / 256)

abbrev pub string_bytes : Text → List ℕ
string_bytes s = le_bytes 8 (length s) ++ s

mutual
  pub data Value : Type 0 where
    scalar : ℕ → List ℕ → Value
    string : Text → Value
    array : ℕ → Values → Value

  pub data Values : Type 0 where
    end : Values
    more : Value → Values → Values

abbrev pub tag : Value → ℕ
tag (scalar val_type bytes) = val_type
tag (string s) = string_type
tag (array elem_type vs) = array_type

abbrev pub count : Values → ℕ
count end = 0
count (more v vs) = suc (count vs)

unfoldable mutual
  pub encode : Value → List ℕ
  encode (scalar val_type bytes) = bytes
  encode (string s) = le_bytes 8 (length s) ++ s
  encode (array elem_type vs) = le_bytes 4 elem_type ++ (le_bytes 8 (count vs) ++ encode_all vs)

  pub encode_all : Values → List ℕ
  encode_all end = []
  encode_all (more v vs) = encode v ++ encode_all vs

-- How deep arrays stand in each other, and one.
unfoldable mutual
  pub depth : Value → ℕ
  depth (scalar val_type bytes) = 1
  depth (string s) = 1
  depth (array elem_type vs) = suc (depth_all vs)

  pub depth_all : Values → ℕ
  depth_all end = 0
  depth_all (more v vs) = max (depth v) (depth_all vs)

-- The numbered types of the format, with the bytes that each takes.
pub data HasWidth : ℕ → ℕ → Type 0 where
  uint8 : HasWidth 0 1
  int8 : HasWidth 1 1
  uint16 : HasWidth 2 2
  int16 : HasWidth 3 2
  uint32 : HasWidth 4 4
  int32 : HasWidth 5 4
  float32 : HasWidth 6 4
  boolean : HasWidth 7 1
  uint64 : HasWidth 10 8
  int64 : HasWidth 11 8
  float64 : HasWidth 12 8

-- Scalars have the width of their type, and the elements of an array have its type.
unfoldable mutual
  pub IsValue : Value → Type 0
  IsValue (scalar val_type bytes) = HasWidth val_type (length bytes)
  IsValue (string s) = Unit
  IsValue (array elem_type vs) =
      (elem_type < u32_mod) × (count vs < u64_mod) × AreValues elem_type vs

  pub AreValues : ℕ → Values → Type 0
  AreValues elem_type end = Unit
  AreValues elem_type (more v vs) = (tag v ≡ elem_type) × IsValue v × AreValues elem_type vs

-- A metadata entry.
pub record Entry : Type 0 where
  pub key : Text
  pub value : Value

unfoldable pub entry_bytes : Entry → List ℕ
unfolding encode
entry_bytes e = string_bytes e.key ++ (le_bytes 4 (tag e.value) ++ encode e.value)

unfoldable pub metadata_bytes : List Entry → List ℕ
unfolding entry_bytes
metadata_bytes [] = []
metadata_bytes (e ∷ es) = entry_bytes e ++ metadata_bytes es

-- A tensor descriptor.
pub record Descriptor : Type 0 where
  pub name : Text
  pub dims : List ℕ
  pub ggml_type : ℕ
  pub offset : ℕ

unfoldable pub dims_bytes : List ℕ → List ℕ
dims_bytes [] = []
dims_bytes (d ∷ ds) = le_bytes 8 d ++ dims_bytes ds

unfoldable pub descriptor_bytes : Descriptor → List ℕ
unfolding dims_bytes
descriptor_bytes t =
    string_bytes t.name
    ++ (le_bytes 4 (length t.dims)
        ++ (dims_bytes t.dims ++ (le_bytes 4 t.ggml_type ++ le_bytes 8 t.offset)))

unfoldable pub descriptors_bytes : List Descriptor → List ℕ
unfolding descriptor_bytes
descriptors_bytes [] = []
descriptors_bytes (t ∷ ts) = descriptor_bytes t ++ descriptors_bytes ts

-- A file: the magic, the version, the counts, the metadata, the descriptors, and the payload.
pub record GgufFile : Type 0 where
  pub version : ℕ
  pub metadata : List Entry
  pub descriptors : List Descriptor
  pub payload : List ℕ

unfoldable pub file_bytes : GgufFile → List ℕ
unfolding metadata_bytes descriptors_bytes
file_bytes g =
    le_bytes 4 0x46554747
    ++ (le_bytes 4 g.version
        ++ (le_bytes 8 (length g.descriptors)
            ++ (le_bytes 8 (length g.metadata)
                ++ (metadata_bytes g.metadata ++ (descriptors_bytes g.descriptors ++ g.payload)))))
