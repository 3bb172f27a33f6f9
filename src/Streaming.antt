-- ===== src/Streaming.antt =====
-- src/dxstream/dxstream.cpp, the tensor index: coordinates by the FNV hash of a tag.
-- `std::unordered_map` is an association list.
pub mod Fetch
pub mod Lookup
use Prim.Native.Nat.{bit_xor}
use dx_ai_st.Base.{
  ℕ, zero, suc, ◌+◌, ◌*◌, ◌%◌, Option, none, some, List, [], ◌∷◌, u32_mod, u64_mod, length,
  get_elem?,
}
use dx_ai_st.Base.Table.{find, assign}
use dx_ai_st.Base.Text.{Text}

abbrev pub index_magic : ℕ
index_magic = 0x7375697374495844

-- TensorCoordinate
pub record Coordinate : Type 0 where
  pub absolute_offset : ℕ
  pub byte_size : ℕ
  pub quant_type : ℕ

-- The loop of `fnv1a64`.
fnv_loop : ℕ → Text → ℕ
fnv_loop h [] = h
fnv_loop h (c ∷ s) = fnv_loop (bit_xor h (c % 256) * 1099511628211 % u64_mod) s

pub fnv1a64 : Text → ℕ
unfolding fnv_loop
fnv1a64 s = fnv_loop 14695981039346656037 s

-- IndexHeader, without its reserved words
pub record IndexHeader : Type 0 where
  pub magic : ℕ
  pub count : ℕ
  pub alignment : ℕ
  pub payload_size : ℕ

pub record TensorIndex : Type 0 where
  pub header : IndexHeader
  pub entries : List (Text × Coordinate)
  pub hash_to_index : List (ℕ × ℕ)

-- The loop that fills `m_hash_to_index`, from entry `i` on.
pub hash_entries : ℕ → List (Text × Coordinate) → List (ℕ × ℕ) → List (ℕ × ℕ)
hash_entries i [] m = m
hash_entries i ((name, c) ∷ es) m = hash_entries (suc i) es (assign (fnv1a64 name) i m)

pub build : List (Text × Coordinate) → ℕ → ℕ → TensorIndex
unfolding hash_entries
build entries payload_size alignment = record {
  header = record {
    magic = index_magic;
    count = length entries % u32_mod;
    alignment = alignment;
    payload_size = payload_size;
  };
  entries = entries;
  hash_to_index = hash_entries 0 entries [];
}

-- `none` is `false`.
pub lookup : TensorIndex → Text → Option Coordinate
lookup index tag = elim (find (fnv1a64 tag) index.hash_to_index) [
  | none ↦ none
  | some i ↦ elim (get_elem? index.entries i) [ none ↦ none | some (name, c) ↦ some c ]
]

pub lookup_hash : TensorIndex → Text → ℕ
lookup_hash index tag = fnv1a64 tag
