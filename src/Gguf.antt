-- ===== src/Gguf.antt =====
-- src/dxmodel/dxmodel.cpp, the reads from a mapped GGUF file: numbers, strings, and values that are
-- skipped. Offsets are uint64_t and wrap around. A read outside of the mapping is `fault`.
pub mod Names
pub mod Load
pub mod Format
pub mod Held
pub mod Skip
pub mod Parse
pub mod Descriptors
pub mod Contains
pub mod Loaded
pub mod Whole
pub mod Endless
mod Tests
use dx_ai_st.Base.{
  ℕ, zero, suc, ◌+◌, ◌*◌, ◌%◌, ◌^◌, ◌-◌, Option, none, some, List, [], ◌∷◌, if◌then◌else◌, ltb, leb,
  ◌==◌, u64_mod, length, take, drop,
}
use dx_ai_st.Base.Text.{Text}

-- `throws` is the exception of a `std::string` that is too long, `out_of_fuel` a recursion that goes
-- deeper than the fuel.
pub data Outcome {ℓ} (A : Type ℓ) : Type ℓ where
  ok : A → Outcome A
  throws fault out_of_fuel : Outcome A

infixl 5 ◌>>=◌
abbrev pub ◌>>=◌ {ℓ κ} : {A : Type ℓ} {B : Type κ} → Outcome A → (A → Outcome B) → Outcome B
ok a >>= f = f a
throws >>= f = throws
fault >>= f = fault
out_of_fuel >>= f = out_of_fuel

-- A little-endian number.
pub le : List ℕ → ℕ
le [] = 0
le (b ∷ bytes) = b + 256 * le bytes

-- A read of `n` bytes through a pointer.
pub read_le : ℕ → List ℕ → ℕ → Outcome ℕ
unfolding le
read_le n file offset =
    if leb (offset + n) (length file) then ok (le (take n (drop offset file))) else fault

-- `std::string::max_size()`
abbrev pub max_string : ℕ
max_string = 2 ^ 63 - 1

-- The characters of a string, behind its length.
pub string_at : List ℕ → ℕ → ℕ → Outcome (Text × ℕ)
string_at file offset str_len =
    if ltb (length file) ((offset + str_len) % u64_mod)
    then ok ([], offset)
    else if ltb max_string str_len
    then throws
    else if leb (offset + str_len) (length file)
    then ok (take str_len (drop offset file), (offset + str_len) % u64_mod)
    else fault

pub read_gguf_string : List ℕ → ℕ → Outcome (Text × ℕ)
read_gguf_string file offset =
    if ltb (length file) ((offset + 8) % u64_mod)
    then ok ([], offset)
    else read_le 8 file offset >>= string_at file ((offset + 8) % u64_mod)

-- GGUFType: the bytes of a number or a Boolean.
pub scalar_width : ℕ → Option ℕ
scalar_width val_type =
    if val_type == 0
    then some 1
    else if val_type == 1
    then some 1
    else if val_type == 7
    then some 1
    else if val_type == 2
    then some 2
    else if val_type == 3
    then some 2
    else if val_type == 4
    then some 4
    else if val_type == 5
    then some 4
    else if val_type == 6
    then some 4
    else if val_type == 10
    then some 8
    else if val_type == 11
    then some 8
    else if val_type == 12
    then some 8
    else none

abbrev pub string_type : ℕ
string_type = 8

abbrev pub array_type : ℕ
array_type = 9

pub skip_string : List ℕ → ℕ → Outcome ℕ
skip_string file offset =
    if ltb (length file) ((offset + 8) % u64_mod)
    then ok offset
    else read_le 8 file offset >>= λ str_len. ok ((offset + (8 + str_len)) % u64_mod)

-- The loop over the elements of an array, for a given way to skip one.
pub skip_elements : (ℕ → Outcome ℕ) → ℕ → ℕ → Outcome ℕ
skip_elements skip zero offset = ok offset
skip_elements skip (suc n) offset = skip offset >>= skip_elements skip n

pub skip_array : (ℕ → ℕ → Outcome ℕ) → List ℕ → ℕ → Outcome ℕ
skip_array skip file offset =
    if ltb (length file) ((offset + 12) % u64_mod)
    then ok offset
    else read_le 4 file offset >>= λ elem_type. read_le 8 file (offset + 4) >>= λ array_len.
        skip_elements (skip elem_type) array_len ((offset + 12) % u64_mod)

-- One fuel for each level of nested arrays.
pub skip_gguf_val : ℕ → List ℕ → ℕ → ℕ → Outcome ℕ
skip_gguf_val zero file val_type offset = out_of_fuel
skip_gguf_val (suc fuel) file val_type offset = elim (scalar_width val_type) [
  | some width ↦ ok ((offset + width) % u64_mod)
  | none ↦
      if val_type == string_type
      then skip_string file offset
      else if val_type == array_type
      then skip_array (skip_gguf_val fuel file) file offset
      else ok offset
]
