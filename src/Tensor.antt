-- ===== src/Tensor.antt =====
-- src/core/dx_tensor_api.cpp: descriptors of strided tensors. The arrays `shape` and
-- `strides_bytes` hold 16 entries, of which the first `rank` count. A call by which a null pointer
-- is refused is left out: the pointers are given.
pub mod Bytes
pub mod Strides
pub mod Contiguous
pub mod Tests
use dx_ai_st.Base.{
  ℕ, zero, suc, ◌+◌, ◌-◌, ◌*◌, ◌/◌, ◌%◌, ◌^◌, Bool, true, false, ◌||◌, ◌&&◌, not, Option, none,
  some, List, [], ◌∷◌, ◌++◌, ℤ, pos, minus, if◌then◌else◌, ltb, leb, ◌==◌, u64_mod, take, replicate,
  Checked, ok, err, ◌>>=◌, ◌>>◌, refuse_if,
}

-- dx_tensor_dtype_t
abbrev pub f32 : ℕ
f32 = 1

abbrev pub f16 : ℕ
f16 = 2

abbrev pub bf16 : ℕ
bf16 = 3

abbrev pub i8 : ℕ
i8 = 4

abbrev pub u8 : ℕ
u8 = 5

abbrev pub i32 : ℕ
i32 = 6

abbrev pub i4_packed : ℕ
i4_packed = 7

abbrev pub max_rank : ℕ
max_rank = 16

abbrev pub desc_size : ℕ
desc_size = 288

abbrev pub api_version : ℕ
api_version = 1

abbrev pub i64_max : ℕ
i64_max = 2 ^ 63 - 1

-- dx_tensor_desc_t
pub record Desc : Type 0 where
  pub struct_size : ℕ
  pub api_version : ℕ
  pub rank : ℕ
  pub dtype : ℕ
  pub layout : ℕ
  pub flags : ℕ
  pub shape : List ℕ
  pub strides_bytes : List ℤ
  pub byte_offset : ℕ

pub dtype_bytes : ℕ → ℕ
dtype_bytes dtype =
    if dtype == f32
    then 4
    else if dtype == f16 || dtype == bf16
    then 2
    else if dtype == i8 || dtype == u8
    then 1
    else if dtype == i32
    then 4
    else 0

-- `none` is an overflow.
pub multiply_overflow : ℕ → ℕ → Option ℕ
multiply_overflow lhs rhs =
    if not (lhs == 0) && ltb ((u64_mod - 1) / lhs) rhs then none else some (lhs * rhs % u64_mod)

-- `<= 0`, and the conversions between int64_t and uint64_t
abbrev pub not_positive : ℤ → Bool
not_positive (pos n) = n == 0
not_positive (ℤ.negsuc n) = true

abbrev pub to_u64 : ℤ → ℕ
to_u64 (pos n) = n
to_u64 (ℤ.negsuc n) = u64_mod - suc n

pub to_i64 : ℕ → ℤ
to_i64 n = if leb n i64_max then pos n else minus (u64_mod - n)

pub element_bytes : ℕ → ℕ
unfolding dtype_bytes
element_bytes dtype = if dtype == i4_packed then 1 else dtype_bytes dtype

pub unknown_dtype : ℕ → Bool
unfolding dtype_bytes
unknown_dtype dtype = dtype_bytes dtype == 0 && not (dtype == i4_packed)

pub bad_rank : ℕ → Bool
bad_rank rank = rank == 0 || ltb max_rank rank

-- The dimensions and strides that count.
abbrev pub dims : Desc → List ℕ
dims desc = take desc.rank desc.shape

abbrev pub strides : Desc → List ℤ
strides desc = take desc.rank desc.strides_bytes

-- The loop of `dx_tensor_required_bytes`.
pub reach : List ℕ → List ℤ → ℕ → Checked ℕ
reach (n ∷ ns) (s ∷ ss) m =
    if n == 0 || not_positive s
    then err (minus 2)
    else elim (multiply_overflow (n - 1) (to_u64 s)) [
      | none ↦ err (minus 3)
      | some c ↦
          let rest = reach ns ss ((m + c) % u64_mod) in
          if ltb (u64_mod - 1 - c) m then err (minus 3) else rest
    ]
reach _ _ m = ok m

pub add_element : ℕ → ℕ → Checked ℕ
unfolding element_bytes
add_element dtype m =
    let b = element_bytes dtype in
    if b == 0 || ltb (u64_mod - 1 - b) m then err (minus 4) else ok ((m + b) % u64_mod)

pub dx_tensor_required_bytes : Desc → Checked ℕ
dx_tensor_required_bytes desc = do
  refuse_if (bad_rank desc.rank) (minus 1)
  m ← reach (dims desc) (strides desc) desc.byte_offset
  add_element desc.dtype m

pub bad_dims : List ℕ → List ℤ → Bool
bad_dims (n ∷ ns) (s ∷ ss) = n == 0 || not_positive s || bad_dims ns ss
bad_dims _ _ = false

pub dx_tensor_desc_validate : Desc → ℤ
dx_tensor_desc_validate desc =
    if ltb desc.struct_size desc_size || not (desc.api_version == api_version) || bad_rank desc.rank
    then minus 1
    else if unknown_dtype desc.dtype
    then minus 2
    else if bad_dims (dims desc) (strides desc)
    then minus 3
    else elim (dx_tensor_required_bytes desc) [ ok n ↦ pos 0 | err c ↦ c ]

-- `dx_tensor_desc_init`
pub blank : Desc
blank = record {
  struct_size = desc_size;
  api_version = api_version;
  rank = 0;
  dtype = 0;
  layout = 0;
  flags = 0;
  shape = replicate max_rank 0;
  strides_bytes = replicate max_rank (pos 0);
  byte_offset = 0;
}

pub has_zero : List ℕ → Bool
has_zero [] = false
has_zero (n ∷ ns) = n == 0 || has_zero ns

-- The stride loop runs from the last dimension to the first: it gives the strides, and the bytes of
-- all that it passed.
pub fill_strides : ℕ → List ℕ → Checked (List ℤ × ℕ)
fill_strides element [] = ok ([], element)
fill_strides element (n ∷ ns) = fill_strides element ns >>= λ r. elim (multiply_overflow r.1 n) [
  | none ↦ err (minus 4)
  | some next ↦ if ltb i64_max next then err (minus 4) else ok (to_i64 r.1 ∷ r.0, next)
]

pub contiguous_desc : ℕ → List ℕ → ℕ → List ℤ × ℕ → Desc
unfolding blank
contiguous_desc rank shape dtype r = record blank {
  rank = rank;
  dtype = dtype;
  layout = 1;
  shape = take rank shape ++ replicate (max_rank - rank) 0;
  strides_bytes = r.0 ++ replicate (max_rank - rank) (pos 0);
}

-- The descriptor that is left half written on an error is not modelled.
pub dx_tensor_desc_init_contiguous : ℕ → List ℕ → ℕ → Checked Desc
dx_tensor_desc_init_contiguous rank shape dtype = do
  refuse_if (bad_rank rank) (minus 1)
  refuse_if (unknown_dtype dtype) (minus 2)
  refuse_if (has_zero (take rank shape)) (minus 3)
  r ← fill_strides (element_bytes dtype) (take rank shape)
  ok (contiguous_desc rank shape dtype r)

pub same_stride : ℤ → ℤ → Bool
same_stride (pos m) (pos n) = m == n
same_stride (ℤ.negsuc m) (ℤ.negsuc n) = m == n
same_stride _ _ = false

-- The loop of `dx_tensor_is_contiguous`, last dimension first; `none` is `return 0`.
pub packed : ℕ → List ℕ → List ℤ → Option ℕ
unfolding same_stride
packed element (n ∷ ns) (s ∷ ss) = elim (packed element ns ss) [
  | none ↦ none
  | some stride ↦ if same_stride s (to_i64 stride) then multiply_overflow stride n else none
]
packed element _ _ = some element

is_ok : ℤ → Bool
is_ok (pos zero) = true
is_ok _ = false

pub dx_tensor_is_contiguous : Desc → ℕ
unfolding is_ok
dx_tensor_is_contiguous desc =
    if not (is_ok (dx_tensor_desc_validate desc))
    then 0
    else elim (packed (element_bytes desc.dtype) (dims desc) (strides desc)) [
      | none ↦ 0
      | some n ↦ 1
    ]
