-- ===== src/Tensor/Tests.antt =====
-- Descriptors of src/core/dx_tensor_api.cpp at work, and the theorems at them.
use dx_ai_st.Base.{◌+◌, ◌*◌, ◌≤◌, ◌≡◌, refl, [], ◌∷◌, pos, arith, ok, take, replicate}
use dx_ai_st.Tensor.{
  Desc, dx_tensor_desc_init_contiguous, dx_tensor_is_contiguous, dx_tensor_required_bytes,
  element_bytes, multiply_overflow, bad_rank, unknown_dtype, has_zero, fill_strides, to_i64,
  contiguous_desc,
}
use dx_ai_st.Tensor.Bytes.{IsSound, required_bytes_exact, required_bytes_cover}
use dx_ai_st.Tensor.Strides.{product}
use dx_ai_st.Tensor.Contiguous.{init_contiguous_exact}

-- A 2 by 3 matrix of floats.
abbrev matrix : Desc
matrix = record {
  struct_size = 288;
  api_version = 1;
  rank = 2;
  dtype = 1;
  layout = 1;
  flags = 0;
  shape = 2 ∷ 3 ∷ replicate 14 0;
  strides_bytes = pos 12 ∷ pos 4 ∷ replicate 14 (pos 0);
  byte_offset = 0;
}

matrix_made : dx_tensor_desc_init_contiguous 2 (2 ∷ 3 ∷ []) 1 ≡ ok matrix
unfolding dx_tensor_desc_init_contiguous bad_rank unknown_dtype has_zero fill_strides to_i64
    multiply_overflow element_bytes contiguous_desc
matrix_made = refl

init_contiguous_exact_example :
    (dx_tensor_is_contiguous matrix ≡ 1)
    × (dx_tensor_required_bytes matrix ≡ ok (product (take 2 (2 ∷ 3 ∷ [])) * element_bytes 1))
init_contiguous_exact_example =
    init_contiguous_exact 2 (2 ∷ 3 ∷ []) 1 matrix (omega arith) matrix_made

matrix-IsSound : IsSound matrix
unfolding element_bytes
matrix-IsSound = record {
  ranked = omega arith;
  bounded = omega arith;
  positive = omega arith;
  known = omega arith;
  offset = omega arith;
}

matrix_size : dx_tensor_required_bytes matrix ≡ ok 24
unfolding element_bytes
matrix_size = (required_bytes_exact matrix matrix-IsSound).0 (omega arith)

required_bytes_cover_example : 0 + (1 * 12 + (2 * 4 + 0)) + element_bytes 1 ≤ 24
required_bytes_cover_example =
    required_bytes_cover matrix (1 ∷ 2 ∷ []) 24 matrix-IsSound (omega arith) matrix_size
