-- ===== src/Ops/Tests.antt =====
-- A product of small matrices of numbers, for src/core/dx_ops_api.cpp.
use dx_ai_st.Base.{ℕ, ◌+◌, ◌*◌, ◌≡◌, ◌⊎◌, refl, pos, minus, if◌then◌else◌, ltb, ◌==◌}
use dx_ai_st.Ops.{
  Floats, Operands, dx_op_gemm_f32, inner_loop, write_element, column_loop, row_loop, fits,
  matrix_size_ok,
}
use dx_ai_st.Ops.Exact.{HasZero, IsPositive, IsLarge, IsSmall, IsProduct, gemm-IsProduct}

abbrev numbers : Floats ℕ
numbers = record { zero_f = 0; add = λ x y. x + y; mul = λ x y. x * y }

-- (1 2 3) times the columns (1 2 3) and (2 3 4), twice, plus C.
abbrev operands : Operands ℕ
operands = record {
  a = λ i. i + 1;
  b = λ i. if i == 0 then 1 else if ltb i 3 then 2 else if ltb i 5 then 3 else 4;
  m = 1;
  n = 2;
  k = 3;
  alpha = 2;
  beta = 1;
}

abbrev before : ℕ → ℕ
before i = 100 + i

gemm-IsProduct_example :
    (HasZero operands × (dx_op_gemm_f32 numbers operands before ≡ (minus 1, before)))
    ⊎ ((IsPositive operands
          × IsLarge operands
          × (dx_op_gemm_f32 numbers operands before ≡ (minus 2, before)))
        ⊎ (IsPositive operands
            × IsSmall operands
            × ((dx_op_gemm_f32 numbers operands before).0 ≡ pos 0)
            × IsProduct numbers operands before (dx_op_gemm_f32 numbers operands before).1))
gemm-IsProduct_example = gemm-IsProduct numbers operands before

-- 1 * 1 + 2 * 2 + 3 * 3 = 14 and 1 * 2 + 2 * 3 + 3 * 4 = 20.
second_element : (dx_op_gemm_f32 numbers operands before).1 1 ≡ 141
unfolding dx_op_gemm_f32 row_loop column_loop write_element inner_loop fits matrix_size_ok
second_element = refl
