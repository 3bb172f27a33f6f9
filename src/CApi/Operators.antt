-- ===== src/CApi/Operators.antt =====
-- The operators of src/core/dx_c_api.cpp that hand host memory to the reference operators. A queue that is
-- given has a stream; without a queue nothing is called.
use dx_ai_st.Base.{ℕ, Option, none, some, ℤ, pos, minus, ◌≡◌, ◌⊎◌, inl, inr, refl}
use dx_ai_st.Ops.{Floats, Operands, dx_op_copy_f32, dx_op_fill_f32, dx_op_gemm_f32}
use dx_ai_st.Ops.Exact.{IsProduct, gemm-IsProduct}
use dx_ai_st.CApi.{
  LastError, copy_queue, copy_failed, fill_queue, fill_failed, gemm_queue, gemm_failed, CQueue,
  operator_result, invalid_argument,
}

-- The status and the text of an operator, and the memory that it leaves.
pub operated {ℓ} : {A : Type ℓ} → LastError → ℤ × A → ℤ × LastError × A
unfolding operator_result
operated failure (code, memory) =
    let result = operator_result code failure in (result.0, result.1, memory)

module _ {ℓ} {F : Type ℓ} where
  pub dx_copy_f32 :
      Option CQueue → Option (ℕ → F) → Option (ℕ → F) → ℕ → ℤ × LastError × Option (ℕ → F)
  unfolding operated
  dx_copy_f32 none input output count = (invalid_argument, copy_queue, output)
  dx_copy_f32 (some queue) input output count =
      operated copy_failed (dx_op_copy_f32 input output count)

  pub dx_fill_f32 : Option CQueue → Option (ℕ → F) → ℕ → F → ℤ × LastError × Option (ℕ → F)
  unfolding operated
  dx_fill_f32 none output count value = (invalid_argument, fill_queue, output)
  dx_fill_f32 (some queue) output count value =
      operated fill_failed (dx_op_fill_f32 output count value)

  pub dx_gemm_f32 : Floats F → Option CQueue → Operands F → (ℕ → F) → ℤ × LastError × (ℕ → F)
  unfolding operated
  dx_gemm_f32 floats none operands c = (invalid_argument, gemm_queue, c)
  dx_gemm_f32 floats (some queue) operands c =
      operated gemm_failed (dx_op_gemm_f32 floats operands c)

  -- `dx_gemm_f32` returns 0 with the product in its memory, or -1 with its memory as it was.
  pub gemm_f32-IsProduct :
      (floats : Floats F) (queue : Option CQueue) (operands : Operands F) (c : ℕ → F)
      → ((dx_gemm_f32 floats queue operands c).0 ≡ pos 0)
          × IsProduct floats operands c (dx_gemm_f32 floats queue operands c).2
        ⊎ (((dx_gemm_f32 floats queue operands c).0 ≡ minus 1)
            × ((dx_gemm_f32 floats queue operands c).2 ≡ c))
  unfolding dx_gemm_f32 operated operator_result
  gemm_f32-IsProduct floats none operands c = inr (refl, refl)
  gemm_f32-IsProduct floats (some queue) operands c = elim (gemm-IsProduct floats operands c) [
    | inl (w, e) ↦ inr (rw e (refl, refl))
    | inr (inl (p, l, e)) ↦ inr (rw e (refl, refl))
    | inr (inr (w, l, e, p)) ↦ inl (rw (e, operator_result) refl, p)
  ]
