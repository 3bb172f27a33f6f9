-- ===== src/Ops.antt =====
-- src/core/dx_ops_api.cpp: the reference operators on F32 memory. The arithmetic of floats is a parameter, and
-- the memory behind a pointer is a function from indices. The output of a product does not overlap its inputs.
pub mod Product
pub mod Exact
mod Tests
use dx_ai_st.Base.{
  ℕ, zero, suc, ◌+◌, ◌-◌, ◌*◌, ◌/◌, ◌%◌, Bool, true, false, ◌&&◌, ◌||◌, not, Option, none, some, ℤ,
  pos, minus, if◌then◌else◌, ltb, ◌==◌, u64_mod,
}

-- What the operators use of a float type.
pub record Floats {ℓ} (F : Type ℓ) : Type ℓ where
  pub zero_f : F
  pub add : F → F → F
  pub mul : F → F → F

abbrev pub max_size : ℕ
max_size = u64_mod - 1

-- The product of two sizes, unless it overflows.
unfoldable pub matrix_size_ok : ℕ → ℕ → Option ℕ
matrix_size_ok lhs rhs =
    if not (lhs == 0) && ltb (max_size / lhs) rhs then none else some (lhs * rhs % u64_mod)

-- Whether a size fits as a product and in bytes.
unfoldable pub fits : ℕ → ℕ → Bool
unfolding matrix_size_ok
fits lhs rhs = elim (matrix_size_ok lhs rhs) [
  | none ↦ false
  | some size ↦ not (ltb (max_size / 4) size)
]

module _ {ℓ} {F : Type ℓ} where
  -- The memory after the call, beside the status.
  unfoldable pub dx_op_copy_f32 : Option (ℕ → F) → Option (ℕ → F) → ℕ → ℤ × Option (ℕ → F)
  dx_op_copy_f32 (some input) (some output) count =
      if ltb 0 count && ltb (max_size / 4) count
      then (minus 2, some output)
      else (pos 0, some (λ i. if ltb i count then input i else output i))
  dx_op_copy_f32 input output count = (minus 1, output)

  -- The loop from `index` on, with `n` floats to go.
  unfoldable pub fill_loop : ℕ → ℕ → F → (ℕ → F) → ℕ → F
  fill_loop zero index value output = output
  fill_loop (suc n) index value output =
      fill_loop n (index + 1) value (λ i. if i == index then value else output i)

  unfoldable pub dx_op_fill_f32 : Option (ℕ → F) → ℕ → F → ℤ × Option (ℕ → F)
  unfolding fill_loop
  dx_op_fill_f32 none count value = (minus 1, none)
  dx_op_fill_f32 (some output) count value = (pos 0, some (fill_loop count 0 value output))

-- The operands of a product: C = alpha A B + beta C, with A of m by k and B of k by n.
pub record Operands {ℓ} (F : Type ℓ) : Type ℓ where
  pub a : ℕ → F
  pub b : ℕ → F
  pub m : ℕ
  pub n : ℕ
  pub k : ℕ
  pub alpha : F
  pub beta : F

module _ {ℓ} {F : Type ℓ} (floats : Floats F) (o : Operands F) where
  -- `sum` over `inner`, with `count` to go.
  unfoldable pub inner_loop : ℕ → ℕ → ℕ → ℕ → F → F
  inner_loop row column zero inner sum = sum
  inner_loop row column (suc count) inner sum = inner_loop row column count (inner + 1) (
      floats.add sum
        (floats.mul (o.a ((row * o.k + inner) % u64_mod)) (o.b ((inner * o.n + column) % u64_mod))))

  unfoldable pub write_element : ℕ → ℕ → (ℕ → F) → ℕ → F
  unfolding inner_loop
  write_element row column c =
      let place = (row * o.n + column) % u64_mod in
      let sum = inner_loop row column o.k 0 floats.zero_f in
      λ i.
        if i == place
        then floats.add (floats.mul o.alpha sum) (floats.mul o.beta (c place))
        else c i

  unfoldable pub column_loop : ℕ → ℕ → ℕ → (ℕ → F) → ℕ → F
  unfolding write_element
  column_loop row zero column c = c
  column_loop row (suc count) column c =
      column_loop row count (column + 1) (write_element row column c)

  unfoldable pub row_loop : ℕ → ℕ → (ℕ → F) → ℕ → F
  unfolding column_loop
  row_loop zero row c = c
  row_loop (suc count) row c = row_loop count (row + 1) (column_loop row o.n 0 c)

  -- With three pointers; a null one is refused with -1.
  unfoldable pub dx_op_gemm_f32 : (ℕ → F) → ℤ × (ℕ → F)
  unfolding row_loop fits
  dx_op_gemm_f32 c =
      if o.m == 0 || (o.n == 0 || o.k == 0)
      then (minus 1, c)
      else if not (fits o.m o.n && (fits o.m o.k && fits o.k o.n))
      then (minus 2, c)
      else (pos 0, row_loop o.m 0 c)
