-- ===== src/Ops/Exact.antt =====
-- `dx_op_gemm_f32` of src/core/dx_ops_api.cpp on every branch.
use native.Mathlib.Nat.{div-lt_iff_lt-mul}
use dx_ai_st.Base.{
  ℕ, zero, suc, ◌+◌, ◌-◌, ◌*◌, ◌^◌, ◌<◌, ◌≤◌, ◌≡◌, refl, ◌⊎◌, inl, inr, true, false, ◌&&◌, ◌||◌,
  none, some, pos, minus, if◌then◌else◌, ltb, ◌==◌, u64_mod, arith, Bool-cases,
}
use dx_ai_st.Ops.{Floats, matrix_size_ok, Operands, row_loop, fits, dx_op_gemm_f32}
use dx_ai_st.Ops.Product.{product, row_loop-at, row_loop-out}

matrix_size_exact :
    (l r : ℕ) → matrix_size_ok l r ≡ (if ltb (l * r) u64_mod then some (l * r) else none)
unfolding matrix_size_ok
matrix_size_exact zero r = ground arith
matrix_size_exact (suc l) r =
    let i = div-lt_iff_lt-mul {k = suc l} {x = u64_mod - 1} {y = r} (omega arith) in
    ground (arith, i)

fits_exact : (l r : ℕ) → fits l r ≡ ltb (l * r) (2 ^ 62)
unfolding fits
fits_exact l r = elim (Bool-cases (ltb (l * r) u64_mod)) [
  | inl e ↦ rw (matrix_size_exact l r, fits) (rw e (ground arith))
  | inr e ↦ rw (matrix_size_exact l r, fits) (rw e (ground (arith, e)))
]

-- What `dx_op_gemm_f32` leaves behind: alpha A B + beta C in the matrix, and the memory behind it as it was.
pub record IsProduct {ℓ} {F : Type ℓ} (floats : Floats F) (o : Operands F) (c d : ℕ → F)
    : Type ℓ where
  pub element :
      (row column : ℕ)
      → row < o.m
      → column < o.n
      → d (row * o.n + column) ≡ product floats o row column c
  pub beyond : (i : ℕ) → o.m * o.n ≤ i → d i ≡ c i

too_large {ℓ} :
    {F : Type ℓ} (o : Operands F)
    → (fits o.m o.n && (fits o.m o.k && fits o.k o.n)) ≡ false
    → (2 ^ 62 ≤ o.m * o.n) ⊎ ((2 ^ 62 ≤ o.m * o.k) ⊎ (2 ^ 62 ≤ o.k * o.n))
too_large o f = ground (arith, f, fits_exact o.m o.n, fits_exact o.m o.k, fits_exact o.k o.n)

small_all {ℓ} :
    {F : Type ℓ} (o : Operands F)
    → (fits o.m o.n && (fits o.m o.k && fits o.k o.n)) ≡ true
    → (o.m * o.n < 2 ^ 62) × (o.m * o.k < 2 ^ 62) × (o.k * o.n < 2 ^ 62)
small_all o f = ground (arith, f, fits_exact o.m o.n, fits_exact o.m o.k, fits_exact o.k o.n)

IsProduct-made {ℓ} :
    {F : Type ℓ} (floats : Floats F) (o : Operands F) (c : ℕ → F)
    → (fits o.m o.n && (fits o.m o.k && fits o.k o.n)) ≡ true
    → IsProduct floats o c (row_loop floats o o.m 0 c)
IsProduct-made floats o c f =
    let (mn, mk, kn) = small_all o f in
    record {
      element = λ row column h l.
          row_loop-at floats o (omega (arith, mn)) (omega (arith, mk)) (omega (arith, kn)) o.m 0 c
            row column (omega arith) (omega arith) h l;
      beyond = λ i h.
          row_loop-out floats o (omega (arith, mn)) (omega (arith, mk)) (omega (arith, kn)) o.m 0 c
            i (omega arith) (inr h);
    }

-- A size that is 0, and all three sizes at least 1.
abbrev pub HasZero {ℓ} : {F : Type ℓ} → Operands F → Type 0
HasZero o = (o.m ≡ 0) ⊎ ((o.n ≡ 0) ⊎ (o.k ≡ 0))

abbrev pub IsPositive {ℓ} : {F : Type ℓ} → Operands F → Type 0
IsPositive o = (0 < o.m) × (0 < o.n) × (0 < o.k)

-- A matrix of 2 ^ 62 elements or more, and all three below that.
abbrev pub IsLarge {ℓ} : {F : Type ℓ} → Operands F → Type 0
IsLarge o = (2 ^ 62 ≤ o.m * o.n) ⊎ ((2 ^ 62 ≤ o.m * o.k) ⊎ (2 ^ 62 ≤ o.k * o.n))

abbrev pub IsSmall {ℓ} : {F : Type ℓ} → Operands F → Type 0
IsSmall o = (o.m * o.n < 2 ^ 62) × (o.m * o.k < 2 ^ 62) × (o.k * o.n < 2 ^ 62)

-- `dx_op_gemm_f32` on memory that holds C and does not overlap A and B: where a size is 0 it returns -1, and
-- where no size is 0 and a matrix has 2 ^ 62 elements or more it returns -2, and writes nothing. In the
-- remaining case, where all sizes are positive and all three matrices are smaller, it returns 0, the matrix
-- becomes alpha A B + beta C, each element with the sum in the order of the columns of A, and what lies behind
-- it stays: its 64-bit indices do not wrap around. This holds for any addition and multiplication.
pub gemm-IsProduct {ℓ} :
    {F : Type ℓ} (floats : Floats F) (o : Operands F) (c : ℕ → F)
    → (HasZero o × (dx_op_gemm_f32 floats o c ≡ (minus 1, c)))
      ⊎ ((IsPositive o × IsLarge o × (dx_op_gemm_f32 floats o c ≡ (minus 2, c)))
          ⊎ (IsPositive o
              × IsSmall o
              × ((dx_op_gemm_f32 floats o c).0 ≡ pos 0)
              × IsProduct floats o c (dx_op_gemm_f32 floats o c).1))
unfolding dx_op_gemm_f32
gemm-IsProduct floats o c = elim (Bool-cases (o.m == 0 || (o.n == 0 || o.k == 0))) [
  | inl e ↦ inl (ground (arith, e), rw (e, dx_op_gemm_f32) refl)
  | inr e ↦
      let positive : IsPositive o = ground (arith, e) in
      inr (elim (Bool-cases (fits o.m o.n && (fits o.m o.k && fits o.k o.n))) [
        | inr f ↦ inl (positive, too_large o f, rw (e, f, dx_op_gemm_f32) refl)
        | inl f ↦ inr (
          positive,
          small_all o f,
          rw (e, f, dx_op_gemm_f32) refl,
          rw (e, f, dx_op_gemm_f32) (IsProduct-made floats o c f),
        )
      ])
]
