-- ===== src/Ops/Product.antt =====
-- The loops of src/core/dx_ops_api.cpp against the matrix product.
use native.Mathlib.Nat.{mul-le-mul_right}
use dx_ai_st.Base.{
  ℕ, zero, suc, ◌+◌, ◌*◌, ◌%◌, ◌<◌, ◌≤◌, ◌≡◌, refl, ap, ◌∙◌, ◌⊎◌, inl, inr, false, if◌then◌else◌,
  ◌==◌, u64_mod, arith, Bool-cases, ==_iff, subst,
}
use dx_ai_st.Ops.{Floats, Operands, inner_loop, write_element, column_loop, row_loop}

-- An element of a matrix with `n` columns lies inside it.
inside : (rows row n column : ℕ) → row < rows → column < n → row * n + column < rows * n
inside rows row n column r c =
    let h : (row + 1) * n ≤ rows * n = mul-le-mul_right n (omega arith) in omega (arith, h)

-- The rows lie one behind the other.
rows_apart : (row later n : ℕ) → row < later → row * n + n ≤ later * n
rows_apart row later n h =
    let l : (row + 1) * n ≤ later * n = mul-le-mul_right n (omega arith) in omega (arith, l)

module _ {ℓ} {F : Type ℓ} (floats : Floats F) (o : Operands F) where
  -- A row of A times a column of B, by recursion from the end.
  pub dot : ℕ → ℕ → ℕ → F
  dot row column zero = floats.zero_f
  dot row column (suc count) =
      floats.add (dot row column count)
        (floats.mul (o.a (row * o.k + count)) (o.b (count * o.n + column)))

  -- An element of alpha A B + beta C.
  pub product : ℕ → ℕ → (ℕ → F) → F
  product row column c =
      floats.add (floats.mul o.alpha (dot row column o.k))
        (floats.mul o.beta (c (row * o.n + column)))

  product_ext :
      (row column : ℕ) (c d : ℕ → F)
      → c (row * o.n + column) ≡ d (row * o.n + column)
      → product row column c ≡ product row column d
  unfolding product
  product_ext row column c d e =
      ap (λ x. floats.add (floats.mul o.alpha (dot row column o.k)) (floats.mul o.beta x)) e

  module _ (small_c : o.m * o.n < u64_mod) (small_a : o.m * o.k < u64_mod)
      (small_b : o.k * o.n < u64_mod) where
    inner-dot :
        (row column count inner : ℕ)
        → row < o.m
        → column < o.n
        → inner + count ≡ o.k
        → inner_loop floats o row column count inner (dot row column inner) ≡ dot row column o.k
    unfolding inner_loop dot
    inner-dot row column zero inner r c e =
        let same : inner ≡ o.k = omega arith in ap (dot row column) same
    inner-dot row column (suc count) inner r c e =
        let here : inner < o.k = omega arith in
        let in_a : (row * o.k + inner) % u64_mod ≡ row * o.k + inner =
          omega (arith, inside o.m row o.k inner r here) in
        let in_b : (inner * o.n + column) % u64_mod ≡ inner * o.n + column =
          omega (arith, inside o.k inner o.n column here c) in
        let next : suc inner ≡ inner + 1 = omega arith in
        rw (in_a, in_b)
          (subst
            (λ z.
              inner_loop floats o row column count z (dot row column (suc inner))
              ≡ dot row column o.k)
            next (inner-dot row column count (suc inner) r c (omega arith)))

    write_element-at :
        (row column : ℕ) (c : ℕ → F) (i : ℕ)
        → row < o.m
        → column < o.n
        → write_element floats o row column c i
          ≡ (if i == row * o.n + column then product row column c else c i)
    unfolding write_element product dot
    write_element-at row column c i r h =
        let place : (row * o.n + column) % u64_mod ≡ row * o.n + column =
          omega (arith, inside o.m row o.n column r h) in
        rw (place, inner-dot row column o.k 0 r h (omega arith))

    -- What is outside the rest of the row stays.
    column_loop-out :
        (row count column : ℕ) (c : ℕ → F) (i : ℕ)
        → row < o.m
        → column + count ≡ o.n
        → (i < row * o.n + column) ⊎ (row * o.n + o.n ≤ i)
        → column_loop floats o row count column c i ≡ c i
    unfolding column_loop
    column_loop-out row zero column c i r e out = refl
    column_loop-out row (suc count) column c i r e out =
        column_loop-out row count (column + 1) (write_element floats o row column c) i r
          (omega arith) (elim out [ inl l ↦ inl (omega (arith, l)) | inr g ↦ inr g ])
        ∙ write_element-at row column c i r (omega arith)
        ∙ ground (arith, out)

    column_loop-at :
        (row count column : ℕ) (c : ℕ → F) (j : ℕ)
        → row < o.m
        → column + count ≡ o.n
        → column ≤ j
        → j < o.n
        → column_loop floats o row count column c (row * o.n + j) ≡ product row j c
    unfolding column_loop
    column_loop-at row zero column c j r e l h = absurd (omega arith)
    column_loop-at row (suc count) column c j r e l h =
        let written = write_element floats o row column c in
        let here = write_element-at row column c (row * o.n + j) r (omega arith) in
        elim (Bool-cases (column == j)) [
          | inl s ↦
              let same : column ≡ j = (==_iff column j).0 s in
              column_loop-out row count (column + 1) written (row * o.n + j) r (omega arith)
                (inl (omega (arith, same)))
              ∙ here
              ∙ ground (arith, same)
          | inr s ↦
              let no : (row * o.n + j == row * o.n + column) ≡ false = ground (arith, s) in
              let kept : written (row * o.n + j) ≡ c (row * o.n + j) = here ∙ rw no in
              column_loop-at row count (column + 1) written j r (omega arith) (ground (arith, s)) h
              ∙ product_ext row j written c kept
        ]

    pub row_loop-out :
        (count row : ℕ) (c : ℕ → F) (i : ℕ)
        → row + count ≡ o.m
        → (i < row * o.n) ⊎ (o.m * o.n ≤ i)
        → row_loop floats o count row c i ≡ c i
    unfolding row_loop
    row_loop-out zero row c i e out = refl
    row_loop-out (suc count) row c i e out =
        let last = rows_apart row o.m o.n (omega arith) in
        let next = rows_apart row (row + 1) o.n (omega arith) in
        row_loop-out count (row + 1) (column_loop floats o row o.n 0 c) i (omega arith)
          (elim out [ inl l ↦ inl (omega (arith, l, next)) | inr g ↦ inr g ])
        ∙ column_loop-out row o.n 0 c i (omega arith) (omega arith)
            (elim out [ inl l ↦ inl (omega (arith, l)) | inr g ↦ inr (omega (arith, g, last)) ])

    pub row_loop-at :
        (count row : ℕ) (c : ℕ → F) (r j : ℕ)
        → row + count ≡ o.m
        → row ≤ r
        → r < o.m
        → j < o.n
        → row_loop floats o count row c (r * o.n + j) ≡ product r j c
    unfolding row_loop
    row_loop-at zero row c r j e l h b = absurd (omega arith)
    row_loop-at (suc count) row c r j e l h b =
        let written = column_loop floats o row o.n 0 c in
        elim (Bool-cases (row == r)) [
          | inl s ↦
              let same : row ≡ r = (==_iff row r).0 s in
              let next = rows_apart row (row + 1) o.n (omega arith) in
              subst (λ z. row_loop floats o count (row + 1) written (z * o.n + j) ≡ product z j c)
                same
                (row_loop-out count (row + 1) written (row * o.n + j) (omega arith)
                    (inl (omega (arith, next, b)))
                  ∙ column_loop-at row o.n 0 c j (omega arith) (omega arith) (omega arith) b)
          | inr s ↦
              let later : row + 1 ≤ r = ground (arith, s) in
              let apart = rows_apart row r o.n (omega (arith, later)) in
              let kept : written (r * o.n + j) ≡ c (r * o.n + j) =
                column_loop-out row o.n 0 c (r * o.n + j) (omega arith) (omega arith)
                  (inr (omega (arith, apart))) in
              row_loop-at count (row + 1) written r j (omega arith) later h b
              ∙ product_ext r j written c kept
        ]
