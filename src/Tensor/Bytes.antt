-- ===== src/Tensor/Bytes.antt =====
-- The size that src/core/dx_tensor_api.cpp computes for a tensor, against plain arithmetic.
use native.Mathlib.Nat.{div-lt_iff_lt-mul}
use dx_ai_st.Base.{
  ℕ, zero, suc, ◌+◌, ◌-◌, ◌*◌, ◌%◌, ◌≤◌, ◌<◌, ◌≡◌, true, false, ◌||◌, none, some, List, [], ◌∷◌, ℤ,
  pos, minus, if◌then◌else◌, ltb, ◌==◌, u64_mod, arith, Checked, ok, err, Bool-cases, ◌⊎◌, inl, inr,
  sym, ◌∙◌,
}
use dx_ai_st.Tensor.{
  Desc, multiply_overflow, reach, to_u64, not_positive, dims, strides, element_bytes, bad_rank,
  add_element, dx_tensor_required_bytes, max_rank,
}

-- `multiply_overflow` computes the product where it fits in 64 bits, and reports an overflow exactly
-- where it does not.
pub multiply_overflow_exact :
    (l r : ℕ) → multiply_overflow l r ≡ (if ltb (l * r) u64_mod then some (l * r) else none)
unfolding multiply_overflow
multiply_overflow_exact zero r = ground arith
multiply_overflow_exact (suc l) r =
    let i = div-lt_iff_lt-mul {k = suc l} {x = u64_mod - 1} {y = r} (omega arith) in
    ground (arith, i.0, i.1)

abbrev pub IsPositive : ℤ → Type 0
IsPositive (pos n) = 0 < n
IsPositive (ℤ.negsuc n) = ⊥

-- No dimension is empty and no stride is 0 or below.
abbrev pub ArePositive : List ℕ → List ℤ → Type 0
ArePositive (n ∷ ns) (s ∷ ss) = (0 < n) × IsPositive s × ArePositive ns ss
ArePositive _ _ = Unit

-- The offset of the last element from the first.
abbrev pub extent : List ℕ → List ℤ → ℕ
extent (n ∷ ns) (s ∷ ss) = (n - 1) * to_u64 s + extent ns ss
extent _ _ = 0

passes : (n : ℕ) (s : ℤ) → 0 < n → IsPositive s → (n == 0 || not_positive s) ≡ false
passes n (pos k) p q = ground arith
passes n (ℤ.negsuc k) p q = absurd q

-- The two tests for a sum that leaves 64 bits agree, and below them the wrap does nothing.
no_wrap :
    (f : ℕ → Checked ℕ) (m c : ℕ)
    → m < u64_mod
    → c < u64_mod
    → (if ltb (u64_mod - 1 - c) m then err (minus 3) else f ((m + c) % u64_mod))
      ≡ (if ltb (m + c) u64_mod then f (m + c) else err (minus 3))
no_wrap f m c h k = elim (Bool-cases (ltb (m + c) u64_mod)) [
  | inl e ↦
      let t : ltb (u64_mod - 1 - c) m ≡ false = ground arith in
      let w : (m + c) % u64_mod ≡ m + c = ground arith in rw (e, t, w)
  | inr e ↦ let t : ltb (u64_mod - 1 - c) m ≡ true = ground arith in rw (e, t)
]

reach_step :
    (n : ℕ) (s : ℤ) (ns : List ℕ) (ss : List ℤ) (m : ℕ)
    → 0 < n
    → IsPositive s
    → m < u64_mod
    → reach (n ∷ ns) (s ∷ ss) m ≡ (
        if ltb (m + (n - 1) * to_u64 s) u64_mod
        then reach ns ss (m + (n - 1) * to_u64 s)
        else err (minus 3))
unfolding reach
reach_step n s ns ss m p q h =
    let c = (n - 1) * to_u64 s in
    elim (Bool-cases (ltb c u64_mod)) [
      | inl e ↦
          rw (passes n s p q, multiply_overflow_exact (n - 1) (to_u64 s), e)
            (no_wrap (reach ns ss) m c h (ground arith))
      | inr e ↦
          let t : ltb (m + c) u64_mod ≡ false = ground arith in
          rw (passes n s p q, multiply_overflow_exact (n - 1) (to_u64 s), e, t)
    ]

-- The loop adds up the offsets, and stops with -3 exactly where the sum leaves 64 bits.
pub reach_exact :
    (ns : List ℕ) (ss : List ℤ) (m : ℕ)
    → ArePositive ns ss
    → m < u64_mod
    → reach ns ss m
      ≡ (if ltb (m + extent ns ss) u64_mod then ok (m + extent ns ss) else err (minus 3))
unfolding reach
reach_exact [] ss m p h = ground arith
reach_exact (n ∷ ns) [] m p h = ground arith
reach_exact (n ∷ ns) (s ∷ ss) m p h =
    ground (arith, reach_step n s ns ss m p.0 p.1 h, reach_exact ns ss (m + (n - 1) * to_u64 s) p.2)

-- The first byte behind the tensor.
abbrev pub total_bytes : Desc → ℕ
total_bytes desc = desc.byte_offset + extent (dims desc) (strides desc) + element_bytes desc.dtype

pub record IsSound (desc : Desc) : Type 0 where
  pub ranked : 0 < desc.rank
  pub bounded : desc.rank ≤ max_rank
  pub positive : ArePositive (dims desc) (strides desc)
  pub known : 0 < element_bytes desc.dtype
  pub offset : desc.byte_offset < u64_mod

-- For a tensor of rank 1 to 16, of a known type, with no empty dimension and no stride of 0 or below,
-- `dx_tensor_required_bytes` returns the byte offset plus the offset of the last element plus the
-- size of an element where that fits in 64 bits, and an error otherwise.
pub required_bytes_exact :
    (desc : Desc)
    → IsSound desc
    → (total_bytes desc < u64_mod → dx_tensor_required_bytes desc ≡ ok (total_bytes desc))
      × (u64_mod ≤ total_bytes desc
          → (dx_tensor_required_bytes desc ≡ err (minus 3))
            ⊎ (dx_tensor_required_bytes desc ≡ err (minus 4)))
unfolding dx_tensor_required_bytes bad_rank add_element
required_bytes_exact desc v =
    let r = reach_exact (dims desc) (strides desc) desc.byte_offset v.positive v.offset in
    (λ h. ground (arith, r), λ h. ground (arith, r))

-- An index for each dimension, within it.
abbrev pub IsIndex : List ℕ → List ℕ → Type 0
IsIndex [] [] = Unit
IsIndex (i ∷ is) (n ∷ ns) = (i < n) × IsIndex is ns
IsIndex _ _ = ⊥

-- Where the element of an index stands, from the first element on.
abbrev pub element_offset : List ℕ → List ℤ → ℕ
element_offset (i ∷ is) (s ∷ ss) = i * to_u64 s + element_offset is ss
element_offset _ _ = 0

scaled_le : (i n s : ℕ) → i < n → i * s ≤ (n - 1) * s
scaled_le i n s h = let k : i ≤ n - 1 = omega arith in grind arith

element_offset-le-extent :
    (is ns : List ℕ) (ss : List ℤ) → IsIndex is ns → element_offset is ss ≤ extent ns ss
element_offset-le-extent [] [] ss h = omega arith
element_offset-le-extent [] (n ∷ ns) ss h = absurd h
element_offset-le-extent (i ∷ is) [] ss h = absurd h
element_offset-le-extent (i ∷ is) (n ∷ ns) [] h = omega arith
element_offset-le-extent (i ∷ is) (n ∷ ns) (s ∷ ss) h =
    omega (arith, scaled_le i n (to_u64 s) h.0, element_offset-le-extent is ns ss h.1)

-- Where `dx_tensor_required_bytes` returns a size for a tensor of rank 1 to 16, of a known type, with
-- no empty dimension and no stride of 0 or below, a buffer of that size holds every element whole,
-- whatever index within the dimensions is asked for.
pub required_bytes_cover :
    (desc : Desc) (is : List ℕ) (n : ℕ)
    → IsSound desc
    → IsIndex is (dims desc)
    → dx_tensor_required_bytes desc ≡ ok n
    → desc.byte_offset + element_offset is (strides desc) + element_bytes desc.dtype ≤ n
required_bytes_cover desc is n v h e =
    let le = element_offset-le-extent is (dims desc) (strides desc) h in
    elim (Bool-cases (ltb (total_bytes desc) u64_mod)) [
      | inl t ↦
          let same : ok (total_bytes desc) ≡ ok n =
            sym ((required_bytes_exact desc v).0 (ground arith)) ∙ e in
          ground (arith, le)
      | inr t ↦
          let no_size = (required_bytes_exact desc v).1 (ground arith) in absurd (ground arith)
    ]
