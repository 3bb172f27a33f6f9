-- ===== src/Tensor/Strides.antt =====
-- The stride loop of `dx_tensor_desc_init_contiguous` in src/core/dx_tensor_api.cpp.
use dx_ai_st.Base.{
  ℕ, zero, suc, ◌+◌, ◌-◌, ◌*◌, ◌≤◌, ◌<◌, ◌≡◌, refl, subst, false, some, List, [], ◌∷◌, ℤ, pos,
  minus, if◌then◌else◌, ltb, u64_mod, arith, Checked-cases, ok, err, inl, inr, length, ap, ◌∙◌,
}
use dx_ai_st.Tensor.{to_i64, fill_strides, packed, has_zero, i64_max, same_stride}
use dx_ai_st.Tensor.Bytes.{multiply_overflow_exact, ArePositive, extent}

-- The number of elements.
abbrev pub product : List ℕ → ℕ
product [] = 1
product (n ∷ ns) = n * product ns

-- What the stride loop gives for the dimensions `ns`.
pub record IsFilled (e : ℕ) (ns : List ℕ) (ss : List ℤ) (b : ℕ) : Type 0 where
  pub bytes : b ≡ product ns * e
  pub small : b ≤ i64_max
  pub some_bytes : 0 < b
  pub fits : packed e ns ss ≡ some b
  pub positive : ArePositive ns ss
  pub reaches : extent ns ss + e ≡ b
  pub lengths : length ss ≡ length ns

to_i64_small : (n : ℕ) → n ≤ i64_max → to_i64 n ≡ pos n
unfolding to_i64
to_i64_small n h = ground arith

packed_step :
    (e n : ℕ) (ns : List ℕ) (ss : List ℤ) (b : ℕ)
    → packed e ns ss ≡ some b
    → b ≤ i64_max
    → n * b < u64_mod
    → packed e (n ∷ ns) (pos b ∷ ss) ≡ some (n * b)
unfolding packed same_stride
packed_step e n ns ss b h small k =
    ground (arith, to_i64_small b small, multiply_overflow_exact b n)

pred_mul : (n b : ℕ) → 0 < n → (n - 1) * b + b ≡ b * n
pred_mul zero b h = absurd (omega arith)
pred_mul (suc n) b h = let e : suc n - 1 ≡ n = omega arith in rw e (omega arith)

IsFilled-step :
    (e n : ℕ) (ns : List ℕ) (ss : List ℤ) (b : ℕ)
    → IsFilled e ns ss b
    → 0 < n
    → b * n ≤ i64_max
    → IsFilled e (n ∷ ns) (pos b ∷ ss) (b * n)
IsFilled-step e n ns ss b f p h = record {
  bytes = omega (arith, ap (λ (t : ℕ). t * n) f.bytes);
  small = h;
  some_bytes = grind (arith, f.some_bytes, pred_mul n b p);
  fits = packed_step e n ns ss b f.fits f.small (omega arith) ∙ ap some (omega arith);
  positive = (p, f.some_bytes, f.positive);
  reaches = omega (arith, f.reaches, pred_mul n b p);
  lengths = ap suc f.lengths;
}

fill_err :
    (e n : ℕ) (ns : List ℕ) (z : ℤ) → fill_strides e ns ≡ err z → fill_strides e (n ∷ ns) ≡ err z
unfolding fill_strides
fill_err e n ns z h = rw h

fill_step :
    (e n : ℕ) (ns : List ℕ) (ss : List ℤ) (b : ℕ)
    → fill_strides e ns ≡ ok (ss, b)
    → fill_strides e (n ∷ ns)
      ≡ (if ltb i64_max (b * n) then err (minus 4) else ok (to_i64 b ∷ ss, b * n))
unfolding fill_strides
fill_step e n ns ss b h = rw h (ground (arith, multiply_overflow_exact b n))

nonzero_head : (n : ℕ) (ns : List ℕ) → has_zero (n ∷ ns) ≡ false → (0 < n) × (has_zero ns ≡ false)
unfolding has_zero
nonzero_head n ns h = ground arith

-- The two branches of the last test of a round.
fill_last :
    (e n : ℕ) (ns : List ℕ) (ss : List ℤ) (b : ℕ) (r : List ℤ × ℕ)
    → fill_strides e ns ≡ ok (ss, b)
    → b ≤ i64_max
    → fill_strides e (n ∷ ns) ≡ ok r
    → (b * n ≤ i64_max) × (◌≡◌ {A = List ℤ × ℕ} (pos b ∷ ss, b * n) r)
fill_last e n ns ss b r g small h = ground (arith, fill_step e n ns ss b g, to_i64_small b small)

pub fill-IsFilled :
    (e : ℕ) (ns : List ℕ) (r : List ℤ × ℕ)
    → 0 < e
    → e ≤ i64_max
    → has_zero ns ≡ false
    → fill_strides e ns ≡ ok r
    → IsFilled e ns r.0 r.1
unfolding fill_strides packed
fill-IsFilled e [] r p q z h =
    let same : ◌≡◌ {A = List ℤ × ℕ} ([], e) r = cc in
    subst (λ (t : List ℤ × ℕ). IsFilled e [] t.0 t.1) same
      (record {
        bytes = omega arith;
        small = q;
        some_bytes = p;
        fits = refl;
        positive = tt;
        reaches = omega arith;
        lengths = refl;
      })
fill-IsFilled e (n ∷ ns) r p q z h = elim (Checked-cases (fill_strides e ns)) [
  | inl ((ss, b), g) ↦
      let f = fill-IsFilled e ns (ss, b) p q (nonzero_head n ns z).1 g in
      let last = fill_last e n ns ss b r g f.small h in
      subst (λ (t : List ℤ × ℕ). IsFilled e (n ∷ ns) t.0 t.1) last.1
        (IsFilled-step e n ns ss b f (nonzero_head n ns z).0 last.0)
  | inr (c, g) ↦ absurd (cc (fill_err e n ns c g))
]
