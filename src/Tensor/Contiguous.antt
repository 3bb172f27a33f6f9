-- ===== src/Tensor/Contiguous.antt =====
-- A descriptor that src/core/dx_tensor_api.cpp fills in for a contiguous tensor passes its own tests.
use dx_ai_st.Base.{
  ℕ, ◌+◌, ◌*◌, ◌≤◌, ◌<◌, ◌≡◌, refl, subst, false, some, List, [], ◌∷◌, ℤ, pos, arith, Checked-cases,
  ok, inl, inr, take, length, take_past, length-take, ap, ◌∙◌,
}
use dx_ai_st.Tensor.{
  Desc, desc_size, api_version, contiguous_desc, dims, strides, element_bytes, fill_strides, packed,
  has_zero, dx_tensor_desc_init_contiguous, dx_tensor_is_contiguous, dx_tensor_required_bytes,
  dx_tensor_desc_validate, bad_dims, bad_rank, unknown_dtype, dtype_bytes, blank, max_rank,
}
use dx_ai_st.Tensor.Bytes.{ArePositive, extent, IsSound, total_bytes, required_bytes_exact}
use dx_ai_st.Tensor.Strides.{product, fill-IsFilled}

record IsMade (rank : ℕ) (shape : List ℕ) (dtype : ℕ) (desc : Desc) : Type 0 where
  ranked : (0 < rank) × (rank ≤ max_rank)
  known : unknown_dtype dtype ≡ false
  full : has_zero (take rank shape) ≡ false
  result : List ℤ × ℕ
  filled : fill_strides (element_bytes dtype) (take rank shape) ≡ ok result
  made : contiguous_desc rank shape dtype result ≡ desc

init-IsMade :
    (rank : ℕ) (shape : List ℕ) (dtype : ℕ) (desc : Desc)
    → dx_tensor_desc_init_contiguous rank shape dtype ≡ ok desc
    → IsMade rank shape dtype desc
unfolding dx_tensor_desc_init_contiguous bad_rank
init-IsMade rank shape dtype desc h =
    elim (Checked-cases (fill_strides (element_bytes dtype) (take rank shape))) [
      | inl (r, g) ↦ record {
        ranked = (ground arith, ground arith);
        known = ground arith;
        full = ground arith;
        result = r;
        filled = g;
        made = ground arith;
      }
      | inr (c, g) ↦ absurd (ground arith)
    ]

module _ (rank : ℕ) (shape : List ℕ) (dtype : ℕ) (r : List ℤ × ℕ) (long : rank ≤ length shape) where
  made_dims : dims (contiguous_desc rank shape dtype r) ≡ take rank shape
  unfolding contiguous_desc blank
  made_dims = take_past rank (take rank shape) _ (omega (arith, length-take rank shape))

  made_strides :
      length r.0 ≡ length (take rank shape) → strides (contiguous_desc rank shape dtype r) ≡ r.0
  unfolding contiguous_desc blank
  made_strides e = take_past rank r.0 _ (omega (arith, length-take rank shape))

made_fields :
    (rank : ℕ) (shape : List ℕ) (dtype : ℕ) (r : List ℤ × ℕ)
    → ((contiguous_desc rank shape dtype r).struct_size ≡ desc_size)
      × ((contiguous_desc rank shape dtype r).api_version ≡ api_version)
      × ((contiguous_desc rank shape dtype r).dtype ≡ dtype)
unfolding contiguous_desc blank
made_fields rank shape dtype r = (refl, refl, refl)

made_IsSound :
    (rank : ℕ) (shape : List ℕ) (dtype : ℕ) (r : List ℤ × ℕ)
    → (0 < rank) × (rank ≤ max_rank)
    → 0 < element_bytes dtype
    → ArePositive
        (dims (contiguous_desc rank shape dtype r))
        (strides (contiguous_desc rank shape dtype r))
    → IsSound (contiguous_desc rank shape dtype r)
unfolding contiguous_desc blank
made_IsSound rank shape dtype r ranked e p = record {
  ranked = ranked.0;
  bounded = ranked.1;
  positive = p;
  known = e;
  offset = omega arith;
}

made_total :
    (rank : ℕ) (shape : List ℕ) (dtype : ℕ) (r : List ℤ × ℕ)
    → extent (take rank shape) r.0 + element_bytes dtype ≡ r.1
    → dims (contiguous_desc rank shape dtype r) ≡ take rank shape
    → strides (contiguous_desc rank shape dtype r) ≡ r.0
    → total_bytes (contiguous_desc rank shape dtype r) ≡ r.1
unfolding contiguous_desc blank
made_total rank shape dtype r h d s = rw (d, s) (omega (arith, h))

element_bounds :
    (dtype : ℕ)
    → unknown_dtype dtype ≡ false
    → (0 < element_bytes dtype) × (element_bytes dtype ≤ 4)
unfolding unknown_dtype element_bytes dtype_bytes
element_bounds dtype h = ground arith

positive_bad_dims : (ns : List ℕ) (ss : List ℤ) → ArePositive ns ss → bad_dims ns ss ≡ false
unfolding bad_dims
positive_bad_dims [] ss p = refl
positive_bad_dims (n ∷ ns) [] p = refl
positive_bad_dims (n ∷ ns) (pos s ∷ ss) p = ground (arith, positive_bad_dims ns ss p.2)
positive_bad_dims (n ∷ ns) (ℤ.negsuc s ∷ ss) p = absurd p.1

sound_validate :
    (desc : Desc) (n : ℕ)
    → IsSound desc
    → desc.struct_size ≡ desc_size
    → desc.api_version ≡ api_version
    → unknown_dtype desc.dtype ≡ false
    → dx_tensor_required_bytes desc ≡ ok n
    → dx_tensor_desc_validate desc ≡ pos 0
unfolding dx_tensor_desc_validate bad_rank
sound_validate desc n v size version known e =
    ground (arith, positive_bad_dims (dims desc) (strides desc) v.positive, v.ranked, v.bounded)

sound_contiguous :
    (desc : Desc) (b : ℕ)
    → dx_tensor_desc_validate desc ≡ pos 0
    → packed (element_bytes desc.dtype) (dims desc) (strides desc) ≡ some b
    → dx_tensor_is_contiguous desc ≡ 1
unfolding dx_tensor_is_contiguous
sound_contiguous desc b e f = rw (e, f)

made_exact :
    (rank : ℕ) (shape : List ℕ) (dtype : ℕ) (r : List ℤ × ℕ)
    → rank ≤ length shape
    → (0 < rank) × (rank ≤ max_rank)
    → unknown_dtype dtype ≡ false
    → has_zero (take rank shape) ≡ false
    → fill_strides (element_bytes dtype) (take rank shape) ≡ ok r
    → (dx_tensor_is_contiguous (contiguous_desc rank shape dtype r) ≡ 1)
      × (dx_tensor_required_bytes (contiguous_desc rank shape dtype r)
          ≡ ok (product (take rank shape) * element_bytes dtype))
made_exact rank shape dtype r long ranked known full filled =
    let e = element_bounds dtype known in
    let f =
      fill-IsFilled (element_bytes dtype) (take rank shape) r e.0 (omega (arith, e.1)) full
        filled in
    let d = made_dims rank shape dtype r long in
    let s = made_strides rank shape dtype r long f.lengths in
    let desc = contiguous_desc rank shape dtype r in
    let v : IsSound desc = made_IsSound rank shape dtype r ranked e.0 (rw (d, s) f.positive) in
    let t : total_bytes desc ≡ r.1 = made_total rank shape dtype r f.reaches d s in
    let b : dx_tensor_required_bytes desc ≡ ok r.1 =
      (required_bytes_exact desc v).0 (omega (arith, t, f.small)) ∙ ap ok t in
    (
      sound_contiguous desc r.1
          (sound_validate desc r.1 v (made_fields rank shape dtype r).0
            (made_fields rank shape dtype r).1 (rw ((made_fields rank shape dtype r).2) known) b)
          (rw (d, s, (made_fields rank shape dtype r).2) f.fits),
      b ∙ ap ok f.bytes,
    )

-- A descriptor that `dx_tensor_desc_init_contiguous` fills in, from an array of at least `rank`
-- dimensions, is contiguous by `dx_tensor_is_contiguous`, and `dx_tensor_required_bytes` is the
-- product of the dimensions times the size of an element: no byte is skipped and none is missed.
pub init_contiguous_exact :
    (rank : ℕ) (shape : List ℕ) (dtype : ℕ) (desc : Desc)
    → rank ≤ length shape
    → dx_tensor_desc_init_contiguous rank shape dtype ≡ ok desc
    → (dx_tensor_is_contiguous desc ≡ 1)
      × (dx_tensor_required_bytes desc ≡ ok (product (take rank shape) * element_bytes dtype))
init_contiguous_exact rank shape dtype desc long h =
    let m = init-IsMade rank shape dtype desc h in
    subst
      (λ (d : Desc).
        (dx_tensor_is_contiguous d ≡ 1)
        × (dx_tensor_required_bytes d ≡ ok (product (take rank shape) * element_bytes dtype)))
      m.made (made_exact rank shape dtype m.result long m.ranked m.known m.full m.filled)
