-- ===== src/Gguf/Skip.antt =====
-- Skipping a value of src/dxmodel/dxmodel.cpp against the format.
use dx_ai_st.Base.{
  ℕ, zero, suc, ◌+◌, ◌%◌, ◌^◌, ◌<◌, ◌≤◌, ◌≡◌, refl, ap, ◌∙◌, subst, some, List, [], ◌∷◌, ◌++◌,
  arith, ltb, false, u32_mod, u64_mod, length, length-append,
}
use dx_ai_st.Gguf.{Outcome, ok, scalar_width, skip_elements, skip_array, skip_gguf_val}
use dx_ai_st.Gguf.Format.{
  Value, Values, scalar, string, array, end, more, le_bytes, tag, count, encode, encode_all, depth,
  depth_all, IsValue, AreValues, HasWidth, uint8, int8, uint16, int16, uint32, int32, float32,
  boolean, uint64, int64, float64,
}
use dx_ai_st.Gguf.Held.{
  Held, Held-within, Held-front, Held-back, length-le_bytes, read_le-Held, u32-IsBelow, u64-IsBelow,
  skip_string-Held,
}

pub scalar_width-HasWidth : (val_type n : ℕ) → HasWidth val_type n → scalar_width val_type ≡ some n
unfolding scalar_width
scalar_width-HasWidth _ _ uint8 = refl
scalar_width-HasWidth _ _ int8 = refl
scalar_width-HasWidth _ _ uint16 = refl
scalar_width-HasWidth _ _ int16 = refl
scalar_width-HasWidth _ _ uint32 = refl
scalar_width-HasWidth _ _ int32 = refl
scalar_width-HasWidth _ _ float32 = refl
scalar_width-HasWidth _ _ boolean = refl
scalar_width-HasWidth _ _ uint64 = refl
scalar_width-HasWidth _ _ int64 = refl
scalar_width-HasWidth _ _ float64 = refl

skip-scalar :
    (fuel : ℕ) (file bytes : List ℕ) (val_type offset : ℕ)
    → HasWidth val_type (length bytes)
    → offset + length bytes < u64_mod
    → skip_gguf_val (suc fuel) file val_type offset ≡ ok (offset + length bytes)
unfolding skip_gguf_val
skip-scalar fuel file bytes val_type offset w h =
    let wrap : (offset + length bytes) % u64_mod ≡ offset + length bytes = omega arith in
    rw (scalar_width-HasWidth val_type (length bytes) w, skip_gguf_val) (ap ok wrap)

-- The header of an array is read, and the elements begin behind it.
pub array-Held :
    (file : List ℕ) (elem_type n offset : ℕ) (elements : List ℕ)
    → length file < 2 ^ 63
    → elem_type < u32_mod
    → n < u64_mod
    → Held file offset (le_bytes 4 elem_type ++ (le_bytes 8 n ++ elements))
    → (skip : ℕ → ℕ → Outcome ℕ)
    → (skip_array skip file offset ≡ skip_elements (skip elem_type) n (offset + 12))
      × Held file (offset + 12) elements
      × (offset + 12 ≤ length file)
unfolding skip_array
array-Held file elem_type n offset elements small t m held skip =
    let sizes = le_bytes 8 n ++ elements in
    let back : Held file (offset + 4) sizes =
      subst (λ k. Held file (offset + k) sizes) (length-le_bytes 4 elem_type)
        (Held-back file (le_bytes 4 elem_type) sizes offset held) in
    let first =
      read_le-Held 4 elem_type file offset (omega arith) (u32-IsBelow elem_type t)
        (Held-front file (le_bytes 4 elem_type) sizes offset held) in
    let second =
      read_le-Held 8 n file (offset + 4) (omega arith) (u64-IsBelow n m)
        (Held-front file (le_bytes 8 n) elements (offset + 4) back) in
    let wrap : (offset + 12) % u64_mod ≡ offset + 12 = omega (arith, second.1) in
    let inside : ltb (length file) (offset + 12) ≡ false = ground (arith, second.1) in
    let where_to : offset + 4 + 8 ≡ offset + 12 = omega arith in
    (
      rw (wrap, inside, first.0, second.0),
      subst (λ k. Held file k elements) where_to
          (subst (λ k. Held file (offset + 4 + k) elements) (length-le_bytes 8 n)
            (Held-back file (le_bytes 8 n) elements (offset + 4) back)),
      omega (arith, second.1),
    )

length-array :
    (elem_type : ℕ) (vs : Values)
    → length (encode (array elem_type vs)) ≡ 12 + length (encode_all vs)
unfolding encode
length-array elem_type vs = omega (
  arith,
  length-append (le_bytes 4 elem_type) (le_bytes 8 (count vs) ++ encode_all vs),
  length-append (le_bytes 8 (count vs)) (encode_all vs),
  length-le_bytes 4 elem_type,
  length-le_bytes 8 (count vs),
)

-- The bytes of a value end within the file.
value_within :
    (file bytes : List ℕ) (offset : ℕ)
    → offset ≤ length file
    → Held file offset bytes
    → offset + length bytes ≤ length file
value_within file [] offset o held = omega arith
value_within file (b ∷ bytes) offset o held = Held-within file (b ∷ bytes) offset held (omega arith)

mutual
  unfolding skip_gguf_val skip_elements encode depth IsValue scalar_width

  skip_lem :
      (v : Value) (fuel : ℕ) (file : List ℕ) (offset : ℕ)
      → length file < 2 ^ 63
      → offset ≤ length file
      → IsValue v
      → depth v ≤ fuel
      → Held file offset (encode v)
      → skip_gguf_val fuel file (tag v) offset ≡ ok (offset + length (encode v))
  skip_lem (scalar val_type bytes) zero file offset small o v d held = absurd (omega arith)
  skip_lem (string s) zero file offset small o v d held = absurd (omega arith)
  skip_lem (array elem_type vs) zero file offset small o v d held = absurd (omega arith)
  skip_lem (scalar val_type bytes) (suc fuel) file offset small o v d held =
      skip-scalar fuel file bytes val_type offset v
        (omega (arith, value_within file bytes offset o held))
  skip_lem (string s) (suc fuel) file offset small o v d held =
      skip_string-Held file s offset small held
  skip_lem (array elem_type vs) (suc fuel) file offset small o v d held =
      let a =
        array-Held file elem_type (count vs) offset (encode_all vs) small v.0 v.1 held
          (skip_gguf_val fuel file) in
      let whole = encode (array elem_type vs) in
      let size : offset + 12 + length (encode_all vs) ≡ offset + length whole =
        omega (arith, length-array elem_type vs) in
      a.0
      ∙ (skip_all_lem vs elem_type fuel file (offset + 12) small a.2 v.2 (omega arith) a.1
          ∙ ap ok size)

  skip_all_lem :
      (vs : Values) (elem_type fuel : ℕ) (file : List ℕ) (offset : ℕ)
      → length file < 2 ^ 63
      → offset ≤ length file
      → AreValues elem_type vs
      → depth_all vs ≤ fuel
      → Held file offset (encode_all vs)
      → skip_elements (skip_gguf_val fuel file elem_type) (count vs) offset
        ≡ ok (offset + length (encode_all vs))
  skip_all_lem end elem_type fuel file offset small o v d held = ap ok (omega arith)
  skip_all_lem (more w vs) elem_type fuel file offset small o v d held =
      let front = Held-front file (encode w) (encode_all vs) offset held in
      let step =
        subst (λ t. skip_gguf_val fuel file t offset ≡ ok (offset + length (encode w))) v.0
          (skip_lem w fuel file offset small o v.1 (omega arith) front) in
      rw step (
        skip_all_lem vs elem_type fuel file (offset + length (encode w)) small
          (value_within file (encode w) offset o front) v.2 (omega arith)
          (Held-back file (encode w) (encode_all vs) offset held)
        ∙ ap ok (omega (arith, length-append (encode w) (encode_all vs))))

-- Skipping a value that stands in a file ends right behind it, on any file of less than 2 ^ 63 bytes
-- and with fuel for the depth of its arrays.
pub skip-encode :
    (v : Value) (fuel : ℕ) (file : List ℕ) (offset : ℕ)
    → length file < 2 ^ 63
    → offset ≤ length file
    → IsValue v
    → depth v ≤ fuel
    → Held file offset (encode v)
    → skip_gguf_val fuel file (tag v) offset ≡ ok (offset + length (encode v))
skip-encode v fuel file offset small o valid d held =
    skip_lem v fuel file offset small o valid d held
