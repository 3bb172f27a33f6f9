-- ===== src/Gguf/Endless.antt =====
-- A file on which skipping a value in src/dxmodel/dxmodel.cpp does not end: offsets wrap around, so the
-- length of a string can lead back to an array that the string stands in.
use dx_ai_st.Base.{
  ℕ, zero, suc, ◌+◌, ◌-◌, ◌%◌, ◌^◌, ◌<◌, ◌≤◌, ◌≡◌, refl, ap, ◌∙◌, List, ◌++◌, arith, ltb, false,
  u64_mod, length,
}
use dx_ai_st.Gguf.{
  Outcome, ok, out_of_fuel, scalar_width, array_type, skip_string, skip_elements, skip_array,
  skip_gguf_val,
}
use dx_ai_st.Gguf.Format.{le_bytes}
use dx_ai_st.Gguf.Held.{Held, read_le-Held, u64-IsBelow}
use dx_ai_st.Gguf.Skip.{array-Held}

-- An array of two arrays, the first of which is one string of 2 ^ 64 - 32 characters.
abbrev pub loop_bytes : List ℕ
loop_bytes =
    le_bytes 4 9 ++ (le_bytes 8 2 ++ (le_bytes 4 8 ++ (le_bytes 8 1 ++ le_bytes 8 (u64_mod - 32))))

array_step :
    (fuel : ℕ) (file : List ℕ) (offset : ℕ)
    → skip_gguf_val (suc fuel) file 9 offset ≡ skip_array (skip_gguf_val fuel file) file offset
unfolding skip_gguf_val scalar_width
array_step fuel file offset = refl

string_step :
    (fuel : ℕ) (file : List ℕ) (offset : ℕ)
    → skip_gguf_val (suc fuel) file 8 offset ≡ skip_string file offset
unfolding skip_gguf_val scalar_width
string_step fuel file offset = refl

module _ (file : List ℕ) (offset : ℕ) (small : length file < 2 ^ 63)
    (held : Held file offset loop_bytes) where
  inner_bytes : List ℕ
  inner_bytes = le_bytes 4 8 ++ (le_bytes 8 1 ++ le_bytes 8 (u64_mod - 32))

  outer_lem :
      (skip : ℕ → ℕ → Outcome ℕ)
      → (skip_array skip file offset ≡ skip_elements (skip 9) 2 (offset + 12))
        × Held file (offset + 12) inner_bytes
        × (offset + 12 ≤ length file)
  unfolding inner_bytes
  outer_lem skip =
      array-Held file 9 2 offset inner_bytes small (omega arith) (omega arith) held skip

  inner_lem :
      (skip : ℕ → ℕ → Outcome ℕ)
      → (skip_array skip file (offset + 12) ≡ skip_elements (skip 8) 1 (offset + 12 + 12))
        × Held file (offset + 12 + 12) (le_bytes 8 (u64_mod - 32))
        × (offset + 12 + 12 ≤ length file)
  unfolding inner_bytes
  inner_lem skip =
      array-Held file 8 1 (offset + 12) (le_bytes 8 (u64_mod - 32)) small (omega arith)
        (omega arith) (outer_lem skip).1 skip

  -- The string leads back to the outer array.
  back_lem : skip_string file (offset + 12 + 12) ≡ ok offset
  unfolding skip_string
  back_lem =
      let r =
        read_le-Held 8 (u64_mod - 32) file (offset + 12 + 12) (omega arith)
          (u64-IsBelow (u64_mod - 32) (omega arith)) (inner_lem (λ t o. out_of_fuel)).1 in
      let wrap : (offset + 12 + 12 + 8) % u64_mod ≡ offset + 12 + 12 + 8 = omega (arith, r.1) in
      let inside : ltb (length file) (offset + 12 + 12 + 8) ≡ false = ground (arith, r.1) in
      let back : (offset + 12 + 12 + (8 + (u64_mod - 32))) % u64_mod ≡ offset =
        omega (arith, r.1) in
      rw (wrap, inside, r.0) (ap ok back)

  inner_skips : (fuel : ℕ) → skip_gguf_val (suc (suc fuel)) file 9 (offset + 12) ≡ ok offset
  unfolding skip_elements
  inner_skips fuel =
      array_step (suc fuel) file (offset + 12)
      ∙ ((inner_lem (skip_gguf_val (suc fuel) file)).0
          ∙ rw (string_step fuel file (offset + 12 + 12)) (rw back_lem refl))

  inner_fails : skip_gguf_val (suc zero) file 9 (offset + 12) ≡ out_of_fuel
  unfolding skip_elements skip_gguf_val
  inner_fails =
      array_step zero file (offset + 12) ∙ ((inner_lem (skip_gguf_val zero file)).0 ∙ refl)

  endless : (fuel : ℕ) → skip_gguf_val fuel file 9 offset ≡ out_of_fuel
  unfolding skip_elements skip_gguf_val
  endless zero = refl
  endless (suc zero) =
      array_step zero file offset ∙ ((outer_lem (skip_gguf_val zero file)).0 ∙ refl)
  endless (suc (suc zero)) =
      array_step (suc zero) file offset
      ∙ ((outer_lem (skip_gguf_val (suc zero) file)).0 ∙ rw inner_fails refl)
  endless (suc (suc (suc fuel))) =
      array_step (suc (suc fuel)) file offset
      ∙ ((outer_lem (skip_gguf_val (suc (suc fuel)) file)).0
          ∙ rw (inner_skips fuel) (rw (endless (suc (suc fuel))) refl))

-- Where 32 certain bytes stand in a file of less than 2 ^ 63 bytes, skipping an array at them needs
-- more than any fuel: the recursion of `skip_gguf_val` has no bound.
pub skip-loop_bytes :
    (file : List ℕ) (offset fuel : ℕ)
    → length file < 2 ^ 63
    → Held file offset loop_bytes
    → skip_gguf_val fuel file array_type offset ≡ out_of_fuel
skip-loop_bytes file offset fuel small held = endless file offset small held fuel
