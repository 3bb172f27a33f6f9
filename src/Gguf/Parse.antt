-- ===== src/Gguf/Parse.antt =====
-- Loading a file of the GGUF format with src/dxmodel/dxmodel.cpp.
use dx_ai_st.Base.{
  ℕ, ◌+◌, ◌%◌, ◌^◌, ◌<◌, ◌≤◌, ◌≡◌, refl, ap, ◌∙◌, subst, List, [], ◌∷◌, ◌++◌, arith, ltb, false,
  u32_mod, u64_mod, length, length-append, append_assoc, append-nil,
}
use dx_ai_st.Base.Text.{Text}
use dx_ai_st.Gguf.{Outcome, ok, scalar_width}
use dx_ai_st.Gguf.Load.{skip_value, skip_metadata, read_dims}
use dx_ai_st.Gguf.Format.{
  Value, scalar, string, array, le_bytes, string_bytes, tag, encode, depth, IsValue, Entry,
  entry_bytes, metadata_bytes, dims_bytes,
}
use dx_ai_st.Gguf.Held.{
  Held, Held-front, Held-back, length-le_bytes, length-string_bytes, read_le-Held, u32-IsBelow,
  u64-IsBelow, read_gguf_string-Held,
}
use dx_ai_st.Gguf.Skip.{scalar_width-HasWidth, skip-encode}

-- What follows a number, and what follows a string.
pub number_back :
    (file b : List ℕ) (n x offset : ℕ)
    → Held file offset (le_bytes n x ++ b)
    → Held file (offset + n) b
number_back file b n x offset held =
    subst (λ k. Held file (offset + k) b) (length-le_bytes n x)
      (Held-back file (le_bytes n x) b offset held)

pub string_back :
    (file b : List ℕ) (s : Text) (offset : ℕ)
    → Held file offset (string_bytes s ++ b)
    → Held file (offset + 8 + length s) b
string_back file b s offset held =
    let place : offset + length (string_bytes s) ≡ offset + 8 + length s =
      omega (arith, length-string_bytes s) in
    subst (λ k. Held file k b) place (Held-back file (string_bytes s) b offset held)

tag_small : (v : Value) → IsValue v → tag v < u32_mod
unfolding IsValue scalar_width
tag_small (scalar val_type bytes) v =
    ground (arith, scalar_width-HasWidth val_type (length bytes) v)
tag_small (string s) v = omega arith
tag_small (array elem_type vs) v = omega arith

-- The entries are well formed, and the fuel is enough for each.
abbrev pub AreEntries : ℕ → List Entry → Type 0
AreEntries fuel [] = Unit
AreEntries fuel (e ∷ es) = IsValue e.value × (depth e.value ≤ fuel) × AreEntries fuel es

skip_value_lem :
    (fuel : ℕ) (file : List ℕ) (v : Value) (offset : ℕ) (rest : ℕ → Outcome ℕ)
    → length file < 2 ^ 63
    → IsValue v
    → depth v ≤ fuel
    → Held file offset (le_bytes 4 (tag v) ++ encode v)
    → skip_value fuel file rest offset ≡ rest (offset + 4 + length (encode v))
unfolding skip_value
skip_value_lem fuel file v offset rest small valid d held =
    let r =
      read_le-Held 4 (tag v) file offset (omega arith) (u32-IsBelow (tag v) (tag_small v valid))
        (Held-front file (le_bytes 4 (tag v)) (encode v) offset held) in
    let wrap : (offset + 4) % u64_mod ≡ offset + 4 = omega (arith, r.1) in
    let inside : ltb (length file) (offset + 4) ≡ false = ground (arith, r.1) in
    rw (wrap, inside, r.0)
      (rw
        (skip-encode v fuel file (offset + 4) small r.1 valid d
          (number_back file (encode v) 4 (tag v) offset held))
        refl)

pub skip_metadata_lem :
    (es : List Entry) (fuel : ℕ) (file : List ℕ) (offset : ℕ)
    → length file < 2 ^ 63
    → AreEntries fuel es
    → Held file offset (metadata_bytes es)
    → skip_metadata fuel file (length es) offset ≡ ok (offset + length (metadata_bytes es))
unfolding skip_metadata metadata_bytes entry_bytes
skip_metadata_lem [] fuel file offset small v held = ap ok (omega arith)
skip_metadata_lem (e ∷ es) fuel file offset small v held =
    let body = le_bytes 4 (tag e.value) ++ encode e.value in
    let first = Held-front file (entry_bytes e) (metadata_bytes es) offset held in
    let value = string_back file body e.key offset first in
    let place : offset + length (entry_bytes e)
        ≡ offset + 8 + length e.key + 4 + length (encode e.value) =
      omega (
        arith,
        length-append (string_bytes e.key) body,
        length-append (le_bytes 4 (tag e.value)) (encode e.value),
        length-string_bytes e.key,
        length-le_bytes 4 (tag e.value),
      ) in
    rw
      (read_gguf_string-Held file e.key offset small
        (Held-front file (string_bytes e.key) body offset first))
      (skip_value_lem fuel file e.value (offset + 8 + length e.key)
          (skip_metadata fuel file (length es)) small v.0 v.1 value
        ∙ (skip_metadata_lem es fuel file (offset + 8 + length e.key + 4 + length (encode e.value))
              small v.2
              (subst (λ k. Held file k (metadata_bytes es)) place
                (Held-back file (entry_bytes e) (metadata_bytes es) offset held))
            ∙ ap ok (omega (arith, place, length-append (entry_bytes e) (metadata_bytes es)))))

abbrev pub AreU64 : List ℕ → Type 0
AreU64 [] = Unit
AreU64 (d ∷ ds) = (d < u64_mod) × AreU64 ds

pub read_dims_lem :
    (ds : List ℕ) (file : List ℕ) (offset : ℕ) (dims : List ℕ)
    → length file < 2 ^ 63
    → AreU64 ds
    → Held file offset (dims_bytes ds)
    → read_dims file (length ds) offset dims ≡ ok (dims ++ ds, offset + length (dims_bytes ds))
unfolding read_dims dims_bytes
read_dims_lem [] file offset dims small u held =
    rw append-nil (ap (λ k. ok (dims, k)) (omega arith))
read_dims_lem (d ∷ ds) file offset dims small u held =
    let r =
      read_le-Held 8 d file offset (omega arith) (u64-IsBelow d u.0)
        (Held-front file (le_bytes 8 d) (dims_bytes ds) offset held) in
    let wrap : (offset + 8) % u64_mod ≡ offset + 8 = omega (arith, r.1) in
    let inside : ltb (length file) (offset + 8) ≡ false = ground (arith, r.1) in
    let place : offset + 8 + length (dims_bytes ds)
        ≡ offset + length (le_bytes 8 d ++ dims_bytes ds) =
      omega (arith, length-append (le_bytes 8 d) (dims_bytes ds), length-le_bytes 8 d) in
    rw (wrap, inside, r.0)
      (read_dims_lem ds file (offset + 8) (dims ++ d ∷ []) small u.1
          (number_back file (dims_bytes ds) 8 d offset held)
        ∙ ap ok (rw append_assoc (ap (λ k. (dims ++ d ∷ ds, k)) place)))
