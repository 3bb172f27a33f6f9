-- ===== src/Gguf/Descriptors.antt =====
-- The descriptors of a GGUF file, loaded with src/dxmodel/dxmodel.cpp.
use dx_ai_st.Base.{
  ℕ, ◌+◌, ◌%◌, ◌^◌, ◌<◌, ◌≡◌, refl, ap, ◌∙◌, some, List, [], ◌∷◌, ◌++◌, arith, ltb, false, u32_mod,
  u64_mod, length, length-append,
}
use dx_ai_st.Gguf.{ok}
use dx_ai_st.Gguf.Load.{
  TensorInfo, Scan, data_type, read_place, read_shape, read_tensor, note_tensor, scan_tensors,
}
use dx_ai_st.Gguf.Format.{
  le_bytes, string_bytes, Descriptor, dims_bytes, descriptor_bytes, descriptors_bytes,
}
use dx_ai_st.Gguf.Held.{
  Held, Held-front, Held-back, length-le_bytes, length-string_bytes, read_le-Held, u32-IsBelow,
  u64-IsBelow, read_gguf_string-Held,
}
use dx_ai_st.Gguf.Parse.{number_back, string_back, AreU64, read_dims_lem}

-- What the loader keeps of a descriptor.
abbrev pub meant : Descriptor → TensorInfo
meant t = record {
  name = t.name;
  type = data_type t.ggml_type;
  dims = t.dims;
  offset_bytes = t.offset;
}

-- The numbers of a descriptor fit their fields.
pub record IsDescriptor (t : Descriptor) : Type 0 where
  pub rank : length t.dims < u32_mod
  pub dims : AreU64 t.dims
  pub type : t.ggml_type < u32_mod
  pub offset : t.offset < u64_mod

abbrev pub AreDescriptors : List Descriptor → Type 0
AreDescriptors [] = Unit
AreDescriptors (t ∷ ts) = IsDescriptor t × AreDescriptors ts

-- The descriptors noted one after the other.
unfoldable pub note_all : List Descriptor → Scan → Scan
note_all [] scan = scan
note_all (t ∷ ts) scan = note_all ts (note_tensor (meant t) scan)

pub read_place_lem :
    (file : List ℕ) (t : Descriptor) (offset : ℕ)
    → length file < 2 ^ 63
    → IsDescriptor t
    → Held file offset (le_bytes 4 t.ggml_type ++ le_bytes 8 t.offset)
    → read_place file t.name t.dims offset ≡ ok (some (meant t, offset + 12))
unfolding read_place
read_place_lem file t offset small d held =
    let first =
      read_le-Held 4 t.ggml_type file offset (omega arith) (u32-IsBelow t.ggml_type d.type)
        (Held-front file (le_bytes 4 t.ggml_type) (le_bytes 8 t.offset) offset held) in
    let second =
      read_le-Held 8 t.offset file (offset + 4) (omega arith) (u64-IsBelow t.offset d.offset)
        (number_back file (le_bytes 8 t.offset) 4 t.ggml_type offset held) in
    let wrap : (offset + 12) % u64_mod ≡ offset + 12 = omega (arith, second.1) in
    let inside : ltb (length file) (offset + 12) ≡ false = ground (arith, second.1) in
    rw (wrap, inside, first.0, second.0) refl

pub read_shape_lem :
    (file : List ℕ) (t : Descriptor) (offset : ℕ)
    → length file < 2 ^ 63
    → IsDescriptor t
    → Held file offset (
        le_bytes 4 (length t.dims)
        ++ (dims_bytes t.dims ++ (le_bytes 4 t.ggml_type ++ le_bytes 8 t.offset)))
    → read_shape file t.name offset
      ≡ ok (some (meant t, offset + 4 + length (dims_bytes t.dims) + 12))
unfolding read_shape
read_shape_lem file t offset small d held =
    let place = le_bytes 4 t.ggml_type ++ le_bytes 8 t.offset in
    let first =
      read_le-Held 4 (length t.dims) file offset (omega arith) (u32-IsBelow (length t.dims) d.rank)
        (Held-front file (le_bytes 4 (length t.dims)) (dims_bytes t.dims ++ place) offset held) in
    let behind = number_back file (dims_bytes t.dims ++ place) 4 (length t.dims) offset held in
    let wrap : (offset + 4) % u64_mod ≡ offset + 4 = omega (arith, first.1) in
    let inside : ltb (length file) (offset + 4) ≡ false = ground (arith, first.1) in
    rw (wrap, inside, first.0)
      (rw
        (read_dims_lem t.dims file (offset + 4) [] small d.dims
          (Held-front file (dims_bytes t.dims) place (offset + 4) behind))
        (read_place_lem file t (offset + 4 + length (dims_bytes t.dims)) small d
          (Held-back file (dims_bytes t.dims) place (offset + 4) behind)))

pub length-descriptor_bytes :
    (t : Descriptor)
    → length (descriptor_bytes t) ≡ 8 + length t.name + 4 + length (dims_bytes t.dims) + 12
unfolding descriptor_bytes
length-descriptor_bytes t =
    let place = le_bytes 4 t.ggml_type ++ le_bytes 8 t.offset in
    omega (
      arith,
      length-append (string_bytes t.name)
          (le_bytes 4 (length t.dims) ++ (dims_bytes t.dims ++ place)),
      length-append (le_bytes 4 (length t.dims)) (dims_bytes t.dims ++ place),
      length-append (dims_bytes t.dims) place,
      length-append (le_bytes 4 t.ggml_type) (le_bytes 8 t.offset),
      length-string_bytes t.name,
      length-le_bytes 4 (length t.dims),
      length-le_bytes 4 t.ggml_type,
      length-le_bytes 8 t.offset,
    )

pub read_tensor_lem :
    (file : List ℕ) (t : Descriptor) (offset : ℕ)
    → length file < 2 ^ 63
    → IsDescriptor t
    → Held file offset (descriptor_bytes t)
    → read_tensor file offset ≡ ok (some (meant t, offset + length (descriptor_bytes t)))
unfolding read_tensor descriptor_bytes
read_tensor_lem file t offset small d held =
    let shape =
      le_bytes 4 (length t.dims)
      ++ (dims_bytes t.dims ++ (le_bytes 4 t.ggml_type ++ le_bytes 8 t.offset)) in
    let end : offset + 8 + length t.name + 4 + length (dims_bytes t.dims) + 12
        ≡ offset + length (descriptor_bytes t) =
      omega (arith, length-descriptor_bytes t) in
    rw
      (read_gguf_string-Held file t.name offset small
        (Held-front file (string_bytes t.name) shape offset held))
      (read_shape_lem file t (offset + 8 + length t.name) small d
          (string_back file shape t.name offset held)
        ∙ ap (λ k. ok (some (meant t, k))) end)

pub scan_tensors_lem :
    (ts : List Descriptor) (file : List ℕ) (offset : ℕ) (scan : Scan)
    → length file < 2 ^ 63
    → AreDescriptors ts
    → Held file offset (descriptors_bytes ts)
    → scan_tensors file (length ts) offset scan ≡ ok (note_all ts scan)
unfolding scan_tensors descriptors_bytes note_all
scan_tensors_lem [] file offset scan small d held = refl
scan_tensors_lem (t ∷ ts) file offset scan small d held =
    rw
      (read_tensor_lem file t offset small d.0
        (Held-front file (descriptor_bytes t) (descriptors_bytes ts) offset held))
      (scan_tensors_lem ts file (offset + length (descriptor_bytes t)) (note_tensor (meant t) scan)
        small d.1 (Held-back file (descriptor_bytes t) (descriptors_bytes ts) offset held))
