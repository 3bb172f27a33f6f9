-- ===== src/Gguf/Whole.antt =====
-- A GGUF file as a whole, loaded with src/dxmodel/dxmodel.cpp.
use dx_ai_st.Base.{
  ℕ, ◌+◌, ◌^◌, ◌<◌, ◌≤◌, ◌≡◌, refl, sym, ap, ◌∙◌, true, some, List, [], ◌++◌, arith, ltb, false,
  u32_mod, u64_mod, length, append-nil,
}
use dx_ai_st.Gguf.{ok, read_le}
use dx_ai_st.Gguf.Load.{ModelLoader, Scan, finish_load, parse_body, parse_gguf, gguf_magic}
use dx_ai_st.Gguf.Format.{le_bytes, metadata_bytes, descriptors_bytes, GgufFile, file_bytes}
use dx_ai_st.Gguf.Held.{Held, Held-front, Held-back, read_le-Held, u32-IsBelow, u64-IsBelow}
use dx_ai_st.Gguf.Parse.{number_back, AreEntries, skip_metadata_lem}
use dx_ai_st.Gguf.Descriptors.{AreDescriptors, scan_tensors_lem, note_all}
use dx_ai_st.Gguf.Loaded.{IsLoaded, finish_load-IsLoaded}

-- What a writer may put into a file, with fuel for the arrays of the metadata.
pub record IsFile (fuel : ℕ) (g : GgufFile) : Type 0 where
  pub version : g.version < u32_mod
  pub entries : AreEntries fuel g.metadata
  pub entry_count : length g.metadata < u64_mod
  pub tensors : AreDescriptors g.descriptors
  pub tensor_count : length g.descriptors < u64_mod
  pub small : length (file_bytes g) < 2 ^ 63

-- The scan that `parse_gguf` begins with.
abbrev pub start : ModelLoader → Scan
start loader = record { tensors = loader.tensors; has_mtp_layers = false; has_mla_tensors = false }

-- Where the parts of a file stand.
record Layout (g : GgufFile) (file : List ℕ) : Type 0 where
  magic : read_le 4 file 0 ≡ ok gguf_magic
  tensor_count : read_le 8 file 8 ≡ ok (length g.descriptors)
  kv_count : read_le 8 file 16 ≡ ok (length g.metadata)
  metadata : Held file 24 (metadata_bytes g.metadata)
  descriptors :
      Held file (24 + length (metadata_bytes g.metadata)) (descriptors_bytes g.descriptors)
  header : 24 ≤ length file

layout :
    (g : GgufFile) (file : List ℕ)
    → length g.metadata < u64_mod
    → length g.descriptors < u64_mod
    → Held file 0 (file_bytes g)
    → Layout g file
unfolding file_bytes
layout g file kvs ts h =
    let tail = descriptors_bytes g.descriptors ++ g.payload in
    let m = metadata_bytes g.metadata ++ tail in
    let c = le_bytes 8 (length g.metadata) ++ m in
    let n = le_bytes 8 (length g.descriptors) ++ c in
    let w = le_bytes 4 g.version ++ n in
    let at4 : Held file 4 w = number_back file w 4 gguf_magic 0 h in
    let at8 : Held file 8 n = number_back file n 4 g.version 4 at4 in
    let at16 : Held file 16 c = number_back file c 8 (length g.descriptors) 8 at8 in
    let at24 : Held file 24 m = number_back file m 8 (length g.metadata) 16 at16 in
    let kv =
      read_le-Held 8 (length g.metadata) file 16 (omega arith) (u64-IsBelow (length g.metadata) kvs)
        (Held-front file (le_bytes 8 (length g.metadata)) m 16 at16) in
    record {
      magic =
          (read_le-Held 4 gguf_magic file 0 (omega arith) (u32-IsBelow gguf_magic (omega arith))
            (Held-front file (le_bytes 4 gguf_magic) w 0 h)).0;
      tensor_count =
          (read_le-Held 8 (length g.descriptors) file 8 (omega arith)
            (u64-IsBelow (length g.descriptors) ts)
            (Held-front file (le_bytes 8 (length g.descriptors)) c 8 at8)).0;
      kv_count = kv.0;
      metadata = Held-front file (metadata_bytes g.metadata) tail 24 at24;
      descriptors =
          Held-front file (descriptors_bytes g.descriptors) g.payload
            (24 + length (metadata_bytes g.metadata))
            (Held-back file (metadata_bytes g.metadata) tail 24 at24);
      header = kv.1;
    }

load_lem :
    (g : GgufFile) (fuel : ℕ) (loader : ModelLoader) (file : List ℕ)
    → Layout g file
    → length file < 2 ^ 63
    → AreEntries fuel g.metadata
    → AreDescriptors g.descriptors
    → parse_gguf fuel loader (some file)
      ≡ ok (finish_load loader (note_all g.descriptors (start loader)))
unfolding parse_gguf parse_body
load_lem g fuel loader file l small es ds =
    let inside : ltb (length file) 24 ≡ false = ground (arith, l.header) in
    rw (inside, l.magic)
      (rw (l.tensor_count) (
        rw (l.kv_count) (
          rw (skip_metadata_lem g.metadata fuel file 24 small es l.metadata) (
            rw
              (scan_tensors_lem g.descriptors file (24 + length (metadata_bytes g.metadata))
                (start loader) small ds l.descriptors)
              refl))))

-- A file that is written by the format loads: every metadata entry is skipped, and of the tensors the last of each
-- name is held with its dimensions, its offset and its type: Q8_0 for the number 7, Q4_0 for 2 and FP16 for any
-- other; what the loader held under other names stays. The architecture is multi-token prediction if a name
-- contains mtp or speculative, latent attention if none does and one contains kv_a, kv_b or q_a, and grouped
-- queries otherwise, and nothing else of the configuration changes. Nothing is read outside of the file, and fuel
-- for the depth of the arrays is enough.
pub parse_gguf-file_bytes :
    (g : GgufFile) (fuel : ℕ) (loader : ModelLoader)
    → IsFile fuel g
    → (loaded : ModelLoader) × (parse_gguf fuel loader (some (file_bytes g)) ≡ ok (true, loaded))
      × IsLoaded g.descriptors loader loaded
parse_gguf-file_bytes g fuel loader v =
    let r = finish_load loader (note_all g.descriptors (start loader)) in
    let (done, loaded) = finish_load-IsLoaded g.descriptors loader (start loader) refl refl refl in
    (
      r.1,
      load_lem g fuel loader (file_bytes g)
            (layout g (file_bytes g) v.entry_count v.tensor_count
              ([], sym (append-nil (file_bytes g))))
            v.small v.entries v.tensors
          ∙ ap (λ b. ok (b, r.1)) done,
      loaded,
    )
