-- ===== src/Model/Open.antt =====
-- What `dx_model_open` of src/core/dx_model_api.cpp finds out about a file.
use dx_ai_st.Base.{
  ℕ, zero, suc, ◌-◌, ◌<◌, ◌≤◌, ◌≡◌, refl, ap, ◌∙◌, sym, min, true, false, some, List, [], ◌∷◌, pos,
  arith, length, take, length-take, take-length, leb, ◌==◌, inl, inr, Bool-cases,
}
use dx_ai_st.Base.Text.{Text, valid_text, same_text_eq}
use dx_ai_st.Io.{File, auto, dx_io_provider_create, dx_io_read_file}
use dx_ai_st.Io.Chunks.{read_lem}
use dx_ai_st.Model.{
  Model, gguf, gguf_magic, OpenEnv, file_size, detect_format, dx_model_open, dx_model_read,
}

take-take : (m k : ℕ) (xs : List ℕ) → m ≤ k → take m (take k xs) ≡ take m xs
take-take zero k xs h = refl
take-take (suc m) zero xs h = absurd (omega arith)
take-take (suc m) (suc k) [] h = refl
take-take (suc m) (suc k) (x ∷ xs) h = ap (◌∷◌ x) (take-take m k xs (omega arith))

-- A file whose first bytes are the magic is a GGUF file.
detect_magic :
    (path : Text) (prefix : List ℕ) → take 4 prefix ≡ gguf_magic → detect_format path prefix ≡ gguf
unfolding detect_format
detect_magic path prefix h =
    let size : length (take 4 prefix) ≡ 4 = ap length h in
    let long : leb 4 (length prefix) ≡ true = ground (arith, size, length-take 4 prefix) in
    rw (long, h)

-- No other file is.
magic_detected :
    (path : Text) (prefix : List ℕ) → detect_format path prefix ≡ gguf → take 4 prefix ≡ gguf_magic
unfolding detect_format
magic_detected path prefix h = same_text_eq (take 4 prefix) gguf_magic (ground arith)

take-prefix : (xs : List ℕ) → take 4 (take (min (length xs) 8) xs) ≡ take 4 xs
take-prefix xs = elim (Bool-cases (leb (length xs) 8)) [
  | inl short ↦ ap (take 4) (take-length xs (min (length xs) 8) (ground arith))
  | inr long ↦ take-take 4 (min (length xs) 8) xs (ground arith)
]

-- A file that can be read and is not empty opens; the model's size is that of the file, its format is
-- GGUF exactly if the file begins with the magic, and one read of the model's size gives the whole
-- file. The path is usable, the file system delivers what it is asked for, and memory, logger and
-- provider are there.
pub dx_model_open-gguf :
    (env : OpenEnv) (file : File) (path : Text) (bytes : List ℕ) (provider : ℕ)
    → valid_text path ≡ true
    → file.bytes ≡ some bytes
    → file.tells ≡ true
    → 0 < length bytes
    → 8 ≤ file.delivers
    → length bytes ≤ file.delivers
    → env.memory ≡ true
    → env.logger ≡ true
    → dx_io_provider_create env.provider auto ≡ (pos 0, some provider)
    → (m : Model) × (dx_model_open env file path ≡ (pos 0, some m))
      × (m.bytes ≡ length bytes)
      × (take 4 bytes ≡ gguf_magic → m.format ≡ gguf)
      × (m.format ≡ gguf → take 4 bytes ≡ gguf_magic)
      × (dx_model_read file m 0 m.bytes ≡ (pos 0, bytes))
unfolding dx_model_open file_size dx_model_read detect_format
dx_model_open-gguf env file path bytes provider v b t nonempty eight whole mem log prov =
    let prefix = take (min (length bytes) 8) bytes in
    let same : take 4 prefix ≡ take 4 bytes = take-prefix bytes in
    let m : Model = record {
      provider = provider;
      bytes = length bytes;
      format = detect_format path prefix;
      path = path;
    } in
    let size : file_size file ≡ length bytes = rw (b, t) in
    let some_room : (length bytes == 0) ≡ false = ground arith in
    let first_bytes : dx_io_read_file file path 0 8 ≡ (pos 0, prefix) =
      read_lem file bytes 8 path 0 v b t (omega arith) eight nonempty
      ∙ ap (λ n. (pos 0, take (min n 8) bytes)) (omega arith) in
    let everything : dx_io_read_file file path 0 (length bytes) ≡ (pos 0, bytes) =
      read_lem file bytes (length bytes) path 0 v b t nonempty whole nonempty
      ∙ ap (λ t. (pos 0, t))
          (take-length bytes (min (length bytes - 0) (length bytes)) (omega arith)) in
    (
      m,
      rw (v, size, some_room, mem, log, prov, first_bytes)
          (ap (λ n. (pos 0, some (record m { bytes = n }))) size),
      refl,
      λ h. detect_magic path prefix (same ∙ h),
      λ h. sym same ∙ magic_detected path prefix h,
      everything,
    )
