-- ===== src/Chunk/Staged.antt =====
-- A chunk of src/dxchunk/dxchunk.cpp arrives as it stands in the file.
use dx_ai_st.Base.{
  ℕ, zero, suc, ◌+◌, ◌-◌, ◌≤◌, ◌≡◌, refl, ap, sym, ◌∙◌, subst, Bool, true, false, Option, none,
  some, List, ◌++◌, if◌then◌else◌, ltb, ◌==◌, arith, length, drop, length-take, length-drop,
  Option-cases, Bool-cases, inl, inr, drop_all, append-nil,
}
use dx_ai_st.Base.Text.{Text}
use dx_ai_st.Memory.Transfer.{copy_to, read_at}
use dx_ai_st.Memory.Transfer.RoundTrip.{read_at-copy_to, length-copy_to, copy_to_front}
use dx_ai_st.Chunk.{
  TensorChunk, ChunkStreamer, Streamed, returned, copy_chunk, mark, find_chunk, fresh, mark_ram,
  mark_vram, stream_upload, staging_for, stream_staged, stream_chunk_to_gpu,
}

-- Both staging buffers have the size that the streamer notes.
abbrev pub AreSized : Option (List ℕ × List ℕ) → ℕ → Type 0
AreSized none size = Unit
AreSized (some buffers) size = (length buffers.0 ≡ size) × (length buffers.1 ≡ size)

abbrev pub IsStaged : ChunkStreamer → Type 0
IsStaged s = AreSized s.staging s.staging_size

length-fresh : (n : ℕ) → length (fresh n) ≡ n
unfolding fresh
length-fresh zero = refl
length-fresh (suc n) = ap suc (length-fresh n)

length-read_at :
    (file : List ℕ) (offset size : ℕ)
    → offset + size ≤ length file
    → length (read_at file offset size) ≡ size
unfolding read_at
length-read_at file offset size h =
    omega (arith, length-take size (drop offset file), length-drop offset file)

-- Staging buffers for a size are large enough and alike.
staging-IsStaged :
    (s : ChunkStreamer) (size : ℕ)
    → IsStaged s
    → let r = staging_for s size in (length r.0.0 ≡ r.1) × (length r.0.1 ≡ r.1) × (size ≤ r.1)
unfolding staging_for
staging-IsStaged s size w = elim (Option-cases s.staging) [
  | inl e ↦ rw (e, staging_for) (length-fresh size, length-fresh size, omega arith)
  | inr (buffers, e) ↦
      let sized = subst (λ o. AreSized o s.staging_size) e w in
      elim (Bool-cases (ltb s.staging_size size)) [
        | inl f ↦ rw (e, staging_for) (rw f (length-fresh size, length-fresh size, omega arith))
        | inr f ↦ rw (e, staging_for) (rw f (sized.0, sized.1, ground (arith, f)))
      ]
]

-- A buffer that is as long as what is copied holds just that.
copy_to-whole : (d s : List ℕ) → length d ≡ length s → copy_to d 0 s ≡ s
copy_to-whole d s h =
    copy_to_front d s ∙ ap (λ t. s ++ t) (drop_all (length s) d (omega (arith, h))) ∙ append-nil s

copy_chunk-some :
    (buffer file : List ℕ) (offset size : ℕ)
    → offset + size ≤ length file
    → size ≤ length buffer
    → copy_chunk buffer file offset size ≡ some (copy_to buffer 0 (read_at file offset size))
unfolding copy_chunk
copy_chunk-some buffer file offset size h l = ground arith

-- What arrives in the target.
abbrev Arrives : Streamed → List ℕ → Type 0
Arrives r bytes = (t : ChunkStreamer) × (r ≡ returned (some bytes) t) × IsStaged t

upload-Arrives :
    (s : ChunkStreamer) (c : TensorChunk) (file : List ℕ)
    → IsStaged s
    → c.file_offset + c.size_bytes ≤ length file
    → Arrives (stream_upload s c (some file)) (read_at file c.file_offset c.size_bytes)
unfolding stream_upload
upload-Arrives s c file w h =
    let n = length-fresh c.size_bytes in
    let copied =
      copy_chunk-some (fresh c.size_bytes) file c.file_offset c.size_bytes h (omega (arith, n)) in
    let whole =
      copy_to-whole (fresh c.size_bytes) (read_at file c.file_offset c.size_bytes)
        (n ∙ sym (length-read_at file c.file_offset c.size_bytes h)) in
    (
      record s { chunks = mark c.name mark_ram s.chunks },
      rw (copied ∙ ap some whole, stream_upload) refl,
      w,
    )

replace-AreSized :
    (first : Bool) (buffers : List ℕ × List ℕ) (staged : List ℕ) (size : ℕ)
    → (length buffers.0 ≡ size) × (length buffers.1 ≡ size)
    → length staged ≡ size
    → AreSized (some (if first then (staged, buffers.1) else (buffers.0, staged))) size
replace-AreSized true buffers staged size w e = (e, w.1)
replace-AreSized false buffers staged size w e = (w.0, e)

staged-Arrives :
    (s : ChunkStreamer) (c : TensorChunk) (buffers : List ℕ × List ℕ) (idx : ℕ) (file : List ℕ)
    → (length buffers.0 ≡ s.staging_size) × (length buffers.1 ≡ s.staging_size)
    → c.size_bytes ≤ s.staging_size
    → c.file_offset + c.size_bytes ≤ length file
    → Arrives (stream_staged s c buffers idx (some file)) (read_at file c.file_offset c.size_bytes)
unfolding stream_staged
staged-Arrives s c buffers idx file w l h =
    let wanted = read_at file c.file_offset c.size_bytes in
    let size = length-read_at file c.file_offset c.size_bytes h in
    let active = if idx == 0 then buffers.0 else buffers.1 in
    let long : length active ≡ s.staging_size = elim (Bool-cases (idx == 0)) [
      | inl e ↦ rw e w.0
      | inr e ↦ rw e w.1
    ] in
    let copied = copy_chunk-some active file c.file_offset c.size_bytes h (omega (arith, long)) in
    let staged : length (copy_to active 0 wanted) ≡ s.staging_size =
      length-copy_to active 0 wanted (omega (arith, size, long)) ∙ long in
    let back : read_at (copy_to active 0 wanted) 0 c.size_bytes ≡ wanted =
      ap (λ k. read_at (copy_to active 0 wanted) 0 k) (sym size)
      ∙ read_at-copy_to active 0 wanted (omega arith) in
    let whole : copy_to (fresh c.size_bytes) 0 (read_at (copy_to active 0 wanted) 0 c.size_bytes)
        ≡ wanted =
      ap (copy_to (fresh c.size_bytes) 0) back
      ∙ copy_to-whole (fresh c.size_bytes) wanted (length-fresh c.size_bytes ∙ sym size) in
    let t : ChunkStreamer = record s {
      chunks = mark c.name mark_vram s.chunks;
      staging = some (
          if idx == 0
          then (copy_to active 0 wanted, buffers.1)
          else (buffers.0, copy_to active 0 wanted));
      fence_val = s.fence_val + 1;
    } in
    (
      t,
      rw (copied, stream_staged) (ap (λ b. returned (some b) t) whole),
      replace-AreSized (idx == 0) buffers (copy_to active 0 wanted) s.staging_size w staged,
    )

-- A chunk that lies inside its file arrives whole: `stream_chunk_to_gpu` on a registered name returns a buffer
-- with just the chunk's bytes of the file, through a staging buffer or not, and writes inside the staging
-- buffers, which it keeps at the size that it notes. Buffers can be made, and the file can be mapped.
pub stream-chunk :
    (s : ChunkStreamer) (name : Text) (c : TensorChunk) (file : List ℕ)
    → IsStaged s
    → find_chunk name s.chunks ≡ some c
    → c.file_offset + c.size_bytes ≤ length file
    → (t : ChunkStreamer) × (stream_chunk_to_gpu s name (some file)
        ≡ returned (some (read_at file c.file_offset c.size_bytes)) t)
      × IsStaged t
unfolding stream_chunk_to_gpu
stream-chunk s name c file w e h = elim (Bool-cases c.upload) [
  | inl f ↦
      let (t, r, i) = upload-Arrives s c file w h in (t, simp (e, f, stream_chunk_to_gpu) r, i)
  | inr f ↦
      let ready = staging_for s c.size_bytes in
      let sized = staging-IsStaged s c.size_bytes w in
      let (t, r, i) =
        staged-Arrives
          (record s {
            staging = some ready.0;
            staging_size = ready.1;
            active_staging_idx = 1 - s.active_staging_idx;
          })
          c ready.0 s.active_staging_idx file (sized.0, sized.1) sized.2 h in
      (t, simp (e, f, stream_chunk_to_gpu) r, i)
]
