-- ===== src/Chunk.antt =====
-- src/dxchunk/dxchunk.cpp: chunks of a file that are streamed into buffers, through one of two staging buffers
-- where the buffer is in video memory. A buffer is its bytes; that buffers and Direct3D objects can be made is
-- assumed, and a queue that was waited for has made its copy. The mapping of a file is its bytes, if there is one.
pub mod Staged
mod Tests
use dx_ai_st.Base.{
  ℕ, zero, suc, ◌+◌, ◌-◌, Bool, true, false, ◌||◌, not, Option, none, some, List, [], ◌∷◌, ◌++◌,
  if◌then◌else◌, ltb, ◌==◌, length, take, drop,
}
use dx_ai_st.Base.Text.{Text, same_text}
use dx_ai_st.Memory.Transfer.{copy_to, read_at}

-- `upload` is whether the location is MemLocation::Upload.
pub record TensorChunk : Type 0 where
  pub name : Text
  pub file_offset : ℕ
  pub size_bytes : ℕ
  pub upload : Bool
  pub in_vram : Bool
  pub in_ram : Bool

-- The two staging buffers are there or not there together.
pub record ChunkStreamer : Type 0 where
  pub chunks : List TensorChunk
  pub staging : Option (List ℕ × List ℕ)
  pub staging_size : ℕ
  pub active_staging_idx : ℕ
  pub fence_val : ℕ

abbrev pub new_streamer : ChunkStreamer
new_streamer = record {
  chunks = [];
  staging = none;
  staging_size = 0;
  active_staging_idx = 0;
  fence_val = 0;
}

unfoldable pub register_chunk : ChunkStreamer → Text → ℕ → ℕ → Bool → ChunkStreamer
register_chunk s name offset size upload = record s {
  chunks =
      s.chunks
      ++ record {
        name = name;
        file_offset = offset;
        size_bytes = size;
        upload = upload;
        in_vram = false;
        in_ram = false;
      }
        ∷ [];
}

-- What a call gives: a read or a write out of bounds, or the buffer, where there is one.
pub data Streamed : Type 0 where
  out_of_bounds : Streamed
  returned : Option (List ℕ) → ChunkStreamer → Streamed

-- memcpy from the mapping into a buffer: `none` where either is too short.
pub copy_chunk : List ℕ → List ℕ → ℕ → ℕ → Option (List ℕ)
copy_chunk buffer file offset size =
    if ltb (length file) (offset + size) || ltb (length buffer) size
    then none
    else some (copy_to buffer 0 (read_at file offset size))

-- The first chunk of the name gets its flags.
pub mark : Text → (TensorChunk → TensorChunk) → List TensorChunk → List TensorChunk
mark name f [] = []
mark name f (c ∷ cs) = if same_text c.name name then f c ∷ cs else c ∷ mark name f cs

unfoldable pub find_chunk : Text → List TensorChunk → Option TensorChunk
find_chunk name [] = none
find_chunk name (c ∷ cs) = if same_text c.name name then some c else find_chunk name cs

-- A new buffer of `size` bytes holds what it holds.
pub fresh : ℕ → List ℕ
fresh zero = []
fresh (suc n) = 0 ∷ fresh n

abbrev pub mark_ram : TensorChunk → TensorChunk
mark_ram c = record c { in_ram = true }

abbrev pub mark_vram : TensorChunk → TensorChunk
mark_vram c = record c { in_vram = true }

-- A buffer in system memory is mapped and filled; without a mapping it is returned as it was made.
pub stream_upload : ChunkStreamer → TensorChunk → Option (List ℕ) → Streamed
unfolding copy_chunk mark fresh
stream_upload s c none =
    returned (some (fresh c.size_bytes)) (record s { chunks = mark c.name mark_ram s.chunks })
stream_upload s c (some file) =
    elim (copy_chunk (fresh c.size_bytes) file c.file_offset c.size_bytes) [
      | none ↦ out_of_bounds
      | some bytes ↦ returned (some bytes) (record s { chunks = mark c.name mark_ram s.chunks })
    ]

-- The staging buffers, made again where they are missing or too small, and their size.
pub staging_for : ChunkStreamer → ℕ → (List ℕ × List ℕ) × ℕ
unfolding fresh
staging_for s size = elim s.staging [
  | none ↦ ((fresh size, fresh size), size)
  | some buffers ↦
      if ltb s.staging_size size
      then ((fresh size, fresh size), size)
      else (buffers, s.staging_size)
]

-- The copy through the active buffer, and the copy of the queue into the target.
pub stream_staged : ChunkStreamer → TensorChunk → List ℕ × List ℕ → ℕ → Option (List ℕ) → Streamed
unfolding copy_chunk mark fresh
stream_staged s c buffers idx none = returned none s
stream_staged s c buffers idx (some file) =
    let active = if idx == 0 then buffers.0 else buffers.1 in
    elim (copy_chunk active file c.file_offset c.size_bytes) [
      | none ↦ out_of_bounds
      | some staged ↦
          returned (some (copy_to (fresh c.size_bytes) 0 (read_at staged 0 c.size_bytes)))
            (record s {
              chunks = mark c.name mark_vram s.chunks;
              staging = some (if idx == 0 then (staged, buffers.1) else (buffers.0, staged));
              fence_val = s.fence_val + 1;
            })
    ]

unfoldable pub stream_chunk_to_gpu : ChunkStreamer → Text → Option (List ℕ) → Streamed
unfolding find_chunk stream_upload staging_for stream_staged
stream_chunk_to_gpu s name file = elim (find_chunk name s.chunks) [
  | none ↦ returned none s
  | some c ↦
      if c.upload
      then stream_upload s c file
      else let ready = staging_for s c.size_bytes in
        stream_staged
          (record s {
            staging = some ready.0;
            staging_size = ready.1;
            active_staging_idx = 1 - s.active_staging_idx;
          })
          c ready.0 s.active_staging_idx file
]
