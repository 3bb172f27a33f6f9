-- ===== src/Chunk/Tests.antt =====
-- A chunk in the middle of a file, for src/dxchunk/dxchunk.cpp.
use dx_ai_st.Base.{ℕ, ◌≡◌, refl, false, some, List, [], ◌∷◌, arith}
use dx_ai_st.Memory.Transfer.{read_at}
use dx_ai_st.Chunk.{
  TensorChunk, ChunkStreamer, returned, new_streamer, register_chunk, find_chunk,
  stream_chunk_to_gpu,
}
use dx_ai_st.Chunk.Staged.{IsStaged, stream-chunk}

abbrev layer : TensorChunk
layer = record {
  name = 97 ∷ [];
  file_offset = 2;
  size_bytes = 3;
  upload = false;
  in_vram = false;
  in_ram = false;
}

abbrev streamer : ChunkStreamer
streamer = register_chunk new_streamer (97 ∷ []) 2 3 false

abbrev weights : List ℕ
weights = 1 ∷ 2 ∷ 3 ∷ 4 ∷ 5 ∷ 6 ∷ []

stream-chunk_example :
    (t : ChunkStreamer) × (stream_chunk_to_gpu streamer (97 ∷ []) (some weights)
      ≡ returned (some (read_at weights 2 3)) t)
    × IsStaged t
unfolding register_chunk find_chunk
stream-chunk_example = stream-chunk streamer (97 ∷ []) layer weights tt refl (omega arith)
