-- ===== src/Gguf/Tests.antt =====
-- A file with one array in its metadata and two tensors, loaded with src/dxmodel/dxmodel.cpp, and one
-- whose metadata has no end.
use dx_ai_st.Base.{
  ◌-◌, ◌^◌, ◌<◌, ◌≡◌, refl, true, none, inl, [], ◌∷◌, some, arith, length, append-nil, sym,
}
use dx_ai_st.Gguf.{ok, throws, out_of_fuel, skip_gguf_val, array_type, string_at}
use dx_ai_st.Gguf.Load.{ModelLoader, new_loader, parse_gguf, q4_0}
use dx_ai_st.Gguf.Names.{mtp}
use dx_ai_st.Gguf.Format.{
  scalar, array, end, more, Entry, Descriptor, GgufFile, file_bytes, metadata_bytes, entry_bytes,
  descriptors_bytes, descriptor_bytes, dims_bytes, le_bytes, encode, IsValue, depth, uint16,
}
use dx_ai_st.Gguf.Whole.{IsFile, parse_gguf-file_bytes}
use dx_ai_st.Gguf.Loaded.{IsLoaded, AnyHasOne, mtp_parts, last_of, type_at}
use dx_ai_st.Gguf.Endless.{loop_bytes, skip-loop_bytes}

abbrev sizes : Entry
sizes = record {
  key = 115 ∷ [];
  value = array 2 (more (scalar 2 (1 ∷ 0 ∷ [])) (more (scalar 2 (2 ∷ 0 ∷ [])) end));
}

abbrev head_tensor : Descriptor
head_tensor = record { name = 97 ∷ mtp; dims = 4 ∷ 8 ∷ []; ggml_type = 2; offset = 0 }

abbrev small_file : GgufFile
small_file = record {
  version = 3;
  metadata = sizes ∷ [];
  descriptors = head_tensor ∷ [];
  payload = 7 ∷ 7 ∷ [];
}

small_file-IsFile : IsFile 2 small_file
unfolding file_bytes metadata_bytes entry_bytes descriptors_bytes descriptor_bytes dims_bytes
    le_bytes encode IsValue depth
small_file-IsFile = record {
  version = omega arith;
  entries = ((omega arith, omega arith, (refl, uint16, (refl, uint16, tt))), omega arith, tt);
  entry_count = omega arith;
  tensors = (
    record {
      rank = omega arith;
      dims = (omega arith, (omega arith, tt));
      type = omega arith;
      offset = omega arith;
    },
    tt,
  );
  tensor_count = omega arith;
  small = omega arith;
}

parse_gguf-file_bytes_example :
    (loaded : ModelLoader) × (parse_gguf 2 new_loader (some (file_bytes small_file))
      ≡ ok (true, loaded))
    × IsLoaded (head_tensor ∷ []) new_loader loaded
parse_gguf-file_bytes_example = parse_gguf-file_bytes small_file 2 new_loader small_file-IsFile

-- The name of the tensor chooses the architecture, and its number the type.
chosen : AnyHasOne mtp_parts (head_tensor ∷ [])
chosen = inl (inl (97 ∷ [], [], refl))

typed :
    last_of (97 ∷ mtp) (head_tensor ∷ []) none
    ≡ some (record { name = 97 ∷ mtp; type = q4_0; dims = 4 ∷ 8 ∷ []; offset_bytes = 0 })
unfolding type_at
typed = refl

-- A string whose length wraps around throws.
long_string : string_at (0 ∷ []) 1 (2 ^ 64 - 1) ≡ throws
unfolding string_at
long_string = refl

loop_small : length loop_bytes < 2 ^ 63
unfolding le_bytes
loop_small = omega arith

skip-loop_bytes_example : skip_gguf_val 1000 loop_bytes array_type 0 ≡ out_of_fuel
skip-loop_bytes_example =
    skip-loop_bytes loop_bytes 0 1000 loop_small ([], sym (append-nil loop_bytes))
