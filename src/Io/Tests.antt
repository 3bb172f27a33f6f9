-- ===== src/Io/Tests.antt =====
-- A file of five bytes read with src/core/dx_io_api.cpp.
use dx_ai_st.Base.{◌≡◌, refl, true, false, [], ◌∷◌, some, pos, arith, drop}
use dx_ai_st.Base.Text.{Text}
use dx_ai_st.Io.{File, win32, directstorage, dx_io_provider_create, dx_io_read_file, read_open}
use dx_ai_st.Io.Chunks.{Delivers, read_all, read_all-Delivers}

abbrev path : Text
path = 109 ∷ []

abbrev five : File
five = record { bytes = some (1 ∷ 2 ∷ 3 ∷ 4 ∷ 5 ∷ []); tells = true; delivers = 64 }

-- Without the SDK, a provider for DirectStorage is one for Win32.
falls_back :
    dx_io_provider_create
      (record { windows = true; has_directstorage = false; memory = true; logger = true })
      directstorage
    ≡ (pos 0, some win32)
unfolding dx_io_provider_create
falls_back = refl

-- The last piece may be short, and returns 0.
short_piece : dx_io_read_file five path 4 2 ≡ (pos 0, 5 ∷ [])
unfolding dx_io_read_file read_open
short_piece = refl

read_all-Delivers_example : Delivers 2 (drop 1 (1 ∷ 2 ∷ 3 ∷ 4 ∷ 5 ∷ [])) (read_all 6 five path 1 2)
read_all-Delivers_example =
    read_all-Delivers 6 five path (1 ∷ 2 ∷ 3 ∷ 4 ∷ 5 ∷ []) 1 2 refl refl refl (omega arith)
      (omega arith) (omega arith) (omega arith)
