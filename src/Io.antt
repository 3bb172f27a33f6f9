-- ===== src/Io.antt =====
-- src/core/dx_io_api.cpp: the provider of file reads. A byte is a number below 256; the file system's
-- answers are arguments, null pointers are refused with -1 and not given here.
pub mod Chunks
mod Tests
use dx_ai_st.Base.{
  ℕ, ◌+◌, ◌-◌, min, Bool, true, false, not, Option, none, some, List, [], ◌∷◌, ℤ, pos, minus,
  if◌then◌else◌, ltb, leb, ◌==◌, length, take, drop,
}
use dx_ai_st.Base.Text.{Text, valid_text}

-- dx_io_provider_kind_t
abbrev pub auto : ℕ
auto = 0

abbrev pub directstorage : ℕ
directstorage = 1

abbrev pub win32 : ℕ
win32 = 2

abbrev pub portable : ℕ
portable = 3

-- The build (for Windows, with the DirectStorage SDK), and whether the provider and its logger can be
-- made.
pub record ProviderEnv : Type 0 where
  pub windows : Bool
  pub has_directstorage : Bool
  pub memory : Bool
  pub logger : Bool

unfoldable pub dx_io_provider_create : ProviderEnv → ℕ → ℤ × Option ℕ
dx_io_provider_create env requested_kind =
    if ltb portable requested_kind
    then (minus 1, none)
    else if not env.memory
    then (minus 3, none)
    else if not env.logger
    then (minus 2, none)
    else (pos 0, some kind)
  where
    kind : ℕ
    kind =
        if not env.windows
        then portable
        else if not env.has_directstorage
        then win32
        else if requested_kind == win32
        then win32
        else directstorage

-- A path as the file system answers for it: its bytes, if it can be opened, whether `tellg` works,
-- and how many bytes one `read` delivers at most.
pub record File : Type 0 where
  pub bytes : Option (List ℕ)
  pub tells : Bool
  pub delivers : ℕ

-- The bytes that are written to the front of the buffer; `out_bytes_read` is their number.
pub read_open : File → List ℕ → ℕ → ℕ → ℤ × List ℕ
read_open file bytes offset capacity =
    if not file.tells
    then (pos 1, [])
    else if leb (length bytes) offset
    then (pos 1, [])
    else if length read == requested
    then (pos 0, read)
    else (pos 1, read)
  where
    requested : ℕ
    requested = min (length bytes - offset) capacity

    read : List ℕ
    read = take (min requested file.delivers) (drop offset bytes)

pub dx_io_read_file : File → Text → ℕ → ℕ → ℤ × List ℕ
unfolding read_open
dx_io_read_file file path offset capacity =
    if not (valid_text path)
    then (minus 1, [])
    else if capacity == 0
    then (minus 2, [])
    else elim file.bytes [
      | none ↦ (minus 3, [])
      | some bytes ↦ read_open file bytes offset capacity
    ]
