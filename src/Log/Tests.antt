-- ===== src/Log/Tests.antt =====
-- A component whose performance records are asked for, for src/core/dx_log.cpp.
use dx_ai_st.Base.{◌≡◌, refl, true, none, some, [], ◌∷◌, if◌then◌else◌}
use dx_ai_st.Base.Text.{Text, same_text}
use dx_ai_st.Log.{
  Environment, FileSystem, ComponentLogger, to_cpp_level, dx_component_logger_write, write, enabled,
  level_mode, has_mode,
}

-- dx12_io_perf=1
abbrev env : Environment
env name =
    if same_text name
      (b'd' ∷ b'x' ∷ b'1' ∷ b'2' ∷ b'_' ∷ b'i' ∷ b'o' ∷ b'_' ∷ b'p' ∷ b'e' ∷ b'r' ∷ b'f' ∷ [])
    then some (b'1' ∷ [])
    else none

abbrev fs : FileSystem
fs = record { module_logs = true; current = true; current_logs = true; opens = true }

abbrev io : Text
io = b'I' ∷ b'O' ∷ []

abbrev logger : ComponentLogger
logger = record {
  component = b'i' ∷ b'o' ∷ [];
  modes = 4;
  initialized = true;
  file_open = true;
  records = [];
}

-- An error is dropped: only performance is asked for.
error_dropped : (dx_component_logger_write logger 3 (some (b'x' ∷ []))).records ≡ []
unfolding dx_component_logger_write write enabled level_mode to_cpp_level has_mode
error_dropped = refl
