-- ===== src/Log.antt =====
-- src/core/dx_log.cpp and src/core/dx_core_api.cpp: component loggers, which write where the environment asks for
-- it. The file system and the environment are arguments; of the file the model keeps the records, whose text and
-- time stamps are left out.
pub mod Asked
pub mod Modes
mod Tests
use Prim.Native.Nat.{bit_and, bit_or}
use dx_ai_st.Base.{
  ℕ, ◌+◌, Bool, true, false, ◌&&◌, ◌||◌, not, Option, none, some, List, [], ◌∷◌, ◌++◌, map, ℤ, pos,
  minus, if◌then◌else◌, leb, ◌==◌,
}
use dx_ai_st.Base.Text.{Text, same_text}

-- LogMode, and DX_COMPONENT_LOG_* of the C interface, which have the same values.
abbrev pub debug_mode : ℕ
debug_mode = 1

abbrev pub trace_mode : ℕ
trace_mode = 2

abbrev pub perf_mode : ℕ
perf_mode = 4

abbrev pub diagnostic_mode : ℕ
diagnostic_mode = 8

pub has_mode : ℕ → ℕ → Bool
has_mode value mode = not (bit_and value mode == 0)

pub data LogLevel : Type 0 where
  debug info warning error trace performance diagnostic : LogLevel

abbrev pub lower_byte : ℕ → ℕ
lower_byte c = if leb 65 c && leb c 90 then c + 32 else c

unfoldable pub lower_ascii : Text → Text
lower_ascii value = map lower_byte value

-- The environment; a variable that is not set is `none`.
abbrev pub Environment : Type 0
Environment = Text → Option Text

abbrev pub is_off : Text → Bool
is_off value =
    same_text value (b'0' ∷ [])
    || (same_text value (b'f' ∷ b'a' ∷ b'l' ∷ b's' ∷ b'e' ∷ [])
        || (same_text value (b'o' ∷ b'f' ∷ b'f' ∷ []) || same_text value (b'n' ∷ b'o' ∷ [])))

unfoldable pub environment_enabled : Environment → Text → Bool
unfolding lower_ascii
environment_enabled env name = elim (env name) [
  | none ↦ false
  | some [] ↦ false
  | some (c ∷ cs) ↦ not (is_off (lower_ascii (c ∷ cs)))
]

-- "dx12_" and the component, with the names of the modes.
unfoldable pub prefix : Text → Text
prefix component = (b'd' ∷ b'x' ∷ b'1' ∷ b'2' ∷ b'_' ∷ []) ++ (component ++ b'_' ∷ [])

abbrev pub debug_name : Text
debug_name = b'd' ∷ b'e' ∷ b'b' ∷ b'u' ∷ b'g' ∷ []

abbrev pub trace_name : Text
trace_name = b't' ∷ b'r' ∷ b'a' ∷ b'c' ∷ b'e' ∷ []

abbrev pub perf_name : Text
perf_name = b'p' ∷ b'e' ∷ b'r' ∷ b'f' ∷ []

abbrev pub diag_name : Text
diag_name = b'd' ∷ b'i' ∷ b'a' ∷ b'g' ∷ []

unfoldable pub add_mode : Bool → ℕ → ℕ → ℕ
add_mode enabled mode modes = if enabled then bit_or modes mode else modes

unfoldable pub read_modes : Environment → Text → ℕ
unfolding environment_enabled prefix add_mode
read_modes env component =
    add_mode (environment_enabled env (prefix component ++ diag_name)) diagnostic_mode (
      add_mode (environment_enabled env (prefix component ++ perf_name)) perf_mode (
        add_mode (environment_enabled env (prefix component ++ trace_name)) trace_mode
          (add_mode (environment_enabled env (prefix component ++ debug_name)) debug_mode 0)))

-- A record of the file: its level and its message.
pub record LogRecord : Type 0 where
  pub level : LogLevel
  pub message : Text

-- `records` is what the open file has got.
pub record ComponentLogger : Type 0 where
  pub component : Text
  pub modes : ℕ
  pub initialized : Bool
  pub file_open : Bool
  pub records : List LogRecord

unfoldable pub new_logger : Text → ComponentLogger
unfolding lower_ascii
new_logger component = record {
  component = lower_ascii component;
  modes = 0;
  initialized = false;
  file_open = false;
  records = [];
}

-- Which calls of the file system succeed: the directory of the module, the current directory and the one under it,
-- and the file.
pub record FileSystem : Type 0 where
  pub module_logs : Bool
  pub current : Bool
  pub current_logs : Bool
  pub opens : Bool

unfoldable pub open_log : FileSystem → Bool
open_log fs = (fs.module_logs || (fs.current && fs.current_logs)) && fs.opens

unfoldable pub initialize : Environment → FileSystem → ComponentLogger → Bool × ComponentLogger
unfolding read_modes open_log
initialize env fs logger =
    let modes = read_modes env logger.component in
    let ready = record logger { modes = modes; initialized = true } in
    if logger.initialized
    then (logger.file_open || logger.modes == 0, logger)
    else if modes == 0
    then (true, ready)
    else (open_log fs, record ready { file_open = open_log fs })

pub shutdown : ComponentLogger → ComponentLogger
shutdown logger = record logger { file_open = false; initialized = false }

pub enabled : ComponentLogger → ℕ → Bool
unfolding has_mode
enabled logger mode = if not logger.initialized then false else has_mode logger.modes mode

pub level_mode : LogLevel → ℕ
level_mode performance = perf_mode
level_mode trace = trace_mode
level_mode diagnostic = diagnostic_mode
level_mode _ = debug_mode

pub write : ComponentLogger → LogLevel → Text → ComponentLogger
unfolding enabled level_mode
write logger level message =
    if not (enabled logger (level_mode level))
    then logger
    else if not logger.file_open
    then logger
    else record logger {
      records = logger.records ++ record { level = level; message = message } ∷ [];
    }

pub valid_mode : ℕ → Bool
valid_mode mode =
    mode == debug_mode || (mode == trace_mode || (mode == perf_mode || mode == diagnostic_mode))

unfoldable pub to_cpp_level : ℕ → LogLevel
to_cpp_level level =
    if level == 0
    then debug
    else if level == 1
    then info
    else if level == 2
    then warning
    else if level == 3
    then error
    else if level == 4
    then trace
    else if level == 5
    then performance
    else if level == 6
    then diagnostic
    else error

-- `memory` is whether the logger can be made; whether its file opens does not matter.
unfoldable pub dx_component_logger_create :
    Environment → FileSystem → Bool → Option Text → ℤ × Option ComponentLogger
unfolding initialize new_logger
dx_component_logger_create env fs memory none = (minus 1, none)
dx_component_logger_create env fs memory (some []) = (minus 1, none)
dx_component_logger_create env fs memory (some (c ∷ cs)) =
    if memory then (pos 0, some (initialize env fs (new_logger (c ∷ cs))).1) else (minus 3, none)

pub dx_component_logger_modes : Option ComponentLogger → ℕ
dx_component_logger_modes none = 0
dx_component_logger_modes (some logger) = logger.modes

pub dx_component_logger_enabled : Option ComponentLogger → ℕ → ℕ
unfolding enabled valid_mode
dx_component_logger_enabled none mode = 0
dx_component_logger_enabled (some logger) mode =
    if not (valid_mode mode) then 0 else if enabled logger mode then 1 else 0

pub dx_component_logger_write : ComponentLogger → ℕ → Option Text → ComponentLogger
unfolding write to_cpp_level
dx_component_logger_write logger level none = logger
dx_component_logger_write logger level (some message) = write logger (to_cpp_level level) message
