-- ===== src/Log/Modes.antt =====
-- What src/core/dx_log.cpp writes, against the environment.
use dx_ai_st.Base.{◌≡◌, ◌⊎◌, true, false, ◌&&◌, not, List, [], ◌∷◌, ◌==◌}
use dx_ai_st.Base.Text.{Text}
use dx_ai_st.Log.{
  LogLevel, LogRecord, lower_ascii, Environment, read_modes, ComponentLogger, FileSystem, open_log,
}
use dx_ai_st.Log.Asked.{asks, Opens}

-- A logger that was made: its modes are those that the environment asks for, and with none its file is not opened.
record IsMade (env : Environment) (fs : FileSystem) (component : Text) (l : ComponentLogger)
    : Type 0 where
  modes : l.modes ≡ read_modes env (lower_ascii component)
  initialized : l.initialized ≡ true
  file_open : l.file_open ≡ (not (l.modes == 0) && open_log fs)
  records : l.records ≡ []

-- What `records` are after a message: the message alone, where it is asked for and the file opens, or none.
abbrev pub Written : Environment → FileSystem → Text → LogLevel → Text → List LogRecord → Type 0
Written env fs component level message records =
    ((asks env component level ≡ true)
      × Opens fs
      × (records ≡ record { level = level; message = message } ∷ []))
    ⊎ (((asks env component level ≡ false) ⊎ (¬ Opens fs)) × (records ≡ []))
