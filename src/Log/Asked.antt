-- ===== src/Log/Asked.antt =====
-- What the environment asks of src/core/dx_log.cpp, and what its modes make of it.
use dx_ai_st.Base.{
  ℕ, zero, suc, ◌+◌, ◌<◌, ◌≡◌, refl, ap, ◌∙◌, ◌⊎◌, Bool, true, false, ◌&&◌, ◌||◌, not, none, some,
  List, [], ◌∷◌, ◌++◌, if◌then◌else◌, ◌==◌, leb, get_or, append_assoc, arith, Bool-cases,
  Option-cases, inl, inr,
}
use dx_ai_st.Base.Text.{Text, same_text}
use dx_ai_st.Log.{
  debug_mode, trace_mode, perf_mode, diagnostic_mode, has_mode, LogLevel, debug, info, warning,
  error, trace, performance, diagnostic, lower_byte, lower_ascii, is_off, Environment,
  environment_enabled, prefix, debug_name, trace_name, perf_name, diag_name, add_mode, read_modes,
  FileSystem, open_log, level_mode, to_cpp_level,
}

-- The flags of the modes that are on.
abbrev flags : Bool → Bool → Bool → Bool → ℕ
flags d t p g =
    add_mode g diagnostic_mode
      (add_mode p perf_mode (add_mode t trace_mode (add_mode d debug_mode 0)))

-- Each flag is read back as it was set.
modes_bits :
    (d t p g : Bool)
    → (has_mode (flags d t p g) debug_mode ≡ d)
      × (has_mode (flags d t p g) trace_mode ≡ t)
      × (has_mode (flags d t p g) perf_mode ≡ p)
      × (has_mode (flags d t p g) diagnostic_mode ≡ g)
unfolding has_mode add_mode
modes_bits true true true true = (refl, refl, refl, refl)
modes_bits true true true false = (refl, refl, refl, refl)
modes_bits true true false true = (refl, refl, refl, refl)
modes_bits true true false false = (refl, refl, refl, refl)
modes_bits true false true true = (refl, refl, refl, refl)
modes_bits true false true false = (refl, refl, refl, refl)
modes_bits true false false true = (refl, refl, refl, refl)
modes_bits true false false false = (refl, refl, refl, refl)
modes_bits false true true true = (refl, refl, refl, refl)
modes_bits false true true false = (refl, refl, refl, refl)
modes_bits false true false true = (refl, refl, refl, refl)
modes_bits false true false false = (refl, refl, refl, refl)
modes_bits false false true true = (refl, refl, refl, refl)
modes_bits false false true false = (refl, refl, refl, refl)
modes_bits false false false true = (refl, refl, refl, refl)
modes_bits false false false false = (refl, refl, refl, refl)

-- Whether a byte is a letter of either case, where `d` is a small letter or none.
abbrev pub same_letter : ℕ → ℕ → Bool
same_letter c d = c == d || (leb b'a' d && (leb d b'z' && c + 32 == d))

abbrev pub same_word : Text → Text → Bool
same_word [] [] = true
same_word (c ∷ s) (d ∷ t) = same_letter c d && same_word s t
same_word _ _ = false

abbrev pub is_among : Text → List Text → Bool
is_among value [] = false
is_among value (word ∷ words) = same_word value word || is_among value words

-- Nothing, "0", "false", "off" and "no": with one of these values a variable asks for nothing.
abbrev pub off_words : List Text
off_words =
    []
    ∷ (b'0' ∷ [])
    ∷ (b'f' ∷ b'a' ∷ b'l' ∷ b's' ∷ b'e' ∷ [])
    ∷ (b'o' ∷ b'f' ∷ b'f' ∷ [])
    ∷ (b'n' ∷ b'o' ∷ [])
    ∷ []

-- "dx12_", the component in small letters, and the end for a level.
abbrev pub start_of : Text
start_of = b'd' ∷ b'x' ∷ b'1' ∷ b'2' ∷ b'_' ∷ []

abbrev pub small_letters : Text → Text
small_letters [] = []
small_letters (c ∷ s) = (if leb b'A' c && leb c b'Z' then c + 32 else c) ∷ small_letters s

abbrev pub end_of : LogLevel → Text
end_of performance = b'_' ∷ b'p' ∷ b'e' ∷ b'r' ∷ b'f' ∷ []
end_of trace = b'_' ∷ b't' ∷ b'r' ∷ b'a' ∷ b'c' ∷ b'e' ∷ []
end_of diagnostic = b'_' ∷ b'd' ∷ b'i' ∷ b'a' ∷ b'g' ∷ []
end_of _ = b'_' ∷ b'd' ∷ b'e' ∷ b'b' ∷ b'u' ∷ b'g' ∷ []

abbrev pub variable_of : Text → LogLevel → Text
variable_of component level = start_of ++ (small_letters component ++ end_of level)

-- Whether the environment asks for a level of a component.
pub asks : Environment → Text → LogLevel → Bool
asks env component level = elim (env (variable_of component level)) [
  | none ↦ false
  | some value ↦ not (is_among value off_words)
]

-- The levels of the C interface by their numbers; another number is an error.
abbrev pub levels : List LogLevel
levels = debug ∷ info ∷ warning ∷ error ∷ trace ∷ performance ∷ diagnostic ∷ []

pub level_at : ℕ → LogLevel
level_at n = get_or levels n error

-- A file is opened in the directory of the module, or else in that under the current directory.
pub data Opens (fs : FileSystem) : Type 0 where
  beside_module : fs.module_logs ≡ true → fs.opens ≡ true → Opens fs
  in_current : fs.current ≡ true → fs.current_logs ≡ true → fs.opens ≡ true → Opens fs

-- No byte is a capital letter.
abbrev IsSmall : Text → Type 0
IsSmall [] = Unit
IsSmall (c ∷ s) = ((c < b'A') ⊎ (b'Z' < c)) × IsSmall s

lower_letter : (c d : ℕ) → (d < b'A') ⊎ (b'Z' < d) → (lower_byte c == d) ≡ same_letter c d
lower_letter c d h = ground arith

lower_word :
    (value word : Text) → IsSmall word → same_text (lower_ascii value) word ≡ same_word value word
unfolding lower_ascii
lower_word [] [] h = refl
lower_word [] (d ∷ t) h = refl
lower_word (c ∷ s) [] h = refl
lower_word (c ∷ s) (d ∷ t) h = rw (lower_letter c d h.0, lower_word s t h.1) refl

lower_small : (s : Text) → lower_ascii s ≡ small_letters s
unfolding lower_ascii
lower_small [] = refl
lower_small (c ∷ s) = ap (◌∷◌ (lower_byte c)) (lower_small s)

or_false : (a b c d : Bool) → (a || (b || (c || d))) ≡ (a || (b || (c || (d || false))))
or_false a b c d = ground arith

is_off-lower : (c : ℕ) (s : Text) → is_off (lower_ascii (c ∷ s)) ≡ is_among (c ∷ s) off_words
is_off-lower c s =
    rw
      (
        lower_word (c ∷ s) (b'0' ∷ []) (inl (omega arith), tt),
        lower_word (c ∷ s) (b'f' ∷ b'a' ∷ b'l' ∷ b's' ∷ b'e' ∷ []) (
          inr (omega arith),
          (inr (omega arith), (inr (omega arith), (inr (omega arith), (inr (omega arith), tt)))),
        ),
        lower_word (c ∷ s) (b'o' ∷ b'f' ∷ b'f' ∷ [])
            (inr (omega arith), (inr (omega arith), (inr (omega arith), tt))),
        lower_word (c ∷ s) (b'n' ∷ b'o' ∷ []) (inr (omega arith), (inr (omega arith), tt)),
      )
      (or_false (same_word (c ∷ s) (b'0' ∷ []))
        (same_word (c ∷ s) (b'f' ∷ b'a' ∷ b'l' ∷ b's' ∷ b'e' ∷ []))
        (same_word (c ∷ s) (b'o' ∷ b'f' ∷ b'f' ∷ [])) (same_word (c ∷ s) (b'n' ∷ b'o' ∷ [])))

-- A variable with its value.
asks-value :
    (env : Environment) (name : Text)
    → environment_enabled env name ≡ (elim (env name) as (λ o. Bool) [
      | none ↦ false
      | some value ↦ not (is_among value off_words)
    ])
unfolding environment_enabled
asks-value env name = elim (Option-cases (env name)) [
  | inl e ↦ rw (e, environment_enabled) refl
  | inr ([], e) ↦ rw (e, environment_enabled) refl
  | inr (c ∷ s, e) ↦ rw (e, environment_enabled) (ap not (is_off-lower c s))
]

enabled_lem :
    (env : Environment) (component : Text) (level : LogLevel) (end : Text)
    → b'_' ∷ end ≡ end_of level
    → environment_enabled env (prefix (lower_ascii component) ++ end) ≡ asks env component level
unfolding asks prefix
enabled_lem env component level end e =
    let name : prefix (lower_ascii component) ++ end ≡ variable_of component level =
      ap (λ s. start_of ++ s)
        (append_assoc (lower_ascii component) (b'_' ∷ []) end
          ∙ ap (λ s. s ++ (b'_' ∷ end)) (lower_small component)
          ∙ ap (λ s. small_letters component ++ s) e) in
    ap (environment_enabled env) name ∙ asks-value env (variable_of component level)

pub level_bits :
    (env : Environment) (component : Text) (level : LogLevel)
    → has_mode (read_modes env (lower_ascii component)) (level_mode level)
      ≡ asks env component level
unfolding read_modes level_mode
level_bits env component level =
    let on = λ (name : Text). environment_enabled env (prefix (lower_ascii component) ++ name) in
    let bits = modes_bits (on debug_name) (on trace_name) (on perf_name) (on diag_name) in
    elim level
      as (λ k.
        has_mode (read_modes env (lower_ascii component)) (level_mode k) ≡ asks env component k) [
          | debug ↦ bits.0 ∙ enabled_lem env component debug debug_name refl
          | info ↦ bits.0 ∙ enabled_lem env component info debug_name refl
          | warning ↦ bits.0 ∙ enabled_lem env component warning debug_name refl
          | error ↦ bits.0 ∙ enabled_lem env component error debug_name refl
          | trace ↦ bits.1 ∙ enabled_lem env component trace trace_name refl
          | performance ↦ bits.2 ∙ enabled_lem env component performance perf_name refl
          | diagnostic ↦ bits.3 ∙ enabled_lem env component diagnostic diag_name refl
        ]

pub level_number : (n : ℕ) → to_cpp_level n ≡ level_at n
unfolding to_cpp_level level_at
level_number zero = refl
level_number (suc zero) = refl
level_number (suc (suc zero)) = refl
level_number (suc (suc (suc zero))) = refl
level_number (suc (suc (suc (suc zero)))) = refl
level_number (suc (suc (suc (suc (suc zero))))) = refl
level_number (suc (suc (suc (suc (suc (suc zero)))))) = refl
level_number (suc (suc (suc (suc (suc (suc (suc n))))))) = ground arith

pub open_log-cases :
    (fs : FileSystem) → ((open_log fs ≡ true) × Opens fs) ⊎ ((open_log fs ≡ false) × ¬ Opens fs)
unfolding open_log
open_log-cases fs = elim (Bool-cases (open_log fs)) [
  | inl e ↦ elim (Bool-cases fs.module_logs) [
    | inl m ↦ inl (e, beside_module m (ground (arith, e)))
    | inr m ↦ inl (e, in_current (ground (arith, e, m)) (ground (arith, e, m)) (ground (arith, e)))
  ]
  | inr e ↦ inr (
    e,
    λ o. elim o [
      | beside_module m p ↦ absurd (ground (arith, e, m, p))
      | in_current c l p ↦ absurd (ground (arith, e, c, l, p))
    ],
  )
]
