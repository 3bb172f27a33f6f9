-- ===== src/Trace/Escape.antt =====
-- The escapes of src/core/dx_trace_api.cpp can be read back.
use dx_ai_st.Base.{
  ℕ, ◌≡◌, refl, ap, ◌∙◌, Bool, true, false, ◌&&◌, ◌||◌, Option, none, some, [], ◌∷◌, ◌++◌,
  if◌then◌else◌, ltb, leb, ◌==◌, arith, Bool-cases, inl, inr,
}
use dx_ai_st.Base.Text.{Text}
use dx_ai_st.Trace.{escape_byte, json_escape}

-- The one-letter escapes of the JSON grammar.
abbrev pub escaped : ℕ → Option ℕ
escaped c =
    if c == 34 || (c == b'\\' || c == b'/')
    then some c
    else if c == b'b'
    then some 8
    else if c == b't'
    then some 9
    else if c == b'n'
    then some 10
    else if c == b'f'
    then some 12
    else if c == b'r'
    then some 13
    else none

abbrev pub prepend : Option ℕ → Option Text → Option Text
prepend (some c) (some s) = some (c ∷ s)
prepend _ _ = none

-- A reader of what stands between the quotes of a JSON string; `after` is that a backslash was read. A quote
-- and a control character may not stand there by themselves, nor an unknown letter after a backslash.
pub unescape : Bool → Text → Option Text
unescape true [] = none
unescape false [] = some []
unescape true (c ∷ s) = prepend (escaped c) (unescape false s)
unescape false (c ∷ s) =
    let plain = unescape false s in
    let after = unescape true s in
    if c == b'\\' then after else if c == 34 || ltb c 32 then none else prepend (some c) plain

-- No control character but a newline and a carriage return.
abbrev pub is_printable : Text → Bool
is_printable [] = true
is_printable (c ∷ s) = (leb 32 c || (c == 10 || c == 13)) && is_printable s

abbrev pub readable : Text → Option Text
readable s = if is_printable s then some s else none

unescape-escape_byte :
    (c : ℕ) (s : Text)
    → unescape false (escape_byte c ++ s)
      ≡ (if leb 32 c || (c == 10 || c == 13) then prepend (some c) (unescape false s) else none)
unfolding unescape escape_byte
unescape-escape_byte c s = ground arith

readable-byte :
    (c : ℕ) (s : Text)
    → (if leb 32 c || (c == 10 || c == 13) then prepend (some c) (readable s) else none)
      ≡ readable (c ∷ s)
readable-byte c s = elim (Bool-cases (is_printable s)) [
  | inl e ↦ ground (arith, e)
  | inr e ↦ ground (arith, e)
]

-- A strict reader of JSON strings gets a name back from `json_escape`, whatever bytes it holds, if they are no
-- control characters but newlines and carriage returns; and it refuses what `json_escape` makes of any other
-- name, since the other control characters pass as they are.
pub unescape-json_escape : (s : Text) → unescape false (json_escape s) ≡ readable s
unfolding json_escape unescape
unescape-json_escape [] = refl
unescape-json_escape (c ∷ s) =
    unescape-escape_byte c (json_escape s)
    ∙ ap (λ r. if leb 32 c || (c == 10 || c == 13) then prepend (some c) r else none)
        (unescape-json_escape s)
    ∙ readable-byte c s
