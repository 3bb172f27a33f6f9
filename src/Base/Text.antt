-- ===== src/Base/Text.antt =====
-- Texts as lists of bytes, their equality and the test for a usable C string.
use Prim.Native.Nat.{ℕ}
use mathlib.Core.Path.{◌≡◌, refl}
use mathlib.Core.Bool.{Bool, true, false, ◌&&◌}
use mathlib.Core.List.{List, [], ◌∷◌}
use native.Mathlib.Omega.{arith}
use dx_ai_st.Base.Bools.{◌==◌}

abbrev pub Text : Type 0
Text = List ℕ

abbrev pub same_text : Text → Text → Bool
same_text [] [] = true
same_text (a ∷ s) (b ∷ t) = a == b && same_text s t
same_text _ _ = false

-- `valid_text` of a text that is not null: it is not empty.
abbrev pub valid_text : Text → Bool
valid_text [] = false
valid_text (a ∷ s) = true

pub same_text_refl : (s : Text) → same_text s s ≡ true
same_text_refl [] = refl
same_text_refl (a ∷ s) = ground (arith, same_text_refl s)

pub same_text_eq : (s t : Text) → same_text s t ≡ true → s ≡ t
same_text_eq [] [] h = refl
same_text_eq [] (b ∷ t) h = absurd (ground arith)
same_text_eq (a ∷ s) [] h = absurd (ground arith)
same_text_eq (a ∷ s) (b ∷ t) h = ground (arith, same_text_eq s t)
