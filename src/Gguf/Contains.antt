-- ===== src/Gguf/Contains.antt =====
-- `std::string::find` in the names of src/dxmodel/dxmodel.cpp.
use dx_ai_st.Base.{
  ℕ, ◌≡◌, refl, sym, ap, ◌∙◌, ◌⊎◌, inl, inr, Bool, true, false, ◌||◌, [], ◌∷◌, ◌++◌, ◌==◌, drop,
  get_or, arith, Bool-cases, ==_iff,
}
use dx_ai_st.Base.Text.{Text}
use dx_ai_st.Gguf.Load.{begins_with, has_part}

-- A test tells whether a proposition holds.
abbrev pub Tells : Bool → Type 0 → Type 0
Tells b P = ((b ≡ true) × P) ⊎ ((b ≡ false) × (¬ P))

pub Tells-or : {b c : Bool} {P Q : Type 0} → Tells b P → Tells c Q → Tells (b || c) (P ⊎ Q)
Tells-or (inl (e, p)) q = inl (rw e refl, inl p)
Tells-or (inr (e, n)) (inl (f, q)) = inl (rw (e, f) refl, inr q)
Tells-or (inr (e, n)) (inr (f, m)) = inr (rw (e, f) refl, λ s. elim s [ inl p ↦ n p | inr q ↦ m q ])

-- The same test of an equivalent proposition.
pub Tells-iff : {b : Bool} {P Q : Type 0} → (P → Q) → (Q → P) → Tells b P → Tells b Q
Tells-iff f g (inl (e, p)) = inl (e, f p)
Tells-iff f g (inr (e, n)) = inr (e, λ q. n (g q))

-- Sums in other orders.
pub swap_in : {A B P : Type 0} → (B ⊎ (A ⊎ P)) → ((A ⊎ B) ⊎ P)
swap_in (inl b) = inl (inr b)
swap_in (inr (inl a)) = inl (inl a)
swap_in (inr (inr p)) = inr p

pub swap_out : {A B P : Type 0} → ((A ⊎ B) ⊎ P) → (B ⊎ (A ⊎ P))
swap_out (inl (inr b)) = inl b
swap_out (inl (inl a)) = inr (inl a)
swap_out (inr p) = inr (inr p)

pub nothing_new : {P : Type 0} → P → ⊥ ⊎ P
nothing_new p = inr p

pub from_nothing : {P : Type 0} → ⊥ ⊎ P → P
from_nothing (inr p) = p
from_nothing (inl x) = absurd x

pub two_parts : {A B P : Type 0} → ((A ⊎ B) ⊎ P) → ((A ⊎ (B ⊎ ⊥)) ⊎ P)
two_parts (inl (inl a)) = inl (inl a)
two_parts (inl (inr b)) = inl (inr (inl b))
two_parts (inr p) = inr p

pub parts_two : {A B P : Type 0} → ((A ⊎ (B ⊎ ⊥)) ⊎ P) → ((A ⊎ B) ⊎ P)
parts_two (inl (inl a)) = inl (inl a)
parts_two (inl (inr (inl b))) = inl (inr b)
parts_two (inl (inr (inr x))) = absurd x
parts_two (inr p) = inr p

pub three_parts : {A B C P : Type 0} → (((A ⊎ B) ⊎ C) ⊎ P) → ((A ⊎ (B ⊎ (C ⊎ ⊥))) ⊎ P)
three_parts (inl (inl (inl a))) = inl (inl a)
three_parts (inl (inl (inr b))) = inl (inr (inl b))
three_parts (inl (inr c)) = inl (inr (inr (inl c)))
three_parts (inr p) = inr p

pub parts_three : {A B C P : Type 0} → ((A ⊎ (B ⊎ (C ⊎ ⊥))) ⊎ P) → (((A ⊎ B) ⊎ C) ⊎ P)
parts_three (inl (inl a)) = inl (inl (inl a))
parts_three (inl (inr (inl b))) = inl (inl (inr b))
parts_three (inl (inr (inr (inl c)))) = inl (inr c)
parts_three (inl (inr (inr (inr x)))) = absurd x
parts_three (inr p) = inr p

abbrev Begins : Text → Text → Type 0
Begins part text = (back : Text) × (text ≡ part ++ back)

-- A part stands somewhere in a text.
abbrev pub Contains : Text → Text → Type 0
Contains part text = (front : Text) × (back : Text) × (text ≡ front ++ (part ++ back))

same_tail : {a b : ℕ} {s t : Text} → ◌≡◌ {A = Text} (a ∷ s) (b ∷ t) → s ≡ t
same_tail e = ap (drop 1) e

same_head : {a b : ℕ} {s t : Text} → ◌≡◌ {A = Text} (a ∷ s) (b ∷ t) → a ≡ b
same_head {a = a} e = ap (λ s. get_or s 0 a) e

no_byte : {a : ℕ} {s : Text} → ◌≡◌ {A = Text} [] (a ∷ s) → ⊥
no_byte e = absurd (ground (arith, e))

begins_lem : (part text : Text) → Tells (begins_with part text) (Begins part text)
unfolding begins_with
begins_lem [] text = inl (refl, (text, refl))
begins_lem (c ∷ part) [] = inr (refl, λ b. no_byte b.1)
begins_lem (c ∷ part) (d ∷ text) = elim (Bool-cases (c == d)) [
  | inr e ↦ inr (rw e refl, λ b. absurd (ground (arith, e, same_head b.1)))
  | inl e ↦
      let same : c ≡ d = (==_iff c d).0 e in
      elim (begins_lem part text) [
        | inl (f, (back, g)) ↦
            inl (rw e f, (back, ap (λ x. x ∷ text) (sym same) ∙ ap (λ t. c ∷ t) g))
        | inr (f, n) ↦ inr (rw e f, λ b. n (b.0, same_tail b.1))
      ]
]

Contains-nil : (part : Text) → Contains part [] → Begins part []
Contains-nil part ([], back, e) = (back, e)
Contains-nil part (x ∷ front, back, e) = absurd (no_byte e)

Contains-cons :
    (part : Text) (c : ℕ) (text : Text)
    → Contains part (c ∷ text)
    → Begins part (c ∷ text) ⊎ Contains part text
Contains-cons part c text ([], back, e) = inl (back, e)
Contains-cons part c text (x ∷ front, back, e) = inr (front, back, same_tail e)

Contains-back :
    (part : Text) (c : ℕ) (text : Text)
    → Begins part (c ∷ text) ⊎ Contains part text
    → Contains part (c ∷ text)
Contains-back part c text (inl (back, e)) = ([], back, e)
Contains-back part c text (inr (front, back, e)) = (c ∷ front, back, ap (λ t. c ∷ t) e)

-- The search finds a part just where it stands in the text.
pub has_part-Contains : (part text : Text) → Tells (has_part part text) (Contains part text)
unfolding has_part
has_part-Contains part [] = Tells-iff (λ b. ([], b.0, b.1)) (Contains-nil part) (begins_lem part [])
has_part-Contains part (c ∷ text) =
    Tells-iff (Contains-back part c text) (Contains-cons part c text)
      (Tells-or (begins_lem part (c ∷ text)) (has_part-Contains part text))
