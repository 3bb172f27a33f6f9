-- ===== src/Streaming/Fetch/Victim.antt =====
-- The slot that `StreamingMoE::fetch` (src/dxstream/dxstream.cpp) gives up on a miss.
use dx_ai_st.Base.{
  ℕ, suc, ◌+◌, ◌-◌, ◌≤◌, ◌<◌, ◌≡◌, refl, ap, ◌∙◌, Option, none, some, List, [], ◌∷◌, ltb, arith,
  get_elem?, Bool-cases, ◌⊎◌, inl, inr, u64_mod,
}
use dx_ai_st.Streaming.Fetch.{SlotState, victim_from, victim}

abbrev pub NoOlder : ℕ → List SlotState → Type 0
NoOlder n [] = Unit
NoOlder n (s ∷ ss) = (n ≤ s.last_tick) × NoOlder n ss

NoOlder-mono : (m n : ℕ) (ss : List SlotState) → m ≤ n → NoOlder n ss → NoOlder m ss
NoOlder-mono m n [] h k = tt
NoOlder-mono m n (s ∷ ss) h k = (omega (arith, k.0), NoOlder-mono m n ss h k.1)

-- The search keeps its victim where no slot is older, and else ends at an oldest slot.
abbrev Search : ℕ → Option ℕ → ℕ → List SlotState → Type 0
Search i v oldest ss =
    ((victim_from i v oldest ss ≡ v) × NoOlder oldest ss)
    ⊎ ((k : ℕ) × (s : SlotState) × (victim_from i v oldest ss ≡ some (i + k))
        × (get_elem? ss k ≡ some s)
        × (s.last_tick < oldest)
        × NoOlder s.last_tick ss)

Search-ends : (i : ℕ) (v : Option ℕ) (oldest : ℕ) (ss : List SlotState) → Search i v oldest ss
unfolding victim_from
Search-ends i v oldest [] = inl (refl, tt)
Search-ends i v oldest (s ∷ ss) = elim (Bool-cases (ltb s.last_tick oldest)) [
  | inl e ↦
      let lt : s.last_tick < oldest = ground arith in
      elim (Search-ends (suc i) (some i) s.last_tick ss) [
        | inl (r, all) ↦
            inr (0, s, simp e (r ∙ ap some (omega arith)), refl, lt, (omega arith, all))
        | inr (k, t, r, g, h, all) ↦
            inr (suc k, t, simp e (r ∙ ap some (omega arith)), g, omega arith, (omega arith, all))
      ]
  | inr e ↦
      let ge : oldest ≤ s.last_tick = ground arith in
      elim (Search-ends (suc i) v oldest ss) [
        | inl (r, all) ↦ inl (simp e r, (ge, all))
        | inr (k, t, r, g, h, all) ↦
            inr (suc k, t, simp e (r ∙ ap some (omega arith)), g, h, (omega arith, all))
      ]
]

-- Where there is a slot, and no slot was used at the last tick of all, 2 ^ 64 - 1, a victim is
-- found, and no slot was used longer ago.
pub victim_least :
    (s : SlotState) (ss : List SlotState)
    → s.last_tick < u64_mod - 1
    → (i : ℕ) × (t : SlotState) × (victim (s ∷ ss) ≡ some i)
      × (get_elem? (s ∷ ss) i ≡ some t)
      × NoOlder t.last_tick (s ∷ ss)
unfolding victim
victim_least s ss h = elim (Search-ends 0 none (u64_mod - 1) (s ∷ ss)) [
  | inl (r, all) ↦ absurd (omega (arith, all.0))
  | inr (k, t, r, g, lt, all) ↦ (k, t, r ∙ ap some (omega arith), g, all)
]
