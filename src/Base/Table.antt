-- ===== src/Base/Table.antt =====
-- `std::unordered_map` with a number for a key, as an association list: `find`, `erase`, `emplace`
-- (which keeps an entry that is there) and assignment through `operator[]`.
use Prim.Native.Nat.{ℕ}
use mathlib.Core.Path.{◌≡◌, refl}
use mathlib.Core.Bool.{false}
use mathlib.Core.Option.{Option, none, some}
use mathlib.Core.List.{List, [], ◌∷◌}
use native.Mathlib.Omega.{arith}
use dx_ai_st.Base.Bools.{◌==◌, if◌then◌else◌}

module _ {ℓ} {V : Type ℓ} where
  unfoldable pub find : ℕ → List (ℕ × V) → Option V
  find k [] = none
  find k ((j, v) ∷ m) = if j == k then some v else find k m

  unfoldable pub erase : ℕ → List (ℕ × V) → List (ℕ × V)
  erase k [] = []
  erase k ((j, v) ∷ m) = if j == k then m else (j, v) ∷ erase k m

  unfoldable pub emplace : ℕ → V → List (ℕ × V) → List (ℕ × V)
  unfolding find
  emplace k v m = elim (find k m) [ none ↦ (k, v) ∷ m | some w ↦ m ]

  unfoldable pub assign : ℕ → V → List (ℕ × V) → List (ℕ × V)
  assign k v [] = (k, v) ∷ []
  assign k v ((j, w) ∷ m) = if j == k then (k, v) ∷ m else (j, w) ∷ assign k v m

  -- No key stands twice.
  abbrev pub Distinct : List (ℕ × V) → Type ℓ
  Distinct [] = Unit
  Distinct ((k, v) ∷ m) = (find k m ≡ none) × Distinct m

  pub find-assign :
      (k j : ℕ) (v : V) (m : List (ℕ × V))
      → find j (assign k v m) ≡ (if k == j then some v else find j m)
  unfolding find assign
  find-assign k j v [] = refl
  find-assign k j v ((i, w) ∷ m) = ground (arith, find-assign k j v m)

  pub find-emplace :
      (k j : ℕ) (v : V) (m : List (ℕ × V))
      → find k m ≡ none
      → find j (emplace k v m) ≡ (if k == j then some v else find j m)
  unfolding emplace
  find-emplace k j v m h = ground arith

  pub find-erase_ne :
      (k j : ℕ) (m : List (ℕ × V)) → (k == j) ≡ false → find j (erase k m) ≡ find j m
  unfolding find erase
  find-erase_ne k j [] h = refl
  find-erase_ne k j ((i, w) ∷ m) h = ground (arith, find-erase_ne k j m h)

  pub find-erase_self : (k : ℕ) (m : List (ℕ × V)) → Distinct m → find k (erase k m) ≡ none
  unfolding find erase
  find-erase_self k [] d = refl
  find-erase_self k ((i, w) ∷ m) d = ground (arith, find-erase_self k m d.1)

  pub erase-none : (k j : ℕ) (m : List (ℕ × V)) → find j m ≡ none → find j (erase k m) ≡ none
  unfolding find erase
  erase-none k j [] h = refl
  erase-none k j ((i, w) ∷ m) h = ground (arith, erase-none k j m)

  pub erase-Distinct : (k : ℕ) (m : List (ℕ × V)) → Distinct m → Distinct (erase k m)
  unfolding erase
  erase-Distinct k [] d = tt
  erase-Distinct k ((i, w) ∷ m) d = ground (arith, erase-none k i m d.0, erase-Distinct k m d.1)

  pub emplace-Distinct :
      (k : ℕ) (v : V) (m : List (ℕ × V)) → find k m ≡ none → Distinct m → Distinct (emplace k v m)
  unfolding emplace
  emplace-Distinct k v m h d = ground arith

  pub erase-emplace :
      (k : ℕ) (v : V) (m : List (ℕ × V)) → find k m ≡ none → erase k (emplace k v m) ≡ m
  unfolding erase emplace
  erase-emplace k v m h = ground arith
