-- ===== src/Memory/Power.antt =====
-- `is_power_of_two` and `range_valid` of src/core/dx_memory_api.cpp against plain descriptions.
use Prim.Native.Nat.{bit_and}
use native.Mathlib.Nat.{pow-suc}
use dx_ai_st.Base.{
  ℕ, zero, suc, ◌+◌, ◌-◌, ◌*◌, ◌/◌, ◌%◌, ◌^◌, ◌≤◌, ◌<◌, ◌≡◌, ◌↔◌, refl, true, arith, ◌⊎◌, inl, inr,
  ap,
}
use dx_ai_st.Base.Bits.{bit_and_digit, bit_and_zero}
use dx_ai_st.Memory.{is_power_of_two, range_valid}

bit_and_self_fuel : (n a : ℕ) → a ≤ n → bit_and a a ≡ a
bit_and_self_fuel n zero h = bit_and_zero 0
bit_and_self_fuel zero (suc a) h = absurd (omega arith)
bit_and_self_fuel (suc n) (suc a) h =
    omega (arith, bit_and_digit (suc a) (suc a), bit_and_self_fuel n (suc a / 2) (omega arith))

bit_and_self : (a : ℕ) → bit_and a a ≡ a
bit_and_self a = bit_and_self_fuel a a (omega arith)

half_pred : (v : ℕ) → 0 < v → v % 2 ≡ 0 → (v - 1) / 2 ≡ v / 2 - 1
half_pred v p e = omega arith

half_same : (v : ℕ) → v % 2 ≡ 1 → (v - 1) / 2 ≡ v / 2
half_same v e = omega arith

-- Clearing the lowest one of an even number clears it in the half.
pred_even : (v : ℕ) → 0 < v → v % 2 ≡ 0 → bit_and v (v - 1) ≡ 2 * bit_and (v / 2) (v / 2 - 1)
pred_even v p e = omega (arith, bit_and_digit v (v - 1), ap (bit_and (v / 2)) (half_pred v p e))

pred_odd : (v : ℕ) → v % 2 ≡ 1 → bit_and v (v - 1) ≡ v - 1
pred_odd v e =
    omega
      (arith, bit_and_digit v (v - 1), ap (bit_and (v / 2)) (half_same v e), bit_and_self (v / 2))

parity : (v : ℕ) → (v % 2 ≡ 0) ⊎ (v % 2 ≡ 1)
parity v = omega arith

power_of : (n v : ℕ) → v ≤ n → 0 < v → bit_and v (v - 1) ≡ 0 → (k : ℕ) × (v ≡ 2 ^ k)
power_of zero v h p e = absurd (omega arith)
power_of (suc n) v h p e = elim (parity v) [
  | inl even ↦
      let (k, f) =
        power_of n (v / 2) (omega arith) (omega arith) (omega (arith, pred_even v p even)) in
      (suc k, omega (arith, pow-suc 2 k))
  | inr odd ↦ (0, omega (arith, pred_odd v odd))
]

pow-pos : (k : ℕ) → 0 < 2 ^ k
pow-pos zero = omega arith
pow-pos (suc k) = omega (arith, pow-suc 2 k, pow-pos k)

bit_and-power : (k : ℕ) → bit_and (2 ^ k) (2 ^ k - 1) ≡ 0
bit_and-power zero = refl
bit_and-power (suc k) =
    let v = 2 ^ suc k in
    let half : v / 2 ≡ 2 ^ k = omega (arith, pow-suc 2 k) in
    omega (
      arith,
      pred_even v (pow-pos (suc k)) (omega (arith, pow-suc 2 k)),
      ap (λ (t : ℕ). bit_and t (t - 1)) half,
      bit_and-power k,
    )

test_parts : (v : ℕ) → is_power_of_two v ≡ true → (0 < v) × (bit_and v (v - 1) ≡ 0)
unfolding is_power_of_two
test_parts v h = ground arith

test_of_parts : (v : ℕ) → 0 < v → bit_and v (v - 1) ≡ 0 → is_power_of_two v ≡ true
unfolding is_power_of_two
test_of_parts v p e = ground arith

-- The bit test accepts exactly the powers of two.
pub is_power_of_two_iff : (v : ℕ) → (is_power_of_two v ≡ true) ↔ ((k : ℕ) × (v ≡ 2 ^ k))
is_power_of_two_iff v = (
  λ h. power_of v v (omega arith) (test_parts v h).0 (test_parts v h).1,
  λ t. test_of_parts v (omega (arith, t.1, pow-pos t.0)) (rw t.1 (bit_and-power t.0)),
)

-- The range test accepts exactly the ranges that end inside, with no wrap at any size.
pub range_valid_iff :
    (size offset bytes : ℕ) → (range_valid size offset bytes ≡ true) ↔ (offset + bytes ≤ size)
unfolding range_valid
range_valid_iff size offset bytes = (λ h. ground arith, λ h. ground arith)
