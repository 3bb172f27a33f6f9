-- ===== src/Command/Count.antt =====
-- Counting in lists of node ids: lists without repetition, and sums over them.
use dx_ai_st.Base.{
  ℕ, zero, suc, ◌+◌, ◌≤◌, ◌<◌, ◌≡◌, refl, true, List, [], ◌∷◌, ◌++◌, arith, if◌then◌else◌, ◌==◌,
  ltb, length, ◌∙◌, sym, ap, Bool-cases, inl, inr, ==_iff,
}

-- How often a number stands in a list.
abbrev pub count : ℕ → List ℕ → ℕ
count x [] = 0
count x (y ∷ ys) = (if y == x then 1 else 0) + count x ys

abbrev pub sum : List ℕ → (ℕ → ℕ) → ℕ
sum [] f = 0
sum (x ∷ xs) f = f x + sum xs f

abbrev pub sum_below : ℕ → (ℕ → ℕ) → ℕ
sum_below zero f = 0
sum_below (suc n) f = f n + sum_below n f

abbrev pub IsDistinct : List ℕ → Type 0
IsDistinct xs = (x : ℕ) → count x xs ≤ 1

pub count-append : (x : ℕ) (xs ys : List ℕ) → count x (xs ++ ys) ≡ count x xs + count x ys
count-append x [] ys = omega arith
count-append x (y ∷ xs) ys = omega (arith, count-append x xs ys)

pub sum-append : (xs ys : List ℕ) (f : ℕ → ℕ) → sum (xs ++ ys) f ≡ sum xs f + sum ys f
sum-append [] ys f = omega arith
sum-append (x ∷ xs) ys f = omega (arith, sum-append xs ys f)

pub sum_add : (xs : List ℕ) (f g : ℕ → ℕ) → sum xs (λ u. f u + g u) ≡ sum xs f + sum xs g
sum_add [] f g = refl
sum_add (x ∷ xs) f g = omega (arith, sum_add xs f g)

pub sum_zero : (xs : List ℕ) → sum xs (λ u. 0) ≡ 0
sum_zero [] = refl
sum_zero (x ∷ xs) = omega (arith, sum_zero xs)

-- Whether `d` is the element, summed over a list, counts `d` in it.
pub sum_is : (d : ℕ) (xs : List ℕ) → sum xs (λ u. if d == u then 1 else 0) ≡ count d xs
sum_is d [] = refl
sum_is d (x ∷ xs) = ground (arith, sum_is d xs)

below_add : (n : ℕ) (f g : ℕ → ℕ) → sum_below n (λ u. f u + g u) ≡ sum_below n f + sum_below n g
below_add zero f g = refl
below_add (suc n) f g = omega (arith, below_add n f g)

below_zero : (n : ℕ) → sum_below n (λ u. 0) ≡ 0
below_zero zero = refl
below_zero (suc n) = omega (arith, below_zero n)

below_is : (n x : ℕ) → sum_below n (λ u. if x == u then 1 else 0) ≡ (if ltb x n then 1 else 0)
below_is zero x = ground arith
below_is (suc n) x = ground (arith, below_is n x)

below_le : (n : ℕ) (f g : ℕ → ℕ) → ((u : ℕ) → f u ≤ g u) → sum_below n f ≤ sum_below n g
below_le zero f g h = omega arith
below_le (suc n) f g h = omega (arith, below_le n f g h, h n)

below_one : (n : ℕ) → sum_below n (λ u. 1) ≡ n
below_one zero = refl
below_one (suc n) = omega (arith, below_one n)

-- A list of numbers below `n` is as long as the counts of these numbers add up to.
pub length-below :
    (n : ℕ) (xs : List ℕ)
    → ((x : ℕ) → n ≤ x → count x xs ≡ 0)
    → length xs ≡ sum_below n (λ u. count u xs)
length-below n [] h = sym (below_zero n)
length-below n (x ∷ xs) h =
    let inside : ltb x n ≡ true = ground (arith, h x) in
    let split : sum_below n (λ u. count u (x ∷ xs))
        ≡ sum_below n (λ u. if x == u then 1 else 0) + sum_below n (λ u. count u xs) =
      below_add n (λ u. if x == u then 1 else 0) (λ u. count u xs) in
    let rest = length-below n xs (λ y l. omega (arith, h y l)) in
    ground (arith, split, below_is n x, rest, inside)

-- Distinct numbers below `n` are at most `n`.
pub distinct_length :
    (n : ℕ) (xs : List ℕ) → IsDistinct xs → ((x : ℕ) → n ≤ x → count x xs ≡ 0) → length xs ≤ n
distinct_length n xs d h =
    omega (arith, length-below n xs h, below_le n (λ u. count u xs) (λ u. 1) d, below_one n)

-- If `n` numbers of at most 1 add up to `n`, each of them is 1.
pub below_full :
    (n : ℕ) (f : ℕ → ℕ) (v : ℕ) → ((u : ℕ) → f u ≤ 1) → n ≤ sum_below n f → v < n → f v ≡ 1
below_full zero f v h e l = absurd (omega arith)
below_full (suc n) f v h e l =
    let most = below_le n f (λ u. 1) h in
    elim (Bool-cases (v == n)) [
      | inl s ↦ let at : v ≡ n = (==_iff v n).0 s in ap f at ∙ omega (arith, most, below_one n, h n)
      | inr s ↦ below_full n f v h (omega (arith, h n)) (ground (arith, s))
    ]

-- Numbers of which the first `n` are 1 add up to `n`.
pub below_ones : (n : ℕ) (f : ℕ → ℕ) → ((u : ℕ) → u < n → f u ≡ 1) → sum_below n f ≡ n
below_ones zero f h = refl
below_ones (suc n) f h =
    omega (arith, below_ones n f (λ u l. h u (omega (arith, l))), h n (omega arith))
