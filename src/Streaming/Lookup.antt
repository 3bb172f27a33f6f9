-- ===== src/Streaming/Lookup.antt =====
-- Looking up what was built (src/dxstream/dxstream.cpp).
use dx_ai_st.Base.{
  ℕ, zero, suc, ◌+◌, ◌≡◌, ◌≢◌, refl, ap, ◌∙◌, false, some, List, [], ◌∷◌, ◌==◌, arith, get_elem?,
}
use dx_ai_st.Base.Table.{find, assign, find-assign}
use dx_ai_st.Base.Text.{Text}
use dx_ai_st.Streaming.{Coordinate, fnv1a64, hash_entries, build, lookup}

-- No entry has the hash `h`.
abbrev pub Misses : ℕ → List (Text × Coordinate) → Type 0
Misses h [] = Unit
Misses h ((name, c) ∷ es) = (fnv1a64 name ≢ h) × Misses h es

-- The names of the entries have different hashes.
abbrev pub Unmixed : List (Text × Coordinate) → Type 0
Unmixed [] = Unit
Unmixed ((name, c) ∷ es) = Misses (fnv1a64 name) es × Unmixed es

hash_entries_miss :
    (h i : ℕ) (es : List (Text × Coordinate)) (m : List (ℕ × ℕ))
    → Misses h es
    → find h (hash_entries i es m) ≡ find h m
unfolding hash_entries
hash_entries_miss h i [] m q = refl
hash_entries_miss h i ((name, c) ∷ es) m q =
    let e : (fnv1a64 name == h) ≡ false = ground arith in
    hash_entries_miss h (suc i) es (assign (fnv1a64 name) i m) q.1
    ∙ find-assign (fnv1a64 name) h i m
    ∙ rw e

hash_entries_hit :
    (i k : ℕ) (es : List (Text × Coordinate)) (m : List (ℕ × ℕ)) (name : Text) (c : Coordinate)
    → Unmixed es
    → get_elem? es k ≡ some (name, c)
    → find (fnv1a64 name) (hash_entries i es m) ≡ some (i + k)
unfolding hash_entries
hash_entries_hit i k [] m name c u e = absurd (cc)
hash_entries_hit i zero ((n, d) ∷ es) m name c u e =
    let same : n ≡ name = ground arith in
    rw (← same) (
      hash_entries_miss (fnv1a64 n) (suc i) es (assign (fnv1a64 n) i m) u.0
      ∙ find-assign (fnv1a64 n) (fnv1a64 n) i m
      ∙ ground arith)
hash_entries_hit i (suc k) ((n, d) ∷ es) m name c u e =
    hash_entries_hit (suc i) k es (assign (fnv1a64 n) i m) name c u.1 e ∙ ap some (omega arith)

-- Every entry of a built index is found under its name, with its own coordinate. The condition is
-- that no two names have the same hash.
pub lookup-build :
    (es : List (Text × Coordinate)) (payload_size alignment k : ℕ) (name : Text) (c : Coordinate)
    → Unmixed es
    → get_elem? es k ≡ some (name, c)
    → lookup (build es payload_size alignment) name ≡ some c
unfolding lookup build
lookup-build es payload_size alignment k name c u e =
    rw (hash_entries_hit 0 k es [] name c u e, lookup)
      (let z : 0 + k ≡ k = omega arith in rw (z, e))
