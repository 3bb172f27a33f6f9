-- ===== src/Kv/Pages.antt =====
-- What the ids of src/dxkv/dxkv.cpp promise.
use dx_ai_st.Base.{
  ℕ, zero, suc, ◌+◌, ◌<◌, ◌≡◌, refl, ap, Bool, true, false, List, [], ◌∷◌, arith, u32_mod, length,
  set, get_or, ◌⊎◌, inl, inr,
}
use dx_ai_st.Kv.{KvCacheManager, pool_exhausted, allocate_loop, allocate_sequence}

-- Page `k` is free, and no page before it is.
abbrev pub IsFirstFree : List Bool → ℕ → Type 0
IsFirstFree pages k =
    (k < length pages)
    × (get_or pages k true ≡ false)
    × ((j : ℕ) → j < k → get_or pages j false ≡ true)

abbrev pub IsFull : List Bool → Type 0
IsFull pages = (j : ℕ) → j < length pages → get_or pages j false ≡ true

later : (pages : List Bool) (k : ℕ) → IsFirstFree pages k → IsFirstFree (true ∷ pages) (suc k)
later pages k f = (omega (arith, f.0), f.1, go)
  where
    go : (j : ℕ) → j < suc k → get_or (true ∷ pages) j false ≡ true
    go zero h = refl
    go (suc j) h = f.2 j (omega arith)

later-IsFull : (pages : List Bool) → IsFull pages → IsFull (true ∷ pages)
later-IsFull pages f zero h = refl
later-IsFull pages f (suc j) h = f j (omega arith)

loop_lem :
    (pages : List Bool) (i : ℕ)
    → i + length pages < u32_mod
    → (IsFull pages × (allocate_loop pages i ≡ (pool_exhausted, pages)))
      ⊎ ((k : ℕ) × IsFirstFree pages k × (allocate_loop pages i ≡ (i + k, set pages k true)))
unfolding allocate_loop
loop_lem [] i h = inl (λ j l. absurd (omega arith), refl)
loop_lem (false ∷ pages) i h =
    inr (
      0,
      (omega arith, refl, λ j l. absurd (omega arith)),
      ap (λ n. (n, true ∷ pages)) (omega arith),
    )
loop_lem (true ∷ pages) i h = elim (loop_lem pages (i + 1) (omega arith)) [
  | inl (full, e) ↦ inl (later-IsFull pages full, rw e refl)
  | inr (k, f, e) ↦
      inr (suc k, later pages k f, rw e (ap (λ n. (n, true ∷ set pages k true)) (omega arith)))
]

-- With fewer than 2 ^ 32 pages, `allocate_sequence` either answers 0xFFFFFFFF and changes nothing,
-- and then every page is taken, or it answers the first page that is free and takes that page only.
pub allocate_first :
    (kv : KvCacheManager)
    → length kv.allocated_pages < u32_mod
    → (IsFull kv.allocated_pages × (allocate_sequence kv ≡ (pool_exhausted, kv)))
      ⊎ ((k : ℕ) × IsFirstFree kv.allocated_pages k
          × (allocate_sequence kv
              ≡ (k, record kv { allocated_pages = set kv.allocated_pages k true })))
unfolding allocate_sequence
allocate_first kv h = elim (loop_lem kv.allocated_pages 0 (omega arith)) [
  | inl (full, e) ↦ inl (full, rw e refl)
  | inr (k, f, e) ↦ inr (
    k,
    f,
    rw e (
        ap (λ n. (n, record kv { allocated_pages = set kv.allocated_pages k true })) (omega arith)),
  )
]
