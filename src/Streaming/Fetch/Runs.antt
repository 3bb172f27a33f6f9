-- ===== src/Streaming/Fetch/Runs.antt =====
-- Any sequence of fetches on a new `StreamingMoE` (src/dxstream/dxstream.cpp).
use dx_ai_st.Base.{
  ℕ, zero, suc, ◌%◌, ◌<◌, ◌≡◌, refl, sym, ap, false, none, some, List, [], ◌∷◌, arith,
  get_elem?-some, length, replicate, Option-cases, inl, inr, u64_mod,
}
use dx_ai_st.Base.Table.{find}
use dx_ai_st.Base.Text.{Text}
use dx_ai_st.Streaming.{Coordinate, TensorIndex, lookup, lookup_hash}
use dx_ai_st.Streaming.Fetch.{
  Moe, SlotState, FenceEnv, new_moe, hit, miss, evict, count_miss, count_tick, fetch, fetch_known,
}
use dx_ai_st.Streaming.Fetch.Counts.{
  IsCounted, IsPending, Within, Small, held, hit-IsCounted, miss-IsCounted, count_tick-IsPending,
}

pub run : Moe → List (FenceEnv × Text) → Moe
run moe [] = moe
run moe ((env, tag) ∷ cs) = run (fetch env moe tag).0 cs

-- Sizes in an index are uint64_t values.
abbrev pub IsSized : TensorIndex → Type 0
IsSized index = (tag : Text) (c : Coordinate) → lookup index tag ≡ some c → c.byte_size < u64_mod

Within-find : (n h i : ℕ) (m : List (ℕ × ℕ)) → Within n m → find h m ≡ some i → i < n
unfolding find
Within-find n h i [] w e = absurd (cc)
Within-find n h i ((k, j) ∷ m) w e = ground (arith, Within-find n h i m w.1)

fetch_known-IsCounted :
    (env : FenceEnv) (moe : Moe) (hash : ℕ) (c : Coordinate)
    → IsPending moe
    → c.byte_size < u64_mod
    → IsCounted (fetch_known env moe hash c).0
unfolding fetch_known
fetch_known-IsCounted env moe hash c v size = elim (Option-cases (find hash moe.resident)) [
  | inl e ↦ simp (e, fetch_known) (miss-IsCounted env moe hash c v size)
  | inr (i, e) ↦
      let (s, f) =
        get_elem?-some moe.slots i
          (Within-find (length moe.slots) hash i moe.resident v.within e) in
      simp (e, f, fetch_known) (hit-IsCounted moe i s v f)
]

fetch-IsCounted :
    (env : FenceEnv) (moe : Moe) (tag : Text)
    → IsCounted moe
    → IsSized moe.index
    → IsCounted (fetch env moe tag).0
unfolding fetch
fetch-IsCounted env moe tag v sized = elim (Option-cases (lookup moe.index tag)) [
  | inl e ↦ simp (e, fetch) v
  | inr (c, e) ↦
      simp (e, fetch)
        (fetch_known-IsCounted env (count_tick moe) (lookup_hash moe.index tag) c
          (count_tick-IsPending moe v) (sized tag c e))
]

fetch-index : (env : FenceEnv) (moe : Moe) (tag : Text) → (fetch env moe tag).0.index ≡ moe.index
unfolding fetch fetch_known miss evict hit count_miss count_tick
fetch-index env moe tag = ground arith

run-IsCounted_from :
    (moe : Moe) (cs : List (FenceEnv × Text))
    → IsCounted moe
    → IsSized moe.index
    → IsCounted (run moe cs)
unfolding run
run-IsCounted_from moe [] v sized = v
run-IsCounted_from moe ((env, tag) ∷ cs) v sized =
    run-IsCounted_from (fetch env moe tag).0 cs (fetch-IsCounted env moe tag v sized)
      (rw (fetch-index env moe tag) sized)

blank_held :
    (n : ℕ) (s : SlotState)
    → s.resident_bytes ≡ 0
    → (held (replicate n s) ≡ 0) × Small (replicate n s)
blank_held zero s e = (refl, tt)
blank_held (suc n) s e =
    (omega (arith, e, (blank_held n s e).0), (omega (arith, e), (blank_held n s e).1))

new_moe-IsCounted : (index : TensorIndex) (n : ℕ) → IsCounted (new_moe index n)
unfolding new_moe
new_moe-IsCounted index n =
    let blank =
      blank_held n
        (record {
          version = 0;
          has_payload = false;
          resident_bytes = 0;
          last_tick = 0;
          loaded = none;
        })
        refl in
    record {
      fetches = refl;
      bytes = sym (ap (λ (t : ℕ). t % u64_mod) blank.0);
      small = blank.1;
      within = tt;
    }

-- After any fetches of any tags on a new ring, whatever the fences answer: hits and misses add up to
-- the ticks, `bytes_resident` is the number of bytes that sit in the slots (both modulo 2 ^ 64), and
-- every tag that counts as resident names one of the slots. The sizes in the index are 64-bit values.
pub run-IsCounted :
    (index : TensorIndex) (slot_count : ℕ) (cs : List (FenceEnv × Text))
    → IsSized index
    → IsCounted (run (new_moe index slot_count) cs)
unfolding new_moe
run-IsCounted index slot_count cs sized =
    run-IsCounted_from (new_moe index slot_count) cs (new_moe-IsCounted index slot_count) sized
