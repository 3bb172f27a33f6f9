-- ===== src/Streaming/Fetch/Counts.antt =====
-- The counters of `StreamingMoE` (src/dxstream/dxstream.cpp) and what they count.
use dx_ai_st.Base.{
  ℕ, zero, suc, ◌+◌, ◌-◌, ◌%◌, ◌<◌, ◌≡◌, sym, ap, ◌∙◌, subst, some, List, [], ◌∷◌, arith, get_elem?,
  set, length, length-set, Option-cases, inl, inr, u64_mod,
}
use dx_ai_st.Base.Table.{assign, erase}
use dx_ai_st.Streaming.{Coordinate}
use dx_ai_st.Streaming.Fetch.{
  Moe, SlotState, FenceEnv, StreamStats, hit, touch, miss, evict, settle, stream, refill,
  count_miss, count_tick, victim,
}

-- The bytes that sit in the slots.
abbrev pub held : List SlotState → ℕ
held [] = 0
held (s ∷ ss) = s.resident_bytes + held ss

-- Every tag that counts as resident names a slot.
abbrev pub Within : ℕ → List (ℕ × ℕ) → Type 0
Within n [] = Unit
Within n ((h, i) ∷ m) = (i < n) × Within n m

abbrev pub Small : List SlotState → Type 0
Small [] = Unit
Small (s ∷ ss) = (s.resident_bytes < u64_mod) × Small ss

pub record IsCounted (moe : Moe) : Type 0 where
  pub fetches : (moe.stats.fetch_hits + moe.stats.fetch_misses) % u64_mod ≡ moe.tick
  pub bytes : moe.stats.bytes_resident ≡ held moe.slots % u64_mod
  pub small : Small moe.slots
  pub within : Within (length moe.slots) moe.resident

held-set :
    (ss : List SlotState) (i : ℕ) (s t : SlotState)
    → get_elem? ss i ≡ some s
    → held (set ss i t) + s.resident_bytes ≡ held ss + t.resident_bytes
held-set [] i s t e = absurd (cc)
held-set (x ∷ ss) zero s t e = ground arith
held-set (x ∷ ss) (suc i) s t e = omega (arith, held-set ss i s t e)

Small-get :
    (ss : List SlotState) (i : ℕ) (s : SlotState)
    → Small ss
    → get_elem? ss i ≡ some s
    → s.resident_bytes < u64_mod
Small-get [] i s h e = absurd (cc)
Small-get (x ∷ ss) zero s h e = ground arith
Small-get (x ∷ ss) (suc i) s h e = Small-get ss i s h.1 e

Small-set :
    (ss : List SlotState) (i : ℕ) (t : SlotState)
    → Small ss
    → t.resident_bytes < u64_mod
    → Small (set ss i t)
Small-set [] i t h k = tt
Small-set (x ∷ ss) zero t h k = (k, h.1)
Small-set (x ∷ ss) (suc i) t h k = (h.0, Small-set ss i t h.1 k)

get_elem?-lt :
    (ss : List SlotState) (i : ℕ) (s : SlotState) → get_elem? ss i ≡ some s → i < length ss
get_elem?-lt [] i s e = absurd (cc)
get_elem?-lt (x ∷ ss) zero s e = omega arith
get_elem?-lt (x ∷ ss) (suc i) s e = omega (arith, get_elem?-lt ss i s e)

Within-erase : (n h : ℕ) (m : List (ℕ × ℕ)) → Within n m → Within n (erase h m)
unfolding erase
Within-erase n h [] w = tt
Within-erase n h ((k, i) ∷ m) w = ground (arith, Within-erase n h m w.1)

Within-assign : (n h i : ℕ) (m : List (ℕ × ℕ)) → i < n → Within n m → Within n (assign h i m)
unfolding assign
Within-assign n h i [] l w = (l, tt)
Within-assign n h i ((k, j) ∷ m) l w = ground (arith, Within-assign n h i m l w.1)

-- Between the tick and the count of the hit or miss.
pub record IsPending (moe : Moe) : Type 0 where
  pub fetches : (moe.stats.fetch_hits + moe.stats.fetch_misses + 1) % u64_mod ≡ moe.tick
  pub bytes : moe.stats.bytes_resident ≡ held moe.slots % u64_mod
  pub small : Small moe.slots
  pub within : Within (length moe.slots) moe.resident

pub count_tick-IsPending : (moe : Moe) → IsCounted moe → IsPending (count_tick moe)
unfolding count_tick
count_tick-IsPending moe v = record {
  fetches = omega (arith, v.fetches);
  bytes = v.bytes;
  small = v.small;
  within = v.within;
}

pub hit-IsCounted :
    (moe : Moe) (i : ℕ) (s : SlotState)
    → IsPending moe
    → get_elem? moe.slots i ≡ some s
    → IsCounted (hit moe i s).0
unfolding hit touch
hit-IsCounted moe i s v e =
    let t = touch s moe.tick in
    record {
      fetches = omega (arith, v.fetches);
      bytes = v.bytes ∙ ap (λ (n : ℕ). n % u64_mod) (omega (arith, held-set moe.slots i s t e));
      small = Small-set moe.slots i t v.small (Small-get moe.slots i s v.small e);
      within = subst (λ n. Within n moe.resident) (sym (length-set moe.slots i t)) v.within;
    }

count_miss-IsCounted : (moe : Moe) → IsPending moe → IsCounted (count_miss moe)
unfolding count_miss
count_miss-IsCounted moe v = record {
  fetches = omega (arith, v.fetches);
  bytes = v.bytes;
  small = v.small;
  within = v.within;
}

-- Waiting for the fence changes no counter of fetches or bytes.
settle_keeps :
    (env : FenceEnv) (s : SlotState) (stats : StreamStats)
    → ((settle env s stats).fetch_hits ≡ stats.fetch_hits)
      × ((settle env s stats).fetch_misses ≡ stats.fetch_misses)
      × ((settle env s stats).bytes_resident ≡ stats.bytes_resident)
unfolding settle
settle_keeps env s stats = ground arith

swap_bytes :
    (a size evicted before after : ℕ)
    → a ≡ before % u64_mod
    → evicted < u64_mod
    → after + evicted ≡ before + size
    → ((a + u64_mod - evicted) % u64_mod + size) % u64_mod ≡ after % u64_mod
swap_bytes a size evicted before after e h k = omega arith

evict-IsCounted :
    (env : FenceEnv) (moe : Moe) (hash : ℕ) (c : Coordinate) (i : ℕ) (s : SlotState)
    → IsCounted moe
    → c.byte_size < u64_mod
    → get_elem? moe.slots i ≡ some s
    → IsCounted (evict env moe hash c i s).0
unfolding evict stream refill
evict-IsCounted env moe hash c i s v size e =
    let k = settle_keeps env s moe.stats in
    let t = refill s c moe.tick in
    record {
      fetches = rw (k.0, k.1) v.fetches;
      bytes =
          swap_bytes (settle env s moe.stats).bytes_resident c.byte_size s.resident_bytes
            (held moe.slots) (held (set moe.slots i t)) (k.2 ∙ v.bytes)
            (Small-get moe.slots i s v.small e) (held-set moe.slots i s t e);
      small = Small-set moe.slots i t v.small size;
      within =
          subst (λ n. Within n (assign hash i (erase hash moe.resident)))
            (sym (length-set moe.slots i t))
            (Within-assign (length moe.slots) hash i (erase hash moe.resident)
              (get_elem?-lt moe.slots i s e)
              (Within-erase (length moe.slots) hash moe.resident v.within));
    }

pub miss-IsCounted :
    (env : FenceEnv) (moe : Moe) (hash : ℕ) (c : Coordinate)
    → IsPending moe
    → c.byte_size < u64_mod
    → IsCounted (miss env moe hash c).0
unfolding miss
miss-IsCounted env moe hash c v size = elim (Option-cases (victim moe.slots)) [
  | inl e ↦ simp (e, miss) (count_miss-IsCounted moe v)
  | inr (i, e) ↦ elim (Option-cases (get_elem? moe.slots i)) [
    | inl f ↦ simp (e, f, miss) (count_miss-IsCounted moe v)
    | inr (s, f) ↦
        simp (e, f, miss)
          (evict-IsCounted env (count_miss moe) hash c i s (count_miss-IsCounted moe v) size
            (unfold count_miss in f))
  ]
]
