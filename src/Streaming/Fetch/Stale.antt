-- ===== src/Streaming/Fetch/Stale.antt =====
-- What a fetch of src/dxstream/dxstream.cpp finds in the slot that it is given.
use dx_ai_st.Base.{
  ℕ, ◌≡◌, ◌≢◌, refl, ◌∙◌, true, false, none, some, List, arith, get_elem?, set, zero, suc, [], ◌∷◌,
  ◌==◌, ==_refl,
}
use dx_ai_st.Base.Table.{find, assign, erase, find-assign, find-erase_ne}
use dx_ai_st.Base.Text.{Text}
use dx_ai_st.Streaming.{Coordinate, lookup, lookup_hash, fnv1a64}
use dx_ai_st.Streaming.Fetch.{
  Moe, SlotState, SlotView, FenceEnv, hit, touch, miss, evict, refill, count_miss, count_tick,
  fetch, fetch_known, victim,
}

get_elem?-set_self :
    (ss : List SlotState) (i : ℕ) (s t : SlotState)
    → get_elem? ss i ≡ some s
    → get_elem? (set ss i t) i ≡ some t
get_elem?-set_self [] i s t e = absurd (cc)
get_elem?-set_self (x ∷ ss) zero s t e = refl
get_elem?-set_self (x ∷ ss) (suc i) s t e = get_elem?-set_self ss i s t e

-- A fetch of a resident tag.
pub fetch-hit :
    (env : FenceEnv) (moe : Moe) (tag : Text) (c : Coordinate) (i : ℕ) (s : SlotState)
    → lookup moe.index tag ≡ some c
    → find (fnv1a64 tag) moe.resident ≡ some i
    → get_elem? moe.slots i ≡ some s
    → fetch env moe tag ≡ hit (count_tick moe) i s
unfolding fetch fetch_known count_tick lookup_hash
fetch-hit env moe tag c i s e f g = simp (e, f, g, fetch, fetch_known)

-- A fetch of a tag that is not resident, with a victim.
pub fetch_miss :
    (env : FenceEnv) (moe : Moe) (tag : Text) (c : Coordinate) (i : ℕ) (s : SlotState)
    → lookup moe.index tag ≡ some c
    → find (fnv1a64 tag) moe.resident ≡ none
    → victim moe.slots ≡ some i
    → get_elem? moe.slots i ≡ some s
    → fetch env moe tag ≡ evict env (count_miss (count_tick moe)) (fnv1a64 tag) c i s
unfolding fetch fetch_known miss count_tick lookup_hash
fetch_miss env moe tag c i s e f v g = simp (e, f, v, g, fetch, fetch_known, miss)

-- A hit in slot `i`, which holds the payload of `d`.
abbrev pub HitsWith : Moe × SlotView → ℕ → Coordinate → Type 0
HitsWith r i d =
    (r.1.is_hit ≡ true)
    × (r.1.slot ≡ some i)
    × (t : SlotState) × (get_elem? r.0.slots i ≡ some t)
    × (t.loaded ≡ some d)

hit-HitsWith :
    (moe : Moe) (i : ℕ) (s : SlotState) (d : Coordinate)
    → get_elem? moe.slots i ≡ some s
    → s.loaded ≡ some d
    → HitsWith (hit moe i s) i d
unfolding hit touch
hit-HitsWith moe i s d e l =
    (refl, refl, touch s moe.tick, get_elem?-set_self moe.slots i s (touch s moe.tick) e, l)

-- After an eviction in favour of `d`, a tag that the table sends to the victim's slot.
evict-HitsWith :
    (env env' : FenceEnv) (moe : Moe) (hash : ℕ) (tag : Text) (c d : Coordinate) (i : ℕ)
    (s : SlotState)
    → lookup moe.index tag ≡ some c
    → find (fnv1a64 tag) (assign hash i (erase hash moe.resident)) ≡ some i
    → get_elem? moe.slots i ≡ some s
    → HitsWith (fetch env' (evict env moe hash d i s).0 tag) i d
unfolding evict refill count_tick
evict-HitsWith env env' moe hash tag c d i s e f g =
    let q = (evict env moe hash d i s).0 in
    let t = refill s d moe.tick in
    let put : get_elem? q.slots i ≡ some t = get_elem?-set_self moe.slots i s t g in
    rw (fetch-hit env' q tag c i t e f put) (hit-HitsWith (count_tick q) i t d put refl)

-- A tag that is asked for again at once is a hit, in the slot that the miss filled, and the slot
-- holds the payload of that tag. The first fetch is a miss with a victim.
pub fetch_again :
    (env env' : FenceEnv) (moe : Moe) (tag : Text) (c : Coordinate) (i : ℕ) (s : SlotState)
    → lookup moe.index tag ≡ some c
    → find (fnv1a64 tag) moe.resident ≡ none
    → victim moe.slots ≡ some i
    → get_elem? moe.slots i ≡ some s
    → ((fetch env moe tag).1.slot ≡ some i) × HitsWith (fetch env' (fetch env moe tag).0 tag) i c
unfolding count_miss count_tick evict
fetch_again env env' moe tag c i s e f v g = rw (fetch_miss env moe tag c i s e f v g) (
  refl,
  evict-HitsWith env env' (count_miss (count_tick moe)) (fnv1a64 tag) tag c c i s e
      (find-assign (fnv1a64 tag) (fnv1a64 tag) i (erase (fnv1a64 tag) moe.resident)
        ∙ rw (==_refl (fnv1a64 tag)))
      g,
)

-- The fault: a miss takes the tag that it asks for out of `m_resident`, not the one that the victim
-- held. So whenever a fetch of `new` evicts the slot of `old`, the next fetch of `old` is reported
-- as a hit in that slot, and the slot holds the payload of `new`.
pub stale_hit :
    (env env' : FenceEnv) (moe : Moe) (old new : Text) (c d : Coordinate) (i : ℕ) (s : SlotState)
    → lookup moe.index old ≡ some c
    → lookup moe.index new ≡ some d
    → fnv1a64 new ≢ fnv1a64 old
    → find (fnv1a64 old) moe.resident ≡ some i
    → find (fnv1a64 new) moe.resident ≡ none
    → victim moe.slots ≡ some i
    → get_elem? moe.slots i ≡ some s
    → HitsWith (fetch env' (fetch env moe new).0 old) i d
unfolding count_miss count_tick
stale_hit env env' moe old new c d i s eo en ne fo fn v g =
    let h = fnv1a64 new in
    let other : (h == fnv1a64 old) ≡ false = ground arith in
    rw (fetch_miss env moe new d i s en fn v g) (
      evict-HitsWith env env' (count_miss (count_tick moe)) h old c d i s eo
        (find-assign h (fnv1a64 old) i (erase h moe.resident)
          ∙ rw other (find-erase_ne h (fnv1a64 old) moe.resident other ∙ fo))
        g)
