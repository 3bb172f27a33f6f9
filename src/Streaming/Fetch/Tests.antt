-- ===== src/Streaming/Fetch/Tests.antt =====
-- A ring of one slot over an index of two tensors (src/dxstream/dxstream.cpp).
use dx_ai_st.Base.{ℕ, ◌≡◌, ◌≢◌, refl, true, false, none, some, [], ◌∷◌, arith, get_elem?}
use dx_ai_st.Base.Table.{find, assign, erase}
use dx_ai_st.Base.Text.{Text}
use dx_ai_st.Streaming.{Coordinate, TensorIndex, build, lookup, fnv1a64, lookup_hash}
use dx_ai_st.Streaming.Lookup.{lookup-build, Unmixed}
use dx_ai_st.Streaming.Fetch.{Moe, SlotState, FenceEnv, new_moe, fetch, victim}
use dx_ai_st.Streaming.Fetch.Victim.{victim_least, NoOlder}
use dx_ai_st.Streaming.Fetch.Counts.{IsCounted}
use dx_ai_st.Streaming.Fetch.Runs.{run, run-IsCounted, IsSized}
use dx_ai_st.Streaming.Fetch.Stale.{HitsWith, stale_hit}

abbrev tag_a : Text
tag_a = 97 ∷ []

abbrev tag_b : Text
tag_b = 98 ∷ []

abbrev place_a : Coordinate
place_a = record { absolute_offset = 0; byte_size = 10; quant_type = 0 }

abbrev place_b : Coordinate
place_b = record { absolute_offset = 4096; byte_size = 20; quant_type = 0 }

-- The published FNV-1a hash of "a".
fnv_known : fnv1a64 tag_a ≡ 0xaf63dc4c8601ec8c
unfolding fnv1a64
fnv_known = refl

abbrev index : TensorIndex
index = build ((tag_a, place_a) ∷ (tag_b, place_b) ∷ []) 4116 4096

abbrev quiet : FenceEnv
quiet = record { busy = false; waited = 0 }

abbrev ring : Moe
ring = new_moe index 1

hashes_differ : fnv1a64 tag_b ≢ fnv1a64 tag_a
unfolding fnv1a64
hashes_differ e = omega arith

index-Unmixed : Unmixed ((tag_a, place_a) ∷ (tag_b, place_b) ∷ [])
index-Unmixed = ((hashes_differ, tt), (tt, tt))

lookup-build_example : lookup index tag_b ≡ some place_b
lookup-build_example =
    lookup-build ((tag_a, place_a) ∷ (tag_b, place_b) ∷ []) 4116 4096 1 tag_b place_b index-Unmixed
      refl

index-IsSized : IsSized index
unfolding lookup build find assign
index-IsSized tag c e = ground arith

find_a : lookup index tag_a ≡ some place_a
find_a =
    lookup-build ((tag_a, place_a) ∷ (tag_b, place_b) ∷ []) 4116 4096 0 tag_a place_a index-Unmixed
      refl

find_b : lookup index tag_b ≡ some place_b
find_b =
    lookup-build ((tag_a, place_a) ∷ (tag_b, place_b) ∷ []) 4116 4096 1 tag_b place_b index-Unmixed
      refl

abbrev blank_slot : SlotState
blank_slot = record {
  version = 0;
  has_payload = false;
  resident_bytes = 0;
  last_tick = 0;
  loaded = none;
}

abbrev slot_a : SlotState
slot_a = record {
  version = 1;
  has_payload = true;
  resident_bytes = 10;
  last_tick = 1;
  loaded = some place_a;
}

-- The ring after `tag_a` was fetched.
abbrev with_a : Moe
with_a = (fetch quiet ring tag_a).0

with_a_slots : with_a.slots ≡ slot_a ∷ []
unfolding fetch lookup build find assign fnv1a64 new_moe
with_a_slots = refl

with_a_resident : with_a.resident ≡ (fnv1a64 tag_a, 0) ∷ []
unfolding fetch lookup build find assign fnv1a64 new_moe erase lookup_hash
with_a_resident = refl

victim_least_example :
    (i : ℕ) × (t : SlotState) × (victim (slot_a ∷ blank_slot ∷ []) ≡ some i)
    × (get_elem? (slot_a ∷ blank_slot ∷ []) i ≡ some t)
    × NoOlder t.last_tick (slot_a ∷ blank_slot ∷ [])
victim_least_example = victim_least slot_a (blank_slot ∷ []) (omega arith)

run-IsCounted_example : IsCounted (run ring ((quiet, tag_a) ∷ (quiet, tag_b) ∷ (quiet, tag_a) ∷ []))
run-IsCounted_example =
    run-IsCounted index 1 ((quiet, tag_a) ∷ (quiet, tag_b) ∷ (quiet, tag_a) ∷ []) index-IsSized

-- `tag_a` is in the only slot; `tag_b` takes it; `tag_a` is then given the payload of `tag_b`.
stale_hit_example : HitsWith (fetch quiet (fetch quiet with_a tag_b).0 tag_a) 0 place_b
unfolding fetch lookup build find assign fnv1a64 new_moe erase victim lookup_hash
stale_hit_example =
    stale_hit quiet quiet with_a tag_a tag_b place_a place_b 0 slot_a refl refl hashes_differ refl
      refl refl refl
