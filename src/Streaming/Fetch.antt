-- ===== src/Streaming/Fetch.antt =====
-- src/dxstream/dxstream.cpp, `StreamingMoE`: a fixed number of slots in video memory, refilled in
-- order of last use. The model keeps with each slot the coordinate whose payload was last read into
-- its buffer (`loaded`), which the code leaves to DirectStorage.
pub mod Victim
pub mod Counts
pub mod Runs
pub mod Stale
pub mod Tests
use dx_ai_st.Base.{
  ℕ, zero, suc, ◌+◌, ◌-◌, ◌%◌, Bool, true, false, Option, none, some, List, [], ◌∷◌, if◌then◌else◌,
  ltb, not, u64_mod, get_elem?, set, replicate,
}
use dx_ai_st.Base.Table.{find, assign, erase}
use dx_ai_st.Base.Text.{Text}
use dx_ai_st.Streaming.{Coordinate, TensorIndex, lookup, lookup_hash}

-- One place of the vectors `m_slot_versions`, `m_slot_has_payload`, `m_slot_resident_bytes` and
-- `m_lru_last_tick`.
pub record SlotState : Type 0 where
  pub version : ℕ
  pub has_payload : Bool
  pub resident_bytes : ℕ
  pub last_tick : ℕ
  pub loaded : Option Coordinate

-- StreamStats, without `cold_start_ms`
pub record StreamStats : Type 0 where
  pub fetch_hits : ℕ
  pub fetch_misses : ℕ
  pub evictions : ℕ
  pub stall_events : ℕ
  pub stall_wait_ns : ℕ
  pub bytes_streamed : ℕ
  pub bytes_resident : ℕ

pub record Moe : Type 0 where
  pub index : TensorIndex
  pub slots : List SlotState
  pub resident : List (ℕ × ℕ)
  pub stats : StreamStats
  pub tick : ℕ

-- `none` for the slot is -1.
pub record SlotView : Type 0 where
  pub slot : Option ℕ
  pub fence_value : ℕ
  pub is_hit : Bool

-- Whether the victim's fence is still open, and for how long the thread waits.
pub record FenceEnv : Type 0 where
  pub busy : Bool
  pub waited : ℕ

-- The constructor.
pub new_moe : TensorIndex → ℕ → Moe
new_moe index slot_count = record {
  index = index;
  slots = replicate slot_count (record {
    version = 0;
    has_payload = false;
    resident_bytes = 0;
    last_tick = 0;
    loaded = none;
  });
  resident = [];
  stats = record {
    fetch_hits = 0;
    fetch_misses = 0;
    evictions = 0;
    stall_events = 0;
    stall_wait_ns = 0;
    bytes_streamed = 0;
    bytes_resident = 0;
  };
  tick = 0;
}

abbrev pub bad_view : SlotView
bad_view = record { slot = none; fence_value = 0; is_hit = false }

-- The search for the slot used longest ago, from slot `i` on.
pub victim_from : ℕ → Option ℕ → ℕ → List SlotState → Option ℕ
victim_from i victim oldest [] = victim
victim_from i victim oldest (s ∷ ss) =
    let older = victim_from (suc i) (some i) s.last_tick ss in
    let rest = victim_from (suc i) victim oldest ss in
    if ltb s.last_tick oldest then older else rest

pub victim : List SlotState → Option ℕ
unfolding victim_from
victim ss = victim_from 0 none (u64_mod - 1) ss

pub touch : SlotState → ℕ → SlotState
touch s now = record s { last_tick = now }

pub hit : Moe → ℕ → SlotState → Moe × SlotView
unfolding touch
hit moe i s = (
  record moe {
    slots = set moe.slots i (touch s moe.tick);
    stats = record (moe.stats) { fetch_hits = (moe.stats.fetch_hits + 1) % u64_mod };
  },
  record { slot = some i; fence_value = s.version; is_hit = true },
)

-- Waiting for the work that the victim is still in.
pub settle : FenceEnv → SlotState → StreamStats → StreamStats
settle env s stats = if not s.has_payload then stats else record stats {
  stall_events = if env.busy then (stats.stall_events + 1) % u64_mod else stats.stall_events;
  stall_wait_ns = (stats.stall_wait_ns + env.waited) % u64_mod;
  evictions = (stats.evictions + 1) % u64_mod;
}

pub stream : ℕ → ℕ → StreamStats → StreamStats
stream size evicted stats = record stats {
  bytes_streamed = (stats.bytes_streamed + size) % u64_mod;
  bytes_resident = ((stats.bytes_resident + u64_mod - evicted) % u64_mod + size) % u64_mod;
}

pub refill : SlotState → Coordinate → ℕ → SlotState
refill s c now = record {
  version = (s.version + 1) % u64_mod;
  has_payload = true;
  resident_bytes = c.byte_size;
  last_tick = now;
  loaded = some c;
}

-- A miss with a victim: the read is enqueued into slot `i`.
pub evict : FenceEnv → Moe → ℕ → Coordinate → ℕ → SlotState → Moe × SlotView
unfolding settle stream refill
evict env moe hash c i s = (
  record moe {
    slots = set moe.slots i (refill s c moe.tick);
    resident = assign hash i (erase hash moe.resident);
    stats = stream c.byte_size s.resident_bytes (settle env s moe.stats);
  },
  record { slot = some i; fence_value = (s.version + 1) % u64_mod; is_hit = false },
)

pub count_miss : Moe → Moe
count_miss moe = record moe {
  stats = record (moe.stats) { fetch_misses = (moe.stats.fetch_misses + 1) % u64_mod };
}

pub miss : FenceEnv → Moe → ℕ → Coordinate → Moe × SlotView
unfolding evict victim count_miss
miss env moe hash c = elim (victim moe.slots) [
  | none ↦ (count_miss moe, bad_view)
  | some i ↦ elim (get_elem? moe.slots i) [
    | none ↦ (count_miss moe, bad_view)
    | some s ↦ evict env (count_miss moe) hash c i s
  ]
]

pub count_tick : Moe → Moe
count_tick moe = record moe { tick = (moe.tick + 1) % u64_mod }

-- `moe` has counted the tick.
pub fetch_known : FenceEnv → Moe → ℕ → Coordinate → Moe × SlotView
unfolding hit miss
fetch_known env moe hash c = elim (find hash moe.resident) [
  | none ↦ miss env moe hash c
  | some i ↦ elim (get_elem? moe.slots i) [ none ↦ (moe, bad_view) | some s ↦ hit moe i s ]
]

pub fetch : FenceEnv → Moe → Text → Moe × SlotView
unfolding fetch_known count_tick
fetch env moe tag = elim (lookup moe.index tag) [
  | none ↦ (moe, bad_view)
  | some c ↦ fetch_known env (count_tick moe) (lookup_hash moe.index tag) c
]
