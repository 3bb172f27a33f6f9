-- ===== src/Adapter.antt =====
-- src/dxadapter/dxadapter.cpp: the adapters that the C++ interface offers, what it takes their hardware for,
-- and the device that it makes for an index. DXGI, Direct3D and the loader of libraries answer from outside.
pub mod Index
mod Tests
use dx_ai_st.Base.{
  ℕ, zero, suc, Bool, true, false, ◌&&◌, not, Option, none, some, List, [], ◌∷◌, if◌then◌else◌, leb,
  ◌==◌, get_elem?,
}
use dx_ai_st.Base.Text.{Text}
use dx_ai_st.Device.{AdapterDesc}

pub data ArchitectureFamily : Type 0 where
  unknown amd_rdna2 amd_rdna3 amd_rdna4 nvidia_ampere_ada_blackwell intel_arc_xe :
      ArchitectureFamily

abbrev pub amd : ℕ
amd = 0x1002

unfoldable pub is_rdna2 : ℕ → ℕ → Bool
is_rdna2 vendor_id device_id =
    if not (vendor_id == amd) then false else leb 0x73A0 device_id && leb device_id 0x73DF

unfoldable pub classify_gpu_architecture : ℕ → ℕ → ArchitectureFamily
classify_gpu_architecture vendor_id device_id =
    if vendor_id == 0x10DE
    then nvidia_ampere_ada_blackwell
    else if vendor_id == 0x8086
    then intel_arc_xe
    else if not (vendor_id == amd)
    then unknown
    else if leb 0x73A0 device_id && leb device_id 0x73DF
    then amd_rdna2
    else if leb 0x7400 device_id && leb device_id 0x74BF
    then amd_rdna3
    else if leb 0x74C0 device_id
    then amd_rdna4
    else unknown

-- Where `D3D12CreateDevice` comes from: d3d12.dll or D3D12/D3D12Core.dll.
pub data EntryPoint : Type 0 where
  system agility : EntryPoint

-- Which of the two libraries have the function.
pub record Libraries : Type 0 where
  pub has_system : Bool
  pub has_agility : Bool

unfoldable pub load_d3d12_create : Libraries → ℕ → ℕ → Option EntryPoint
unfolding is_rdna2
load_d3d12_create libraries vendor_id device_id =
    let system_fn = if libraries.has_system then some system else none in
    if is_rdna2 vendor_id device_id
    then system_fn
    else if libraries.has_agility
    then some agility
    else system_fn

-- D3D12_FEATURE_DATA_D3D12_OPTIONS1
pub record Waves : Type 0 where
  pub ops : Bool
  pub lane_min : ℕ
  pub lane_max : ℕ

-- What is answered for an adapter that `EnumAdapters1` gives: its description, whether an entry point makes a
-- device on it, and the features of that device.
pub record Probed : Type 0 where
  pub adapter : ℕ
  pub desc : Option AdapterDesc
  pub creates : EntryPoint → Bool
  pub waves : Option Waves
  pub shader_model : Option ℕ

unfoldable pub arch_conditional_create_device : Libraries → Probed → Bool
unfolding load_d3d12_create
arch_conditional_create_device libraries probed = elim probed.desc [
  | none ↦ false
  | some d ↦ elim (load_d3d12_create libraries d.vendor_id d.device_id) [
    | none ↦ false
    | some fn ↦ probed.creates fn
  ]
]

-- The fields of AdapterCaps that `enumerate` sets.
pub record AdapterCaps : Type 0 where
  pub name : Text
  pub vendor_id : ℕ
  pub device_id : ℕ
  pub dedicated_video_memory : ℕ
  pub shared_system_memory : ℕ
  pub shader_model : ℕ
  pub wave_min : ℕ
  pub wave_max : ℕ
  pub wave_ops : Bool
  pub wmma_supported : Bool
  pub dot4_supported : Bool
  pub arch_family : ArchitectureFamily
  pub preferred_wave_size : ℕ

-- D3D_SHADER_MODEL_6_0
abbrev pub shader_model_6_0 : ℕ
shader_model_6_0 = 0x60

abbrev pub no_waves : Waves
no_waves = record { ops = false; lane_min = 0; lane_max = 0 }

pub prefer_waves : ArchitectureFamily → AdapterCaps → AdapterCaps
prefer_waves amd_rdna2 caps = record caps {
  preferred_wave_size = 64;
  dot4_supported = true;
  wmma_supported = false;
}
prefer_waves amd_rdna3 caps = record caps {
  preferred_wave_size = 32;
  dot4_supported = true;
  wmma_supported = true;
}
prefer_waves amd_rdna4 caps = record caps {
  preferred_wave_size = 32;
  dot4_supported = true;
  wmma_supported = true;
}
prefer_waves _ caps = record caps {
  preferred_wave_size = if leb caps.wave_min 32 && leb 64 caps.wave_max then 64 else 32;
  dot4_supported = caps.wave_ops;
  wmma_supported = false;
}

unfoldable pub adapter_caps : Probed → AdapterDesc → AdapterCaps
unfolding prefer_waves classify_gpu_architecture
adapter_caps probed d =
    let waves = elim probed.waves as (λ x. Waves) [ none ↦ no_waves | some w ↦ w ] in
    let arch = classify_gpu_architecture d.vendor_id d.device_id in
    prefer_waves arch (record {
      name = d.name;
      vendor_id = d.vendor_id;
      device_id = d.device_id;
      dedicated_video_memory = d.video_memory;
      shared_system_memory = d.shared_memory;
      shader_model = elim probed.shader_model [ none ↦ shader_model_6_0 | some s ↦ s ];
      wave_min = waves.lane_min;
      wave_max = waves.lane_max;
      wave_ops = waves.ops;
      wmma_supported = false;
      dot4_supported = false;
      arch_family = arch;
      preferred_wave_size = 32;
    })

-- `none` is that the loop goes on without an entry.
unfoldable pub probe : Libraries → Probed → Option AdapterCaps
unfolding adapter_caps arch_conditional_create_device
probe libraries probed = elim probed.desc [
  | none ↦ none
  | some d ↦
      if d.software
      then none
      else if not (arch_conditional_create_device libraries probed)
      then none
      else some (adapter_caps probed d)
]

-- The loop of `Adapter::enumerate`, over the adapters in the order of `EnumAdapters1`.
unfoldable pub enumerate_loop : Libraries → List Probed → List AdapterCaps
unfolding probe
enumerate_loop libraries [] = []
enumerate_loop libraries (probed ∷ rest) = elim (probe libraries probed) [
  | none ↦ enumerate_loop libraries rest
  | some caps ↦ caps ∷ enumerate_loop libraries rest
]

-- `none` is that the factory cannot be made.
unfoldable pub enumerate : Libraries → Option (List Probed) → List AdapterCaps
unfolding enumerate_loop
enumerate libraries none = []
enumerate libraries (some adapters) = enumerate_loop libraries adapters

-- The adapter that `Adapter::create_device` makes a device on.
unfoldable pub create_device : Option (List Probed) → ℕ → Option ℕ
create_device none index = none
create_device (some adapters) index = elim (get_elem? adapters index) [
  | none ↦ none
  | some probed ↦ some probed.adapter
]
