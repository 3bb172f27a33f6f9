-- ===== src/Adapter/Tests.antt =====
-- A machine whose first adapter is the software one, for src/dxadapter/dxadapter.cpp.
use dx_ai_st.Base.{
  ℕ, zero, suc, ◌≡◌, ◌<◌, refl, Bool, true, false, none, some, [], ◌∷◌, arith, get_elem?,
}
use dx_ai_st.Device.{AdapterDesc}
use dx_ai_st.Adapter.{
  Libraries, Probed, AdapterCaps, amd_rdna3, is_rdna2, classify_gpu_architecture, adapter_caps,
  probe, enumerate, enumerate_loop, create_device, arch_conditional_create_device,
  load_d3d12_create,
}
use dx_ai_st.Adapter.Index.{AreApart, IsKept, create_device-Source}

abbrev libraries : Libraries
libraries = record { has_system = true; has_agility = true }

abbrev adapter_with : ℕ → Bool → ℕ → AdapterDesc
adapter_with n software device = record {
  adapter = n;
  software = software;
  vendor_id = 0x1002;
  device_id = device;
  video_memory = 0;
  system_memory = 0;
  shared_memory = 0;
  name = [];
}

abbrev probed : AdapterDesc → Probed
probed d = record {
  adapter = d.adapter;
  desc = some d;
  creates = λ fn. true;
  waves = none;
  shader_model = none;
}

abbrev warp : Probed
warp = probed (adapter_with 7 true 0x8C)

abbrev card : Probed
card = probed (adapter_with 9 false 0x73DF)

two-AreApart : AreApart (warp ∷ card ∷ [])
two-AreApart zero zero p q e f g = refl
two-AreApart zero (suc zero) p q e f g = absurd (ground arith)
two-AreApart zero (suc (suc k)) p q e f g = absurd (ground arith)
two-AreApart (suc zero) zero p q e f g = absurd (ground arith)
two-AreApart (suc zero) (suc zero) p q e f g = refl
two-AreApart (suc zero) (suc (suc k)) p q e f g = absurd (ground arith)
two-AreApart (suc (suc j)) k p q e f g = absurd (ground arith)

abbrev card_caps : AdapterCaps
card_caps = adapter_caps card (adapter_with 9 false 0x73DF)

create_device-Source_example :
    (j : ℕ) × (p : Probed) × (0 < j)
    × (get_elem? (warp ∷ card ∷ []) j ≡ some p)
    × IsKept libraries p card_caps
    × ¬ (create_device (some (warp ∷ card ∷ [])) 0 ≡ some p.adapter)
unfolding enumerate enumerate_loop probe arch_conditional_create_device load_d3d12_create is_rdna2
create_device-Source_example =
    create_device-Source libraries warp (card ∷ []) 0 card_caps two-AreApart refl refl

-- The device that a comment names as RDNA4.
rx_9070 : classify_gpu_architecture 0x1002 0x7440 ≡ amd_rdna3
unfolding classify_gpu_architecture
rx_9070 = refl
