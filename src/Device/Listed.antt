-- ===== src/Device/Listed.antt =====
-- Which adapters the lists of src/core/dx_device_api.cpp hold, and in which order.
use dx_ai_st.Base.{
  ℕ, zero, suc, ◌+◌, ◌<◌, ◌≡◌, refl, sym, ap, ◌∙◌, true, Option, none, some, List, [], ◌∷◌, ◌++◌,
  map, append_assoc, append-nil, pos, minus, Bool, if◌then◌else◌, arith, length, get_elem?,
  length-append, Bool-cases, ◌⊎◌, inl, inr,
}
use dx_ai_st.Memory.{windows}
use dx_ai_st.Device.{
  DeviceInfo, DeviceManager, AdapterDesc, Enumerated, failed, found, cpu_info, adapter_info,
  append_adapter, enumerate_adapters, append_dxgi_adapters, empty_manager, fill_manager,
  dx12_backend, cpu_backend, dx_device_manager_open, open_info, open_dx12,
}

-- The hardware adapters that DXGI describes, in its order.
abbrev hardware_of : List Enumerated → List AdapterDesc
hardware_of [] = []
hardware_of (failed ∷ answers) = hardware_of answers
hardware_of (found d ∷ answers) =
    if d.software then hardware_of answers else d ∷ hardware_of answers

abbrev pub cards : Option (List Enumerated) → List AdapterDesc
cards none = []
cards (some answers) = hardware_of answers

abbrev handle : AdapterDesc → ℕ
handle d = d.adapter

abbrev describe : AdapterDesc → DeviceInfo
describe d = adapter_info d

enumerate_lem :
    (answers : List Enumerated) (m : DeviceManager)
    → let n = enumerate_adapters answers m in
      (n.devices ≡ m.devices ++ map describe (hardware_of answers))
      × (n.adapters ≡ m.adapters ++ map handle (hardware_of answers))
unfolding enumerate_adapters append_adapter
enumerate_lem [] m = (sym (append-nil m.devices), sym (append-nil m.adapters))
enumerate_lem (failed ∷ answers) m = enumerate_lem answers m
enumerate_lem (found d ∷ answers) m = elim (Bool-cases d.software) [
  | inl e ↦ rw e (enumerate_lem answers m)
  | inr e ↦
      let next : DeviceManager = record {
        devices = m.devices ++ adapter_info d ∷ [];
        adapters = m.adapters ++ d.adapter ∷ [];
      } in
      let rest = enumerate_lem answers next in
      rw e (
        rest.0 ∙ append_assoc m.devices (adapter_info d ∷ []) (map describe (hardware_of answers)),
        rest.1 ∙ append_assoc m.adapters (d.adapter ∷ []) (map handle (hardware_of answers)),
      )
]

pub fill_manager-cards :
    (dxgi : Option (List Enumerated))
    → let m = fill_manager windows dxgi in
      (m.devices ≡ map describe (cards dxgi) ++ cpu_info ∷ [])
      × (m.adapters ≡ map handle (cards dxgi))
unfolding fill_manager append_dxgi_adapters
fill_manager-cards none = (refl, refl)
fill_manager-cards (some answers) =
    let r = enumerate_lem answers empty_manager in (ap (λ ds. ds ++ cpu_info ∷ []) r.0, r.1)

-- The lists at a place: a card with its adapter, or the CPU behind the cards.
place_in :
    (ds : List AdapterDesc) (i : ℕ)
    → ((d : AdapterDesc) × (get_elem? ds i ≡ some d)
        × (get_elem? (map describe ds ++ cpu_info ∷ []) i ≡ some (adapter_info d))
        × (get_elem? (map handle ds) i ≡ some d.adapter))
      ⊎ (((i ≡ length ds) × (get_elem? (map describe ds ++ cpu_info ∷ []) i ≡ some cpu_info))
          ⊎ (length ds < i))
place_in [] zero = inr (inl (refl, refl))
place_in [] (suc i) = inr (inr (omega arith))
place_in (d ∷ ds) zero = inl (d, refl, refl, refl)
place_in (d ∷ ds) (suc i) = elim (place_in ds i) [
  | inl c ↦ inl c
  | inr (inl (e, f)) ↦ inr (inl (ap suc e, f))
  | inr (inr h) ↦ inr (inr (omega (arith, h)))
]

-- What stands at an index of the devices of a machine: a card, the CPU, or nothing.
pub data Place (dxgi : Option (List Enumerated)) (i : ℕ) : Type 0 where
  card_at :
      (d : AdapterDesc)
      → get_elem? (cards dxgi) i ≡ some d
      → get_elem? (fill_manager windows dxgi).devices i ≡ some (adapter_info d)
      → get_elem? (fill_manager windows dxgi).adapters i ≡ some d.adapter
      → Place dxgi i
  cpu_at :
      i ≡ length (cards dxgi)
      → get_elem? (fill_manager windows dxgi).devices i ≡ some cpu_info
      → Place dxgi i
  past : length (cards dxgi) < i → Place dxgi i

pub place : (dxgi : Option (List Enumerated)) (i : ℕ) → Place dxgi i
place dxgi i =
    let (ds, ads) = fill_manager-cards dxgi in
    elim (place_in (cards dxgi) i) [
      | inl (d, e, f, g) ↦
          card_at d e (ap (λ xs. get_elem? xs i) ds ∙ f) (ap (λ xs. get_elem? xs i) ads ∙ g)
      | inr (inl (e, f)) ↦ cpu_at e (ap (λ xs. get_elem? xs i) ds ∙ f)
      | inr (inr h) ↦ past h
    ]

length-map {ℓ} : {A B : Type ℓ} (f : A → B) (xs : List A) → length (map f xs) ≡ length xs
length-map f [] = refl
length-map f (x ∷ xs) = ap suc (length-map f xs)

pub length-cards :
    (dxgi : Option (List Enumerated))
    → length (fill_manager windows dxgi).devices ≡ length (cards dxgi) + 1
length-cards dxgi =
    ap length (fill_manager-cards dxgi).0
    ∙ length-append (map describe (cards dxgi)) (cpu_info ∷ [])
    ∙ ap (λ n. n + 1) (length-map describe (cards dxgi))

pub open_card :
    (creates : ℕ → Bool) (m : DeviceManager) (index : ℕ) (card : AdapterDesc)
    → get_elem? m.devices index ≡ some (adapter_info card)
    → get_elem? m.adapters index ≡ some card.adapter
    → dx_device_manager_open windows creates true m index ≡ (
        if creates card.adapter
        then (pos 0, some (record { backend = dx12_backend; dx12_device = some card.adapter }))
        else (minus 2, none))
unfolding dx_device_manager_open open_info open_dx12
open_card creates m index card e f = ground (arith, e, f)

pub open_cpu :
    (creates : ℕ → Bool) (m : DeviceManager) (index : ℕ)
    → get_elem? m.devices index ≡ some cpu_info
    → dx_device_manager_open windows creates true m index
      ≡ (pos 0, some (record { backend = cpu_backend; dx12_device = none }))
unfolding dx_device_manager_open open_info
open_cpu creates m index e = ground (arith, e)
