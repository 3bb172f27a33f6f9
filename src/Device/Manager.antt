-- ===== src/Device/Manager.antt =====
-- The devices and the adapters of src/core/dx_device_api.cpp stay side by side.
use dx_ai_st.Base.{
  ℕ, subst, zero, suc, ◌<◌, ◌≡◌, refl, ap, ◌∙◌, Bool, true, Option, none, some, List, [], ◌∷◌, ◌++◌,
  pos, minus, if◌then◌else◌, arith, length, get_elem?, Bool-cases, ◌⊎◌, inl, inr,
}
use dx_ai_st.Memory.{Platform, windows, posix}
use dx_ai_st.Device.{
  DeviceInfo, DeviceManager, Enumerated, failed, found, ManagerEnv, dx12_backend, cpu_backend,
  cpu_info, adapter_info, append_adapter, enumerate_adapters, append_dxgi_adapters, empty_manager,
  fill_manager, dx_device_manager_create, open_dx12, open_info, dx_device_manager_open,
}

-- Each device in the list stands for the adapter at its place.
abbrev pub ArePaired : List DeviceInfo → List ℕ → Type 0
ArePaired [] [] = Unit
ArePaired (d ∷ ds) (a ∷ ads) = (d.backend ≡ dx12_backend) × ArePaired ds ads
ArePaired _ _ = ⊥

ArePaired-append :
    (ds : List DeviceInfo) (ads : List ℕ) (d : DeviceInfo) (a : ℕ)
    → ArePaired ds ads
    → d.backend ≡ dx12_backend
    → ArePaired (ds ++ d ∷ []) (ads ++ a ∷ [])
ArePaired-append [] [] d a p b = (b, tt)
ArePaired-append [] (x ∷ ads) d a p b = absurd p
ArePaired-append (x ∷ ds) [] d a p b = absurd p
ArePaired-append (x ∷ ds) (y ∷ ads) d a p b = (p.0, ArePaired-append ds ads d a p.1 b)

enumerate-ArePaired :
    (answers : List Enumerated) (m : DeviceManager)
    → ArePaired m.devices m.adapters
    → let n = enumerate_adapters answers m in ArePaired n.devices n.adapters
unfolding enumerate_adapters append_adapter
enumerate-ArePaired [] m p = p
enumerate-ArePaired (failed ∷ answers) m p = enumerate-ArePaired answers m p
enumerate-ArePaired (found d ∷ answers) m p = elim (Bool-cases d.software) [
  | inl e ↦ simp e (enumerate-ArePaired answers m p)
  | inr e ↦ simp e (
      enumerate-ArePaired answers _
        (ArePaired-append m.devices m.adapters (adapter_info d) d.adapter p refl))
]

-- A manager as it is made: Direct3D devices, each with its adapter, and the CPU behind them.
pub record IsManager (m : DeviceManager) : Type 0 where
  pub native : List DeviceInfo
  pub split : m.devices ≡ native ++ cpu_info ∷ []
  pub paired : ArePaired native m.adapters

pub fill_manager-IsManager :
    (platform : Platform) (dxgi : Option (List Enumerated)) → IsManager (fill_manager platform dxgi)
unfolding fill_manager append_dxgi_adapters
fill_manager-IsManager posix dxgi = record { native = []; split = refl; paired = tt }
fill_manager-IsManager windows none = record { native = []; split = refl; paired = tt }
fill_manager-IsManager windows (some answers) = record {
  native = (enumerate_adapters answers empty_manager).devices;
  split = refl;
  paired = enumerate-ArePaired answers empty_manager tt;
}

-- The device at a place is the CPU without an adapter, or a Direct3D device with its adapter.
place_cases :
    (native : List DeviceInfo) (ads : List ℕ) (i : ℕ)
    → ArePaired native ads
    → i < length (native ++ cpu_info ∷ [])
    → (get_elem? (native ++ cpu_info ∷ []) i ≡ some cpu_info)
      ⊎ ((d : DeviceInfo) × (a : ℕ) × (get_elem? (native ++ cpu_info ∷ []) i ≡ some d)
          × (d.backend ≡ dx12_backend)
          × (get_elem? ads i ≡ some a))
place_cases [] [] zero p h = inl refl
place_cases [] [] (suc i) p h = absurd (omega arith)
place_cases [] (a ∷ ads) i p h = absurd p
place_cases (d ∷ ds) [] i p h = absurd p
place_cases (d ∷ ds) (a ∷ ads) zero p h = inr (d, a, refl, p.0, refl)
place_cases (d ∷ ds) (a ∷ ads) (suc i) p h = place_cases ds ads i p.1 (omega arith)

-- What opening the device at an index gives: the CPU and no Direct3D device, or a Direct3D device on
-- the adapter of that index if `D3D12CreateDevice` makes it.
unfoldable pub Opens : (ℕ → Bool) → DeviceManager → ℕ → Type 0
Opens creates m i =
    ((get_elem? m.devices i ≡ some cpu_info)
      × (dx_device_manager_open windows creates true m i
          ≡ (pos 0, some (record { backend = cpu_backend; dx12_device = none }))))
    ⊎ ((d : DeviceInfo) × (a : ℕ) × (get_elem? m.devices i ≡ some d)
        × (d.backend ≡ dx12_backend)
        × (get_elem? m.adapters i ≡ some a)
        × (dx_device_manager_open windows creates true m i ≡ (
            if creates a
            then (pos 0, some (record { backend = dx12_backend; dx12_device = some a }))
            else (minus 2, none))))

pub IsManager-Opens :
    (creates : ℕ → Bool) (m : DeviceManager) (i : ℕ)
    → IsManager m
    → i < length m.devices
    → Opens creates m i
unfolding Opens dx_device_manager_open open_info open_dx12
IsManager-Opens creates m i w h =
    let here = ap (λ ds. get_elem? ds i) w.split in
    elim (place_cases w.native m.adapters i w.paired (subst (λ ds. i < length ds) w.split h)) [
      | inl e ↦
          let f : get_elem? m.devices i ≡ some cpu_info = here ∙ e in inl (f, ground (arith, f))
      | inr (d, a, e, b, g) ↦
          let f : get_elem? m.devices i ≡ some d = here ∙ e in
          inr (d, a, f, b, g, ground (arith, f, b, g))
    ]

-- On Windows a manager is made wherever its memory and its logger are, whatever DXGI answers, its last
-- device is the CPU, and each device below the count can be opened where memory suffices: it gives the CPU
-- with no Direct3D device, or it has the adapter of its own index and gives a Direct3D device on it if
-- `D3D12CreateDevice` succeeds and -2 if it does not.
pub open-create :
    (env : ManagerEnv) (creates : ℕ → Bool)
    → env.memory ≡ true
    → env.logger ≡ true
    → (m : DeviceManager) × (dx_device_manager_create windows env ≡ (pos 0, some m))
      × ((native : List DeviceInfo) × (m.devices ≡ native ++ cpu_info ∷ []))
      × ((i : ℕ) → i < length m.devices → Opens creates m i)
unfolding dx_device_manager_create
open-create env creates hm hl =
    let w = fill_manager-IsManager windows env.dxgi in
    (
      fill_manager windows env.dxgi,
      simp (hm, hl),
      (w.native, w.split),
      λ i h. IsManager-Opens creates _ i w h,
    )
