-- ===== src/Runtime/Selected.antt =====
-- The backend that a runtime of src/core/dx_runtime_api.cpp selects.
use dx_ai_st.Base.{
  ℕ, zero, suc, ◌%◌, ◌<◌, ◌≤◌, ◌≡◌, refl, sym, subst, ◌⊎◌, true, false, Option, none, some, List,
  [], ◌∷◌, ◌++◌, pos, ltb, ◌==◌, arith, length, Option-cases, inl, inr, u32_mod, length-append,
}
use dx_ai_st.Memory.{windows}
use dx_ai_st.Device.{
  DeviceInfo, DeviceManager, dx12_backend, cpu_info, fill_manager, dx_device_manager_create,
  dx_device_manager_count, dx_device_manager_get_info,
}
use dx_ai_st.Device.Manager.{IsManager, ArePaired, fill_manager-IsManager}
use dx_ai_st.Log.{ComponentLogger, dx_component_logger_create}
use dx_ai_st.Runtime.{
  Runtime, RuntimeEnv, RuntimeInfo, runtime_name, auto, cpu, hip, valid_backend, dx12_from,
  has_dx12_device, select_backend, make_runtime, with_logger, dx_runtime_create,
  dx_runtime_get_info,
}

-- With a Direct3D device in the list there is one in front.
has_dx12-paired :
    (native : List DeviceInfo) (adapters rest : List ℕ)
    → ArePaired native adapters
    → length (native ++ cpu_info ∷ []) < u32_mod
    → has_dx12_device (record { devices = native ++ cpu_info ∷ []; adapters = rest })
      ≡ ltb 1 (length (native ++ cpu_info ∷ []))
unfolding has_dx12_device dx12_from dx_device_manager_count dx_device_manager_get_info
has_dx12-paired [] adapters rest p small = refl
has_dx12-paired (d ∷ ds) [] rest p small = absurd p
has_dx12-paired (d ∷ ds) (a ∷ ads) rest p small =
    let behind = length (ds ++ cpu_info ∷ []) in
    let count : suc behind % u32_mod ≡ suc behind = omega arith in
    let more : 0 < behind = omega (arith, length-append ds (cpu_info ∷ [])) in
    rw (count, p.0, has_dx12_device, dx12_from) (ground (arith, more))

has_dx12-manager :
    (m : DeviceManager)
    → IsManager m
    → length m.devices < u32_mod
    → has_dx12_device m ≡ ltb 1 (length m.devices)
has_dx12-manager m w small =
    subst
      (λ ds. has_dx12_device (record { devices = ds; adapters = m.adapters }) ≡ ltb 1 (length ds))
      (sym w.split)
      (has_dx12-paired w.native m.adapters m.adapters w.paired
        (subst (λ ds. length ds < u32_mod) w.split small))

-- A device of Direct3D stands in a list.
abbrev pub HasDx12 : List DeviceInfo → Type 0
HasDx12 [] = ⊥
HasDx12 (info ∷ rest) = (info.backend ≡ dx12_backend) ⊎ HasDx12 rest

-- No preference: no configuration, or one of AUTO or of Direct3D 12.
pub data IsOpen : Option ℕ → Type 0 where
  no_config : IsOpen none
  wants_auto : IsOpen (some 0)
  wants_dx12 : IsOpen (some 1)

-- The backend that is right for devices and a configuration, by the numbers of dx_backend_preference_t.
pub data Selects (devices : List DeviceInfo) : Option ℕ → ℕ → Type 0 where
  wants_cpu : Selects devices (some 3) 3
  wants_hip : Selects devices (some 2) 2
  card : {config : Option ℕ} → IsOpen config → HasDx12 devices → Selects devices config 1
  no_card : {config : Option ℕ} → IsOpen config → ¬ HasDx12 devices → Selects devices config 3

abbrev requested_of : Option ℕ → ℕ
requested_of none = auto
requested_of (some preference) = preference

create-with_logger :
    (env : RuntimeEnv) (config : Option ℕ) (r : Runtime)
    → dx_runtime_create windows env config ≡ (pos 0, some r)
    → (requested_of config ≤ 3)
      × ((logger : ComponentLogger) × (r
            ≡ make_runtime windows logger
                (fill_manager windows env.manager.dxgi)
                (requested_of config)))
unfolding dx_runtime_create with_logger dx_device_manager_create valid_backend
create-with_logger env config r e =
    elim (Option-cases
      (dx_component_logger_create env.environment env.files env.logger_memory
        (some runtime_name)).1) [
          | inl n ↦ absurd (without_logger config e n)
          | inr (logger, n) ↦ with_one config e logger n
        ]
  where
    without_logger :
        (c : Option ℕ)
        → dx_runtime_create windows env c ≡ (pos 0, some r)
        → (dx_component_logger_create env.environment env.files env.logger_memory
            (some runtime_name)).1
          ≡ none
        → ⊥
    without_logger none e n = ground (arith, n, e)
    without_logger (some p) e n = ground (arith, n, e)

    with_one :
        (c : Option ℕ)
        → dx_runtime_create windows env c ≡ (pos 0, some r)
        → (logger : ComponentLogger)
        → (dx_component_logger_create env.environment env.files env.logger_memory
            (some runtime_name)).1
          ≡ some logger
        → (requested_of c ≤ 3)
          × ((logger : ComponentLogger) × (r
                ≡ make_runtime windows logger
                    (fill_manager windows env.manager.dxgi)
                    (requested_of c)))
    with_one none e logger n = (ground (arith, n, e), (logger, ground (arith, n, e)))
    with_one (some p) e logger n = (ground (arith, n, e), (logger, ground (arith, n, e)))

paired_cases :
    (native : List DeviceInfo) (adapters : List ℕ)
    → ArePaired native adapters
    → ((ltb 1 (length (native ++ cpu_info ∷ [])) ≡ true) × HasDx12 (native ++ cpu_info ∷ []))
      ⊎ ((ltb 1 (length (native ++ cpu_info ∷ [])) ≡ false) × (¬ HasDx12 (native ++ cpu_info ∷ [])))
paired_cases [] adapters p = inr (refl, λ h. elim h [ inl e ↦ omega (arith, e) | inr b ↦ b ])
paired_cases (d ∷ ds) [] p = absurd p
paired_cases (d ∷ ds) (a ∷ ads) p = inl (ground (arith, length-append ds (cpu_info ∷ [])), inl p.0)

HasDx12-cases :
    (m : DeviceManager)
    → IsManager m
    → length m.devices < u32_mod
    → ((has_dx12_device m ≡ true) × HasDx12 m.devices)
      ⊎ ((has_dx12_device m ≡ false) × (¬ HasDx12 m.devices))
HasDx12-cases m w small = rw (has_dx12-manager m w small) (
    subst
      (λ ds.
        ((ltb 1 (length ds) ≡ true) × HasDx12 ds) ⊎ ((ltb 1 (length ds) ≡ false) × (¬ HasDx12 ds)))
      (sym w.split) (paired_cases w.native m.adapters w.paired))

IsOpen-cases :
    (config : Option ℕ)
    → requested_of config ≤ 3
    → IsOpen config ⊎ ((config ≡ some 2) ⊎ (config ≡ some 3))
IsOpen-cases none h = inl no_config
IsOpen-cases (some zero) h = inl wants_auto
IsOpen-cases (some (suc zero)) h = inl wants_dx12
IsOpen-cases (some (suc (suc zero))) h = inr (inl refl)
IsOpen-cases (some (suc (suc (suc zero)))) h = inr (inr refl)
IsOpen-cases (some (suc (suc (suc (suc n))))) h = absurd (omega arith)

IsOpen-number : (config : Option ℕ) → IsOpen config → requested_of config ≤ 1
IsOpen-number none no_config = omega arith
IsOpen-number (some zero) wants_auto = omega arith
IsOpen-number (some (suc zero)) wants_dx12 = omega arith
IsOpen-number (some (suc (suc n))) o = elim o [ ]

selected :
    (m : DeviceManager) (config : Option ℕ)
    → requested_of config ≤ 3
    → ((has_dx12_device m ≡ true) × HasDx12 m.devices)
      ⊎ ((has_dx12_device m ≡ false) × (¬ HasDx12 m.devices))
    → Selects m.devices config (select_backend windows m (requested_of config)).0
unfolding select_backend
selected m config small found = elim (IsOpen-cases config small) [
  | inl open_config ↦
      let asked = IsOpen-number config open_config in
      let no_cpu : (requested_of config == cpu) ≡ false = ground (arith, asked) in
      let no_hip : (requested_of config == hip) ≡ false = ground (arith, asked) in
      rw (no_cpu, no_hip)
        (elim found [
          | inl (e, has) ↦ rw e (card open_config has)
          | inr (e, has) ↦ rw e (no_card open_config has)
        ])
  | inr (inl e) ↦ rw e wants_hip
  | inr (inr e) ↦ rw e wants_cpu
]

-- The list is that of the machine, the backend is right for it, and both are reported.
abbrev pub IsSelected : RuntimeEnv → Option ℕ → Runtime → Type 0
IsSelected env config r =
    (r.devices ≡ fill_manager windows env.manager.dxgi)
    × Selects r.devices.devices config r.selected_backend
    × ((info : RuntimeInfo) × (dx_runtime_get_info r 52 ≡ (pos 0, some info))
        × (info.selected_backend ≡ r.selected_backend)
        × (info.device_count ≡ length r.devices.devices))

-- On Windows, a runtime that `dx_runtime_create` returned, with any configuration or none, lists the devices of
-- the machine and has selected the CPU or HIP if the caller prefers that. HIP is selected whatever devices are
-- there. Otherwise, with a preference for Direct3D 12, for AUTO or without a configuration, it has selected
-- Direct3D 12 if a device of that stands in its list, and the CPU if none does; `dx_runtime_get_info` reports that
-- backend and the number of the devices. The devices are fewer than 2 ^ 32.
pub select-create :
    (env : RuntimeEnv) (config : Option ℕ) (r : Runtime)
    → dx_runtime_create windows env config ≡ (pos 0, some r)
    → length (fill_manager windows env.manager.dxgi).devices < u32_mod
    → IsSelected env config r
unfolding make_runtime dx_runtime_get_info dx_device_manager_count
select-create env config r e small =
    let (known, made) = create-with_logger env config r e in
    let m = fill_manager windows env.manager.dxgi in
    let found = HasDx12-cases m (fill_manager-IsManager windows env.manager.dxgi) small in
    subst (IsSelected env config) (sym made.1)
      (refl, selected m config known found, (_, refl, refl, omega (arith, small)))
