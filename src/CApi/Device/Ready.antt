-- ===== src/CApi/Device/Ready.antt =====
-- Devices that `dx_create_device` of src/core/dx_c_api.cpp makes, and their queues.
use dx_ai_st.Base.{
  ℕ, zero, suc, ◌+◌, ◌≤◌, ◌<◌, ◌≡◌, refl, inl, inr, true, false, none, some, List, [], ◌∷◌, pos,
  minus, u32_mod, arith, Bool-cases, Option-cases, ◌%◌, leb, length, get_elem?,
}
use dx_ai_st.Memory.{
  windows, new_pool, dx_memory_pool_create, dx_memory_pool_create_for_native_device,
  create_pool_internal, is_zero,
}
use dx_ai_st.Memory.History.{IsExact, new_pool-IsExact}
use dx_ai_st.Device.{
  AdapterDesc, DeviceInfo, DeviceManager, ExecutionDevice, adapter_info, cpu_info, dx12_backend,
  cpu_backend, fill_manager, dx_device_manager_create, dx_device_manager_count,
  dx_device_manager_get_info, dx_execution_device_native_handle,
}
use dx_ai_st.Device.Listed.{cards, card_at, cpu_at, past, place, length-cards, open_card, open_cpu}
use dx_ai_st.CApi.{
  cleared, create_device_index, create_device_open, CDevice, component_result, not_found,
}
use dx_ai_st.CApi.Device.{
  DeviceEnv, c_info, create_object, create_pool, with_execution, with_info, with_manager,
  dx_create_device, failure, Answer,
}

-- A device on a card: it runs on the card's adapter, its pool allocates there, and it is described as DXGI
-- describes that card.
pub record IsOnCard (d : CDevice) (card : AdapterDesc) : Type 0 where
  pub exact : IsExact d.memory
  pub runs : d.execution ≡ record { backend = 1; dx12_device = some card.adapter }
  pub allocates : d.memory.device ≡ some card.adapter
  pub backend : d.info.backend ≡ 1
  pub vendor_id : d.info.vendor_id ≡ card.vendor_id
  pub device_id : d.info.device_id ≡ card.device_id
  pub video_memory : d.info.dedicated_video_memory ≡ card.video_memory
  pub system_memory : d.info.dedicated_system_memory ≡ card.system_memory
  pub shared_memory : d.info.shared_system_memory ≡ card.shared_memory
  pub name : d.info.name ≡ card.name
  pub hardware : d.info.is_software ≡ 0

-- A device on the CPU.
pub record IsOnCpu (d : CDevice) : Type 0 where
  pub exact : IsExact d.memory
  pub runs : d.execution ≡ record { backend = 2; dx12_device = none }
  pub allocates : d.memory.device ≡ none
  pub backend : d.info.backend ≡ 2
  pub software : d.info.is_software ≡ 1

-- The memory for a device object and its parts is there, and so are the loggers.
pub record IsEnough (env : DeviceEnv) : Type 0 where
  pub manager : env.manager.memory ≡ true
  pub logger : env.manager.logger ≡ true
  pub opens : env.opens ≡ true
  pub pool_memory : env.pool_memory ≡ true
  pub pool_logger : env.pool_logger ≡ pos 0
  pub object : (p : ℕ) × (env.object ≡ some p)

-- A device made for an execution device, with a pool on the same hardware.
abbrev device_for : ℕ → DeviceInfo → ExecutionDevice → CDevice
device_for p info execution = record {
  address = p;
  execution = execution;
  memory = new_pool windows execution.dx12_device;
  info = c_info info;
}

with_execution-made :
    (env : DeviceEnv) (w : IsEnough env) (info : DeviceInfo) (execution : ExecutionDevice)
    → with_execution windows env info execution
      ≡ (pos 0, cleared, some (device_for w.object.0 info execution))
unfolding with_execution create_pool create_object dx_execution_device_native_handle
    dx_memory_pool_create create_pool_internal is_zero dx_memory_pool_create_for_native_device
with_execution-made env w info execution = elim (Option-cases execution.dx12_device) [
  | inl e ↦ ground (arith, e, w.pool_memory, w.pool_logger, w.object.1)
  | inr (a, e) ↦ ground (arith, e, w.pool_memory, w.pool_logger, w.object.1)
]

-- What `dx_create_device` gives at an index, on a machine with cards.
pub data Outcome (env : DeviceEnv) (index : ℕ) : Answer CDevice → Type 0 where
  on_card :
      (card : AdapterDesc) (d : CDevice)
      → get_elem? (cards env.manager.dxgi) index ≡ some card
      → env.creates card.adapter ≡ true
      → IsOnCard d card
      → Outcome env index (pos 0, cleared, some d)
  refused :
      (card : AdapterDesc)
      → get_elem? (cards env.manager.dxgi) index ≡ some card
      → env.creates card.adapter ≡ false
      → Outcome env index (minus 4, create_device_open, none)
  on_cpu :
      (d : CDevice)
      → index ≡ length (cards env.manager.dxgi)
      → IsOnCpu d
      → Outcome env index (pos 0, cleared, some d)
  no_device :
      length (cards env.manager.dxgi) < index
      → Outcome env index (minus 2, create_device_index, none)

card-Outcome :
    (env : DeviceEnv) (m : DeviceManager) (index : ℕ) (card : AdapterDesc)
    → IsEnough env
    → get_elem? (cards env.manager.dxgi) index ≡ some card
    → get_elem? m.devices index ≡ some (adapter_info card)
    → get_elem? m.adapters index ≡ some card.adapter
    → Outcome env index (with_info windows env m index (adapter_info card))
unfolding failure component_result new_pool with_info
card-Outcome env m index card w e f g =
    let opened = open_card env.creates m index card f g in
    elim (Bool-cases (env.creates card.adapter)) [
      | inl c ↦
          let execution : ExecutionDevice = record {
            backend = dx12_backend;
            dx12_device = some card.adapter;
          } in
          simp (w.opens, opened, c, with_info, with_execution-made env w (adapter_info card))
            (on_card card (device_for w.object.0 (adapter_info card) execution) e c (record {
              exact = new_pool-IsExact windows (some card.adapter);
              runs = refl;
              allocates = refl;
              backend = refl;
              vendor_id = refl;
              device_id = refl;
              video_memory = refl;
              system_memory = refl;
              shared_memory = refl;
              name = refl;
              hardware = refl;
            }))
      | inr c ↦ simp (w.opens, opened, c, with_info) (refused card e c)
    ]

cpu-Outcome :
    (env : DeviceEnv) (m : DeviceManager) (index : ℕ)
    → IsEnough env
    → index ≡ length (cards env.manager.dxgi)
    → get_elem? m.devices index ≡ some cpu_info
    → Outcome env index (with_info windows env m index cpu_info)
unfolding failure component_result new_pool with_info
cpu-Outcome env m index w e f =
    let opened = open_cpu env.creates m index f in
    let execution : ExecutionDevice = record { backend = cpu_backend; dx12_device = none } in
    simp (w.opens, opened, with_info, with_execution-made env w cpu_info)
      (on_cpu (device_for w.object.0 cpu_info execution) e (record {
        exact = new_pool-IsExact windows none;
        runs = refl;
        allocates = refl;
        backend = refl;
        software = refl;
      }))

with_manager-inside :
    (env : DeviceEnv) (m : DeviceManager) (index : ℕ) (info : DeviceInfo)
    → length m.devices < u32_mod
    → index < length m.devices
    → get_elem? m.devices index ≡ some info
    → with_manager windows env index m ≡ with_info windows env m index info
unfolding with_manager dx_device_manager_count dx_device_manager_get_info
with_manager-inside env m index info small h e =
    let inside : leb (length m.devices % u32_mod) index ≡ false = ground arith in
    simp (inside, e, with_manager, dx_device_manager_get_info) refl

create_device-with_manager :
    (env : DeviceEnv) (index : ℕ)
    → IsEnough env
    → dx_create_device windows env index
      ≡ with_manager windows env index (fill_manager windows env.manager.dxgi)
unfolding dx_create_device dx_device_manager_create
create_device-with_manager env index w =
    simp (w.manager, w.logger, dx_create_device, dx_device_manager_create) refl

with_manager-past :
    (env : DeviceEnv) (m : DeviceManager) (index : ℕ)
    → length m.devices < u32_mod
    → length m.devices ≤ index
    → with_manager windows env index m ≡ (not_found, create_device_index, none)
unfolding with_manager dx_device_manager_count
with_manager-past env m index small h = ground arith

get_elem?-lt {ℓ} :
    {A : Type ℓ} {n : ℕ} (xs : List A) (i : ℕ) (x : A)
    → get_elem? xs i ≡ some x
    → n ≡ length xs + 1
    → i < n
get_elem?-lt [] i x e h = absurd (ground (arith, e))
get_elem?-lt (y ∷ xs) zero x e h = omega (arith, h)
get_elem?-lt {n = n} (y ∷ xs) (suc i) x e h =
    let rest = get_elem?-lt {n = length xs + 1} xs i x e refl in omega (arith, h, rest)

-- On Windows, where memory and loggers suffice, an index of `dx_create_device` counts the hardware adapters in
-- the order of DXGI, and the CPU behind them. At the index of an adapter it returns 0 and a device that runs on
-- this adapter, whose pool is exact and allocates on it, and that is described as DXGI describes it; or, where
-- `D3D12CreateDevice` fails on it, -4 and no device. Behind the adapters it returns a device on the CPU, and at
-- any further index -2 and no device. The devices are fewer than 2 ^ 32.
pub create_device-Outcome :
    (env : DeviceEnv) (index : ℕ)
    → IsEnough env
    → length (fill_manager windows env.manager.dxgi).devices < u32_mod
    → Outcome env index (dx_create_device windows env index)
create_device-Outcome env index w small =
    let m = fill_manager windows env.manager.dxgi in
    let same = create_device-with_manager env index w in
    let count = length-cards env.manager.dxgi in
    elim (place env.manager.dxgi index) [
      | card_at card e f g ↦
          rw
            (
              same,
              with_manager-inside env m index (adapter_info card) small
                  (get_elem?-lt (cards env.manager.dxgi) index card e count) f,
            )
            (card-Outcome env m index card w e f g)
      | cpu_at e f ↦
          rw (same, with_manager-inside env m index cpu_info small (omega (arith, e, count)) f)
            (cpu-Outcome env m index w e f)
      | past h ↦
          rw (same, with_manager-past env m index small (omega (arith, h, count))) (no_device h)
    ]
