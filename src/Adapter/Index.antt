-- ===== src/Adapter/Index.antt =====
-- Which adapter an index of src/dxadapter/dxadapter.cpp means.
use dx_ai_st.Base.{
  ℕ, zero, suc, ◌≤◌, ◌<◌, ◌≡◌, refl, ap, ◌∙◌, ◌↔◌, true, false, none, some, List, [], ◌∷◌, arith,
  get_elem?, Option-cases, inl, inr,
}
use dx_ai_st.Device.{AdapterDesc}
use dx_ai_st.Adapter.{
  amd_rdna2, is_rdna2, classify_gpu_architecture, Libraries, Probed, AdapterCaps,
  arch_conditional_create_device, adapter_caps, probe, enumerate_loop, enumerate, create_device,
}

-- An adapter that `enumerate` keeps, with its entry.
pub record IsKept (libraries : Libraries) (p : Probed) (c : AdapterCaps) : Type 0 where
  pub desc : AdapterDesc
  pub described : p.desc ≡ some desc
  pub hardware : desc.software ≡ false
  pub works : arch_conditional_create_device libraries p ≡ true
  pub entry : c ≡ adapter_caps p desc

probe-IsKept :
    (libraries : Libraries) (p : Probed) (c : AdapterCaps)
    → probe libraries p ≡ some c
    → IsKept libraries p c
unfolding probe
probe-IsKept libraries p c e = elim (Option-cases p.desc) [
  | inl n ↦ absurd (ground (arith, n, e))
  | inr (d, n) ↦ record {
    desc = d;
    described = n;
    hardware = ground (arith, n, e);
    works = ground (arith, n, e);
    entry = ground (arith, n, e);
  }
]

-- The adapter that an entry comes from stands no earlier in the list.
abbrev pub Source : Libraries → List Probed → ℕ → AdapterCaps → Type 0
Source libraries adapters i c =
    (j : ℕ) × (p : Probed) × (i ≤ j) × (get_elem? adapters j ≡ some p) × IsKept libraries p c

kept_here :
    (libraries : Libraries) (a : Probed) (adapters : List Probed) (i : ℕ) (c d : AdapterCaps)
    → ((k : ℕ)
        → get_elem? (enumerate_loop libraries adapters) k ≡ some c
        → Source libraries adapters k c)
    → probe libraries a ≡ some d
    → get_elem? (enumerate_loop libraries (a ∷ adapters)) i ≡ some c
    → Source libraries (a ∷ adapters) i c
unfolding enumerate_loop
kept_here libraries a adapters zero c d rest n e =
    let same : d ≡ c = ground (arith, n, e) in
    (0, a, omega arith, refl, probe-IsKept libraries a c (n ∙ ap some same))
kept_here libraries a adapters (suc i) c d rest n e =
    let (j, p, l, g, k) = rest i (ground (arith, n, e)) in (suc j, p, omega (arith, l), g, k)

loop-Source :
    (libraries : Libraries) (adapters : List Probed) (i : ℕ) (c : AdapterCaps)
    → get_elem? (enumerate_loop libraries adapters) i ≡ some c
    → Source libraries adapters i c
unfolding enumerate_loop
loop-Source libraries [] i c e = absurd (ground arith)
loop-Source libraries (a ∷ adapters) i c e = elim (Option-cases (probe libraries a)) [
  | inl n ↦
      let (j, p, l, g, k) = loop-Source libraries adapters i c (ground (arith, n, e)) in
      (suc j, p, omega (arith, l), g, k)
  | inr (d, n) ↦ kept_here libraries a adapters i c d (λ k. loop-Source libraries adapters k c) n e
]

-- No two adapters are the same.
abbrev pub AreApart : List Probed → Type 0
AreApart adapters =
    (j k : ℕ) (p q : Probed)
    → get_elem? adapters j ≡ some p
    → get_elem? adapters k ≡ some q
    → p.adapter ≡ q.adapter
    → j ≡ k

-- The index of `enumerate` is not the index of `create_device`: where the first adapter gets no entry, be it a
-- software adapter or one on which no device can be made, each entry describes an adapter further back, and
-- `create_device` with the entry's index makes no device on that adapter. The adapters differ from each other.
pub create_device-Source :
    (libraries : Libraries) (first : Probed) (rest : List Probed) (i : ℕ) (c : AdapterCaps)
    → AreApart (first ∷ rest)
    → probe libraries first ≡ none
    → get_elem? (enumerate libraries (some (first ∷ rest))) i ≡ some c
    → (j : ℕ) × (p : Probed) × (i < j)
      × (get_elem? (first ∷ rest) j ≡ some p)
      × IsKept libraries p c
      × ¬ (create_device (some (first ∷ rest)) i ≡ some p.adapter)
unfolding enumerate enumerate_loop create_device
create_device-Source libraries first rest i c apart n e =
    let (j, p, l, g, k) = loop-Source libraries rest i c (ground (arith, n, e)) in
    (
      suc j,
      p,
      omega (arith, l),
      g,
      k,
      λ opened. elim (Option-cases (get_elem? (first ∷ rest) i)) [
        | inl m ↦ absurd (ground (arith, m, opened))
        | inr (q, m) ↦
            absurd (omega (arith, l, apart i (suc j) q p m g (ground (arith, m, opened))))
      ],
    )

-- A graphics card gets the system's Direct3D and not the Agility SDK just where it is taken for RDNA2.
pub is_rdna2-classify :
    (vendor_id device_id : ℕ)
    → (is_rdna2 vendor_id device_id ≡ true)
      ↔ (classify_gpu_architecture vendor_id device_id ≡ amd_rdna2)
unfolding is_rdna2 classify_gpu_architecture
is_rdna2-classify vendor_id device_id = ground arith
