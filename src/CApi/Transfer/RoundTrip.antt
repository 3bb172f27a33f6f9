-- ===== src/CApi/Transfer/RoundTrip.antt =====
-- Uploads and downloads of buffers of src/core/dx_c_api.cpp: what is read back, and what is left alone.
use dx_ai_st.Base.{
  ℕ, zero, suc, ◌≡◌, refl, sym, ap, ◌∙◌, subst, inl, inr, Option, none, some, List, ◌++◌, ℤ, pos,
  arith, Bool-cases, if◌then◌else◌, ◌==◌, ==_refl, length, drop,
}
use dx_ai_st.Base.Table.{find, find-assign}
use dx_ai_st.Memory.{Platform, Allocation, range_valid}
use dx_ai_st.Memory.Transfer.{CopyEnv, Copied, dx_memory_upload, dx_memory_download}
use dx_ai_st.Memory.Transfer.RoundTrip.{download-upload}
use dx_ai_st.CApi.{CDevice, CBuffer}
use dx_ai_st.CApi.Transfer.{
  upload_texts, download_texts, Transferred, buffer_object, dx_memory_size, set_object, Texts,
  transfer_result, finish_transfer, has_device, refuse_transfer, dx_upload, dx_download,
}

transfer_zero : (texts : Texts) (c : ℤ) → (transfer_result texts c).0 ≡ pos 0 → c ≡ pos 0
unfolding transfer_result
transfer_zero texts (pos zero) e = refl
transfer_zero texts (pos (suc n)) e = absurd (ground arith)
transfer_zero texts (ℤ.negsuc zero) e = absurd (ground arith)
transfer_zero texts (ℤ.negsuc (suc zero)) e = absurd (ground arith)
transfer_zero texts (ℤ.negsuc (suc (suc zero))) e = absurd (ground arith)
transfer_zero texts (ℤ.negsuc (suc (suc (suc n)))) e = absurd (ground arith)

-- What a transfer of the memory interface did, when the C interface returns 0.
abbrev Did : Option Copied → CDevice → ℕ → Transferred → Type 0
Did o device h u =
    (c : Copied) × (o ≡ some c)
    × (c.code ≡ pos 0)
    × (u.device ≡ set_object device (some h) c.allocation)
    × (u.bytes ≡ c.buffer)

finish-Did :
    (texts : Texts) (device : CDevice) (h : ℕ) (bytes : List ℕ) (o : Option Copied)
    → (finish_transfer texts device (some h) bytes o).code ≡ pos 0
    → Did o device h (finish_transfer texts device (some h) bytes o)
unfolding finish_transfer
finish-Did texts device h bytes none e = absurd (ground arith)
finish-Did texts device h bytes (some c) e = (c, refl, transfer_zero texts c.code e, refl, refl)

module _ (platform : Platform) (env : CopyEnv) (device : CDevice) (b : CBuffer) (offset : ℕ)
    (s : List ℕ) (n h : ℕ) (a : Allocation) (u : Transferred) (handle : b.allocation ≡ some h)
    (object : find h device.memory.allocations ≡ some a) where
  upload-Did :
      dx_upload platform env device b offset s n ≡ some u
      → u.code ≡ pos 0
      → Did
          (dx_memory_upload platform env
            (some (has_device device.memory))
            (some a)
            offset
            (some s)
            n)
          device
          h
          u
  unfolding dx_upload buffer_object dx_memory_size refuse_transfer
  upload-Did e c = elim (Bool-cases (b.device == device.address)) [
    | inr f ↦ absurd (ground (arith, f, e, c))
    | inl f ↦ elim (Bool-cases (range_valid a.bytes offset n)) [
      | inr g ↦ absurd (ground (arith, f, g, e, c, handle, object))
      | inl g ↦
          let r = finish_transfer upload_texts device (some h) s (
            dx_memory_upload platform env (some (has_device device.memory)) (some a) offset (some s)
              n) in
          let same : r ≡ u = ground (arith, f, g, e, handle, object) in
          subst
            (Did
              (dx_memory_upload platform env (some (has_device device.memory)) (some a) offset
                (some s) n)
              device h)
            same (finish-Did upload_texts device h s _ (rw same c))
    ]
  ]

  download-Did :
      dx_download platform env device b offset s n ≡ some u
      → u.code ≡ pos 0
      → Did
          (dx_memory_download platform env
            (some (has_device device.memory))
            (some a)
            offset
            (some s)
            n)
          device
          h
          u
  unfolding dx_download buffer_object dx_memory_size refuse_transfer
  download-Did e c = elim (Bool-cases (b.device == device.address)) [
    | inr f ↦ absurd (ground (arith, f, e, c))
    | inl f ↦ elim (Bool-cases (range_valid a.bytes offset n)) [
      | inr g ↦ absurd (ground (arith, f, g, e, c, handle, object))
      | inl g ↦
          let r = finish_transfer download_texts device (some h) s (
            dx_memory_download platform env (some (has_device device.memory)) (some a) offset
              (some s) n) in
          let same : r ≡ u = ground (arith, f, g, e, handle, object) in
          subst
            (Did
              (dx_memory_download platform env (some (has_device device.memory)) (some a) offset
                (some s) n)
              device h)
            same (finish-Did download_texts device h s _ (rw same c))
    ]
  ]

find-set_object :
    (device : CDevice) (h j : ℕ) (c : Allocation)
    → find j (set_object device (some h) c).memory.allocations
      ≡ (if h == j then some c else find j device.memory.allocations)
unfolding set_object
find-set_object device h j c = find-assign h j c device.memory.allocations

-- If an upload of the whole of `s` into a buffer returns 0, and then a download of as many bytes from the
-- same offset returns 0, the bytes of `s` stand at the start of the destination and the rest of it is as it
-- was. The buffer's handle stands in the pool, and its object holds as many bytes as it says.
pub download-upload_buffer :
    (platform : Platform) (env env' : CopyEnv) (device : CDevice) (b : CBuffer) (offset : ℕ)
    (s t : List ℕ) (h : ℕ) (a : Allocation) (u v : Transferred)
    → b.allocation ≡ some h
    → find h device.memory.allocations ≡ some a
    → length a.contents ≡ a.bytes
    → dx_upload platform env device b offset s (length s) ≡ some u
    → u.code ≡ pos 0
    → dx_download platform env' u.device b offset t (length s) ≡ some v
    → v.code ≡ pos 0
    → v.bytes ≡ s ++ drop (length s) t
unfolding set_object has_device
download-upload_buffer platform env env' device b offset s t h a u v eb ea len eu cu ev cv =
    let (c, up, zero_up, moved, got) =
      upload-Did platform env device b offset s (length s) h a u eb ea eu cu in
    let there : find h u.device.memory.allocations ≡ some c.allocation =
      ap (λ (d : CDevice). find h d.memory.allocations) moved
      ∙ find-set_object device h h c.allocation
      ∙ rw (==_refl h) in
    let (d, down, zero_down, moved', got') =
      download-Did platform env' u.device b offset t (length s) h c.allocation v eb there ev cv in
    let device_same : has_device u.device.memory ≡ has_device device.memory =
      ap (λ (d : CDevice). has_device d.memory) moved in
    got'
    ∙ download-upload platform env env' (has_device device.memory) a offset s t c d len up zero_up
        (ap
            (λ x.
              dx_memory_download platform env' (some x) (some c.allocation) offset (some t)
                (length s))
            (sym device_same)
          ∙ down)
        zero_down
