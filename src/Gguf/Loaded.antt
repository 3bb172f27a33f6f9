-- ===== src/Gguf/Loaded.antt =====
-- What a loader of src/dxmodel/dxmodel.cpp holds after a file, read off the descriptors alone.
use dx_ai_st.Base.{
  ℕ, zero, suc, ◌≡◌, refl, ap, sym, ◌∙◌, ◌⊎◌, inl, inr, true, false, Option, none, some, List, [],
  ◌∷◌, if◌then◌else◌, arith, get_or, Bool-cases,
}
use dx_ai_st.Base.Text.{Text, same_text, same_text_refl, same_text_eq}
use dx_ai_st.Gguf.Names.{
  mtp, speculative, kv_a, kv_b, q_a, deepseek_v3_mtp, deepseek_v3_mla, transformer_gqa,
}
use dx_ai_st.Gguf.Load.{
  TensorDataType, fp16, q8_0, q4_0, gguf, gqa, mla, multi_token, TensorInfo, ModelArchConfig,
  ModelLoader, Scan, data_type, put_tensor, note_tensor, choose_arch, finish_load,
}
use dx_ai_st.Gguf.Format.{Descriptor}
use dx_ai_st.Gguf.Descriptors.{meant, note_all}
use dx_ai_st.Gguf.Contains.{
  Tells, Tells-or, Tells-iff, swap_in, swap_out, nothing_new, from_nothing, two_parts, parts_two,
  three_parts, parts_three, Contains, has_part-Contains,
}

-- The types that the loader gives to the numbers 0 to 7; every other number is a half float to it.
abbrev pub type_table : List TensorDataType
type_table = fp16 ∷ fp16 ∷ q4_0 ∷ fp16 ∷ fp16 ∷ fp16 ∷ fp16 ∷ q8_0 ∷ []

unfoldable pub type_at : ℕ → TensorDataType
type_at n = get_or type_table n fp16

-- What is held under a name.
abbrev pub held_as : Text → List (Text × TensorInfo) → Option TensorInfo
held_as name [] = none
held_as name ((other, info) ∷ rest) = if same_text other name then some info else held_as name rest

-- The last descriptor of a name counts, and what was held before where there is none.
abbrev pub last_of : Text → List Descriptor → Option TensorInfo → Option TensorInfo
last_of name [] old = old
last_of name (t ∷ ts) old = last_of name ts (
    if same_text t.name name
    then some (record {
      name = t.name;
      type = type_at t.ggml_type;
      dims = t.dims;
      offset_bytes = t.offset;
    })
    else old)

-- One of the parts stands in a name, and in a name of the descriptors.
abbrev pub HasOne : List Text → Text → Type 0
HasOne [] name = ⊥
HasOne (part ∷ parts) name = Contains part name ⊎ HasOne parts name

abbrev pub AnyHasOne : List Text → List Descriptor → Type 0
AnyHasOne parts [] = ⊥
AnyHasOne parts (t ∷ ts) = HasOne parts t.name ⊎ AnyHasOne parts ts

abbrev pub mtp_parts : List Text
mtp_parts = mtp ∷ speculative ∷ []

abbrev pub mla_parts : List Text
mla_parts = kv_a ∷ kv_b ∷ q_a ∷ []

-- The architecture that the names of the tensors tell, and the fields that it sets.
pub data IsArch (ts : List Descriptor) (old new : ModelArchConfig) : Type 0 where
  predicts :
      AnyHasOne mtp_parts ts
      → new ≡ record old {
        arch_name = deepseek_v3_mtp;
        attention_type = multi_token;
        num_mtp_depth = 1;
      }
      → IsArch ts old new
  latent :
      ¬ AnyHasOne mtp_parts ts
      → AnyHasOne mla_parts ts
      → new
        ≡ record old { arch_name = deepseek_v3_mla; attention_type = mla; kv_compressed_dim = 512 }
      → IsArch ts old new
  grouped :
      ¬ AnyHasOne mtp_parts ts
      → ¬ AnyHasOne mla_parts ts
      → new ≡ record old { arch_name = transformer_gqa; attention_type = gqa }
      → IsArch ts old new

pub record IsLoaded (ts : List Descriptor) (old new : ModelLoader) : Type 0 where
  pub format : new.format ≡ gguf
  pub filepath : new.filepath ≡ old.filepath
  pub tensors :
      (name : Text) → held_as name new.tensors ≡ last_of name ts (held_as name old.tensors)
  pub arch : IsArch ts old.arch_config new.arch_config

data_type-type_at : (n : ℕ) → data_type n ≡ type_at n
unfolding data_type type_at
data_type-type_at zero = refl
data_type-type_at (suc zero) = refl
data_type-type_at (suc (suc zero)) = refl
data_type-type_at (suc (suc (suc zero))) = refl
data_type-type_at (suc (suc (suc (suc zero)))) = refl
data_type-type_at (suc (suc (suc (suc (suc zero))))) = refl
data_type-type_at (suc (suc (suc (suc (suc (suc zero)))))) = refl
data_type-type_at (suc (suc (suc (suc (suc (suc (suc zero))))))) = refl
data_type-type_at (suc (suc (suc (suc (suc (suc (suc (suc n)))))))) = ground arith

-- Names that are the same as a third are the same.
same_text_trans : (a b c : Text) → same_text a b ≡ true → same_text a c ≡ same_text b c
same_text_trans a b c e = ap (λ s. same_text s c) (same_text_eq a b e)

held_as-put_tensor :
    (name n : Text) (info : TensorInfo) (m : List (Text × TensorInfo))
    → held_as n (put_tensor name info m) ≡ (if same_text name n then some info else held_as n m)
unfolding put_tensor
held_as-put_tensor name n info [] = refl
held_as-put_tensor name n info ((other, old) ∷ m) = elim (Bool-cases (same_text other name)) [
  | inl e ↦ let f = same_text_trans other name n e in ground (arith, e, f)
  | inr e ↦ elim (Bool-cases (same_text other n)) [
    | inr f ↦ rw (e, f) (held_as-put_tensor name n info m)
    | inl f ↦ elim (Bool-cases (same_text name n)) [
      | inr g ↦ rw (e, f, g) (refl)
      | inl g ↦
          let apart = same_text_eq other n f ∙ sym (same_text_eq name n g) in
          absurd (ground (arith, e, same_text_refl name, ap (λ s. same_text s name) apart))
    ]
  ]
]

held_as-note_all :
    (ts : List Descriptor) (scan : Scan) (name : Text)
    → held_as name (note_all ts scan).tensors ≡ last_of name ts (held_as name scan.tensors)
unfolding note_all note_tensor
held_as-note_all [] scan name = refl
held_as-note_all (t ∷ ts) scan name =
    held_as-note_all ts (note_tensor (meant t) scan) name
    ∙ ap (last_of name ts) (
        held_as-put_tensor t.name name (meant t) scan.tensors
        ∙ ap
            (λ k.
              if same_text t.name name
              then some (record { name = t.name; type = k; dims = t.dims; offset_bytes = t.offset })
              else held_as name scan.tensors)
            (data_type-type_at t.ggml_type))

-- Both flags after the descriptors, from flags that are off.
abbrev Flags : List Descriptor → Scan → Type 0 → Type 0 → Type 0
Flags ts scan P Q =
    Tells (note_all ts scan).has_mtp_layers (AnyHasOne mtp_parts ts ⊎ P)
    × Tells (note_all ts scan).has_mla_tensors (AnyHasOne mla_parts ts ⊎ Q)

flags_lem :
    (ts : List Descriptor) (scan : Scan) {P Q : Type 0}
    → Tells scan.has_mtp_layers P
    → Tells scan.has_mla_tensors Q
    → Flags ts scan P Q
unfolding note_all note_tensor
flags_lem [] scan p q = (Tells-iff nothing_new from_nothing p, Tells-iff nothing_new from_nothing q)
flags_lem (t ∷ ts) scan p q =
    let mtp_here = Tells-iff two_parts parts_two (
      Tells-or (Tells-or (has_part-Contains mtp t.name) (has_part-Contains speculative t.name))
        p) in
    let mla_here = Tells-iff three_parts parts_three (
      Tells-or
        (Tells-or (Tells-or (has_part-Contains kv_a t.name) (has_part-Contains kv_b t.name))
          (has_part-Contains q_a t.name))
        q) in
    let rest = flags_lem ts (note_tensor (meant t) scan) mtp_here mla_here in
    (Tells-iff swap_in swap_out rest.0, Tells-iff swap_in swap_out rest.1)

choose_arch-IsArch :
    (ts : List Descriptor) (scan : Scan) (old : ModelArchConfig)
    → Tells scan.has_mtp_layers (AnyHasOne mtp_parts ts)
    → Tells scan.has_mla_tensors (AnyHasOne mla_parts ts)
    → IsArch ts old (choose_arch scan old)
unfolding choose_arch
choose_arch-IsArch ts scan old (inl (e, p)) q = rw e (predicts p refl)
choose_arch-IsArch ts scan old (inr (e, n)) (inl (f, q)) = rw (e, f) (latent n q refl)
choose_arch-IsArch ts scan old (inr (e, n)) (inr (f, m)) = rw (e, f) (grouped n m refl)

no_flag : {P : Type 0} → P ⊎ ⊥ → P
no_flag (inl p) = p
no_flag (inr x) = absurd x

-- What the loader keeps at the end of the descriptors is what they say.
pub finish_load-IsLoaded :
    (ts : List Descriptor) (old : ModelLoader) (scan : Scan)
    → scan.tensors ≡ old.tensors
    → scan.has_mtp_layers ≡ false
    → scan.has_mla_tensors ≡ false
    → ((finish_load old (note_all ts scan)).0 ≡ true)
      × IsLoaded ts old (finish_load old (note_all ts scan)).1
unfolding finish_load
finish_load-IsLoaded ts old scan same p q =
    let off = λ (x : ⊥). x in
    let flags = flags_lem ts scan {P = ⊥} {Q = ⊥} (inr (p, off)) (inr (q, off)) in
    (
      refl,
      record {
        format = refl;
        filepath = refl;
        tensors =
            λ name. held_as-note_all ts scan name ∙ ap (λ m. last_of name ts (held_as name m)) same;
        arch =
            choose_arch-IsArch ts (note_all ts scan) old.arch_config (Tells-iff no_flag inl flags.0)
              (Tells-iff no_flag inl flags.1);
      },
    )
