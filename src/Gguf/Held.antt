-- ===== src/Gguf/Held.antt =====
-- That some bytes stand at an offset of a file, and the reads of src/dxmodel/dxmodel.cpp there.
use dx_ai_st.Base.{
  ℕ, zero, suc, ◌+◌, ◌/◌, ◌%◌, ◌<◌, ◌≤◌, ◌≡◌, refl, sym, ap, ◌∙◌, ◌^◌, subst, List, ◌++◌,
  append_assoc, arith, leb, ltb, true, false, u32_mod, u64_mod, length, take, drop, length-append,
  length-drop, drop-drop, take_past, drop_past,
}
use dx_ai_st.Base.Text.{Text}
use dx_ai_st.Gguf.{ok, le, read_le, string_at, read_gguf_string, max_string, skip_string}
use dx_ai_st.Gguf.Format.{le_bytes, string_bytes}

-- The bytes stand in the file from the offset on.
abbrev pub Held : List ℕ → ℕ → List ℕ → Type 0
Held file offset bytes = (rest : List ℕ) × (drop offset file ≡ bytes ++ rest)

pub Held-within :
    (file bytes : List ℕ) (offset : ℕ)
    → Held file offset bytes
    → 0 < length bytes
    → offset + length bytes ≤ length file
Held-within file bytes offset (rest, e) h =
    omega (arith, length-drop offset file, length-append bytes rest, ap (length {A = ℕ}) e)

pub Held-front : (file a b : List ℕ) (offset : ℕ) → Held file offset (a ++ b) → Held file offset a
Held-front file a b offset (rest, e) = (b ++ rest, e ∙ append_assoc a b rest)

pub Held-back :
    (file a b : List ℕ) (offset : ℕ) → Held file offset (a ++ b) → Held file (offset + length a) b
Held-back file a b offset (rest, e) = (
  rest,
  sym (drop-drop offset (length a) file)
      ∙ (ap (drop (length a)) (e ∙ append_assoc a b rest)
          ∙ drop_past (length a) a (b ++ rest) refl),
)

pub take-Held :
    (file bytes : List ℕ) (offset : ℕ)
    → Held file offset bytes
    → take (length bytes) (drop offset file) ≡ bytes
take-Held file bytes offset (rest, e) =
    ap (take (length bytes)) e ∙ take_past (length bytes) bytes rest refl

pub length-le_bytes : (n x : ℕ) → length (le_bytes n x) ≡ n
unfolding le_bytes
length-le_bytes zero x = refl
length-le_bytes (suc n) x = ap suc (length-le_bytes n (x / 256))

-- That a number has at most `n` bytes.
abbrev pub IsBelow : ℕ → ℕ → Type 0
IsBelow zero x = x ≡ 0
IsBelow (suc n) x = IsBelow n (x / 256)

pub le-le_bytes : (n x : ℕ) → IsBelow n x → le (le_bytes n x) ≡ x
unfolding le le_bytes
le-le_bytes zero x h = sym h
le-le_bytes (suc n) x h = omega (arith, le-le_bytes n (x / 256) h)

pub u32-IsBelow : (x : ℕ) → x < u32_mod → IsBelow 4 x
u32-IsBelow x h = omega arith

pub u64-IsBelow : (x : ℕ) → x < u64_mod → IsBelow 8 x
u64-IsBelow x h = omega arith

-- A number that stands there is read.
pub read_le-Held :
    (n x : ℕ) (file : List ℕ) (offset : ℕ)
    → 0 < n
    → IsBelow n x
    → Held file offset (le_bytes n x)
    → (read_le n file offset ≡ ok x) × (offset + n ≤ length file)
unfolding read_le
read_le-Held n x file offset pos below held =
    let size : length (le_bytes n x) ≡ n = length-le_bytes n x in
    let within : offset + n ≤ length file =
      omega (arith, size, Held-within file (le_bytes n x) offset held (omega arith)) in
    let inside : leb (offset + n) (length file) ≡ true = ground arith in
    let bytes : take n (drop offset file) ≡ le_bytes n x =
      ap (λ k. take k (drop offset file)) (sym size) ∙ take-Held file (le_bytes n x) offset held in
    (rw inside (ap (λ b. ok (le b)) bytes ∙ ap ok (le-le_bytes n x below)), within)

pub length-string_bytes : (s : Text) → length (string_bytes s) ≡ 8 + length s
length-string_bytes s =
    length-append (le_bytes 8 (length s)) s ∙ ap (λ n. n + length s) (length-le_bytes 8 (length s))

-- Where a string stands, its length is read, and it ends within a file of less than 2 ^ 63 bytes.
pub string-Held :
    (file : List ℕ) (s : Text) (offset : ℕ)
    → length file < 2 ^ 63
    → Held file offset (string_bytes s)
    → (offset + 8 + length s ≤ length file)
      × (read_le 8 file offset ≡ ok (length s))
      × Held file (offset + 8) s
string-Held file s offset small held =
    let all : offset + length (string_bytes s) ≤ length file =
      Held-within file (string_bytes s) offset held (omega (arith, length-string_bytes s)) in
    let within : offset + 8 + length s ≤ length file = omega (arith, length-string_bytes s) in
    (
      within,
      (read_le-Held 8 (length s) file offset (omega arith) (u64-IsBelow (length s) (omega arith))
          (Held-front file (le_bytes 8 (length s)) s offset held)).0,
      subst (λ n. Held file (offset + n) s) (length-le_bytes 8 (length s))
          (Held-back file (le_bytes 8 (length s)) s offset held),
    )

string_at_lem :
    (file : List ℕ) (s : Text) (offset : ℕ)
    → length file < 2 ^ 63
    → Held file offset s
    → offset + length s ≤ length file
    → string_at file offset (length s) ≡ ok (s, offset + length s)
unfolding string_at
string_at_lem file s offset small held within =
    let wrap : (offset + length s) % u64_mod ≡ offset + length s = omega arith in
    let inside : ltb (length file) (offset + length s) ≡ false = ground arith in
    let short : ltb max_string (length s) ≡ false = ground arith in
    let there : leb (offset + length s) (length file) ≡ true = ground arith in
    rw (wrap, inside, short, there)
      (ap (λ t. ok (t, offset + length s)) (take-Held file s offset held))

-- A string that stands in a file of less than 2 ^ 63 bytes is read whole.
pub read_gguf_string-Held :
    (file : List ℕ) (s : Text) (offset : ℕ)
    → length file < 2 ^ 63
    → Held file offset (string_bytes s)
    → read_gguf_string file offset ≡ ok (s, offset + 8 + length s)
unfolding read_gguf_string
read_gguf_string-Held file s offset small held =
    let t = string-Held file s offset small held in
    let wrap : (offset + 8) % u64_mod ≡ offset + 8 = omega (arith, t.0) in
    let inside : ltb (length file) (offset + 8) ≡ false = ground (arith, t.0) in
    rw (wrap, inside, t.1) (string_at_lem file s (offset + 8) small t.2 t.0)

pub skip_string-Held :
    (file : List ℕ) (s : Text) (offset : ℕ)
    → length file < 2 ^ 63
    → Held file offset (string_bytes s)
    → skip_string file offset ≡ ok (offset + length (string_bytes s))
unfolding skip_string
skip_string-Held file s offset small held =
    let t = string-Held file s offset small held in
    let wrap : (offset + 8) % u64_mod ≡ offset + 8 = omega (arith, t.0) in
    let inside : ltb (length file) (offset + 8) ≡ false = ground (arith, t.0) in
    let behind : (offset + (8 + length s)) % u64_mod ≡ offset + length (string_bytes s) =
      omega (arith, t.0, length-string_bytes s) in
    rw (wrap, inside, t.1) (ap ok behind)
