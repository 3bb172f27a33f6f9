-- ===== src/Memory/Transfer/Frame.antt =====
-- What an upload of src/core/dx_memory_api.cpp leaves alone.
use dx_ai_st.Base.{
  ℕ, zero, suc, ◌+◌, ◌-◌, ◌≤◌, ◌<◌, ◌≡◌, refl, sym, ap, subst, ◌∙◌, ◌⊎◌, inl, inr, Bool, true,
  false, some, List, [], ◌∷◌, ◌++◌, minus, length, take, drop, get_elem?, arith, length-take,
  Bool-cases,
}
use dx_ai_st.Memory.{Platform, windows, posix, Allocation, range_valid}
use dx_ai_st.Memory.Power.{range_valid_iff}
use dx_ai_st.Memory.Transfer.{
  CopyEnv, Copied, copy_to, on_queue, finish_copy, execute_buffer_copy, upload_in, dx_memory_upload,
  copied,
}
use dx_ai_st.Memory.Transfer.RoundTrip.{length-copy_to}

get_elem?-front :
    (m t : List ℕ) (k i : ℕ) → i < k → k ≤ length m → get_elem? (take k m ++ t) i ≡ get_elem? m i
get_elem?-front m t zero i h l = absurd (omega arith)
get_elem?-front [] t (suc k) i h l = absurd (omega arith)
get_elem?-front (x ∷ m) t (suc k) zero h l = refl
get_elem?-front (x ∷ m) t (suc k) (suc i) h l = get_elem?-front m t k i (omega arith) (omega arith)

get_elem?-behind : (p q : List ℕ) (i : ℕ) → get_elem? (p ++ q) (length p + i) ≡ get_elem? q i
get_elem?-behind [] q i = ap (get_elem? q) (omega arith)
get_elem?-behind (x ∷ p) q i =
    let next : suc (length p) + i ≡ suc (length p + i) = omega arith in
    ap (get_elem? (x ∷ p ++ q)) next ∙ get_elem?-behind p q i

get_elem?-drop : (k : ℕ) (m : List ℕ) (i : ℕ) → get_elem? (drop k m) i ≡ get_elem? m (k + i)
get_elem?-drop zero m i = ap (get_elem? m) (omega arith)
get_elem?-drop (suc k) [] i = refl
get_elem?-drop (suc k) (x ∷ m) i =
    let next : suc k + i ≡ suc (k + i) = omega arith in
    get_elem?-drop k m i ∙ ap (get_elem? (x ∷ m)) (sym next)

-- A copy that ends inside changes no byte in front of it or behind it.
copy_to-outside :
    (m : List ℕ) (offset : ℕ) (s : List ℕ) (i : ℕ)
    → offset + length s ≤ length m
    → (i < offset) ⊎ (offset + length s ≤ i)
    → get_elem? (copy_to m offset s) i ≡ get_elem? m i
unfolding copy_to
copy_to-outside m offset s i h (inl front) =
    get_elem?-front m (s ++ drop (offset + length s) m) offset i front (omega (arith, h))
copy_to-outside m offset s i h (inr behind) =
    let n = offset + length s in
    let p = take offset m in
    let r = i - n in
    let first : i ≡ length p + (length s + r) = omega (arith, length-take offset m, h, behind) in
    ap (get_elem? (p ++ (s ++ drop n m))) first
    ∙ get_elem?-behind p (s ++ drop n m) (length s + r)
    ∙ get_elem?-behind s (drop n m) r
    ∙ get_elem?-drop n m r
    ∙ ap (get_elem? m) (omega (arith, behind))

-- An object of which only the bytes from `offset` to `offset + n` may differ.
pub record IsFramed (a : Allocation) (offset n : ℕ) (b : Allocation) : Type 0 where
  pub rest : b ≡ record a { contents = b.contents }
  pub size : length b.contents ≡ length a.contents
  pub outside :
      (i : ℕ) → (i < offset) ⊎ (offset + n ≤ i) → get_elem? b.contents i ≡ get_elem? a.contents i

IsFramed-refl : (a : Allocation) (offset n : ℕ) → IsFramed a offset n a
IsFramed-refl a offset n = record { rest = refl; size = refl; outside = λ i h. refl }

IsFramed-copied :
    (a : Allocation) (offset : ℕ) (s : List ℕ) (n : ℕ)
    → offset + n ≤ length a.contents
    → IsFramed a offset n (copied a offset s n)
unfolding copied
IsFramed-copied a offset s n h =
    let short : length (take n s) ≤ n = omega (arith, length-take n s) in
    let inside : offset + length (take n s) ≤ length a.contents = omega (arith, h, short) in
    record {
      rest = refl;
      size = length-copy_to a.contents offset (take n s) inside;
      outside = λ i o.
          copy_to-outside a.contents offset (take n s) i inside
            (elim o [ inl front ↦ inl front | inr behind ↦ inr (omega (arith, behind, short)) ]);
    }

-- The object is as it was, or the bytes were copied inside of it.
abbrev Written : Allocation → ℕ → List ℕ → ℕ → Allocation → Type 0
Written a offset s n b = (b ≡ a) ⊎ ((offset + n ≤ a.bytes) × (b ≡ copied a offset s n))

finish-Written :
    (env : CopyEnv) (a : Allocation) (offset : ℕ) (s : List ℕ) (n : ℕ)
    → offset + n ≤ a.bytes
    → Written a offset s n (finish_copy env a offset s n true).allocation
unfolding finish_copy on_queue
finish-Written env a offset s n h = ground (arith, h)

framed :
    (a : Allocation) (offset : ℕ) (s : List ℕ) (n : ℕ) (b : Allocation)
    → offset + n ≤ a.bytes
    → length a.contents ≡ a.bytes
    → Written a offset s n b
    → IsFramed a offset n b
framed a offset s n b h len (inl e) = rw e (IsFramed-refl a offset n)
framed a offset s n b h len (inr (g, e)) =
    rw e (IsFramed-copied a offset s n (omega (arith, h, len)))

execute-Written :
    (env : CopyEnv) (d : Bool) (a : Allocation) (offset : ℕ) (s : List ℕ) (n : ℕ)
    → offset + n ≤ a.bytes
    → Written a offset s n (execute_buffer_copy env d a offset s n true).allocation
unfolding execute_buffer_copy
execute-Written env d a offset s n h = ground (arith, finish-Written env a offset s n h)

upload-Written :
    (platform : Platform) (env : CopyEnv) (d : Bool) (a : Allocation) (offset : ℕ) (s : List ℕ)
    (n : ℕ)
    → range_valid a.bytes offset n ≡ true
    → Written a offset s n (upload_in platform env d a offset s n).allocation
unfolding upload_in
upload-Written windows env d a offset s n e =
    let h = (range_valid_iff a.bytes offset n).0 e in
    ground (arith, e, h, execute-Written env d a offset s n h)
upload-Written posix env d a offset s n e =
    let h = (range_valid_iff a.bytes offset n).0 e in ground (arith, e, h)

upload_refused :
    (platform : Platform) (env : CopyEnv) (d : Bool) (a : Allocation) (offset : ℕ) (s : List ℕ)
    (n : ℕ)
    → range_valid a.bytes offset n ≡ false
    → upload_in platform env d a offset s n ≡ record { code = minus 1; allocation = a; buffer = s }
unfolding upload_in
upload_refused platform env d a offset s n e = rw e refl

-- Whatever an upload returns, on either platform and with any answers from Direct3D: a range that does not end
-- inside the object is refused with -1 and the object stays as it was; at a range that does, only the bytes of
-- the range may change, and the object keeps all its other bytes, their number, its state and its other fields.
-- The object holds as many bytes as it says.
pub upload-IsFramed :
    (platform : Platform) (env : CopyEnv) (d : Bool) (a : Allocation) (offset : ℕ) (s : List ℕ)
    (n : ℕ) (u : Copied)
    → length a.contents ≡ a.bytes
    → dx_memory_upload platform env (some d) (some a) offset (some s) n ≡ some u
    → ((a.bytes < offset + n) × (u.code ≡ minus 1) × (u.allocation ≡ a))
      ⊎ ((offset + n ≤ a.bytes) × IsFramed a offset n u.allocation)
unfolding dx_memory_upload
upload-IsFramed platform env d a offset s n u len e =
    let same : upload_in platform env d a offset s n ≡ u = ground arith in
    elim (Bool-cases (range_valid a.bytes offset n)) [
      | inr f ↦
          let refused = sym same ∙ upload_refused platform env d a offset s n f in
          inl (
            ground (arith, f, (range_valid_iff a.bytes offset n).1),
            ap (λ (c : Copied). c.code) refused,
            ap (λ (c : Copied). c.allocation) refused,
          )
      | inl f ↦
          let inside = (range_valid_iff a.bytes offset n).0 f in
          inr (
            inside,
            subst (λ (c : Copied). IsFramed a offset n c.allocation) same
                (framed a offset s n _ inside len (upload-Written platform env d a offset s n f)),
          )
    ]
