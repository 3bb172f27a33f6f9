-- ===== src/Memory/Transfer/RoundTrip.antt =====
-- What is uploaded is downloaded again, and a failed transfer leaves memory alone
-- (src/core/dx_memory_api.cpp).
use dx_ai_st.Base.{
  ℕ, ◌+◌, ◌≤◌, ◌<◌, ◌≡◌, refl, sym, ap, ◌∙◌, Bool, true, false, some, List, ◌++◌, pos, minus,
  length, take, drop, arith, length-append, length-take, length-drop, take-length, take-append,
  drop_past,
}
use dx_ai_st.Memory.{Platform, windows, posix, Allocation, ResourceState, copy_dest, copy_source}
use dx_ai_st.Memory.Power.{range_valid_iff}
use dx_ai_st.Memory.Transfer.{
  CopyEnv, Copied, copy_to, read_at, recorded, run_commands, finish_copy, execute_buffer_copy,
  upload_in, download_in, dx_memory_upload, dx_memory_download, copied,
}

-- The two barriers of a copy cancel: whatever the state of the resource, each barrier that
-- `execute_buffer_copy` records starts from the state that the resource is in, and they lead back.
pub run_commands-recorded :
    (prior : ResourceState) (upload : Bool)
    → run_commands (recorded prior upload) prior ≡ some prior
unfolding run_commands recorded
run_commands-recorded ResourceState.common true = refl
run_commands-recorded ResourceState.common false = refl
run_commands-recorded ResourceState.generic_read true = refl
run_commands-recorded ResourceState.generic_read false = refl
run_commands-recorded copy_dest true = refl
run_commands-recorded copy_dest false = refl
run_commands-recorded copy_source true = refl
run_commands-recorded copy_source false = refl

pub read_at-copy_to :
    (m : List ℕ) (offset : ℕ) (s : List ℕ)
    → offset ≤ length m
    → read_at (copy_to m offset s) offset (length s) ≡ s
unfolding read_at copy_to
read_at-copy_to m offset s h =
    rw
      (drop_past offset (take offset m) (s ++ drop (offset + length s) m)
        (omega (arith, length-take offset m)))
      (take-append s (drop (offset + length s) m))

pub length-copy_to :
    (m : List ℕ) (offset : ℕ) (s : List ℕ)
    → offset + length s ≤ length m
    → length (copy_to m offset s) ≡ length m
unfolding copy_to
length-copy_to m offset s h = omega (
  arith,
  length-append (take offset m) (s ++ drop (offset + length s) m),
  length-append s (drop (offset + length s) m),
  length-take offset m,
  length-drop (offset + length s) m,
)

pub copy_to_front : (d s : List ℕ) → copy_to d 0 s ≡ s ++ drop (length s) d
unfolding copy_to
copy_to_front d s = let e : 0 + length s ≡ length s = omega arith in rw e

finish_upload :
    (env : CopyEnv) (a : Allocation) (offset : ℕ) (s : List ℕ) (n : ℕ)
    → (finish_copy env a offset s n true).code ≡ pos 0
    → (finish_copy env a offset s n true).allocation.contents ≡ copy_to a.contents offset (take n s)
unfolding finish_copy copied
finish_upload env a offset s n h = ground arith

execute_upload :
    (env : CopyEnv) (d : Bool) (a : Allocation) (offset : ℕ) (s : List ℕ) (n : ℕ)
    → (execute_buffer_copy env d a offset s n true).code ≡ pos 0
    → (execute_buffer_copy env d a offset s n true).allocation.contents
      ≡ copy_to a.contents offset (take n s)
unfolding execute_buffer_copy
execute_upload env d a offset s n h = ground (arith, finish_upload env a offset s n)

finish_download :
    (env : CopyEnv) (a : Allocation) (offset : ℕ) (s : List ℕ) (n : ℕ)
    → (finish_copy env a offset s n false).code ≡ pos 0
    → (finish_copy env a offset s n false).buffer ≡ copy_to s 0 (read_at a.contents offset n)
unfolding finish_copy
finish_download env a offset s n h = ground arith

execute_download :
    (env : CopyEnv) (d : Bool) (a : Allocation) (offset : ℕ) (s : List ℕ) (n : ℕ)
    → (execute_buffer_copy env d a offset s n false).code ≡ pos 0
    → (execute_buffer_copy env d a offset s n false).buffer
      ≡ copy_to s 0 (read_at a.contents offset n)
unfolding execute_buffer_copy
execute_download env d a offset s n h = ground (arith, finish_download env a offset s n)

-- An upload that returns 0 was within the allocation, and wrote just the given bytes there.
upload_success :
    (platform : Platform) (env : CopyEnv) (d : Bool) (a : Allocation) (offset : ℕ) (s : List ℕ)
    (n : ℕ)
    → (upload_in platform env d a offset s n).code ≡ pos 0
    → (offset + n ≤ a.bytes)
      × ((upload_in platform env d a offset s n).allocation.contents
          ≡ copy_to a.contents offset (take n s))
unfolding upload_in
upload_success windows env d a offset s n h =
    ground (arith, (range_valid_iff a.bytes offset n).0, execute_upload env d a offset s n)
upload_success posix env d a offset s n h = ground (arith, (range_valid_iff a.bytes offset n).0)

download_success :
    (platform : Platform) (env : CopyEnv) (d : Bool) (a : Allocation) (offset : ℕ) (s : List ℕ)
    (n : ℕ)
    → (download_in platform env d a offset s n).code ≡ pos 0
    → (download_in platform env d a offset s n).buffer ≡ copy_to s 0 (read_at a.contents offset n)
unfolding download_in
download_success windows env d a offset s n h = ground (arith, execute_download env d a offset s n)
download_success posix env d a offset s n h = ground arith

-- If an upload of the whole of `s` returns 0, and then a download of as many bytes from the same
-- offset returns 0, the bytes of `s` stand at the start of the destination, and the rest of the
-- destination is as it was. On either platform, whether or not the memory is mapped, and with any
-- answers from Direct3D; the object holds as many bytes as it says.
pub download-upload :
    (platform : Platform) (env env' : CopyEnv) (d : Bool) (a : Allocation) (offset : ℕ)
    (s t : List ℕ) (u v : Copied)
    → length a.contents ≡ a.bytes
    → dx_memory_upload platform env (some d) (some a) offset (some s) (length s) ≡ some u
    → u.code ≡ pos 0
    → dx_memory_download platform env' (some d) (some u.allocation) offset (some t) (length s)
      ≡ some v
    → v.code ≡ pos 0
    → v.buffer ≡ s ++ drop (length s) t
unfolding dx_memory_upload dx_memory_download
download-upload platform env env' d a offset s t u v len eu cu ev cv =
    let u' = upload_in platform env d a offset s (length s) in
    let same : u' ≡ u = ground arith in
    let up = upload_success platform env d a offset s (length s) (rw same cu) in
    let wrote : u.allocation.contents ≡ copy_to a.contents offset s =
      ap (λ (c : Copied). c.allocation.contents) (sym same)
      ∙ up.1
      ∙ ap (copy_to a.contents offset) (take-length s (length s) (omega arith)) in
    let v' = download_in platform env' d u.allocation offset t (length s) in
    let same' : v' ≡ v = ground arith in
    let down = download_success platform env' d u.allocation offset t (length s) (rw same' cv) in
    ap (λ (c : Copied). c.buffer) (sym same')
    ∙ down
    ∙ ap (copy_to t 0) (
        ap (λ (m : List ℕ). read_at m offset (length s)) wrote
        ∙ read_at-copy_to a.contents offset s (omega (arith, up.0)))
    ∙ copy_to_front t s

finish_failure :
    (env : CopyEnv) (a : Allocation) (offset : ℕ) (s : List ℕ) (n : ℕ) (up : Bool) (k : ℕ)
    → k ≤ 8
    → (finish_copy env a offset s n up).code ≡ minus k
    → (k ≡ 0)
unfolding finish_copy
finish_failure env a offset s n up k h e = ground arith

execute_failure :
    (env : CopyEnv) (d : Bool) (a : Allocation) (offset : ℕ) (s : List ℕ) (n : ℕ) (up : Bool)
    (k : ℕ)
    → 0 < k
    → k ≤ 8
    → (execute_buffer_copy env d a offset s n up).code ≡ minus k
    → ((execute_buffer_copy env d a offset s n up).allocation ≡ a)
      × ((execute_buffer_copy env d a offset s n up).buffer ≡ s)
unfolding execute_buffer_copy
execute_failure env d a offset s n up k p h e = ground (arith, finish_failure env a offset s n up k)

-- An upload that returns one of the codes -1 to -8, on either platform, leaves the object that it
-- was to write and the source as they were: the queue had not run.
pub upload_failure :
    (platform : Platform) (env : CopyEnv) (d : Bool) (a : Allocation) (offset : ℕ) (s : List ℕ)
    (n k : ℕ) (u : Copied)
    → 0 < k
    → k ≤ 8
    → dx_memory_upload platform env (some d) (some a) offset (some s) n ≡ some u
    → u.code ≡ minus k
    → (u.allocation ≡ a) × (u.buffer ≡ s)
unfolding dx_memory_upload upload_in
upload_failure windows env d a offset s n k u p h e c =
    ground (arith, execute_failure env d a offset s n true k)
upload_failure posix env d a offset s n k u p h e c = ground arith
