-- ===== src/Io/Chunks.antt =====
-- Reading a file piece by piece with `dx_io_read_file` of src/core/dx_io_api.cpp.
use dx_ai_st.Base.{
  ℕ, zero, suc, ◌+◌, ◌-◌, ◌<◌, ◌≤◌, ◌≡◌, subst, min, Bool, if◌then◌else◌, true, false, some, List,
  [], ◌∷◌, ◌++◌, ℤ, pos, negsuc, arith, ==_refl, Bool-cases, inl, inr, length, take, drop,
  length-take, length-drop, take-append-drop, drop_all, drop-drop, leb, ltb, ◌==◌,
}
use dx_ai_st.Base.Text.{Text, valid_text}
use dx_ai_st.Io.{File, dx_io_read_file, read_open}

abbrev is_ok : ℤ → Bool
is_ok (pos zero) = true
is_ok (pos (suc n)) = false
is_ok (negsuc n) = false

-- The answers that a client gets that reads on while a read returns 0, at the offset behind what it has.
pub read_all : ℕ → File → Text → ℕ → ℕ → List (ℤ × List ℕ)
read_all zero file path offset capacity = []
read_all (suc fuel) file path offset capacity =
    let r = dx_io_read_file file path offset capacity in
    let rest = read_all fuel file path (offset + length r.1) capacity in
    r ∷ (if is_ok r.0 then rest else [])

-- Answers that deliver bytes in pieces for a buffer of `capacity` bytes: each returns 0 and brings some bytes,
-- at most as many as fit, and after the last byte one returns 1 and brings none.
pub data Delivers (capacity : ℕ) : List ℕ → List (ℤ × List ℕ) → Type 0 where
  at_end : Delivers capacity [] ((pos 1, []) ∷ [])
  piece :
      {part rest : List ℕ} {answers : List (ℤ × List ℕ)}
      → 0 < length part
      → length part ≤ capacity
      → Delivers capacity rest answers
      → Delivers capacity (part ++ rest) ((pos 0, part) ∷ answers)

module _ (file : File) (bytes : List ℕ) (capacity : ℕ) where
  open_lem :
      (offset : ℕ)
      → file.tells ≡ true
      → capacity ≤ file.delivers
      → offset < length bytes
      → read_open file bytes offset capacity
        ≡ (pos 0, take (min (length bytes - offset) capacity) (drop offset bytes))
  unfolding read_open
  open_lem offset t d o =
      let k = min (length bytes - offset) capacity in
      let inside : leb (length bytes) offset ≡ false = ground arith in
      let whole : min k file.delivers ≡ k = omega arith in
      let size : length (take k (drop offset bytes)) ≡ k =
        omega (arith, length-take k (drop offset bytes), length-drop offset bytes) in
      rw (t, inside, whole, size, ==_refl k)

  -- A read at an offset in the file, that the file system delivers whole.
  pub read_lem :
      (path : Text) (offset : ℕ)
      → valid_text path ≡ true
      → file.bytes ≡ some bytes
      → file.tells ≡ true
      → 0 < capacity
      → capacity ≤ file.delivers
      → offset < length bytes
      → dx_io_read_file file path offset capacity
        ≡ (pos 0, take (min (length bytes - offset) capacity) (drop offset bytes))
  unfolding dx_io_read_file
  read_lem path offset v b t c d o =
      let some_room : (capacity == 0) ≡ false = ground arith in
      rw (v, some_room, b) (open_lem offset t d o)

  end_lem :
      (path : Text) (offset : ℕ)
      → valid_text path ≡ true
      → file.bytes ≡ some bytes
      → file.tells ≡ true
      → 0 < capacity
      → length bytes ≤ offset
      → dx_io_read_file file path offset capacity ≡ (pos 1, [])
  unfolding dx_io_read_file read_open
  end_lem path offset v b t c o =
      let some_room : (capacity == 0) ≡ false = ground arith in
      let outside : leb (length bytes) offset ≡ true = ground arith in
      rw (v, some_room, b) (rw (t, outside))

-- A file that is read in pieces of any size, from any offset on, comes out whole behind the offset: every read
-- before the end returns 0 with at least one byte and no more than fit, these bytes in order are those behind
-- the offset, and then one read returns 1 with none. The file can be read, the file system delivers what it is
-- asked for, and there is fuel for a read per byte left and one more.
pub read_all-Delivers :
    (fuel : ℕ) (file : File) (path : Text) (bytes : List ℕ) (offset capacity : ℕ)
    → valid_text path ≡ true
    → file.bytes ≡ some bytes
    → file.tells ≡ true
    → 0 < capacity
    → capacity ≤ file.delivers
    → length bytes < fuel + offset
    → 0 < fuel
    → Delivers capacity (drop offset bytes) (read_all fuel file path offset capacity)
unfolding read_all
read_all-Delivers zero file path bytes offset capacity v b t c d f p = absurd (omega arith)
read_all-Delivers (suc fuel) file path bytes offset capacity v b t c d f p =
    elim (Bool-cases (ltb offset (length bytes))) [
      | inl test ↦
          let o : offset < length bytes = ground arith in
          let k = min (length bytes - offset) capacity in
          let part = take k (drop offset bytes) in
          let size : length part ≡ k =
            omega (arith, length-take k (drop offset bytes), length-drop offset bytes) in
          let rest =
            read_all-Delivers fuel file path bytes (offset + k) capacity v b t c d (omega arith)
              (omega arith) in
          let whole : part ++ drop (offset + k) bytes ≡ drop offset bytes =
            rw (← drop-drop offset k bytes) (take-append-drop k (drop offset bytes)) in
          rw (read_lem file bytes capacity path offset v b t c d o) (
            rw size (
              subst
                (λ bs.
                  Delivers capacity bs
                    ((pos 0, part) ∷ read_all fuel file path (offset + k) capacity))
                whole (piece (omega (arith, size)) (omega (arith, size)) rest)))
      | inr test ↦
          let o : length bytes ≤ offset = ground arith in
          rw (end_lem file bytes capacity path offset v b t c o, drop_all offset bytes o) at_end
    ]
