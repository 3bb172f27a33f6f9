-- ===== src/Db/Compact.antt =====
-- The compaction of src/dxdb/dxdb.cpp.
use dx_ai_st.Base.{
  ℕ, suc, ◌≡◌, refl, sym, ap, ◌∙◌, none, List, [], ◌∷◌, ◌++◌, if◌then◌else◌, length, arith,
  Bool-cases, inl, inr, append_assoc, append-nil,
}
use dx_ai_st.Base.Text.{Text}
use dx_ai_st.Db.{
  VectorDocument, FastRetrieveDb, index_find, index_assign, new_db, compact_loop, compact, size,
  active_count, count_active,
}
use dx_ai_st.Db.Live.{position, live, Unique, IsIndexed, position-append, nowhere}
use dx_ai_st.Db.Write.{new-IsIndexed}

-- The documents that are not deleted.
kept : List VectorDocument → List VectorDocument
kept [] = []
kept (d ∷ ds) = if d.deleted then kept ds else d ∷ kept ds

live-kept : (k : Text) (ds : List VectorDocument) → live k (kept ds) ≡ live k ds
unfolding live kept
live-kept k [] = refl
live-kept k (d ∷ ds) = ground (arith, live-kept k ds)

length-kept : (ds : List VectorDocument) → length (kept ds) ≡ count_active ds
unfolding kept count_active
length-kept [] = refl
length-kept (d ∷ ds) = elim (Bool-cases d.deleted) [
  | inl e ↦ simp e (length-kept ds)
  | inr e ↦ simp e (ap suc (length-kept ds))
]

count_active-kept : (ds : List VectorDocument) → count_active (kept ds) ≡ count_active ds
unfolding kept count_active
count_active-kept [] = refl
count_active-kept (d ∷ ds) = elim (Bool-cases d.deleted) [
  | inl e ↦ simp e (count_active-kept ds)
  | inr e ↦ simp e (ap suc (count_active-kept ds))
]

-- None of the first documents has the id of one of the second.
abbrev Apart : List VectorDocument → List VectorDocument → Type 0
Apart [] active = Unit
Apart (d ∷ ds) active = (position d.id active ≡ none) × Apart ds active

Apart-append :
    (ds active : List VectorDocument) (d : VectorDocument)
    → Apart ds active
    → position d.id ds ≡ none
    → position d.id active ≡ none
    → Apart ds (active ++ d ∷ [])
Apart-append [] active d a p q = tt
Apart-append (x ∷ ds) active d a p q =
    let n = nowhere d.id x ds p in
    (position-append x.id active d q ∙ rw n.1 a.0, Apart-append ds active d a.1 n.2 q)

Apart-nil : (ds : List VectorDocument) → Apart ds []
unfolding position
Apart-nil [] = tt
Apart-nil (d ∷ ds) = (refl, Apart-nil ds)

compact_loop_lem :
    (ds active : List VectorDocument) (index : List (Text × ℕ))
    → IsIndexed (record { docs = active; id_to_index = index })
    → Unique ds
    → Apart ds active
    → IsIndexed (compact_loop ds active index)
      × ((compact_loop ds active index).docs ≡ active ++ kept ds)
unfolding compact_loop kept
compact_loop_lem [] active index x u a = (x, sym (append-nil active))
compact_loop_lem (d ∷ ds) active index x u a = elim (Bool-cases d.deleted) [
  | inl e ↦ simp e (compact_loop_lem ds active index x u.1 a.1)
  | inr e ↦
      let r =
        compact_loop_lem ds (active ++ d ∷ []) (index_assign d.id (length active) index)
          (new-IsIndexed d (record { docs = active; id_to_index = index }) x a.0) u.1
          (Apart-append ds active d a.1 u.0 a.0) in
      simp e (r.0, r.1 ∙ append_assoc active (d ∷ []) (kept ds))
]

pub new_db-IsIndexed : IsIndexed new_db
unfolding index_find position
new_db-IsIndexed = record { at = λ k. refl; unique = tt }

pub compact_lem :
    (db : FastRetrieveDb)
    → IsIndexed db
    → IsIndexed (compact db)
      × ((k : Text) → live k (compact db).docs ≡ live k db.docs)
      × (size (compact db) ≡ active_count db)
      × (active_count (compact db) ≡ active_count db)
unfolding compact size active_count
compact_lem db x =
    let r = compact_loop_lem db.docs [] [] new_db-IsIndexed x.unique (Apart-nil db.docs) in
    (
      r.0,
      λ k. ap (live k) r.1 ∙ live-kept k db.docs,
      ap (λ (ds : List VectorDocument). length ds) r.1 ∙ length-kept db.docs,
      ap count_active r.1 ∙ count_active-kept db.docs,
    )
