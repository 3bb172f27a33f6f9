-- ===== src/Db/Write.antt =====
-- Inserting and removing in the store of src/dxdb/dxdb.cpp.
use dx_ai_st.Base.{
  ℕ, ◌≡◌, sym, ap, ◌∙◌, true, false, none, some, [], ◌∷◌, ◌++◌, if◌then◌else◌, length, get_elem?,
  set, arith, Option-cases, inl, inr,
}
use dx_ai_st.Base.Text.{Text, same_text}
use dx_ai_st.Db.{VectorDocument, FastRetrieveDb, index_find, index_assign, store, bury, remove}
use dx_ai_st.Db.Live.{
  position, live, IsIndexed, index_find-assign, live-append, position-append, position-set,
  live-set, position-get, Unique-set, Unique-append, absent,
}

-- What the calls come to, by what the index answers.
store_new :
    (doc : VectorDocument) (db : FastRetrieveDb)
    → index_find doc.id db.id_to_index ≡ none
    → store doc db ≡ record {
      docs = db.docs ++ doc ∷ [];
      id_to_index = index_assign doc.id (length db.docs) db.id_to_index;
    }
unfolding store
store_new doc db q = rw (q, store)

store_old :
    (doc : VectorDocument) (db : FastRetrieveDb) (i : ℕ)
    → index_find doc.id db.id_to_index ≡ some i
    → store doc db ≡ record db { docs = set db.docs i doc }
unfolding store
store_old doc db i q = rw (q, store)

remove-none :
    (id : Text) (db : FastRetrieveDb) → index_find id db.id_to_index ≡ none → remove id db ≡ db
unfolding remove
remove-none id db q = rw (q, remove)

remove-some :
    (id : Text) (db : FastRetrieveDb) (i : ℕ) (d : VectorDocument)
    → index_find id db.id_to_index ≡ some i
    → get_elem? db.docs i ≡ some d
    → remove id db ≡ record db { docs = set db.docs i (record d { deleted = true }) }
unfolding remove bury
remove-some id db i d q e = rw (q, remove) (rw (e, bury))

pub new-IsIndexed :
    (doc : VectorDocument) (db : FastRetrieveDb)
    → IsIndexed db
    → position doc.id db.docs ≡ none
    → IsIndexed (record {
      docs = db.docs ++ doc ∷ [];
      id_to_index = index_assign doc.id (length db.docs) db.id_to_index;
    })
new-IsIndexed doc db x p = record {
  at = λ k.
      index_find-assign doc.id k (length db.docs) db.id_to_index
      ∙ (ap (λ o. if same_text doc.id k then some (length db.docs) else o) (x.at k)
          ∙ sym (position-append k db.docs doc p));
  unique = Unique-append db.docs doc x.unique p;
}

set-IsIndexed :
    (doc : VectorDocument) (db : FastRetrieveDb) (i : ℕ)
    → IsIndexed db
    → position doc.id db.docs ≡ some i
    → IsIndexed (record db { docs = set db.docs i doc })
set-IsIndexed doc db i x p = record {
  at = λ k. x.at k ∙ sym (position-set k db.docs i doc p);
  unique = Unique-set db.docs i doc x.unique p;
}

pub store_lem :
    (doc : VectorDocument) (db : FastRetrieveDb)
    → IsIndexed db
    → doc.deleted ≡ false
    → IsIndexed (store doc db)
      × ((k : Text)
          → live k (store doc db).docs ≡ (if same_text doc.id k then some doc else live k db.docs))
unfolding live
store_lem doc db x new = elim (Option-cases (position doc.id db.docs)) [
  | inl p ↦
      rw (store_new doc db (x.at doc.id ∙ p))
        (new-IsIndexed doc db x p, λ k. ground (arith, live-append k db.docs doc p))
  | inr (i, p) ↦
      rw (store_old doc db i (x.at doc.id ∙ p))
        (set-IsIndexed doc db i x p, λ k. ground (arith, live-set k db.docs i doc x.unique p))
]

pub remove_lem :
    (id : Text) (db : FastRetrieveDb)
    → IsIndexed db
    → IsIndexed (remove id db)
      × ((k : Text)
          → live k (remove id db).docs ≡ (if same_text id k then none else live k db.docs))
remove_lem id db x = elim (Option-cases (position id db.docs)) [
  | inl p ↦ rw (remove-none id db (x.at id ∙ p)) (x, λ k. absent id k db.docs p)
  | inr (i, p) ↦
      let (d, e, same) = position-get id db.docs i p in
      let buried : VectorDocument = record d { deleted = true } in
      let at : position buried.id db.docs ≡ some i = rw same p in
      rw (remove-some id db i d (x.at id ∙ p) e) (
        set-IsIndexed buried db i x at,
        λ k.
            live-set k db.docs i buried x.unique at
            ∙ ap (λ t. if same_text t k then none else live k db.docs) same,
      )
]
