-- ===== src/Db/Refines.antt =====
-- Any calls of src/dxdb/dxdb.cpp against the same calls on a map from ids to documents.
use dx_ai_st.Base.{ℕ, ◌≡◌, refl, ap, ◌∙◌, Option, none, some, List, [], ◌∷◌, if◌then◌else◌}
use dx_ai_st.Base.Text.{Text, same_text}
use dx_ai_st.Db.{
  VectorDocument, FastRetrieveDb, document, new_db, insert, remove, compact, size, active_count,
}
use dx_ai_st.Db.Live.{live, IsIndexed}
use dx_ai_st.Db.Write.{store_lem, remove_lem}
use dx_ai_st.Db.Compact.{compact_lem, new_db-IsIndexed}

-- One call on the map.
pub data Call : Type 0 where
  inserts : Text → Text → List ℕ → Call
  removes : Text → Call
  compacts : Call

pub apply : Call → FastRetrieveDb → FastRetrieveDb
apply (inserts id text embedding) db = insert id text embedding db
apply (removes id) db = remove id db
apply compacts db = compact db

pub apply_all : List Call → FastRetrieveDb → FastRetrieveDb
unfolding apply
apply_all [] db = db
apply_all (c ∷ cs) db = apply_all cs (apply c db)

-- What the calls do to a map from ids to documents.
pub meant : Call → (Text → Option VectorDocument) → Text → Option VectorDocument
meant (inserts id text embedding) m k =
    if same_text id k then some (document id text embedding) else m k
meant (removes id) m k = if same_text id k then none else m k
meant compacts m k = m k

pub meant_all : List Call → (Text → Option VectorDocument) → Text → Option VectorDocument
unfolding meant
meant_all [] m = m
meant_all (c ∷ cs) m = meant_all cs (meant c m)

apply-meant :
    (c : Call) (db : FastRetrieveDb) (m : Text → Option VectorDocument)
    → IsIndexed db
    → ((k : Text) → live k db.docs ≡ m k)
    → IsIndexed (apply c db) × ((k : Text) → live k (apply c db).docs ≡ meant c m k)
unfolding apply meant insert
apply-meant (inserts id text embedding) db m x h =
    let doc = document id text embedding in
    let s = store_lem doc db x refl in
    (s.0, λ k. s.1 k ∙ ap (λ o. if same_text id k then some doc else o) (h k))
apply-meant (removes id) db m x h =
    let s = remove_lem id db x in
    (s.0, λ k. s.1 k ∙ ap (λ o. if same_text id k then none else o) (h k))
apply-meant compacts db m x h = let s = compact_lem db x in (s.0, λ k. s.1 k ∙ h k)

apply_all-meant_all :
    (cs : List Call) (db : FastRetrieveDb) (m : Text → Option VectorDocument)
    → IsIndexed db
    → ((k : Text) → live k db.docs ≡ m k)
    → IsIndexed (apply_all cs db) × ((k : Text) → live k (apply_all cs db).docs ≡ meant_all cs m k)
unfolding apply_all meant_all
apply_all-meant_all [] db m x h = (x, h)
apply_all-meant_all (c ∷ cs) db m x h =
    let s = apply-meant c db m x h in apply_all-meant_all cs (apply c db) (meant c m) s.0 s.1

-- After any calls that insert, remove and compact, on a new store, the documents that are not deleted
-- are those of a map from ids to documents on which insert writes, remove erases and compact does
-- nothing. A further compaction keeps the count of active documents and leaves no other document.
pub store_refines :
    (cs : List Call)
    → ((k : Text) → live k (apply_all cs new_db).docs ≡ meant_all cs (λ _. none) k)
      × (size (compact (apply_all cs new_db)) ≡ active_count (apply_all cs new_db))
      × (active_count (compact (apply_all cs new_db)) ≡ active_count (apply_all cs new_db))
unfolding live
store_refines cs =
    let r = apply_all-meant_all cs new_db (λ _. none) new_db-IsIndexed (λ k. refl) in
    let c = compact_lem (apply_all cs new_db) r.0 in (r.1, c.2, c.3)
