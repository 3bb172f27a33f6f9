-- ===== src/Db.antt =====
-- src/dxdb/dxdb.cpp: the documents of a vector store, with tombstones. An embedding is a list of bit
-- patterns; the similarity search, which is floating-point arithmetic, is not modelled.
pub mod Live
pub mod Write
pub mod Compact
pub mod Refines
mod Tests
use dx_ai_st.Base.{
  ℕ, suc, ◌+◌, Bool, true, false, Option, none, some, List, [], ◌∷◌, ◌++◌, if◌then◌else◌, length,
  get_elem?, set,
}
use dx_ai_st.Base.Text.{Text, same_text}

pub record VectorDocument : Type 0 where
  pub id : Text
  pub text : Text
  pub embedding : List ℕ
  pub deleted : Bool

-- FastRetrieveDB, less the dimension, which the search alone reads.
pub record FastRetrieveDb : Type 0 where
  pub docs : List VectorDocument
  pub id_to_index : List (Text × ℕ)

-- `find` and assignment through `operator[]` of `m_id_to_index`.
pub index_find : Text → List (Text × ℕ) → Option ℕ
index_find k [] = none
index_find k ((id, i) ∷ m) = if same_text id k then some i else index_find k m

pub index_assign : Text → ℕ → List (Text × ℕ) → List (Text × ℕ)
index_assign k v [] = (k, v) ∷ []
index_assign k v ((id, i) ∷ m) =
    if same_text id k then (id, v) ∷ m else (id, i) ∷ index_assign k v m

abbrev pub new_db : FastRetrieveDb
new_db = record { docs = []; id_to_index = [] }

-- `insert` of a document that is put together.
pub store : VectorDocument → FastRetrieveDb → FastRetrieveDb
store doc db = elim (index_find doc.id db.id_to_index) [
  | some i ↦ record db { docs = set db.docs i doc }
  | none ↦ record {
    docs = db.docs ++ doc ∷ [];
    id_to_index = index_assign doc.id (length db.docs) db.id_to_index;
  }
]

abbrev pub document : Text → Text → List ℕ → VectorDocument
document id text embedding = record { id = id; text = text; embedding = embedding; deleted = false }

pub insert : Text → Text → List ℕ → FastRetrieveDb → FastRetrieveDb
unfolding store
insert id text embedding db = store (document id text embedding) db

-- `deleted = true` for the document at a place.
pub bury : ℕ → List VectorDocument → List VectorDocument
bury i docs = elim (get_elem? docs i) [
  | none ↦ docs
  | some d ↦ set docs i (record d { deleted = true })
]

pub remove : Text → FastRetrieveDb → FastRetrieveDb
remove id db = elim (index_find id db.id_to_index) [
  | none ↦ db
  | some i ↦ record db { docs = bury i db.docs }
]

-- The loop of `compact`, with the documents kept so far and their index.
pub compact_loop : List VectorDocument → List VectorDocument → List (Text × ℕ) → FastRetrieveDb
compact_loop [] active index = record { docs = active; id_to_index = index }
compact_loop (doc ∷ docs) active index =
    if doc.deleted
    then compact_loop docs active index
    else compact_loop docs (active ++ doc ∷ []) (index_assign doc.id (length active) index)

pub compact : FastRetrieveDb → FastRetrieveDb
unfolding compact_loop
compact db = compact_loop db.docs [] []

pub size : FastRetrieveDb → ℕ
size db = length db.docs

pub count_active : List VectorDocument → ℕ
count_active [] = 0
count_active (doc ∷ docs) = if doc.deleted then count_active docs else suc (count_active docs)

pub active_count : FastRetrieveDb → ℕ
unfolding count_active
active_count db = count_active db.docs
