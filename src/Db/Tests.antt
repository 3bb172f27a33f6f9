-- ===== src/Db/Tests.antt =====
-- A small store of src/dxdb/dxdb.cpp, and the theorem at it.
use dx_ai_st.Base.{◌≡◌, List, [], ◌∷◌, none}
use dx_ai_st.Base.Text.{Text}
use dx_ai_st.Db.{new_db, compact, size, active_count}
use dx_ai_st.Db.Live.{live}
use dx_ai_st.Db.Refines.{Call, inserts, removes, compacts, apply_all, meant_all, store_refines}

abbrev id_a : Text
id_a = 97 ∷ []

abbrev id_b : Text
id_b = 98 ∷ []

-- One document is replaced, one is removed and compacted away, and comes back.
abbrev calls : List Call
calls =
    inserts id_a id_b []
    ∷ inserts id_b id_b []
    ∷ removes id_b
    ∷ compacts
    ∷ inserts id_a id_a []
    ∷ inserts id_b id_a []
    ∷ []

store_refines_example :
    ((k : Text) → live k (apply_all calls new_db).docs ≡ meant_all calls (λ _. none) k)
    × (size (compact (apply_all calls new_db)) ≡ active_count (apply_all calls new_db))
    × (active_count (compact (apply_all calls new_db)) ≡ active_count (apply_all calls new_db))
store_refines_example = store_refines calls
