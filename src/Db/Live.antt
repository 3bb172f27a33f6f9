-- ===== src/Db/Live.antt =====
-- The store of src/dxdb/dxdb.cpp against a finite map from ids to documents.
use dx_ai_st.Base.{
  ℕ, zero, suc, ◌≡◌, refl, sym, ap, ◌∙◌, subst, true, false, Option, none, some, List, [], ◌∷◌,
  ◌++◌, if◌then◌else◌, ◌≢◌, length, get_elem?, set, arith, Bool-cases, inl, inr,
}
use dx_ai_st.Base.Text.{Text, same_text, same_text_refl, same_text_eq}
use dx_ai_st.Db.{VectorDocument, FastRetrieveDb, index_find, index_assign}

pub shift : Option ℕ → Option ℕ
shift none = none
shift (some i) = some (suc i)

-- The first place of an id.
unfoldable pub position : Text → List VectorDocument → Option ℕ
unfolding shift
position k [] = none
position k (d ∷ ds) = if same_text d.id k then some 0 else shift (position k ds)

-- The first document of an id that is not deleted.
unfoldable pub live : Text → List VectorDocument → Option VectorDocument
live k [] = none
live k (d ∷ ds) = if same_text d.id k then (if d.deleted then live k ds else some d) else live k ds

-- No id stands twice.
abbrev pub Unique : List VectorDocument → Type 0
Unique [] = Unit
Unique (d ∷ ds) = (position d.id ds ≡ none) × Unique ds

pub record IsIndexed (db : FastRetrieveDb) : Type 0 where
  pub at : (k : Text) → index_find k db.id_to_index ≡ position k db.docs
  pub unique : Unique db.docs

-- Two ids of which one is a third and the other is not.
pub apart : (id k j : Text) → same_text id k ≡ false → same_text id j ≡ true → same_text k j ≡ false
apart id k j e f = elim (Bool-cases (same_text k j)) [
  | inl g ↦
      let same : id ≡ k = same_text_eq id j f ∙ sym (same_text_eq k j g) in
      let here : same_text id k ≡ true = rw same (same_text_refl k) in absurd (cc)
  | inr g ↦ g
]

pub index_find-assign :
    (k j : Text) (v : ℕ) (m : List (Text × ℕ))
    → index_find j (index_assign k v m) ≡ (if same_text k j then some v else index_find j m)
unfolding index_find index_assign
index_find-assign k j v [] = refl
index_find-assign k j v ((id, i) ∷ m) = elim (Bool-cases (same_text id k)) [
  | inl e ↦ rw (e, ← same_text_eq id k e) (ground arith)
  | inr e ↦ rw e (ground (arith, index_find-assign k j v m, apart id k j e))
]

pub live_none : (k : Text) (ds : List VectorDocument) → position k ds ≡ none → live k ds ≡ none
unfolding live position shift
live_none k [] h = refl
live_none k (d ∷ ds) h = ground (arith, live_none k ds)

pub live-append :
    (k : Text) (ds : List VectorDocument) (d : VectorDocument)
    → position d.id ds ≡ none
    → live k (ds ++ d ∷ []) ≡ (if same_text d.id k then live k (d ∷ []) else live k ds)
unfolding live position shift
live-append k [] d h = ground arith
live-append k (x ∷ ds) d h = ground (arith, live-append k ds d, apart x.id d.id k)

pub position-append :
    (k : Text) (ds : List VectorDocument) (d : VectorDocument)
    → position d.id ds ≡ none
    → position k (ds ++ d ∷ []) ≡ (if same_text d.id k then some (length ds) else position k ds)
unfolding position shift
position-append k [] d h = refl
position-append k (x ∷ ds) d h = ground (arith, position-append k ds d, apart x.id d.id k)

shift-zero : (o : Option ℕ) → shift o ≢ some 0
unfolding shift
shift-zero none h = absurd (cc)
shift-zero (some i) h = absurd (ground arith)

shift-suc : (o : Option ℕ) (i : ℕ) → shift o ≡ some (suc i) → o ≡ some i
unfolding shift
shift-suc none i h = absurd (cc)
shift-suc (some j) i h = ground arith

-- An id that is found at the head, and one that is found behind it.
at_head :
    (k : Text) (x : VectorDocument) (ds : List VectorDocument)
    → position k (x ∷ ds) ≡ some 0
    → same_text x.id k ≡ true
unfolding position
at_head k x ds h = ground (arith, shift-zero (position k ds))

behind :
    (k : Text) (x : VectorDocument) (ds : List VectorDocument) (i : ℕ)
    → position k (x ∷ ds) ≡ some (suc i)
    → (same_text x.id k ≡ false) × (position k ds ≡ some i)
unfolding position
behind k x ds i h = (ground arith, ground (arith, shift-suc (position k ds) i))

-- Writing a document over one with its id.
pub position-set :
    (k : Text) (ds : List VectorDocument) (i : ℕ) (d : VectorDocument)
    → position d.id ds ≡ some i
    → position k (set ds i d) ≡ position k ds
unfolding position shift
position-set k [] i d h = refl
position-set k (x ∷ ds) zero d h = rw (same_text_eq x.id d.id (at_head d.id x ds h)) refl
position-set k (x ∷ ds) (suc i) d h =
    ap (λ o. if same_text x.id k then some 0 else shift o)
      (position-set k ds i d (behind d.id x ds i h).1)

pub live-set :
    (k : Text) (ds : List VectorDocument) (i : ℕ) (d : VectorDocument)
    → Unique ds
    → position d.id ds ≡ some i
    → live k (set ds i d)
      ≡ (if same_text d.id k then (if d.deleted then none else some d) else live k ds)
unfolding live position
live-set k [] i d u h = absurd (cc)
live-set k (x ∷ ds) zero d u h =
    let same : x.id ≡ d.id = same_text_eq x.id d.id (at_head d.id x ds h) in
    rw same (elim (Bool-cases (same_text d.id k)) [
      | inl e ↦
          let gone : live k ds ≡ none =
            live_none k ds (subst (λ t. position t ds ≡ none) (same ∙ same_text_eq d.id k e) u.0) in
          ground arith
      | inr e ↦ ground arith
    ])
live-set k (x ∷ ds) (suc i) d u h =
    let b = behind d.id x ds i h in ground (arith, live-set k ds i d u.1 b.1, apart x.id d.id k b.0)

pub position-get :
    (k : Text) (ds : List VectorDocument) (i : ℕ)
    → position k ds ≡ some i
    → (d : VectorDocument) × (get_elem? ds i ≡ some d) × (d.id ≡ k)
unfolding position
position-get k [] i h = absurd (cc)
position-get k (x ∷ ds) zero h = (x, refl, same_text_eq x.id k (at_head k x ds h))
position-get k (x ∷ ds) (suc i) h = position-get k ds i (behind k x ds i h).1

pub Unique-set :
    (ds : List VectorDocument) (i : ℕ) (d : VectorDocument)
    → Unique ds
    → position d.id ds ≡ some i
    → Unique (set ds i d)
Unique-set [] i d u h = tt
Unique-set (x ∷ ds) zero d u h =
    (subst (λ t. position t ds ≡ none) (same_text_eq x.id d.id (at_head d.id x ds h)) u.0, u.1)
Unique-set (x ∷ ds) (suc i) d u h =
    let b = behind d.id x ds i h in (position-set x.id ds i d b.1 ∙ u.0, Unique-set ds i d u.1 b.1)

-- Where an id is not, it is neither at the head nor behind it.
pub nowhere :
    (k : Text) (x : VectorDocument) (ds : List VectorDocument)
    → position k (x ∷ ds) ≡ none
    → (same_text x.id k ≡ false) × (same_text k x.id ≡ false) × (position k ds ≡ none)
unfolding position shift
nowhere k x ds h =
    let other : same_text x.id k ≡ false = ground arith in
    (other, apart x.id k x.id other (same_text_refl x.id), ground arith)

pub Unique-append :
    (ds : List VectorDocument) (d : VectorDocument)
    → Unique ds
    → position d.id ds ≡ none
    → Unique (ds ++ d ∷ [])
unfolding position
Unique-append [] d u h = (refl, tt)
Unique-append (x ∷ ds) d u h =
    let n = nowhere d.id x ds h in
    (position-append x.id ds d n.2 ∙ rw n.1 u.0, Unique-append ds d u.1 n.2)

pub absent :
    (id k : Text) (ds : List VectorDocument)
    → position id ds ≡ none
    → live k ds ≡ (if same_text id k then none else live k ds)
absent id k ds p = elim (Bool-cases (same_text id k)) [
  | inl e ↦ rw e (live_none k ds (subst (λ t. position t ds ≡ none) (same_text_eq id k e) p))
  | inr e ↦ rw e refl
]
