-- ===== src/Errors/Registrar/Laws.antt =====
-- error::registrar: numbers stay distinct, and the two `map` functions are inverse on what is
-- registered.
use cocaine_core.Base.{
  find?-passes, any-find?, find?-any, find?-All, find?-none, ℕ, String, ◌≡◌, sym, subst, ◌≢◌, ◌↔◌,
  inl, inr, true, none, some, [], ◌∷◌, ◌++◌, arith, nat_beq, Bool-cases, Option-cases, All, find?,
  any, ◌==◌, nat_key, string_key, list_key,
}
use text.Mathlib.TextEquality.{eq_iff}
use cocaine_core.Errors.Registrar.{
  CategoryRecord, Mapping, Foreign, entry, storage, category_of, id_of, add,
}

-- No record has the number.
abbrev pub Fresh : ℕ → Mapping → Type 0
Fresh id m = All (λ (r : CategoryRecord). r.id ≢ id) m

-- No two records have one number.
abbrev pub Distinct : Mapping → Type 0
Distinct [] = Unit {0}
Distinct (r ∷ m) = Fresh r.id m × Distinct m

-- The numbers that the registrar starts with are distinct.
pub storage-Distinct : (f : Foreign) → Distinct (storage f)
unfolding storage
storage-Distinct f = omega arith

Fresh-snoc :
    (id : ℕ) (m : Mapping) (r : CategoryRecord) → Fresh id m → r.id ≢ id → Fresh id (m ++ r ∷ [])
Fresh-snoc id [] r f ne = (ne, tt)
Fresh-snoc id (x ∷ m) r f ne = (f.0, Fresh-snoc id m r f.1 ne)

Distinct-snoc :
    (m : Mapping) (r : CategoryRecord) → Distinct m → Fresh r.id m → Distinct (m ++ r ∷ [])
Distinct-snoc [] r d f = (tt, tt)
Distinct-snoc (x ∷ m) r d f =
    (Fresh-snoc x.id m r d.0 (λ e. f.0 (sym e)), Distinct-snoc m r d.1 f.1)

find_id-none :
    (m : Mapping) (id : ℕ) → find? (λ (r : CategoryRecord). nat_beq r.id id) m ≡ none → Fresh id m
find_id-none [] id e = tt
find_id-none (r ∷ m) id e = (ground arith, find_id-none m id (ground arith))

-- `add` keeps the numbers distinct.
pub add-Distinct :
    (m n : Mapping) (category : String) (index : ℕ)
    → Distinct m
    → add m category index ≡ some n
    → Distinct n
unfolding add
add-Distinct m n category index d e =
    elim (Option-cases (find? (λ (r : CategoryRecord). nat_beq r.id index) m)) [
      | inl free ↦
          let same : m ++ entry index category ∷ [] ≡ n = ground arith in
          subst Distinct same (Distinct-snoc m (entry index category) d (find_id-none m index free))
      | inr (r, taken) ↦ ground arith
    ]

find_id-snoc :
    (m : Mapping) (index : ℕ) (category : String)
    → find? (λ (r : CategoryRecord). nat_beq r.id index) m ≡ none
    → find? (λ (r : CategoryRecord). nat_beq r.id index) (m ++ entry index category ∷ [])
      ≡ some (entry index category)
find_id-snoc [] index category e = ground arith
find_id-snoc (r ∷ m) index category e = ground (arith, find_id-snoc m index category)

-- After `add` returns, its number stands for its category.
pub category_of-add :
    (m n : Mapping) (category : String) (index : ℕ)
    → add m category index ≡ some n
    → category_of n index ≡ category
unfolding add category_of
category_of-add m n category index e =
    elim (Option-cases (find? (λ (r : CategoryRecord). nat_beq r.id index) m)) [
      | inl free ↦
          let same : n ≡ m ++ entry index category ∷ [] = ground arith in
          rw same (ground (arith, find_id-snoc m index category free))
      | inr (r, taken) ↦ ground (arith, eq_iff r.category category)
    ]

-- `add` throws exactly if the number stands for another category.
pub add-none_iff :
    (m : Mapping) (category : String) (index : ℕ)
    → (add m category index ≡ none) ↔ (
        (any (λ (r : CategoryRecord). nat_beq r.id index) m ≡ true)
        × (category_of m index ≢ category))
unfolding add category_of
add-none_iff m category index =
    elim (Option-cases (find? (λ (r : CategoryRecord). nat_beq r.id index) m)) [
      | inl free ↦ ground (arith, find?-none (λ (r : CategoryRecord). nat_beq r.id index) m)
      | inr (r, taken) ↦ ground (
        arith,
        eq_iff r.category category,
        any-find? (λ (s : CategoryRecord). nat_beq s.id index) m r,
      )
    ]

-- The record that a name finds is the one that its number finds.
find_id-find_name :
    (m : Mapping) (category : String) (r : CategoryRecord)
    → Distinct m
    → find? (λ (s : CategoryRecord). s.category == category) m ≡ some r
    → find? (λ (s : CategoryRecord). nat_beq s.id r.id) m ≡ some r
find_id-find_name [] category r d e = cc
find_id-find_name (x ∷ m) category r d e = elim (Bool-cases (x.category == category)) [
  | inl hit ↦ ground arith
  | inr miss ↦
      let later : find? (λ (s : CategoryRecord). s.category == category) m ≡ some r =
        ground arith in
      let apart = find?-All _ (λ (s : CategoryRecord). s.id ≢ x.id) m r d.0 later in
      ground (arith, apart, find_id-find_name m category r d.1 later)
]

-- Of a category that is registered, `map` of its number is the category.
pub category_of-id_of :
    (m : Mapping) (category : String)
    → Distinct m
    → any (λ (r : CategoryRecord). r.category == category) m ≡ true
    → category_of m (id_of m category) ≡ category
unfolding category_of id_of
category_of-id_of m category d h =
    let (r, e) = find?-any (λ (s : CategoryRecord). s.category == category) m h in
    let passes = find?-passes (λ (s : CategoryRecord). s.category == category) m r e in
    ground (arith, find_id-find_name m category r d e, eq_iff r.category category)
