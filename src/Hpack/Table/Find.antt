-- ===== src/Hpack/Table/Find.antt =====
-- `find` and `operator[]` of src/header.cpp against the two parts of the table put together.
use cocaine_core.Hpack.Headers.Values.{empty_placeholder}
use cocaine_core.Base.{
  get_elem?-length, ap, sym, ◌∙◌, get_elem?-some, length-append, Option, ℕ, suc, ◌+◌, ◌-◌, ◌≤◌, ◌<◌,
  ◌≡◌, refl, Bool, true, false, none, some, List, [], ◌∷◌, ◌++◌, arith, length, find_index,
  get_elem?, get_elem?-append_left, get_elem?-append_right, any, ltb, nat_beq, Bool-cases,
  Option-cases, inl, inr, if◌then◌else◌,
}
use cocaine_core.Hpack.Header.{Header}
use cocaine_core.Hpack.StaticTable.{storage}
use cocaine_core.Hpack.Table.{
  undefined, found, find, HeaderTable, out_of_range, access, static_size, size, at,
}

pub length-storage : length storage ≡ static_size
unfolding storage
length-storage = refl

-- All entries, in the order of their indices.
abbrev pub entries : HeaderTable → List Header
entries t = storage ++ t.headers

-- A position, with 0 for none.
abbrev or_zero : Option ℕ → ℕ
or_zero none = 0
or_zero (some i) = i

module _ {ℓ} {A : Type ℓ} (p : A → Bool) where
  find_index-found :
      (xs : List A) (i : ℕ)
      → find_index p xs ≡ some i
      → (i < length xs) × ((x : A) × (get_elem? xs i ≡ some x) × (p x ≡ true))
  find_index-found [] i e = cc
  find_index-found (x ∷ xs) i e = elim (Bool-cases (p x)) [
    | inl yes_ ↦ let first : i ≡ 0 = ground arith in rw first (omega arith, (x, refl, yes_))
    | inr no_ ↦ elim (Option-cases (find_index p xs)) [
      | inl nowhere ↦ absurd (ground arith)
      | inr (j, later) ↦
          let next : i ≡ suc j = ground arith in
          let rest = find_index-found xs j later in rw next (omega arith, rest.1)
    ]
  ]

  find_index-missing : (xs : List A) → find_index p xs ≡ none → any p xs ≡ false
  find_index-missing [] e = refl
  find_index-missing (x ∷ xs) e = ground (arith, find_index-missing xs)

dynamic_entry :
    (t : HeaderTable) (idx : ℕ)
    → static_size ≤ idx
    → get_elem? (entries t) idx ≡ get_elem? t.headers (idx - static_size)
dynamic_entry t idx le =
    let split : length storage + (idx - static_size) ≡ idx = omega (arith, length-storage) in
    rw split at (get_elem?-append_right storage t.headers (idx - static_size))

-- An index is read from the static table below 83 and from the dynamic table above it; 0 and an
-- index past `size` throw, and `size` itself is read outside of the deque.
pub at-entries :
    (t : HeaderTable) (idx : ℕ)
    → at t idx ≡ (
        if nat_beq idx 0
        then out_of_range
        else if ltb (size t) idx
        then out_of_range
        else access (get_elem? (entries t) idx))
unfolding at size
at-entries t idx =
    ground (arith, length-storage, get_elem?-append_left storage t.headers idx, dynamic_entry t idx)

find_index-append {ℓ} :
    {A : Type ℓ} (p : A → Bool) (xs ys : List A)
    → find_index p (xs ++ ys) ≡ elim (find_index p xs) [
      | some i ↦ some i
      | none ↦ elim (find_index p ys) [ some i ↦ some (i + length xs) | none ↦ none ]
    ]
find_index-append p [] ys = ground arith
find_index-append p (x ∷ xs) ys = ground (arith, find_index-append p xs ys)

find-entries : (t : HeaderTable) (p : Header → Bool) → find t p ≡ or_zero (find_index p (entries t))
unfolding find
find-entries t p = ground (arith, find_index-append p storage t.headers, length-storage)

length-entries : (t : HeaderTable) → length (entries t) ≡ size t
unfolding size
length-entries t = omega (arith, length-append storage t.headers, length-storage)

at_inside :
    (t : HeaderTable) (idx : ℕ)
    → 0 < idx
    → idx ≤ size t
    → at t idx ≡ access (get_elem? (entries t) idx)
at_inside t idx pos le = ground (arith, at-entries t idx)

entries_head : (t : HeaderTable) → get_elem? (entries t) 0 ≡ some empty_placeholder
unfolding storage
entries_head t = refl

-- Every index from 1 to `size - 1` names an entry.
pub at_in_range :
    (t : HeaderTable) (idx : ℕ) → 0 < idx → idx < size t → (h : Header) × (at t idx ≡ found h)
at_in_range t idx pos lt =
    let (h, e) = get_elem?-some (entries t) idx (omega (arith, length-entries t)) in
    (h, at_inside t idx pos (omega arith) ∙ ap access e)

-- `size` itself passes the check of `operator[]`, and is read past the end of the deque.
pub at-size : (t : HeaderTable) → at t (size t) ≡ undefined
at-size t =
    at_inside t (size t) (unfold size in omega arith) (omega arith)
    ∙ ap access (rw length-entries at (get_elem?-length (entries t)))

-- An index that `find` returns, other than 0, names an entry that passes the test.
pub find-at :
    (t : HeaderTable) (p : Header → Bool) (i : ℕ)
    → find t p ≡ suc i
    → (h : Header) × (at t (suc i) ≡ found h) × (p h ≡ true)
find-at t p i e =
    let hit : find_index p (entries t) ≡ some (suc i) = ground (arith, find-entries t p) in
    let (lt, (h, here, passes)) = find_index-found p (entries t) (suc i) hit in
    (
      h,
      at_inside t (suc i) (omega arith) (omega (arith, length-entries t)) ∙ ap access here,
      passes,
    )

-- `find` returns 0 only if no entry passes the test, the reserved entry at 0 apart.
pub find-none :
    (t : HeaderTable) (p : Header → Bool)
    → find t p ≡ 0
    → p empty_placeholder ≡ false
    → any p (entries t) ≡ false
find-none t p e h = elim (Option-cases (find_index p (entries t))) [
  | inl missing ↦ find_index-missing p (entries t) missing
  | inr (i, hit) ↦
      let first : i ≡ 0 = ground (arith, find-entries t p) in
      let (lt, (x, here, passes)) = find_index-found p (entries t) i hit in
      let head : some x ≡ some empty_placeholder =
        sym here ∙ ap (get_elem? (entries t)) first ∙ entries_head t in
      ground arith
]
