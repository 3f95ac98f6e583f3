-- ===== src/Locator/Continuum/Nearest.antt =====
-- Which element of the ring of src/service/locator/routing.cpp a key is mapped to.
use cocaine_core.Base.{
  ℕ, ◌≤◌, ◌<◌, ◌≡◌, refl, ◌⊎◌, inl, inr, true, false, none, some, List, [], ◌∷◌, arith, ltb,
  Bool-cases, Option-cases, All, sym, subst, find?, is_empty,
}
use cocaine_core.Locator.Continuum.{Element, insert_sorted, sort_elements, element_at}

abbrev pub In : Element → List Element → Type 0
In e [] = ⊥
In e (o ∷ es) = (e ≡ o) ⊎ In e es

abbrev Ascending : List Element → Type 0
Ascending [] = Unit {0}
Ascending (e ∷ es) = All (λ o. e.point ≤ o.point) es × Ascending es

-- The element has the next point after the given one, or, if no point is after it, the least.
abbrev pub Nearest : ℕ → Element → List Element → Type 0
Nearest point e es =
    ((point < e.point) × All (λ o. point < o.point → e.point ≤ o.point) es)
    ⊎ (All (λ o. o.point ≤ point) es × All (λ o. e.point ≤ o.point) es)

All-insert_sorted :
    (P : Element → Type 0) (e : Element) (es : List Element)
    → P e
    → All P es
    → All P (insert_sorted e es)
unfolding insert_sorted
All-insert_sorted P e [] h hs = (h, tt)
All-insert_sorted P e (o ∷ es) h hs = elim (Bool-cases (ltb o.point e.point)) [
  | inl less ↦ rw less (hs.0, All-insert_sorted P e es h hs.1)
  | inr later ↦ rw later (h, hs)
]

inserted_before :
    (P : Element → Type 0) (e o : Element) (es : List Element)
    → ltb o.point e.point ≡ true
    → All P (insert_sorted e (o ∷ es))
    → P o × All P (insert_sorted e es)
unfolding insert_sorted
inserted_before P e o es less = rw less (λ h. h)

inserted_after :
    (P : Element → Type 0) (e o : Element) (es : List Element)
    → ltb o.point e.point ≡ false
    → All P (insert_sorted e (o ∷ es))
    → P e × All P (o ∷ es)
unfolding insert_sorted
inserted_after P e o es later = rw later (λ h. h)

insert_sorted-All :
    (P : Element → Type 0) (e : Element) (es : List Element)
    → All P (insert_sorted e es)
    → P e × All P es
unfolding insert_sorted
insert_sorted-All P e [] h = h
insert_sorted-All P e (o ∷ es) h = elim (Bool-cases (ltb o.point e.point)) [
  | inl less ↦
      let rest = insert_sorted-All P e es (inserted_before P e o es less h).1 in
      (rest.0, ((inserted_before P e o es less h).0, rest.1))
  | inr later ↦ inserted_after P e o es later h
]

weaken :
    (a b : ℕ) (es : List Element) → a ≤ b → All (λ o. b ≤ o.point) es → All (λ o. a ≤ o.point) es
weaken a b [] le h = tt
weaken a b (o ∷ es) le h = (omega arith, weaken a b es le h.1)

insert_sorted-Ascending :
    (e : Element) (es : List Element) → Ascending es → Ascending (insert_sorted e es)
unfolding insert_sorted
insert_sorted-Ascending e [] h = (tt, tt)
insert_sorted-Ascending e (o ∷ es) h = elim (Bool-cases (ltb o.point e.point)) [
  | inl less ↦ rw less (
    All-insert_sorted (λ p. o.point ≤ p.point) e es (ground arith) h.0,
    insert_sorted-Ascending e es h.1,
  )
  | inr later ↦
      let le : e.point ≤ o.point = ground arith in
      rw later ((le, weaken e.point o.point es le h.0), h)
]

later_least :
    (point least : ℕ) (es : List Element)
    → All (λ o. least ≤ o.point) es
    → All (λ o. point < o.point → least ≤ o.point) es
later_least point least [] h = tt
later_least point least (o ∷ es) h = ((λ lt. h.0), later_least point least es h.1)

find?-least :
    (point : ℕ) (es : List Element) (e : Element)
    → Ascending es
    → find? (λ o. ltb point o.point) es ≡ some e
    → In e es × (point < e.point) × All (λ o. point < o.point → e.point ≤ o.point) es
find?-least point [] e h found = absurd (ground arith)
find?-least point (o ∷ es) e h found = elim (Bool-cases (ltb point o.point)) [
  | inl hit ↦
      let same : o ≡ e = ground arith in
      subst
        (λ e.
          In e (o ∷ es)
          × (point < e.point)
          × All (λ p. point < p.point → e.point ≤ p.point) (o ∷ es))
        same (inl refl, ground arith, ((λ lt. omega arith), later_least point o.point es h.0))
  | inr miss ↦
      let rest = find?-least point es e h.1 (ground arith) in
      (inr rest.0, rest.1, ((λ lt. absurd (ground arith)), rest.2))
]

find?-absent :
    (point : ℕ) (es : List Element)
    → find? (λ o. ltb point o.point) es ≡ none
    → All (λ o. o.point ≤ point) es
find?-absent point [] found = tt
find?-absent point (o ∷ es) found = elim (Bool-cases (ltb point o.point)) [
  | inl hit ↦ absurd (ground arith)
  | inr miss ↦ (ground arith, find?-absent point es (ground arith))
]

All-sort_elements : (P : Element → Type 0) (es : List Element) → All P es → All P (sort_elements es)
unfolding sort_elements
All-sort_elements P [] h = tt
All-sort_elements P (e ∷ es) h =
    All-insert_sorted P e (sort_elements es) h.0 (All-sort_elements P es h.1)

sort_elements-All : (P : Element → Type 0) (es : List Element) → All P (sort_elements es) → All P es
unfolding sort_elements
sort_elements-All P [] h = tt
sort_elements-All P (e ∷ es) h =
    let rest = insert_sorted-All P e (sort_elements es) h in (rest.0, sort_elements-All P es rest.1)

sort_elements-Ascending : (es : List Element) → Ascending (sort_elements es)
unfolding sort_elements
sort_elements-Ascending [] = tt
sort_elements-Ascending (e ∷ es) =
    insert_sorted-Ascending e (sort_elements es) (sort_elements-Ascending es)

All-map :
    (P Q : Element → Type 0) (es : List Element) → ((e : Element) → P e → Q e) → All P es → All Q es
All-map P Q [] f h = tt
All-map P Q (e ∷ es) f h = (f e h.0, All-map P Q es f h.1)

All-In : (es : List Element) → All (λ e. In e es) es
All-In [] = tt
All-In (e ∷ es) =
    (inl refl, All-map (λ o. In o es) (λ o. In o (e ∷ es)) es (λ o h. inr h) (All-In es))

In-All : (P : Element → Type 0) (e : Element) (es : List Element) → In e es → All P es → P e
In-All P e [] i h = absurd i
In-All P e (o ∷ es) (inl same) h = subst P (sym same) h.0
In-All P e (o ∷ es) (inr later) h = In-All P e es later h.1

element_at-Ascending :
    (point : ℕ) (es : List Element)
    → Ascending es
    → is_empty es ≡ false
    → (e : Element) × (element_at point es ≡ some e) × In e es × Nearest point e es
unfolding element_at
element_at-Ascending point [] h full = absurd (ground arith)
element_at-Ascending point (o ∷ es) h full =
    elim (Option-cases (find? (λ e. ltb point e.point) (o ∷ es))) [
      | inl miss ↦
          (o, ground arith, inl refl, inr (find?-absent point (o ∷ es) miss, (omega arith, h.0)))
      | inr (e, hit) ↦
          let least = find?-least point (o ∷ es) e h hit in
          (e, ground arith, least.0, inl (least.1, least.2))
    ]

In-sort_elements : (e : Element) (es : List Element) → In e (sort_elements es) → In e es
In-sort_elements e es i =
    In-All (λ o. In o es) e (sort_elements es) i (All-sort_elements (λ o. In o es) es (All-In es))

Nearest-sort_elements :
    (point : ℕ) (e : Element) (es : List Element)
    → Nearest point e (sort_elements es)
    → Nearest point e es
Nearest-sort_elements point e es (inl after) =
    inl (after.0, sort_elements-All (λ o. point < o.point → e.point ≤ o.point) es after.1)
Nearest-sort_elements point e es (inr last) = inr (
  sort_elements-All (λ o. o.point ≤ point) es last.0,
  sort_elements-All (λ o. e.point ≤ o.point) es last.1,
)

is_empty-insert_sorted : (e : Element) (es : List Element) → is_empty (insert_sorted e es) ≡ false
unfolding insert_sorted
is_empty-insert_sorted e [] = refl
is_empty-insert_sorted e (o ∷ es) = ground arith

is_empty-sort_elements :
    (es : List Element) → is_empty es ≡ false → is_empty (sort_elements es) ≡ false
unfolding sort_elements
is_empty-sort_elements [] full = absurd (ground arith)
is_empty-sort_elements (e ∷ es) full = is_empty-insert_sorted e (sort_elements es)

-- A sorted ring that is not empty has an element for each point, the nearest of those that were sorted.
pub element_at-sort_elements :
    (point : ℕ) (es : List Element)
    → is_empty es ≡ false
    → (e : Element) × (element_at point (sort_elements es) ≡ some e) × In e es × Nearest point e es
element_at-sort_elements point es full =
    let (e, found, member, near) =
      element_at-Ascending point (sort_elements es) (sort_elements-Ascending es)
        (is_empty-sort_elements es full) in
    (e, found, In-sort_elements e es member, Nearest-sort_elements point e es near)
