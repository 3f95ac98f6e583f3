-- ===== src/Locator/Continuum/Population.antt =====
-- The ring of src/service/locator/routing.cpp that a routing group makes, and its lookups.
use cocaine_core.Base.{
  ℕ, zero, suc, ◌+◌, ◌*◌, ◌≤◌, ◌<◌, String, ◌≡◌, refl, inl, inr, true, false, some, List, [], ◌∷◌,
  ◌++◌, arith, leb, Bool-cases, All, length, is_empty,
}
use cocaine_core.Locator.Continuum.{
  Element, Group, total_weight, elements_of, quads, populate, sort_elements, continuum, xor_points,
  get,
}
use cocaine_core.Locator.Continuum.Nearest.{In, Nearest, element_at-sort_elements}

-- If no weight times the size of the group reaches a total, their sum does not either.
light_sum :
    (total size : ℕ) (group : Group)
    → All (λ (p : String × ℕ). p.1 * size < total) group
    → total_weight group * size + length group ≤ total * length group
unfolding total_weight
light_sum total size [] h = omega arith
light_sum total size ((value, weight) ∷ group) h =
    let rest = light_sum total size group h.1 in
    let now : weight * size < total = h.0 in omega arith

is_empty-append :
    {A : Type 0} (xs ys : List A)
    → is_empty (xs ++ ys) ≡ true
    → (is_empty xs ≡ true) × (is_empty ys ≡ true)
is_empty-append [] ys h = (refl, h)
is_empty-append (x ∷ xs) ys h = absurd (ground arith)

is_empty-elements_of :
    (value : String) (points : List ℕ) → is_empty (elements_of value points) ≡ is_empty points
is_empty-elements_of value [] = refl
is_empty-elements_of value (point ∷ points) = refl

length-full : (group : Group) → is_empty group ≡ false → 1 ≤ length group
length-full [] h = absurd (ground arith)
length-full (p ∷ group) h = omega arith

full_group : (group : Group) → 1 ≤ total_weight group → is_empty group ≡ false
unfolding total_weight
full_group [] h = absurd (omega arith)
full_group (p ∷ group) h = refl

module _ (rounded : ℕ → ℕ → ℕ → ℕ) (hashed : String → ℕ → List ℕ) where
  quads-empty :
      (value : String) (left : ℕ)
      → is_empty (hashed value 0) ≡ false
      → is_empty (quads rounded hashed value 0 left) ≡ true
      → left ≡ 0
  unfolding quads
  quads-empty value zero full h = refl
  quads-empty value (suc left) full h =
      let none_made =
        is_empty-append (elements_of value (hashed value 0)) (quads rounded hashed value 1 left)
          h in
      absurd (ground (arith, is_empty-elements_of value (hashed value 0)))

  populate-light :
      (total size : ℕ) (group : Group)
      → ((weight : ℕ) → total ≤ weight * size → 1 ≤ rounded weight total size)
      → ((value : String) → is_empty (hashed value 0) ≡ false)
      → is_empty (populate rounded hashed total size group) ≡ true
      → All (λ (p : String × ℕ). p.1 * size < total) group
  unfolding populate
  populate-light total size [] positive full h = tt
  populate-light total size ((value, weight) ∷ group) positive full h =
      let parts =
        is_empty-append (quads rounded hashed value 0 (rounded weight total size))
          (populate rounded hashed total size group) h in
      let steps = quads-empty value (rounded weight total size) (full value) parts.0 in
      let rest = populate-light total size group positive full parts.1 in
      elim (Bool-cases (leb total (weight * size))) [
        | inl heavy ↦ let some_step = positive weight (ground arith) in absurd (omega arith)
        | inr light ↦ (ground arith, rest)
      ]

  is_empty-populate :
      (group : Group)
      → is_empty group ≡ false
      → ((weight : ℕ)
          → total_weight group ≤ weight * length group
          → 1 ≤ rounded weight (total_weight group) (length group))
      → ((value : String) → is_empty (hashed value 0) ≡ false)
      → is_empty (populate rounded hashed (total_weight group) (length group) group) ≡ false
  is_empty-populate group some_element positive full =
      elim (Bool-cases
        (is_empty (populate rounded hashed (total_weight group) (length group) group))) [
          | inr made ↦ made
          | inl nothing ↦
              let sum =
                light_sum (total_weight group) (length group) group (
                  populate-light (total_weight group) (length group) group positive full nothing) in
              let one : 1 ≤ length group = length-full group some_element in absurd (omega arith)
        ]

-- If a group has a positive total weight, an element with at least the average weight gets a hash, and
-- each hash has a point, then its continuum is made, and `get` of a key returns the value of an element
-- that the group made: one with the next point after the key's, or, if there is none, the least point.
pub get-Nearest :
    (rounded : ℕ → ℕ → ℕ → ℕ) (hashed : String → ℕ → List ℕ) (digest : String → List ℕ)
    (group : Group) (key : String)
    → 1 ≤ total_weight group
    → ((weight : ℕ)
        → total_weight group ≤ weight * length group
        → 1 ≤ rounded weight (total_weight group) (length group))
    → ((value : String) → is_empty (hashed value 0) ≡ false)
    → let made = populate rounded hashed (total_weight group) (length group) group in
      (ring : List Element) × (continuum rounded hashed group ≡ some ring)
      × ((e : Element) × (get digest key ring ≡ some e.value)
          × In e made
          × Nearest (xor_points (digest key) 0) e made)
unfolding continuum get
get-Nearest rounded hashed digest group key weighty positive full =
    let made = populate rounded hashed (total_weight group) (length group) group in
    let some_element : is_empty group ≡ false = full_group group weighty in
    let (e, found, member, near) =
      element_at-sort_elements (xor_points (digest key) 0) made
        (is_empty-populate rounded hashed group some_element positive full) in
    (sort_elements made, ground arith, (e, rw (found, get) refl, member, near))
