-- ===== src/Locator/Continuum.antt =====
-- continuum_t: src/service/locator/routing.cpp and include/cocaine/detail/service/locator/routing.hpp.
-- MD5 is an argument that gives the four points of a digest, and so is the rounding of doubles that
-- gives an element's number of hashes. Elements with the same point are in the order of their making,
-- where std::sort leaves the order open.
pub mod Nearest
pub mod Population
mod Tests
use Prim.Native.Nat.{bit_xor}
use cocaine_core.Base.{
  ℕ, zero, suc, ◌+◌, ◌-◌, ◌*◌, ◌/◌, ◌%◌, ◌^◌, ◌≤◌, ◌<◌, min, String, ◌≡◌, refl, sym, ap, ◌∙◌, subst,
  ◌≢◌, ◌↔◌, ◌⊎◌, inl, inr, Bool, true, false, not, ◌&&◌, ◌||◌, Option, none, some, List, [], ◌∷◌,
  ◌++◌, map, append_assoc, append-nil, arith, ltb, leb, nat_beq, if◌then◌else◌, Bool-cases,
  Option-cases, codes, All, length, get_elem?, take, drop, replicate, find_index, find?, any, all,
  keep, is_empty, length-append, length-take, length-drop, length-replicate, take-append-drop,
  take-append_left, take-append_exact, drop-nil, take-nil, take-drop, drop-append_left,
  drop-append_right, find?-All, find?-passes, find?-any, any-find?, find?-none, Key, ◌==◌, nat_key,
  string_key, list_key, list_same, list_same_iff, ==_refl,
}

-- element_t
pub record Element : Type 0 where
  pub point : ℕ
  pub value : String

-- stored_type, in the order of the keys.
abbrev pub Group : Type 0
Group = List (String × ℕ)

unfoldable pub total_weight : Group → ℕ
total_weight [] = 0
total_weight ((value, weight) ∷ group) = weight + total_weight group

abbrev pub elements_of : String → List ℕ → List Element
elements_of value [] = []
elements_of value (point ∷ points) =
    record { point = point; value = value } ∷ elements_of value points

-- What the rounding of `weight / total * (64 * length)` gives, and the points of a value's hash.
module _ (rounded : ℕ → ℕ → ℕ → ℕ) (hashed : String → ℕ → List ℕ) where
  -- The loop over the steps, which counts from `step`.
  unfoldable pub quads : String → ℕ → ℕ → List Element
  quads value step zero = []
  quads value step (suc left) = elements_of value (hashed value step) ++ quads value (suc step) left

  unfoldable pub populate : ℕ → ℕ → Group → List Element
  populate total size [] = []
  populate total size ((value, weight) ∷ group) =
      quads value 0 (rounded weight total size) ++ populate total size group

-- std::sort
unfoldable pub insert_sorted : Element → List Element → List Element
insert_sorted e [] = e ∷ []
insert_sorted e (o ∷ es) =
    let rest = insert_sorted e es in if ltb o.point e.point then o ∷ rest else e ∷ o ∷ es

unfoldable pub sort_elements : List Element → List Element
sort_elements [] = []
sort_elements (e ∷ es) = insert_sorted e (sort_elements es)

-- The constructor; `none` where it throws.
unfoldable pub continuum : (ℕ → ℕ → ℕ → ℕ) → (String → ℕ → List ℕ) → Group → Option (List Element)
continuum rounded hashed group =
    if is_empty group || nat_beq (total_weight group) 0
    then none
    else some (sort_elements (populate rounded hashed (total_weight group) (length group) group))

abbrev pub front : List Element → Option Element
front [] = none
front (e ∷ es) = some e

-- The element that both `get`s look up for a point; `none` for the front of an empty vector.
unfoldable pub element_at : ℕ → List Element → Option Element
element_at point elements = elim (find? (λ e. ltb point e.point) elements) [
  | some e ↦ some e
  | none ↦ front elements
]

-- std::accumulate with std::bit_xor.
unfoldable pub xor_points : List ℕ → ℕ → ℕ
xor_points [] folded = folded
xor_points (point ∷ points) folded = xor_points points (bit_xor folded point)

-- get of a key, whose digest is an argument.
unfoldable pub get : (String → List ℕ) → String → List Element → Option String
get digest key elements = elim (element_at (xor_points (digest key) 0) elements) [
  | none ↦ none
  | some e ↦ some e.value
]

-- get without a key, for the point that the generator draws.
abbrev pub get_keyless : ℕ → List Element → Option String
get_keyless point elements = elim (element_at point elements) [
  | none ↦ none
  | some e ↦ some e.value
]

-- all
abbrev pub all_elements : List Element → List (ℕ × String)
all_elements elements = map (λ e. (e.point, e.value)) elements
