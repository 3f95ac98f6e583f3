-- ===== src/Locator/Continuum/Tests.antt =====
-- A small ring of src/service/locator/routing.cpp.
use cocaine_core.Base.{
  leb, if◌then◌else◌, ◌+◌, ℕ, String, ◌≡◌, refl, some, List, [], ◌∷◌, ◌*◌, arith,
}
use cocaine_core.Locator.Continuum.{
  Element, Group, continuum, populate, get, total_weight, xor_points,
}
use cocaine_core.Locator.Continuum.Nearest.{In, Nearest}
use cocaine_core.Locator.Continuum.Population.{get-Nearest}

abbrev two_apps : Group
two_apps = ("a", 1) ∷ ("b", 3) ∷ []

-- Whole parts of the share of one step for each element.
abbrev share : ℕ → ℕ → ℕ → ℕ
share weight total size = if leb total (weight * size) then 1 else 0

abbrev two_points : String → ℕ → List ℕ
two_points value step = (10 + step) ∷ 30 ∷ []

abbrev key_digest : String → List ℕ
key_digest key = 12 ∷ 5 ∷ []

get-Nearest_example :
    let made = populate share two_points 4 2 two_apps in
    (ring : List Element) × (continuum share two_points two_apps ≡ some ring)
    × ((e : Element) × (get key_digest "key" ring ≡ some e.value)
        × In e made
        × Nearest (xor_points (key_digest "key") 0) e made)
unfolding total_weight
get-Nearest_example =
    get-Nearest share two_points key_digest two_apps "key" (omega arith) (λ weight h. ground arith)
      (λ value. refl)
