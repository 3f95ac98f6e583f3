-- ===== src/Locator/Links/Tests.antt =====
-- Runs of the links of src/service/locator.cpp.
use cocaine_core.Base.{ℕ, ◌≡◌, refl, true, false, none, some, List, [], ◌∷◌, All, string_key}
use cocaine_core.Base.Map.{lookup}
use cocaine_core.Locator.Node.{Locator, new_locator}
use cocaine_core.Locator.Links.{Action, connects, attached, not_connected, attach_failed}
use cocaine_core.Locator.Links.Retries.{
  Call, links, connected, sent, fires, drops, serve_all, serve_all-waits, serve_all-abandons, Short,
  Counted,
}

abbrev unit_locator : Locator ℕ ℕ
unit_locator = new_locator true true

abbrev calls_of_two : List (Call ℕ)
calls_of_two =
    links "a" (1 ∷ [])
    ∷ connected "a" (1 ∷ []) not_connected
    ∷ fires false "a" (1 ∷ [])
    ∷ connected "a" (1 ∷ []) (attached 5)
    ∷ sent "a" false
    ∷ links "b" (2 ∷ [])
    ∷ connected "b" (2 ∷ []) attach_failed
    ∷ drops "a"
    ∷ []

serve_all-waits_example :
    (l : Locator ℕ ℕ) × (actions : List (Action ℕ)) × (serve_all calls_of_two unit_locator
      ≡ some (l, actions))
    × All Short actions
    × Counted l
serve_all-waits_example = serve_all-waits true true calls_of_two

abbrev waiting_locator : Locator ℕ ℕ
waiting_locator = record unit_locator { link_timer = true; link_attempts = 1 }

serve_all-abandons_example :
    (last : Locator ℕ ℕ) × (serve_all
        (fires false "a" (1 ∷ []) ∷ connected "a" (1 ∷ []) not_connected ∷ [])
        waiting_locator
      ≡ some (last, connects "a" (1 ∷ []) ∷ []))
    × (lookup "a" last.clients ≡ none)
    × (last.link_timer ≡ true)
unfolding lookup
serve_all-abandons_example = serve_all-abandons waiting_locator [] "a" (1 ∷ []) refl refl refl
