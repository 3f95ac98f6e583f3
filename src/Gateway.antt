-- ===== src/Gateway.antt =====
-- gateway::adhoc_t: include/cocaine/detail/gateway/adhoc.hpp and src/gateway/adhoc.cpp. Endpoints and
-- protocols are values of any types; the random choice of `resolve` is an argument. The order of the
-- services of one name does not matter to that choice.
pub mod Registry
mod Tests
use cocaine_core.Base.{
  ℕ, zero, suc, ◌+◌, ◌-◌, ◌*◌, ◌/◌, ◌%◌, ◌^◌, ◌≤◌, ◌<◌, min, String, ◌≡◌, refl, sym, ap, ◌∙◌, subst,
  ◌≢◌, ◌↔◌, ◌⊎◌, inl, inr, Bool, true, false, not, ◌&&◌, ◌||◌, Option, none, some, List, [], ◌∷◌,
  ◌++◌, map, append_assoc, append-nil, arith, ltb, leb, nat_beq, if◌then◌else◌, Bool-cases,
  Option-cases, codes, All, length, get_elem?, take, drop, replicate, find_index, find?, any, all,
  keep, is_empty, length-append, length-take, length-drop, length-replicate, take-append-drop,
  take-append_left, take-append_exact, drop-nil, take-nil, take-drop, drop-append_left,
  drop-append_right, find?-All, find?-passes, find?-any, any-find?, find?-none, Key, ◌==◌, nat_key,
  string_key, list_key, list_same, list_same_iff, ==_refl,
}
use cocaine_core.Base.Map.{Map, lookup, contains, erase, assign, insert}
use cocaine_core.Errors.{service_not_available, gateway_duplicate_service, gateway_missing_service}
use cocaine_core.Errors.Codes.{Code, locator_code}

-- remote_t
pub record Remote (E P : Type 0) : Type 0 where
  pub uuid : String
  pub version : ℕ
  pub endpoints : List E
  pub protocol : P

abbrev pub remote : {E P : Type 0} → String → ℕ → List E → P → Remote E P
remote uuid version endpoints protocol = record {
  uuid = uuid;
  version = version;
  endpoints = endpoints;
  protocol = protocol;
}

-- remote_map_t: by name, then by uuid.
abbrev pub Remotes : Type 0 → Type 0 → Type 0
Remotes E P = Map String (Map String (Remote E P))

-- `remotes[name]`, which makes an empty map where there is none.
unfoldable pub services : {E P : Type 0} → String → Remotes E P → Map String (Remote E P)
services name remotes = elim (lookup name remotes) [ none ↦ [] | some m ↦ m ]

-- service_description_t
pub record Description (E P : Type 0) : Type 0 where
  pub endpoints : List E
  pub protocol : P
  pub version : ℕ

abbrev pub description : {E P : Type 0} → Remote E P → Description E P
description r = record { endpoints = r.endpoints; protocol = r.protocol; version = r.version }

-- resolve; `roll` is the random distribution from 0 to the given number, so an element is missing only
-- where there are none.
unfoldable pub resolve : {E P : Type 0} → (ℕ → ℕ) → String → Remotes E P → Code ⊎ Description E P
unfolding services
resolve roll name remotes =
    elim (get_elem? (services name remotes) (roll (length (services name remotes) - 1))) [
      | none ↦ inl (locator_code service_not_available)
      | some entry ↦ inr (description entry.1)
    ]

-- consume; the map of the name is made first, and stays if the code of an exception is returned.
unfoldable pub consume :
    {E P : Type 0} → String → String → ℕ → List E → P → Remotes E P → Remotes E P × Option Code
consume uuid name version endpoints protocol remotes =
    let touched = insert name [] remotes in
    if contains uuid (services name touched)
    then (touched, some (locator_code gateway_duplicate_service))
    else (
      assign name (insert uuid (remote uuid version endpoints protocol) (services name touched))
          touched,
      none,
    )

-- cleanup(uuid, name); as for `consume`.
unfoldable pub cleanup : {E P : Type 0} → String → String → Remotes E P → Remotes E P × Option Code
cleanup uuid name remotes =
    let touched = insert name [] remotes in
    if contains uuid (services name touched)
    then (assign name (erase uuid (services name touched)) touched, none)
    else (touched, some (locator_code gateway_missing_service))

-- cleanup(uuid): names that are left with no service go too.
unfoldable pub cleanup_all : {E P : Type 0} → String → Remotes E P → Remotes E P
cleanup_all uuid [] = []
cleanup_all uuid ((name, m) ∷ remotes) =
    let rest = cleanup_all uuid remotes in
    if is_empty (erase uuid m) then rest else (name, erase uuid m) ∷ rest

-- total_count
unfoldable pub total_count : {E P : Type 0} → String → Remotes E P → ℕ
total_count name remotes = elim (lookup name remotes) [ none ↦ 0 | some m ↦ length m ]
