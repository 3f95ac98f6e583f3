-- ===== src/Locator/Routers.antt =====
-- The routing groups of locator_t and the streams that tell routers of them:
-- src/service/locator.cpp. What the storage holds is an argument.
pub mod Refresh
use cocaine_core.Base.Map.{Map, lookup, erase, assign, insert}
use cocaine_core.Errors.Codes.{Code}
use cocaine_core.Rpc.Queue.{Operation, Streamed, Appended, new_streamed, write, attach_streamed}
use cocaine_core.Locator.Continuum.{Element, Group, all_elements}
use cocaine_core.Locator.Node.{Locator, RoutingTable}
use cocaine_core.Base.{
  ℕ, zero, suc, ◌+◌, ◌-◌, ◌*◌, ◌/◌, ◌%◌, ◌^◌, ◌≤◌, ◌<◌, min, String, ◌≡◌, refl, sym, ap, ◌∙◌, subst,
  ◌≢◌, ◌↔◌, ◌⊎◌, inl, inr, Bool, true, false, not, ◌&&◌, ◌||◌, Option, none, some, List, [], ◌∷◌,
  ◌++◌, map, append_assoc, append-nil, arith, ltb, leb, nat_beq, if◌then◌else◌, Bool-cases,
  Option-cases, codes, All, length, get_elem?, take, drop, replicate, find_index, find?, any, all,
  keep, is_empty, length-append, length-take, length-drop, length-replicate, take-append-drop,
  take-append_left, take-append_exact, drop-nil, take-nil, take-drop, drop-append_left,
  drop-append_right, find?-All, find?-passes, find?-any, any-find?, find?-none, Key, ◌==◌, nat_key,
  string_key, list_key, list_same, list_same_iff, ==_refl,
}

-- The storage: the names of the active groups, and the group of a name, if it can be read.
pub record Storage : Type 0 where
  pub active : Option (List String)
  pub group : String → Option Group

-- The body of the accumulation in `on_refresh` for one group; `none` where it throws.
-- `make` is the constructor of continuum_t.
unfoldable pub refresh_group :
    (Group → Option (List Element))
    → List String
    → (String → Option Group)
    → String
    → Map String (List Element)
    → Option (Map String (List Element))
refresh_group make updated stored group groups =
    if any (λ name. name == group) updated
    then (elim (stored group) [
      | none ↦ none
      | some g ↦ elim (make g) [
        | none ↦ none
        | some ring ↦ some (insert group ring (erase group groups))
      ]
    ])
    else some (erase group groups)

unfoldable pub refresh_groups :
    (Group → Option (List Element))
    → List String
    → (String → Option Group)
    → List String
    → Map String (List Element)
    → Option (Map String (List Element))
refresh_groups make updated stored [] groups = some groups
refresh_groups make updated stored (group ∷ names) groups =
    elim (refresh_group make updated stored group groups) [
      | none ↦ none
      | some groups' ↦ refresh_groups make updated stored names groups'
    ]

-- The table that `on_routing` sends.
unfoldable pub routing_table : Map String (List Element) → RoutingTable
routing_table [] = []
routing_table ((name, ring) ∷ groups) = (name, all_elements ring) ∷ routing_table groups

-- The stream of a router: the one in the map, or a new one if it is missing or to be replaced.
unfoldable pub router_stream :
    String → Bool → Map String (Streamed RoutingTable) → Streamed RoutingTable
router_stream ruid replace routers =
    if replace
    then new_streamed
    else (elim (lookup ruid routers) [ none ↦ new_streamed | some s ↦ s ])

unfoldable pub ruids_of : Map String (Streamed RoutingTable) → List String
ruids_of [] = []
ruids_of ((ruid, s) ∷ routers) = ruid ∷ ruids_of routers

module _ {E P : Type 0} (send : ℕ → Operation RoutingTable → Option Code) where
  -- on_routing, with what the upstream took and the code that it throws. The stream that it returns
  -- is the one in the map.
  unfoldable pub on_routing :
      String → Bool → Locator E P → Locator E P × List (Operation RoutingTable) × Option Code
  on_routing ruid replace l =
      let done = write send [] (routing_table l.groups) (router_stream ruid replace l.routers) in
      (record l { routers = assign ruid done.queue l.routers }, done.sent, done.error)

  -- The loop of `on_refresh` over the routers: one that cannot be told is erased.
  unfoldable pub tell_routers :
      List String → Locator E P → Locator E P × List (String × Operation RoutingTable)
  tell_routers [] l = (l, [])
  tell_routers (ruid ∷ ruids) l =
      let (told, ops, failure) = on_routing ruid false l in
      let left : Locator E P = elim failure [
        | none ↦ told
        | some ec ↦ record told { routers = erase ruid told.routers }
      ] in
      let (last, posts) = tell_routers ruids left in (last, map (λ op. (ruid, op)) ops ++ posts)

  -- on_refresh; `none` where it throws, which leaves the locator as it was.
  unfoldable pub on_refresh :
      (Group → Option (List Element))
      → Storage
      → List String
      → Locator E P
      → Option (Locator E P × List (String × Operation RoutingTable))
  on_refresh make storage names l = elim storage.active [
    | none ↦ none
    | some updated ↦ elim (refresh_groups make updated storage.group names l.groups) [
      | none ↦ none
      | some groups ↦ some (tell_routers (ruids_of l.routers) (record l { groups = groups }))
    ]
  ]

  -- routing_slot_t: the stream is attached, with the code of an exception; a router that goes is erased.
  unfoldable pub routing_slot :
      String → ℕ → Locator E P → Locator E P × List (Operation RoutingTable) × Option Code
  routing_slot ruid upstream l =
      let (told, ops, failure) = on_routing ruid true l in
      elim failure [
        | some ec ↦ (told, ops, some ec)
        | none ↦
            let done = attach_streamed send upstream (router_stream ruid false told.routers) in
            (
              record told { routers = assign ruid done.queue told.routers },
              ops ++ done.sent,
              done.error,
            )
      ]

unfoldable pub routing_discard : {E P : Type 0} → String → Locator E P → Locator E P
routing_discard ruid l = record l { routers = erase ruid l.routers }
