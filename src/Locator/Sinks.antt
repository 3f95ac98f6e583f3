-- ===== src/Locator/Sinks.antt =====
-- What locator_t hears from other nodes, from publishers and from clients: connect_sink_t,
-- publish_slot_t and on_resolve of src/service/locator.cpp.
pub mod Heard
pub mod Chain
mod Tests
use cocaine_core.Base.Map.{Map, lookup}
use cocaine_core.Errors.{missing_version_error, service_not_available}
use cocaine_core.Errors.Codes.{Code, locator_code}
use cocaine_core.Gateway.{Remotes, Description, consume, cleanup, cleanup_all, resolve}
use cocaine_core.Rpc.Queue.{Operation}
use cocaine_core.Locator.Continuum.{Element, get, get_keyless}
use cocaine_core.Locator.Node.{Locator, Update, Config, exposed, removed, on_service}
use cocaine_core.Locator.Links.{Action, drop_node}
use cocaine_core.Base.{
  ℕ, zero, suc, ◌+◌, ◌-◌, ◌*◌, ◌/◌, ◌%◌, ◌^◌, ◌≤◌, ◌<◌, min, String, ◌≡◌, refl, sym, ap, ◌∙◌, subst,
  ◌≢◌, ◌↔◌, ◌⊎◌, inl, inr, Bool, true, false, not, ◌&&◌, ◌||◌, Option, none, some, List, [], ◌∷◌,
  ◌++◌, map, append_assoc, append-nil, arith, ltb, leb, nat_beq, if◌then◌else◌, Bool-cases,
  Option-cases, codes, All, length, get_elem?, take, drop, replicate, find_index, find?, any, all,
  keep, is_empty, length-append, length-take, length-drop, length-replicate, take-append-drop,
  take-append_left, take-append_exact, drop-nil, take-nil, take-drop, drop-append_left,
  drop-append_right, find?-All, find?-passes, find?-any, any-find?, find?-none, Key, ◌==◌, nat_key,
  string_key, list_key, list_same, list_same_iff, ==_refl,
}

-- The loop of `on_announce`; the code of an exception leaves it.
unfoldable pub absorb :
    {E P : Type 0} → String → Map String (Description E P) → Remotes E P → Remotes E P × Option Code
absorb uuid [] g = (g, none)
absorb uuid ((name, meta) ∷ update) g =
    let (g', failure) =
      if is_empty meta.endpoints
      then cleanup uuid name g
      else consume uuid name meta.version meta.endpoints meta.protocol g in
    let rest = absorb uuid update g' in elim failure [ none ↦ rest | some ec ↦ (g', some ec) ]

-- The name that a routing group maps a service to; `none` is an empty ring, which is undefined.
unfoldable pub remap :
    (String → List ℕ) → ℕ → String → String → Map String (List Element) → Option String
remap digest drawn name seed groups = elim (lookup name groups) [
  | none ↦ some name
  | some ring ↦ if seed == "" then get_keyless drawn ring else get digest seed ring
]

module _ {E P : Type 0} where
  -- connect_sink_t::on_announce of the node `uuid`. The gateway is there: without one no node is
  -- linked.
  unfoldable pub on_announce :
      String
      → String
      → Map String (Description E P)
      → Locator E P
      → Locator E P × List (Action E) × Option Code
  on_announce uuid node update l =
      if not (node == uuid)
      then (let (l', actions) = drop_node uuid l in (l', actions, none))
      else elim l.gateway [
        | none ↦ (l, [], none)
        | some g ↦
            let (g', failure) = absorb uuid update g in
            (record l { gateway = some g' }, [], failure)
      ]

  -- connect_sink_t::discard, given whether the code is 0; on_shutdown is drop_node.
  unfoldable pub sink_discard : Bool → String → Locator E P → Locator E P × List (Action E)
  sink_discard no_error uuid l = if no_error then (l, []) else drop_node uuid l

  -- The destructor of connect_sink_t.
  unfoldable pub sink_destroyed : String → Locator E P → Locator E P
  sink_destroyed uuid l = elim l.gateway [
    | none ↦ l
    | some g ↦ record l { gateway = some (cleanup_all uuid g) }
  ]

  -- publish_slot_t: the service is exposed, unless a native protocol comes without a version.
  unfoldable pub publish :
      (P → Bool)
      → (ℕ → Operation (Update E P) → Option Code)
      → Config
      → String
      → Description E P
      → Locator E P
      → Locator E P × List (String × Operation (Update E P)) × Option Code
  publish no_protocol send cfg handle meta l =
      if not (no_protocol meta.protocol) && nat_beq meta.version 0
      then (l, [], some (locator_code missing_version_error))
      else on_service send cfg handle meta exposed l

  -- publish_slot_t::discard
  unfoldable pub unpublish :
      P
      → (ℕ → Operation (Update E P) → Option Code)
      → Config
      → String
      → Locator E P
      → Locator E P × List (String × Operation (Update E P)) × Option Code
  unpublish default_protocol send cfg handle l =
      on_service send cfg handle
        (record { endpoints = []; protocol = default_protocol; version = 0 }) removed l

  -- on_resolve of the remapped name. `locate` is that of the context.
  unfoldable pub resolve_remapped :
      (String → Option (Description E P)) → (ℕ → ℕ) → String → Locator E P → Code ⊎ Description E P
  resolve_remapped locate roll name l = elim (locate name) [
    | some provided ↦ inr provided
    | none ↦ elim l.gateway [
      | none ↦ inl (locator_code service_not_available)
      | some g ↦ resolve roll name g
    ]
  ]

  unfoldable pub on_resolve :
      (String → List ℕ)
      → ℕ
      → (String → Option (Description E P))
      → (ℕ → ℕ)
      → String
      → String
      → Locator E P
      → Option (Code ⊎ Description E P)
  on_resolve digest drawn locate roll name seed l = elim (remap digest drawn name seed l.groups) [
    | none ↦ none
    | some remapped ↦ some (resolve_remapped locate roll remapped l)
  ]
