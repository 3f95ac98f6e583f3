-- ===== src/Locator/Node.antt =====
-- The state of locator_t and how it tells other locators of its services:
-- include/cocaine/detail/service/locator.hpp and src/service/locator.cpp. The gateway is an adhoc_t.
-- Endpoints `E` and protocols `P` are of any types; sessions are numbers.
pub mod Mirror
pub mod Sync
pub mod Known
pub mod Steps
pub mod Refused
mod Tests
use cocaine_core.Base.Map.{Map, lookup, contains, erase, assign}
use cocaine_core.Errors.Codes.{Code}
use cocaine_core.Gateway.{Remotes, Description, consume, cleanup}
use cocaine_core.Rpc.Queue.{
  Operation, Streamed, Appended, new_streamed, write, close, attach_streamed,
}
use cocaine_core.Locator.Continuum.{Element}
use cocaine_core.Base.{
  ℕ, zero, suc, ◌+◌, ◌-◌, ◌*◌, ◌/◌, ◌%◌, ◌^◌, ◌≤◌, ◌<◌, min, String, ◌≡◌, refl, sym, ap, ◌∙◌, subst,
  ◌≢◌, ◌↔◌, ◌⊎◌, inl, inr, Bool, true, false, not, ◌&&◌, ◌||◌, Option, none, some, List, [], ◌∷◌,
  ◌++◌, map, append_assoc, append-nil, arith, ltb, leb, nat_beq, if◌then◌else◌, Bool-cases,
  Option-cases, codes, All, length, get_elem?, take, drop, replicate, find_index, find?, any, all,
  keep, is_empty, length-append, length-take, length-drop, length-replicate, take-append-drop,
  take-append_left, take-append_exact, drop-nil, take-nil, take-drop, drop-append_left,
  drop-append_right, find?-All, find?-passes, find?-any, any-find?, find?-none, Key, ◌==◌, nat_key,
  string_key, list_key, list_same, list_same_iff, ==_refl,
}

-- uplink_t; `session` is `none` while the connection is being made.
pub record Uplink (E : Type 0) : Type 0 where
  pub endpoints : List E
  pub session : Option ℕ

-- results::connect: the uuid of a node, and some of its services.
abbrev pub Update : Type 0 → Type 0 → Type 0
Update E P = String × Map String (Description E P)

-- results::routing
abbrev pub RoutingTable : Type 0
RoutingTable = Map String (List (ℕ × String))

-- locator_cfg_t
pub record Config : Type 0 where
  pub name : String
  pub uuid : String
  pub restricted : List String

-- The constructor of locator_cfg_t; the uuid is the configured one, if any, or else a fresh one.
abbrev pub config : String → Option String → String → List String → Config
config name configured fresh restrict = record {
  name = name;
  uuid = elim configured [ none ↦ fresh | some uuid ↦ uuid ];
  restricted = name ∷ restrict;
}

abbrev pub is_restricted : Config → String → Bool
is_restricted cfg name = any (λ r. r == name) cfg.restricted

-- locator_t
pub record Locator (E P : Type 0) : Type 0 where
  pub gateway : Option (Remotes E P)
  pub cluster : Bool
  pub groups : Map String (List Element)
  pub clients : Map String (Uplink E)
  pub remotes : Map String (Streamed (Update E P))
  pub snapshots : Map String (Description E P)
  pub routers : Map String (Streamed RoutingTable)
  pub link_attempts : ℕ
  pub link_timer : Bool

-- The constructor, before the routing groups are read.
abbrev pub new_locator : {E P : Type 0} → Bool → Bool → Locator E P
new_locator with_gateway with_cluster = record {
  gateway = if with_gateway then some [] else none;
  cluster = with_cluster;
  groups = [];
  clients = [];
  remotes = [];
  snapshots = [];
  routers = [];
  link_attempts = 0;
  link_timer = false;
}

pub data Mode : Type 0 where
  exposed removed : Mode

-- A call on each stream of a map; the results are ignored.
unfoldable pub each :
    {A : Type 0}
    → (Streamed A → Appended (Streamed A) A)
    → Map String (Streamed A)
    → Map String (Streamed A) × List (String × Operation A)
each call [] = ([], [])
each call ((uuid, s) ∷ streams) =
    let (rest, posts) = each call streams in
    let done = call s in ((uuid, done.queue) ∷ rest, map (λ op. (uuid, op)) done.sent ++ posts)

-- on_cluster: the endpoint of each session, or a default one while there is none.
unfoldable pub on_cluster : {E : Type 0} → (ℕ → E) → E → Map String (Uplink E) → Map String E
on_cluster remote_endpoint default [] = []
on_cluster remote_endpoint default ((uuid, uplink) ∷ clients) =
    (uuid, elim uplink.session [ none ↦ default | some s ↦ remote_endpoint s ])
    ∷ on_cluster remote_endpoint default clients

module _ {E P : Type 0} where
  -- The gateway part of `on_service`, with the code of an exception.
  unfoldable pub tell_gateway :
      Config → String → Description E P → Mode → Remotes E P → Remotes E P × Option Code
  tell_gateway cfg name meta exposed g =
      consume cfg.uuid name meta.version meta.endpoints meta.protocol g
  tell_gateway cfg name meta removed g = cleanup cfg.uuid name g

  -- The loop of `on_service` that writes to the remote locators. `write` returns the code of a
  -- failure and throws nothing, so the `catch` of the loop is never entered.
  unfoldable pub broadcast :
      (ℕ → Operation (Update E P) → Option Code)
      → Config
      → String
      → Description E P
      → Locator E P
      → Locator E P × List (String × Operation (Update E P))
  broadcast send cfg name meta l =
      let (streams, posts) = each (write send [] (cfg.uuid, (name, meta) ∷ [])) l.remotes in
      (record l { remotes = streams }, posts)

  -- The rest of `on_service`.
  unfoldable pub announce :
      (ℕ → Operation (Update E P) → Option Code)
      → Config
      → String
      → Description E P
      → Mode
      → Locator E P
      → Locator E P × List (String × Operation (Update E P))
  announce send cfg name meta exposed l =
      if contains name l.snapshots
      then (l, [])
      else broadcast send cfg name meta (record l { snapshots = assign name meta l.snapshots })
  announce send cfg name meta removed l =
      broadcast send cfg name meta (record l { snapshots = erase name l.snapshots })

  -- `on_service` after its call of the gateway, which threw `failure`, if any.
  unfoldable pub after_gateway :
      (ℕ → Operation (Update E P) → Option Code)
      → Config
      → String
      → Description E P
      → Mode
      → Locator E P
      → Option Code
      → Locator E P × List (String × Operation (Update E P)) × Option Code
  after_gateway send cfg name meta mode l (some ec) = (l, [], some ec)
  after_gateway send cfg name meta mode l none =
      if is_restricted cfg name || not l.cluster
      then (l, [], none)
      else (let (l', posts) = announce send cfg name meta mode l in (l', posts, none))

  -- on_service, with the messages that the upstreams took and the code of an exception.
  unfoldable pub on_service :
      (ℕ → Operation (Update E P) → Option Code)
      → Config
      → String
      → Description E P
      → Mode
      → Locator E P
      → Locator E P × List (String × Operation (Update E P)) × Option Code
  on_service send cfg name meta mode l = elim l.gateway [
    | none ↦ after_gateway send cfg name meta mode l none
    | some g ↦
        let (g', failure) = tell_gateway cfg name meta mode g in
        after_gateway send cfg name meta mode (record l { gateway = some g' }) failure
  ]

  -- on_connect, with the stream that it returns. The stream in the map is the same object.
  unfoldable pub on_connect :
      (ℕ → Operation (Update E P) → Option Code)
      → Config
      → String
      → Locator E P
      → Locator E P × Streamed (Update E P)
  on_connect send cfg uuid l =
      let stream = (write send [] (cfg.uuid, l.snapshots) new_streamed).queue in
      if l.cluster
      then (record l { remotes = assign uuid stream l.remotes }, stream)
      else (l, (close send [] new_streamed).queue)

  -- The slot of `connect` attaches the stream that `on_connect` returned to its upstream.
  unfoldable pub attach_remote :
      (ℕ → Operation (Update E P) → Option Code)
      → String
      → ℕ
      → Locator E P
      → Locator E P × List (Operation (Update E P))
  attach_remote send uuid upstream l = elim (lookup uuid l.remotes) [
    | none ↦ (l, [])
    | some s ↦
        let done = attach_streamed send upstream s in
        (record l { remotes = assign uuid done.queue l.remotes }, done.sent)
  ]

  -- on_context_shutdown, with what is sent to the locators and to the routers.
  unfoldable pub on_context_shutdown :
      (ℕ → Operation (Update E P) → Option Code)
      → (ℕ → Operation RoutingTable → Option Code)
      → Locator E P
      → Locator E P
        × List (String × Operation (Update E P))
        × List (String × Operation RoutingTable)
  on_context_shutdown send send_routing l =
      let (remotes, posts) = each (close send []) l.remotes in
      let (routers, routing) = each (close send_routing []) l.routers in
      (
        record l { clients = []; cluster = false; remotes = remotes; routers = routers },
        posts,
        routing,
      )
