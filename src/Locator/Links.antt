-- ===== src/Locator/Links.antt =====
-- How locator_t follows the other nodes of its cluster: src/service/locator.cpp. What asio and the
-- execution units answer are arguments; what a call asks of them is a list of actions.
pub mod Retries
mod Tests
use cocaine_core.Base.Map.{Map, lookup, contains, erase, assign}
use cocaine_core.Locator.Node.{Locator, Uplink}
use cocaine_core.Base.{
  ℕ, zero, suc, ◌+◌, ◌-◌, ◌*◌, ◌/◌, ◌%◌, ◌^◌, ◌≤◌, ◌<◌, min, String, ◌≡◌, refl, sym, ap, ◌∙◌, subst,
  ◌≢◌, ◌↔◌, ◌⊎◌, inl, inr, Bool, true, false, not, ◌&&◌, ◌||◌, Option, none, some, List, [], ◌∷◌,
  ◌++◌, map, append_assoc, append-nil, arith, ltb, leb, nat_beq, if◌then◌else◌, Bool-cases,
  Option-cases, codes, All, length, get_elem?, take, drop, replicate, find_index, find?, any, all,
  keep, is_empty, length-append, length-take, length-drop, length-replicate, take-append-drop,
  take-append_left, take-append_exact, drop-nil, take-nil, take-drop, drop-append_left,
  drop-append_right, find?-All, find?-passes, find?-any, any-find?, find?-none, Key, ◌==◌, nat_key,
  string_key, list_key, list_same, list_same_iff, ==_refl,
}

-- The timer waits for some seconds, and then links the node.
pub data Action (E : Type 0) : Type 0 where
  connects : String → List E → Action E
  waits : ℕ → String → List E → Action E
  detaches : ℕ → Action E
  forks : ℕ → String → Action E

-- The delay of a retry; `none` is the undefined conversion of a double to an int that cannot hold it.
unfoldable pub retry_delay : ℕ → Option ℕ
retry_delay attempts = if ltb attempts 31 then some (min (2 ^ attempts) 32) else none

-- What happens after a connection attempt: the outcome of async_connect, and of `attach`.
pub data Connected : Type 0 where
  not_connected : Connected
  attach_failed : Connected
  attached : ℕ → Connected

module _ {E P : Type 0} where
  -- link_node
  unfoldable pub link_node : String → List E → Locator E P → Locator E P × List (Action E)
  link_node uuid endpoints l = elim l.gateway [
    | none ↦ (l, [])
    | some g ↦ if contains uuid l.clients then (l, []) else (
      record l {
        clients = assign uuid (record { endpoints = endpoints; session = none }) l.clients;
      },
      connects uuid endpoints ∷ [],
    )
  ]

  -- retry_link_node; `none` is undefined behaviour. link_attempts is a uint32_t.
  unfoldable pub retry_link_node :
      String → List E → Locator E P → Option (Locator E P × List (Action E))
  retry_link_node uuid endpoints l =
      if l.link_timer then some (l, []) else elim (retry_delay l.link_attempts) [
        | none ↦ none
        | some seconds ↦ some (
          record l { link_timer = true; link_attempts = (l.link_attempts + 1) % 2 ^ 32 },
          waits seconds uuid endpoints ∷ [],
        )
      ]

  abbrev without_session :
      Option (Locator E P × List (Action E)) → Option (Locator E P × List (Action E) × Option ℕ)
  without_session found = elim found [ none ↦ none | some (l, actions) ↦ some (l, actions, none) ]

  -- The callback of async_connect up to the session, which it gives with the rest of the actions.
  unfoldable pub on_connected :
      String → List E → Connected → Locator E P → Option (Locator E P × List (Action E) × Option ℕ)
  on_connected uuid endpoints outcome l = elim (lookup uuid l.clients) [
    | none ↦ some (l, [], none)
    | some uplink ↦ elim outcome [
      | not_connected ↦
          without_session
            (retry_link_node uuid endpoints (record l { clients = erase uuid l.clients }))
      | attach_failed ↦ without_session (
          retry_link_node uuid endpoints
            (record l { clients = erase uuid l.clients; link_timer = false; link_attempts = 0 }))
      | attached s ↦ some (
        record l {
          clients =
              assign uuid (record { endpoints = uplink.endpoints; session = some s }) l.clients;
          link_timer = false;
          link_attempts = 0;
        },
        forks s uuid ∷ [],
        some s,
      )
    ]
  ]

  -- The rest of the callback: if `send` throws, the node is erased.
  unfoldable pub on_sent : String → Bool → Locator E P → Locator E P
  on_sent uuid threw l = if threw then record l { clients = erase uuid l.clients } else l

  -- The callback of the timer.
  unfoldable pub on_timer : Bool → String → List E → Locator E P → Locator E P × List (Action E)
  on_timer aborted uuid endpoints l = if aborted then (l, []) else link_node uuid endpoints l

  -- drop_node
  unfoldable pub drop_node : String → Locator E P → Locator E P × List (Action E)
  drop_node uuid l = elim l.gateway [
    | none ↦ (l, [])
    | some g ↦ elim (lookup uuid l.clients) [
      | none ↦ (l, [])
      | some uplink ↦ (
        record l { clients = erase uuid l.clients },
        elim uplink.session [ none ↦ [] | some s ↦ detaches s ∷ [] ],
      )
    ]
  ]
