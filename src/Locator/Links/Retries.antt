-- ===== src/Locator/Links/Retries.antt =====
-- When src/service/locator.cpp tries again to link a node.
use cocaine_core.Gateway.{Remotes}
use cocaine_core.Base.{
  ==_refl, All-append, ◌++◌, ◌+◌, ◌%◌, ◌^◌, String, ◌≡◌, refl, sym, subst, Bool, true, false,
  Option, none, some, List, [], ◌∷◌, arith, if◌then◌else◌, Bool-cases, Option-cases, All, inl, inr,
  string_key,
}
use cocaine_core.Base.Map.{lookup-erase, lookup-assign, erase, lookup, contains, assign}
use cocaine_core.Locator.Node.{new_locator, Uplink, Locator}
use cocaine_core.Locator.Links.{
  forks, detaches, not_connected, attach_failed, attached, attached, Action, connects, waits,
  Connected, retry_delay, link_node, retry_link_node, on_connected, on_sent, on_timer, drop_node,
}

-- The calls that link and drop nodes.
pub data Call (E : Type 0) : Type 0 where
  links : String → List E → Call E
  connected : String → List E → Connected → Call E
  sent : String → Bool → Call E
  fires : Bool → String → List E → Call E
  drops : String → Call E

-- A delay is of one second.
abbrev pub Short : {E : Type 0} → Action E → Type 0
Short a = elim a [ waits seconds uuid endpoints ↦ seconds ≡ 1 | _ ↦ Unit {0} ]

module _ {E P : Type 0} where
  -- A call, with what it asks of asio; `none` is undefined behaviour.
  unfoldable pub serve : Call E → Locator E P → Option (Locator E P × List (Action E))
  serve (links uuid endpoints) l = some (link_node uuid endpoints l)
  serve (connected uuid endpoints outcome) l = elim (on_connected uuid endpoints outcome l) [
    | none ↦ none
    | some (l', actions, session) ↦ some (l', actions)
  ]
  serve (sent uuid threw) l = some (on_sent uuid threw l, [])
  serve (fires aborted uuid endpoints) l = some (on_timer aborted uuid endpoints l)
  serve (drops uuid) l = some (drop_node uuid l)

  unfoldable pub serve_all : List (Call E) → Locator E P → Option (Locator E P × List (Action E))
  serve_all [] l = some (l, [])
  serve_all (c ∷ cs) l = elim (serve c l) [
    | none ↦ none
    | some (l', actions) ↦ elim (serve_all cs l') [
      | none ↦ none
      | some (l'', more) ↦ some (l'', actions ++ more)
    ]
  ]

  -- The timer is set exactly after one attempt.
  abbrev pub Counted : Locator E P → Type 0
  Counted l = l.link_attempts ≡ (if l.link_timer then 1 else 0)

  -- A call that ends, with the timer counted and short delays.
  abbrev pub Ends : Option (Locator E P × List (Action E)) → Type 0
  Ends result = elim result [ none ↦ ⊥ | some (l, actions) ↦ Counted l × All Short actions ]

  first_retry :
      (uuid : String) (endpoints : List E) (l : Locator E P)
      → l.link_timer ≡ false
      → l.link_attempts ≡ 0
      → retry_link_node uuid endpoints l
        ≡ some (record l { link_timer = true; link_attempts = 1 }, waits 1 uuid endpoints ∷ [])
  unfolding retry_link_node
  first_retry uuid endpoints l idle none_yet =
      let delay : retry_delay l.link_attempts ≡ some 1 =
        subst (λ n. retry_delay n ≡ some 1) (sym none_yet) (unfold retry_delay in refl) in
      let next : (l.link_attempts + 1) % 2 ^ 32 ≡ 1 =
        subst (λ n. (n + 1) % 2 ^ 32 ≡ 1) (sym none_yet) refl in
      ground arith

  retry_link_node-Ends :
      (uuid : String) (endpoints : List E) (l : Locator E P)
      → Counted l
      → Ends (retry_link_node uuid endpoints l)
  retry_link_node-Ends uuid endpoints l c = elim (Bool-cases l.link_timer) [
    | inl waiting ↦
        let same : some (l, []) ≡ retry_link_node uuid endpoints l =
          unfold retry_link_node in ground arith in
        subst Ends same (c, tt)
    | inr idle ↦
        subst Ends (sym (first_retry uuid endpoints l idle (ground arith))) (refl, (refl, tt))
  ]

  link_node-Ends :
      (uuid : String) (endpoints : List E) (l : Locator E P)
      → Counted l
      → Ends (some (link_node uuid endpoints l))
  link_node-Ends uuid endpoints l c =
      let idle : Ends (some (l, [])) = (c, tt) in
      elim (Option-cases l.gateway) [
        | inl absent ↦
            let same : (l, []) ≡ link_node uuid endpoints l = unfold link_node in ground arith in
            subst (λ r. Ends (some r)) same idle
        | inr (g, there) ↦ elim (Bool-cases (contains uuid l.clients)) [
          | inl known ↦
              let same : (l, []) ≡ link_node uuid endpoints l = unfold link_node in ground arith in
              subst (λ r. Ends (some r)) same idle
          | inr fresh ↦
              let uplink : Uplink E = record { endpoints = endpoints; session = none } in
              let same : (
                record l { clients = assign uuid uplink l.clients },
                connects uuid endpoints ∷ [],
              )
                  ≡ link_node uuid endpoints l =
                unfold link_node in ground arith in
              subst (λ r. Ends (some r)) same (c, (tt, tt))
        ]
      ]

  drop_node-Ends : (uuid : String) (l : Locator E P) → Counted l → Ends (some (drop_node uuid l))
  drop_node-Ends uuid l c = elim (Option-cases l.gateway) [
    | inl absent ↦
        let same : (l, []) ≡ drop_node uuid l = unfold drop_node in ground arith in
        subst (λ r. Ends (some r)) same (c, tt)
    | inr (g, there) ↦ elim (Option-cases (lookup uuid l.clients)) [
      | inl unknown ↦
          let same : (l, []) ≡ drop_node uuid l = unfold drop_node in ground arith in
          subst (λ r. Ends (some r)) same (c, tt)
      | inr (uplink, known) ↦
          let left : Locator E P = record l { clients = erase uuid l.clients } in
          elim (Option-cases uplink.session) [
            | inl no_session ↦
                let same : (left, []) ≡ drop_node uuid l = unfold drop_node in ground arith in
                subst (λ r. Ends (some r)) same (c, tt)
            | inr (s, session) ↦
                let same : (left, detaches s ∷ []) ≡ drop_node uuid l =
                  unfold drop_node in ground arith in
                subst (λ r. Ends (some r)) same (c, (tt, tt))
          ]
    ]
  ]

  known-Ends :
      (uuid : String) (endpoints : List E) (outcome : Connected) (uplink : Uplink E)
      (l : Locator E P)
      → lookup uuid l.clients ≡ some uplink
      → Counted l
      → Ends (serve (connected uuid endpoints outcome) l)
  known-Ends uuid endpoints not_connected uplink l known c =
      let left : Locator E P = record l { clients = erase uuid l.clients } in
      let same : retry_link_node uuid endpoints left
          ≡ serve (connected uuid endpoints not_connected) l =
        unfold serve in unfold on_connected in ground arith in
      subst Ends same (retry_link_node-Ends uuid endpoints left c)
  known-Ends uuid endpoints attach_failed uplink l known c =
      let left : Locator E P = record l {
        clients = erase uuid l.clients;
        link_timer = false;
        link_attempts = 0;
      } in
      let same : retry_link_node uuid endpoints left
          ≡ serve (connected uuid endpoints attach_failed) l =
        unfold serve in unfold on_connected in ground arith in
      subst Ends same (retry_link_node-Ends uuid endpoints left refl)
  known-Ends uuid endpoints (attached s) uplink l known c =
      let linked : Uplink E = record { endpoints = uplink.endpoints; session = some s } in
      let joined : Locator E P = record l {
        clients = assign uuid linked l.clients;
        link_timer = false;
        link_attempts = 0;
      } in
      let same : some (joined, forks s uuid ∷ [])
          ≡ serve (connected uuid endpoints (attached s)) l =
        unfold serve in unfold on_connected in ground arith in
      subst Ends same (refl, (tt, tt))

  serve-Ends : (call : Call E) (l : Locator E P) → Counted l → Ends (serve call l)
  serve-Ends (links uuid endpoints) l c = unfold serve in link_node-Ends uuid endpoints l c
  serve-Ends (connected uuid endpoints outcome) l c = elim (Option-cases (lookup uuid l.clients)) [
    | inl gone ↦
        let same : some (l, []) ≡ serve (connected uuid endpoints outcome) l =
          unfold serve in unfold on_connected in ground arith in
        subst Ends same (c, tt)
    | inr (uplink, known) ↦ known-Ends uuid endpoints outcome uplink l known c
  ]
  serve-Ends (sent uuid true) l c = unfold serve in unfold on_sent in (c, tt)
  serve-Ends (sent uuid false) l c = unfold serve in unfold on_sent in (c, tt)
  serve-Ends (fires true uuid endpoints) l c = unfold serve in unfold on_timer in (c, tt)
  serve-Ends (fires false uuid endpoints) l c =
      unfold serve in unfold on_timer in link_node-Ends uuid endpoints l c
  serve-Ends (drops uuid) l c = unfold serve in drop_node-Ends uuid l c

  ended :
      (result : Option (Locator E P × List (Action E)))
      → Ends result
      → (l : Locator E P) × (actions : List (Action E)) × (result ≡ some (l, actions))
        × Counted l
        × All Short actions
  ended none e = absurd e
  ended (some (l, actions)) e = (l, actions, refl, e.0, e.1)

  serve_all-Ends : (calls : List (Call E)) (l : Locator E P) → Counted l → Ends (serve_all calls l)
  unfolding serve_all
  serve_all-Ends [] l c = (c, tt)
  serve_all-Ends (call ∷ calls) l c =
      let (next, actions, first, counted, short) = ended (serve call l) (serve-Ends call l c) in
      let (last, more, rest, counted', short') =
        ended (serve_all calls next) (serve_all-Ends calls next counted) in
      let same : serve_all (call ∷ calls) l ≡ some (last, actions ++ more) = ground arith in
      subst Ends (sym same) (counted', All-append Short actions more short short')

-- Whatever calls come, no retry meets the undefined conversion of its delay, and each delay is of one
-- second: the number of attempts, by which it should grow, is 1 while the timer is set and else 0.
pub serve_all-waits :
    {E P : Type 0} (with_gateway with_cluster : Bool) (calls : List (Call E))
    → (l : Locator E P) × (actions : List (Action E)) × (serve_all calls
          (new_locator with_gateway with_cluster)
        ≡ some (l, actions))
      × All Short actions
      × Counted l
serve_all-waits with_gateway with_cluster calls =
    let start = new_locator with_gateway with_cluster in
    let (l, actions, e, counted, short) =
      ended (serve_all calls start) (serve_all-Ends calls start refl) in
    (l, actions, e, short, counted)

-- A node whose retry fails is given up: after the timer fires, a second attempt that fails asks for
-- nothing more, since the timer is still set, and the node is in the map no longer.
pub serve_all-abandons :
    {E P : Type 0} (l : Locator E P) (g : Remotes E P) (uuid : String) (endpoints : List E)
    → l.gateway ≡ some g
    → l.link_timer ≡ true
    → lookup uuid l.clients ≡ none
    → (last : Locator E P) × (serve_all
          (fires false uuid endpoints ∷ connected uuid endpoints not_connected ∷ [])
          l
        ≡ some (last, connects uuid endpoints ∷ []))
      × (lookup uuid last.clients ≡ none)
      × (last.link_timer ≡ true)
unfolding serve_all
serve_all-abandons {E = E} {P = P} l g uuid endpoints there waiting unknown =
    let uplink : Uplink E = record { endpoints = endpoints; session = none } in
    let trying : Locator E P = record l { clients = assign uuid uplink l.clients } in
    let last : Locator E P = record trying { clients = erase uuid trying.clients } in
    let first : serve (fires false uuid endpoints) l ≡ some (trying, connects uuid endpoints ∷ []) =
      unfold serve in unfold on_timer in unfold link_node in ground arith in
    let known : lookup uuid trying.clients ≡ some uplink =
      ground (arith, lookup-assign uuid uuid uplink l.clients, ==_refl uuid) in
    let second : serve (connected uuid endpoints not_connected) trying ≡ some (last, []) =
      unfold serve in unfold on_connected in unfold retry_link_node in ground arith in
    (
      last,
      ground arith,
      ground (arith, lookup-erase uuid uuid trying.clients, ==_refl uuid),
      waiting,
    )
