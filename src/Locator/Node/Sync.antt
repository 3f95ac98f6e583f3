-- ===== src/Locator/Node/Sync.antt =====
-- A remote locator that reads its stream knows the services of src/service/locator.cpp.
use cocaine_core.Base.{
  ℕ, String, ◌≡◌, refl, ap, ◌∙◌, subst, ◌⊎◌, Bool, true, false, ◌&&◌, Option, none, List, [], ◌∷◌,
  ◌++◌, append-nil, arith, if◌then◌else◌, Bool-cases, Option-cases, inl, inr, ◌==◌, string_key,
}
use cocaine_core.Base.Map.{Map, lookup}
use cocaine_core.Errors.Codes.{Code}
use cocaine_core.Gateway.{Description}
use cocaine_core.Rpc.Queue.{
  send_all, Operation, chunk, choke, Queue, Streamed, new_streamed, append, attach, write, close,
  attach_streamed, of_outbox,
}
use cocaine_core.Rpc.Queue.Order.{Ordered, append-Ordered, attach-Ordered, accept}
use cocaine_core.Locator.Node.{
  Update, RoutingTable, Config, Locator, Mode, exposed, removed, on_service, on_connect,
  attach_remote, on_context_shutdown,
}
use cocaine_core.Locator.Node.Mirror.{visible, learn, hear, reads, reads-append, sent_to}

-- What happens to a locator; a service that is withdrawn has no endpoints left.
pub data Command (E P : Type 0) : Type 0 where
  serves : String → Description E P → Command E P
  withdraws : String → ℕ → P → Command E P
  connects : String → Command E P
  attaches : String → ℕ → Command E P
  shuts_down : Command E P

-- A locator with what it has sent on its present stream to the locator `uuid`.
pub record World (E P : Type 0) : Type 0 where
  pub locator : Locator E P
  pub wire : List (Operation (Update E P))

module _ {E P : Type 0} (send : ℕ → Operation (Update E P) → Option Code)
    (send_routing : ℕ → Operation RoutingTable → Option Code) (cfg : Config) (uuid : String) where
  abbrev pub service_step : String → Description E P → Mode → World E P → World E P
  service_step name meta mode w =
      let (l, posts, failure) = on_service send cfg name meta mode w.locator in
      record { locator = l; wire = w.wire ++ sent_to uuid posts }

  unfoldable pub step : Command E P → World E P → World E P
  step (serves name meta) w = service_step name meta exposed w
  step (withdraws name version protocol) w =
      service_step name (record { endpoints = []; protocol = protocol; version = version }) removed
        w
  step (connects other) w = record {
    locator = (on_connect send cfg other w.locator).0;
    wire = if w.locator.cluster && (other == uuid) then [] else w.wire;
  }
  step (attaches other upstream) w =
      let (l, ops) = attach_remote send other upstream w.locator in
      record { locator = l; wire = if other == uuid then w.wire ++ ops else w.wire }
  step shuts_down w =
      let (l, posts, routing) = on_context_shutdown send send_routing w.locator in
      record { locator = l; wire = w.wire ++ sent_to uuid posts }

  unfoldable pub run : List (Command E P) → World E P → World E P
  run [] w = w
  run (c ∷ cs) w = run cs (step c w)

-- The stream was told all: on the wire and in its queue is what makes a reader know `snapshots`.
pub record Current {E P : Type 0} (name : String) (snapshots : Map String (Description E P))
    (cluster : Bool) (wire : List (Operation (Update E P))) (s : Streamed (Update E P))
    : Type 0 where
  pub accepted : List (Operation (Update E P))
  pub ordered : Ordered wire s.outbox accepted
  pub known : reads name accepted none ≡ visible (lookup name snapshots)
  pub open_stream : (cluster ≡ false) ⊎ (s.is_closed ≡ false)

module _ {E P : Type 0} (send : ℕ → Operation (Update E P) → Option Code)
    (took : (u : ℕ) (op : Operation (Update E P)) → send u op ≡ none) where
  append-error :
      (op : Operation (Update E P)) (q : Queue (Update E P)) → (append send op q).error ≡ none
  unfolding append
  append-error op q = elim (Option-cases q.upstream) [
    | inl detached ↦ ground arith
    | inr (u, up) ↦ ground (arith, took u op)
  ]

  send_all-error : (u : ℕ) (ops : List (Operation (Update E P))) → (send_all send u ops).1 ≡ none
  unfolding send_all
  send_all-error u [] = refl
  send_all-error u (op ∷ ops) = ground (arith, took u op, send_all-error u ops)

  attach-error : (u : ℕ) (q : Queue (Update E P)) → (attach send u q).error ≡ none
  unfolding attach
  attach-error u q = ground (arith, send_all-error u q.operations)

  appended-Ordered :
      (op : Operation (Update E P)) (q : Queue (Update E P))
      (wire accepted : List (Operation (Update E P)))
      → Ordered wire q accepted
      → Ordered (wire ++ (append send op q).sent) (append send op q).queue (accepted ++ op ∷ [])
  appended-Ordered op q wire accepted v =
      subst
        (λ e.
          Ordered (wire ++ (append send op q).sent) (append send op q).queue (accept e accepted op))
        (append-error op q) (append-Ordered send op q wire accepted v)

  -- A message that a stream takes, which tells a reader of the change from `snapshots` to `next`.
  appended-Current :
      (name : String) (snapshots next : Map String (Description E P)) (cluster is_closed : Bool)
      (wire : List (Operation (Update E P))) (op : Operation (Update E P))
      (s : Streamed (Update E P))
      → hear name op.event (visible (lookup name snapshots)) ≡ visible (lookup name next)
      → (cluster ≡ false) ⊎ (is_closed ≡ false)
      → (c : List (Operation (Update E P))) → Ordered wire s.outbox c
      → reads name c none ≡ visible (lookup name snapshots)
      → let done = of_outbox is_closed (append send op s.outbox) in
        Current name next cluster (wire ++ done.sent) done.queue
  unfolding reads
  appended-Current name snapshots next cluster is_closed wire op s news fresh c ordered known =
      record {
        accepted = c ++ op ∷ [];
        ordered = appended-Ordered op s.outbox wire c ordered;
        known = reads-append name c (op ∷ []) none ∙ ap (hear name op.event) known ∙ news;
        open_stream = fresh;
      }

  pub write-Current :
      (name : String) (snapshots next : Map String (Description E P)) (cluster : Bool)
      (wire : List (Operation (Update E P))) (update : Update E P) (s : Streamed (Update E P))
      → learn name update (visible (lookup name snapshots)) ≡ visible (lookup name next)
      → cluster ≡ true
      → Current name snapshots cluster wire s
      → let done = write send [] update s in
        Current name next cluster (wire ++ done.sent) done.queue
  unfolding write hear
  write-Current name snapshots next cluster wire update s news on c =
      let is_open : s.is_closed ≡ false = ground arith in
      let op : Operation (Update E P) = record { headers = []; event = chunk update } in
      rw is_open (
        appended-Current name snapshots next cluster false wire op s news (inr refl) c.accepted
          c.ordered c.known)

  pub close-Current :
      (name : String) (snapshots : Map String (Description E P)) (cluster : Bool)
      (wire : List (Operation (Update E P))) (s : Streamed (Update E P))
      → Current name snapshots cluster wire s
      → let done = close send [] s in Current name snapshots false (wire ++ done.sent) done.queue
  unfolding close hear
  close-Current name snapshots cluster wire s c = elim (Bool-cases s.is_closed) [
    | inl shut ↦ rw shut (record {
      accepted = c.accepted;
      ordered = rw (append-nil wire) c.ordered;
      known = c.known;
      open_stream = inl refl;
    })
    | inr open_yet ↦
        let op : Operation (Update E P) = record { headers = []; event = choke } in
        rw open_yet (
          appended-Current name snapshots snapshots false true wire op s refl (inl refl) c.accepted
            c.ordered c.known)
  ]

  pub attach-Current :
      (name : String) (snapshots : Map String (Description E P)) (cluster : Bool)
      (wire : List (Operation (Update E P))) (u : ℕ) (s : Streamed (Update E P))
      → Current name snapshots cluster wire s
      → let done = attach_streamed send u s in
        Current name snapshots cluster (wire ++ done.sent) done.queue
  unfolding attach_streamed
  attach-Current name snapshots cluster wire u s c = record {
    accepted = c.accepted;
    ordered = attach-Ordered send u s.outbox wire c.accepted c.ordered (attach-error u s.outbox);
    known = c.known;
    open_stream = c.open_stream;
  }

  -- The stream of a new connection.
  pub connected-Current :
      (name own : String) (snapshots : Map String (Description E P))
      → Current name snapshots true [] (write send [] (own, snapshots) new_streamed).queue
  unfolding write reads append learn
  connected-Current name own snapshots = record {
    accepted = record { headers = []; event = chunk (own, snapshots) } ∷ [];
    ordered = record { order = refl; attached = inl refl };
    known = unfold hear in ground arith;
    open_stream = inr refl;
  }
