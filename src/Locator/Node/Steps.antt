-- ===== src/Locator/Node/Steps.antt =====
-- What a remote locator knows after any calls of src/service/locator.cpp.
use cocaine_core.Base.{
  ℕ, String, ◌≡◌, refl, ap, ◌∙◌, sym, subst, ◌⊎◌, Bool, true, false, ◌&&◌, Option, none, some, List,
  [], ◌∷◌, ◌++◌, append-nil, arith, if◌then◌else◌, Bool-cases, Option-cases, inl, inr, ◌==◌,
  string_key,
}
use cocaine_core.Base.Map.{lookup-nil, lookup, assign, lookup-assign, assign-Unique}
use cocaine_core.Errors.Codes.{Code}
use cocaine_core.Gateway.{Description}
use cocaine_core.Rpc.Queue.{Operation, Streamed, write, close, attach_streamed, new_streamed}
use cocaine_core.Locator.Node.{
  Update, RoutingTable, Config, Locator, Mode, exposed, removed, tell_gateway, after_gateway,
  on_service, on_connect, attach_remote, on_context_shutdown, new_locator,
}
use cocaine_core.Locator.Node.Mirror.{visible, sent_to, each-Unique, reads}
use cocaine_core.Locator.Node.Sync.{
  Command, serves, withdraws, connects, attaches, shuts_down, World, step, run, Current,
  close-Current, attach-Current, connected-Current,
}
use cocaine_core.Locator.Node.Known.{Mirrored, told-Mirrored, each-Current}

module _ {E P : Type 0} (send : ℕ → Operation (Update E P) → Option Code)
    (took : (u : ℕ) (op : Operation (Update E P)) → send u op ≡ none)
    (send_routing : ℕ → Operation RoutingTable → Option Code) (cfg : Config)
    (name uuid : String) where
  on_service-Mirrored :
      (other : String) (meta : Description E P) (mode : Mode) (w : World E P)
      → (mode ≡ exposed) ⊎ (meta.endpoints ≡ [])
      → Mirrored name uuid w
      → let r = on_service send cfg other meta mode w.locator in
        Mirrored name uuid (record { locator = r.0; wire = w.wire ++ sent_to uuid r.1 })
  on_service-Mirrored other meta mode w fits m =
      let Goal : Locator E P × List (String × Operation (Update E P)) × Option Code → Type 0 =
        λ r. Mirrored name uuid (record { locator = r.0; wire = w.wire ++ sent_to uuid r.1 }) in
      elim (Option-cases w.locator.gateway) [
        | inl absent ↦
            let same : after_gateway send cfg other meta mode (record w.locator { gateway = none })
                  none
                ≡ on_service send cfg other meta mode w.locator =
              unfold on_service in ground arith in
            subst Goal same (
              told-Mirrored send took send_routing cfg name uuid other meta mode w.locator none none
                w.wire fits m)
        | inr (g, there) ↦
            let (g', failure) = tell_gateway cfg other meta mode g in
            let same : after_gateway send cfg other meta mode
                  (record w.locator { gateway = some g' }) failure
                ≡ on_service send cfg other meta mode w.locator =
              unfold on_service in ground arith in
            subst Goal same (
              told-Mirrored send took send_routing cfg name uuid other meta mode w.locator (some g')
                failure w.wire fits m)
      ]

  -- The stream to `uuid` is replaced by one that was told all, or another stream is.
  assign-Mirrored :
      (other : String) (stream : Streamed (Update E P)) (w : World E P)
      (wire : List (Operation (Update E P)))
      → ((other == uuid) ≡ true → Current name w.locator.snapshots w.locator.cluster wire stream)
      → ((other == uuid) ≡ false → wire ≡ w.wire)
      → Mirrored name uuid w
      → Mirrored name uuid (record {
        locator = record w.locator { remotes = assign other stream w.locator.remotes };
        wire = wire;
      })
  assign-Mirrored other stream w wire own apart m = record {
    keys = assign-Unique other stream w.locator.remotes m.keys;
    current = λ s found. elim (Bool-cases (other == uuid)) [
      | inl hit ↦
          let same : stream ≡ s =
            ground (arith, lookup-assign other uuid stream w.locator.remotes) in
          subst (λ q. Current name w.locator.snapshots w.locator.cluster wire q) same (own hit)
      | inr miss ↦
          let there : lookup uuid w.locator.remotes ≡ some s =
            ground (arith, lookup-assign other uuid stream w.locator.remotes) in
          subst (λ ops. Current name w.locator.snapshots w.locator.cluster ops s) (sym (apart miss))
            (m.current s there)
    ];
  }

  on_connect-Mirrored :
      (other : String) (w : World E P)
      → Mirrored name uuid w
      → Mirrored name uuid (record {
        locator = (on_connect send cfg other w.locator).0;
        wire = if w.locator.cluster && (other == uuid) then [] else w.wire;
      })
  unfolding on_connect
  on_connect-Mirrored other w m = elim (Bool-cases w.locator.cluster) [
    | inr off ↦
        let same : ◌≡◌ {A = World E P} w (record {
          locator = (on_connect send cfg other w.locator).0;
          wire = if w.locator.cluster && (other == uuid) then [] else w.wire;
        }) =
          ground arith in
        subst (Mirrored name uuid) same m
    | inl on ↦
        let stream = (write send [] (cfg.uuid, w.locator.snapshots) new_streamed).queue in
        let wire = if other == uuid then [] else w.wire in
        let same : ◌≡◌ {A = World E P}
            (record {
              locator = record w.locator { remotes = assign other stream w.locator.remotes };
              wire = wire;
            })
            (record {
              locator = (on_connect send cfg other w.locator).0;
              wire = if w.locator.cluster && (other == uuid) then [] else w.wire;
            }) =
          ground arith in
        subst (Mirrored name uuid) same (
          assign-Mirrored other stream w wire
            (λ hit.
              let none_yet : [] ≡ wire = ground arith in
              subst (λ k. Current name w.locator.snapshots k wire stream) (sym on)
                (subst (λ ops. Current name w.locator.snapshots true ops stream) none_yet
                  (connected-Current send took name cfg.uuid w.locator.snapshots)))
            (λ miss. ground arith) m)
  ]

  attach_remote-Mirrored :
      (other : String) (upstream : ℕ) (w : World E P)
      → Mirrored name uuid w
      → let (l, ops) = attach_remote send other upstream w.locator in
        Mirrored name uuid
          (record { locator = l; wire = if other == uuid then w.wire ++ ops else w.wire })
  attach_remote-Mirrored other upstream w m = elim (Option-cases (lookup other w.locator.remotes)) [
    | inl absent ↦
        let same : ◌≡◌ {A = World E P} w (record {
          locator = (attach_remote send other upstream w.locator).0;
          wire =
              if other == uuid
              then w.wire ++ (attach_remote send other upstream w.locator).1
              else w.wire;
        }) =
          unfold attach_remote in ground (arith, append-nil w.wire) in
        subst (Mirrored name uuid) same m
    | inr (s, there) ↦
        let done = attach_streamed send upstream s in
        let wire = if other == uuid then w.wire ++ done.sent else w.wire in
        let same : ◌≡◌ {A = World E P}
            (record {
              locator = record w.locator { remotes = assign other done.queue w.locator.remotes };
              wire = wire;
            })
            (record {
              locator = (attach_remote send other upstream w.locator).0;
              wire =
                  if other == uuid
                  then w.wire ++ (attach_remote send other upstream w.locator).1
                  else w.wire;
            }) =
          unfold attach_remote in ground arith in
        subst (Mirrored name uuid) same (
          assign-Mirrored other done.queue w wire
            (λ hit.
              let more : w.wire ++ done.sent ≡ wire = ground arith in
              let key : other ≡ uuid = (string_key.same_iff other uuid).0 hit in
              let own : lookup uuid w.locator.remotes ≡ some s =
                subst (λ k. lookup k w.locator.remotes ≡ some s) key there in
              subst (λ ops. Current name w.locator.snapshots w.locator.cluster ops done.queue) more
                (attach-Current send took name w.locator.snapshots w.locator.cluster w.wire upstream
                  s (m.current s own)))
            (λ miss. ground arith) m)
  ]

  on_context_shutdown-Mirrored :
      (w : World E P)
      → Mirrored name uuid w
      → let r = on_context_shutdown send send_routing w.locator in
        Mirrored name uuid (record { locator = r.0; wire = w.wire ++ sent_to uuid r.1 })
  unfolding on_context_shutdown
  on_context_shutdown-Mirrored w m = record {
    keys = each-Unique (close send []) w.locator.remotes m.keys;
    current =
        each-Current name uuid w.wire (close send []) w.locator.snapshots w.locator.snapshots
          w.locator.cluster false w.locator.remotes m.keys
          (λ s c. close-Current send took name w.locator.snapshots w.locator.cluster w.wire s c)
          m.current;
  }

  step-Mirrored :
      (c : Command E P) (w : World E P)
      → Mirrored name uuid w
      → Mirrored name uuid (step send send_routing cfg uuid c w)
  unfolding step
  step-Mirrored (serves other meta) w m = on_service-Mirrored other meta exposed w (inl refl) m
  step-Mirrored (withdraws other version protocol) w m =
      on_service-Mirrored other (record { endpoints = []; protocol = protocol; version = version })
        removed w (inr refl) m
  step-Mirrored (connects other) w m = on_connect-Mirrored other w m
  step-Mirrored (attaches other upstream) w m = attach_remote-Mirrored other upstream w m
  step-Mirrored shuts_down w m = on_context_shutdown-Mirrored w m

  run-Mirrored :
      (cs : List (Command E P)) (w : World E P)
      → Mirrored name uuid w
      → Mirrored name uuid (run send send_routing cfg uuid cs w)
  unfolding run
  run-Mirrored [] w m = m
  run-Mirrored (c ∷ cs) w m =
      run-Mirrored cs (step send send_routing cfg uuid c w) (step-Mirrored c w m)

-- Whatever services a locator gains and loses, whoever connects, and also after its shutdown: a
-- locator connected to it that reads its stream to the end knows of each service exactly what the
-- snapshots say, if every upstream takes its messages. A service without endpoints counts as unknown.
pub run-synchronized :
    {E P : Type 0} (send : ℕ → Operation (Update E P) → Option Code)
    (send_routing : ℕ → Operation RoutingTable → Option Code) (cfg : Config) (uuid name : String)
    (with_gateway with_cluster : Bool) (cs : List (Command E P)) (s : Streamed (Update E P))
    → ((u : ℕ) (op : Operation (Update E P)) → send u op ≡ none)
    → let w =
        run send send_routing cfg uuid cs
          (record { locator = new_locator with_gateway with_cluster; wire = [] }) in
      lookup uuid w.locator.remotes ≡ some s
      → reads name (w.wire ++ s.outbox.operations) none ≡ visible (lookup name w.locator.snapshots)
run-synchronized {E = E} {P = P} send send_routing cfg uuid name with_gateway with_cluster cs s took
      found =
    let start : World _ _ = record { locator = new_locator with_gateway with_cluster; wire = [] } in
    let m = run-Mirrored send took send_routing cfg name uuid cs start (record {
      keys = tt;
      current = λ t e. absurd (ground (arith, lookup-nil {V = Streamed (Update E P)} uuid));
    }) in
    let c = m.current s found in ap (λ ops. reads name ops none) c.ordered.order ∙ c.known
