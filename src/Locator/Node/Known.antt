-- ===== src/Locator/Node/Known.antt =====
-- Every step of src/service/locator.cpp keeps what a remote locator knows true.
use cocaine_core.Base.{
  ℕ, String, ◌≡◌, subst, ◌⊎◌, Bool, true, not, ◌||◌, Option, none, some, List, [], ◌∷◌, ◌++◌,
  append-nil, arith, Bool-cases, Option-cases, inl, inr, string_key,
}
use cocaine_core.Base.Map.{Map, lookup, erase, assign, lookup-erase, lookup-assign, Unique}
use cocaine_core.Errors.Codes.{Code}
use cocaine_core.Gateway.{Description, Remotes}
use cocaine_core.Rpc.Queue.{Operation, Streamed, Appended, write}
use cocaine_core.Locator.Node.{
  Update, RoutingTable, Config, Locator, Mode, exposed, removed, each, broadcast, announce,
  is_restricted, after_gateway,
}
use cocaine_core.Locator.Node.Mirror.{
  visible, learn, sent_to, lookup-each, sent_to-each, each-Unique,
}
use cocaine_core.Locator.Node.Sync.{World, Current, write-Current}

-- The stream to `uuid`, if there is one, was told all of the service `name`.
pub record Mirrored {E P : Type 0} (name uuid : String) (w : World E P) : Type 0 where
  pub keys : Unique w.locator.remotes
  pub current :
      (s : Streamed (Update E P))
      → lookup uuid w.locator.remotes ≡ some s
      → Current name w.locator.snapshots w.locator.cluster w.wire s

module _ {E P : Type 0} (name : String) where
  learn-assign :
      (own other : String) (meta : Description E P) (snapshots : Map String (Description E P))
      → learn name (own, (other, meta) ∷ []) (visible (lookup name snapshots))
        ≡ visible (lookup name (assign other meta snapshots))
  unfolding learn lookup
  learn-assign own other meta snapshots = ground (arith, lookup-assign other name meta snapshots)

  learn-erase :
      (own other : String) (meta : Description E P) (snapshots : Map String (Description E P))
      → meta.endpoints ≡ []
      → learn name (own, (other, meta) ∷ []) (visible (lookup name snapshots))
        ≡ visible (lookup name (erase other snapshots))
  unfolding learn lookup
  learn-erase own other meta snapshots e = ground (arith, lookup-erase other name snapshots)

module _ {E P : Type 0} (name uuid : String) (wire : List (Operation (Update E P))) where
  -- A call on each stream that leaves a stream that was told all so.
  pub each-Current :
      (call : Streamed (Update E P) → Appended (Streamed (Update E P)) (Update E P))
      (before next : Map String (Description E P)) (was is : Bool)
      (remotes : Map String (Streamed (Update E P)))
      → Unique remotes
      → ((s : Streamed (Update E P))
          → Current name before was wire s
          → Current name next is (wire ++ (call s).sent) (call s).queue)
      → ((s : Streamed (Update E P))
          → lookup uuid remotes ≡ some s
          → Current name before was wire s)
      → (s : Streamed (Update E P)) → lookup uuid (each call remotes).0 ≡ some s
      → Current name next is (wire ++ sent_to uuid (each call remotes).1) s
  each-Current call before next was is remotes keys keeps current s found =
      elim (Option-cases (lookup uuid remotes)) [
        | inl absent ↦ absurd (ground (arith, lookup-each call uuid remotes))
        | inr (t, there) ↦
            let same : (call t).queue ≡ s = ground (arith, lookup-each call uuid remotes) in
            let sent : (call t).sent ≡ sent_to uuid (each call remotes).1 =
              ground (arith, sent_to-each call uuid remotes keys) in
            subst (λ q. Current name next is (wire ++ sent_to uuid (each call remotes).1) q) same
              (subst (λ ops. Current name next is (wire ++ ops) (call t).queue) sent
                (keeps t (current t there)))
      ]

module _ {E P : Type 0} (send : ℕ → Operation (Update E P) → Option Code)
    (took : (u : ℕ) (op : Operation (Update E P)) → send u op ≡ none)
    (send_routing : ℕ → Operation RoutingTable → Option Code) (cfg : Config)
    (name uuid : String) where
  broadcast-Mirrored :
      (other : String) (meta : Description E P) (before : Map String (Description E P))
      (l : Locator E P) (wire : List (Operation (Update E P)))
      → learn name (cfg.uuid, (other, meta) ∷ []) (visible (lookup name before))
        ≡ visible (lookup name l.snapshots)
      → l.cluster ≡ true
      → Unique l.remotes
      → ((s : Streamed (Update E P))
          → lookup uuid l.remotes ≡ some s
          → Current name before l.cluster wire s)
      → let (l', posts) = broadcast send cfg other meta l in
        Mirrored name uuid (record { locator = l'; wire = wire ++ sent_to uuid posts })
  unfolding broadcast
  broadcast-Mirrored other meta before l wire news on keys current =
      let call = write send [] (cfg.uuid, (other, meta) ∷ []) in
      record {
        keys = each-Unique call l.remotes keys;
        current =
            each-Current name uuid wire call before l.snapshots l.cluster l.cluster l.remotes keys
              (λ s c.
                write-Current send took name before l.snapshots l.cluster wire
                  (cfg.uuid, (other, meta) ∷ []) s news on c)
              current;
      }

  announce-Mirrored :
      (other : String) (meta : Description E P) (mode : Mode) (l : Locator E P)
      (wire : List (Operation (Update E P)))
      → (mode ≡ exposed) ⊎ (meta.endpoints ≡ [])
      → l.cluster ≡ true
      → Mirrored name uuid (record { locator = l; wire = wire })
      → let (l', posts) = announce send cfg other meta mode l in
        Mirrored name uuid (record { locator = l'; wire = wire ++ sent_to uuid posts })
  unfolding announce sent_to
  announce-Mirrored other meta exposed l wire fits on m =
      elim (Option-cases (lookup other l.snapshots)) [
        | inr (known, there) ↦
            let same : ◌≡◌ {A = Locator E P × List (String × Operation (Update E P))} (l, [])
                (announce send cfg other meta exposed l) =
              ground arith in
            subst
              (λ r. Mirrored name uuid (record { locator = r.0; wire = wire ++ sent_to uuid r.1 }))
              same (rw (append-nil wire) m)
        | inl fresh ↦
            let l' : Locator E P = record l { snapshots = assign other meta l.snapshots } in
            let same : broadcast send cfg other meta l' ≡ announce send cfg other meta exposed l =
              ground arith in
            subst
              (λ r. Mirrored name uuid (record { locator = r.0; wire = wire ++ sent_to uuid r.1 }))
              same
              (broadcast-Mirrored other meta l.snapshots l' wire
                (learn-assign name cfg.uuid other meta l.snapshots) on m.keys m.current)
      ]
  announce-Mirrored other meta removed l wire fits on m =
      let l' : Locator E P = record l { snapshots = erase other l.snapshots } in
      let none_left : meta.endpoints ≡ [] = ground (arith, fits) in
      broadcast-Mirrored other meta l.snapshots l' wire
        (learn-erase name cfg.uuid other meta l.snapshots none_left) on m.keys m.current

  -- What the gateway keeps does not matter to the streams.
  pub told-Mirrored :
      (other : String) (meta : Description E P) (mode : Mode) (l : Locator E P)
      (gateway : Option (Remotes E P)) (failure : Option Code)
      (wire : List (Operation (Update E P)))
      → (mode ≡ exposed) ⊎ (meta.endpoints ≡ [])
      → Mirrored name uuid (record { locator = l; wire = wire })
      → let r = after_gateway send cfg other meta mode (record l { gateway = gateway }) failure in
        Mirrored name uuid (record { locator = r.0; wire = wire ++ sent_to uuid r.1 })
  unfolding after_gateway sent_to
  told-Mirrored other meta mode l gateway (some ec) wire fits m =
      rw (append-nil wire) (record { keys = m.keys; current = m.current })
  told-Mirrored other meta mode l gateway none wire fits m =
      let told : Locator E P = record l { gateway = gateway } in
      let m' : Mirrored name uuid (record { locator = told; wire = wire }) = record {
        keys = m.keys;
        current = m.current;
      } in
      elim (Bool-cases (is_restricted cfg other || not l.cluster)) [
        | inl silent ↦ rw silent (rw (append-nil wire) m')
        | inr heard ↦ rw heard (announce-Mirrored other meta mode told wire fits (ground arith) m')
      ]
