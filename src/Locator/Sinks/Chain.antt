-- ===== src/Locator/Sinks/Chain.antt =====
-- From the services of one locator to the gateway of another: src/service/locator.cpp.
use cocaine_core.Base.{
  ℕ, String, ◌≡◌, ap, ◌∙◌, Bool, Option, none, some, List, [], ◌++◌, All, string_key,
}
use cocaine_core.Base.Map.{lookup, Unique}
use cocaine_core.Errors.Codes.{Code}
use cocaine_core.Gateway.{Remotes}
use cocaine_core.Rpc.Queue.{Operation, Streamed}
use cocaine_core.Locator.Node.{Update, RoutingTable, Config, new_locator}
use cocaine_core.Locator.Node.Mirror.{visible, reads}
use cocaine_core.Locator.Node.Sync.{Command, World, run}
use cocaine_core.Locator.Node.Steps.{run-synchronized}
use cocaine_core.Locator.Sinks.Heard.{registered, absorb_all, absorb_all-reads, Named}

-- A node that has no service of a locator in its gateway and takes all of its stream, with no update
-- failing, has each service of the snapshots of that locator registered with its endpoints, version
-- and protocol, and no other of them: whatever calls that locator has served, if its upstreams take
-- all messages. A service without endpoints is not registered.
pub absorb_all-run :
    {E P : Type 0} (send : ℕ → Operation (Update E P) → Option Code)
    (send_routing : ℕ → Operation RoutingTable → Option Code) (cfg : Config) (reader name : String)
    (with_gateway with_cluster : Bool) (cs : List (Command E P)) (s : Streamed (Update E P))
    (g : Remotes E P)
    → ((u : ℕ) (op : Operation (Update E P)) → send u op ≡ none)
    → Unique g
    → registered g cfg.uuid name ≡ none
    → let w =
        run send send_routing cfg reader cs
          (record { locator = new_locator with_gateway with_cluster; wire = [] }) in
      let ops = w.wire ++ s.outbox.operations in
      lookup reader w.locator.remotes ≡ some s
      → All (λ op. Named op.event) ops
      → (absorb_all cfg.uuid ops g).1 ≡ none
      → registered (absorb_all cfg.uuid ops g).0 cfg.uuid name
        ≡ visible (lookup name w.locator.snapshots)
absorb_all-run {E = E} {P = P} send send_routing cfg reader name with_gateway with_cluster cs s g
      took keys unknown found named fine =
    let start : World E P = record { locator = new_locator with_gateway with_cluster; wire = [] } in
    let ops = (run send send_routing cfg reader cs start).wire ++ s.outbox.operations in
    absorb_all-reads cfg.uuid name ops g named keys fine
    ∙ ap (reads name ops) unknown
    ∙ run-synchronized send send_routing cfg reader name with_gateway with_cluster cs s took found
