-- ===== src/Locator/Node/Refused.antt =====
-- A remote locator that can no longer be told: on_service of src/service/locator.cpp.
use cocaine_core.Base.{
  ℕ, String, ◌≡◌, Option, none, some, [], ◌∷◌, arith, Bool-cases, Option-cases, inl, inr,
  string_key,
}
use cocaine_core.Base.Map.{lookup, assign, erase}
use cocaine_core.Errors.Codes.{Code}
use cocaine_core.Gateway.{Description}
use cocaine_core.Rpc.Queue.{Operation, Streamed, write, append, chunk}
use cocaine_core.Locator.Node.{
  Update, Config, Locator, Mode, exposed, removed, tell_gateway, broadcast, announce, after_gateway,
  on_service,
}
use cocaine_core.Locator.Node.Mirror.{lookup-each}

module _ {E P : Type 0} (send : ℕ → Operation (Update E P) → Option Code) (cfg : Config)
    (uuid : String) (s : Streamed (Update E P)) (u : ℕ) (up : s.outbox.upstream ≡ some u)
    (refuses : (op : Operation (Update E P)) → (ec : Code) × (send u op ≡ some ec)) where
  write-queue : (update : Update E P) → (write send [] update s).queue ≡ s
  unfolding write append
  write-queue update = elim (Bool-cases s.is_closed) [
    | inl shut ↦ ground arith
    | inr fresh ↦
        let (ec, failed) = refuses (record { headers = []; event = chunk update }) in ground arith
  ]

  lookup-broadcast :
      (name : String) (meta : Description E P) (l : Locator E P)
      → lookup uuid l.remotes ≡ some s
      → lookup uuid (broadcast send cfg name meta l).0.remotes ≡ some s
  unfolding broadcast
  lookup-broadcast name meta l found =
      let update : Update E P = (cfg.uuid, (name, meta) ∷ []) in
      ground (arith, lookup-each (write send [] update) uuid l.remotes, write-queue update)

  lookup-announce :
      (name : String) (meta : Description E P) (mode : Mode) (l : Locator E P)
      → lookup uuid l.remotes ≡ some s
      → lookup uuid (announce send cfg name meta mode l).0.remotes ≡ some s
  unfolding announce
  lookup-announce name meta exposed l found =
      let rest =
        lookup-broadcast name meta (record l { snapshots = assign name meta l.snapshots }) found in
      ground arith
  lookup-announce name meta removed l found =
      lookup-broadcast name meta (record l { snapshots = erase name l.snapshots }) found

  lookup-after_gateway :
      (name : String) (meta : Description E P) (mode : Mode) (l : Locator E P)
      (failure : Option Code)
      → lookup uuid l.remotes ≡ some s
      → lookup uuid (after_gateway send cfg name meta mode l failure).0.remotes ≡ some s
  unfolding after_gateway
  lookup-after_gateway name meta mode l (some ec) found = found
  lookup-after_gateway name meta mode l none found =
      let rest = lookup-announce name meta mode l found in ground arith

-- A remote locator whose upstream refuses every message keeps its stream in the map, unchanged,
-- through each `on_service`: the handler that should erase it is never entered.
pub on_service-refused :
    {E P : Type 0} (send : ℕ → Operation (Update E P) → Option Code) (cfg : Config) (uuid : String)
    (s : Streamed (Update E P)) (u : ℕ) (name : String) (meta : Description E P) (mode : Mode)
    (l : Locator E P)
    → s.outbox.upstream ≡ some u
    → ((op : Operation (Update E P)) → (ec : Code) × (send u op ≡ some ec))
    → lookup uuid l.remotes ≡ some s
    → lookup uuid (on_service send cfg name meta mode l).0.remotes ≡ some s
unfolding on_service
on_service-refused send cfg uuid s u name meta mode l up refuses found =
    let after = lookup-after_gateway send cfg uuid s u up refuses name meta mode in
    elim (Option-cases l.gateway) [
      | inl absent ↦ let rest = after l none found in ground arith
      | inr (g, there) ↦
          let (g', failure) = tell_gateway cfg name meta mode g in
          let rest = after (record l { gateway = some g' }) failure found in ground arith
    ]
