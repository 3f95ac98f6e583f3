-- ===== src/Locator/Node/Tests.antt =====
-- Runs of src/service/locator.cpp with one remote locator.
use cocaine_core.Base.{ℕ, ◌≡◌, refl, true, false, Option, none, some, List, [], ◌∷◌, string_key}
use cocaine_core.Base.Map.{lookup, assign, erase}
use cocaine_core.Errors.Codes.{Code}
use cocaine_core.Gateway.{Description}
use cocaine_core.Rpc.Queue.{Operation, Streamed, write, append, attach_streamed, attach, send_all}
use cocaine_core.Locator.Node.{
  Update, Config, config, Locator, new_locator, exposed, on_service, on_connect, attach_remote,
  after_gateway, announce, broadcast, each,
}
use cocaine_core.Locator.Node.Mirror.{reads, sent_to}
use cocaine_core.Locator.Node.Sync.{
  Command, serves, withdraws, connects, attaches, World, run, step,
}
use cocaine_core.Locator.Node.Steps.{run-synchronized}
use cocaine_core.Locator.Node.Refused.{on_service-refused}

abbrev node_config : Config
node_config = config "locator" (some "node") "fresh" []

abbrev node_endpoints : Description ℕ ℕ
node_endpoints = record { endpoints = 1 ∷ []; protocol = 7; version = 2 }

abbrev takes_all : {A : Type 0} → ℕ → Operation A → Option Code
takes_all u op = none

abbrev node_commands : List (Command ℕ ℕ)
node_commands =
    serves "storage" node_endpoints
    ∷ connects "peer"
    ∷ serves "logging" node_endpoints
    ∷ attaches "peer" 9
    ∷ withdraws "storage" 2 7
    ∷ serves "locator" node_endpoints
    ∷ []

abbrev node_start : World ℕ ℕ
node_start = record { locator = new_locator false true; wire = [] }

abbrev peer_stream : Streamed (Update ℕ ℕ)
peer_stream = record { is_closed = false; outbox = record { operations = []; upstream = some 9 } }

run-synchronized_example :
    reads "storage" (run takes_all takes_all node_config "peer" node_commands node_start).wire none
    ≡ none
unfolding run step on_service on_connect attach_remote after_gateway announce broadcast each write
    append attach_streamed attach send_all lookup assign erase sent_to
run-synchronized_example =
    run-synchronized takes_all takes_all node_config "peer" "storage" false true node_commands
      peer_stream (λ u op. refl) refl

abbrev lost_connection : Code
lost_connection = record { category = "system"; value = 32 }

abbrev node_with_peer : Locator ℕ ℕ
node_with_peer = record (new_locator false true) { remotes = ("peer", peer_stream) ∷ [] }

on_service-refused_example :
    lookup "peer"
      (on_service
        (λ u op. some lost_connection)
        node_config
        "storage"
        node_endpoints
        exposed
        node_with_peer).0.remotes
    ≡ some peer_stream
unfolding lookup
on_service-refused_example =
    on_service-refused (λ u op. some lost_connection) node_config "peer" peer_stream 9 "storage"
      node_endpoints exposed node_with_peer refl (λ op. (lost_connection, refl)) refl
