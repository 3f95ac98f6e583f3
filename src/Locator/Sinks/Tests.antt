-- ===== src/Locator/Sinks/Tests.antt =====
-- A stream of src/service/locator.cpp that another node takes.
use cocaine_core.Base.{true, false, ℕ, ◌≡◌, refl, Option, none, some, List, [], ◌∷◌, string_key}
use cocaine_core.Base.Map.{lookup, assign, erase, insert}
use cocaine_core.Errors.Codes.{Code}
use cocaine_core.Gateway.{Description, consume, cleanup, services}
use cocaine_core.Rpc.Queue.{Operation, Streamed, write, append, attach_streamed, attach, send_all}
use cocaine_core.Locator.Node.{
  Update, Config, config, new_locator, on_service, on_connect, attach_remote, after_gateway,
  announce, broadcast, each,
}
use cocaine_core.Locator.Node.Mirror.{sent_to}
use cocaine_core.Locator.Node.Sync.{
  Command, serves, withdraws, connects, attaches, World, run, step,
}
use cocaine_core.Locator.Sinks.{absorb}
use cocaine_core.Locator.Sinks.Heard.{registered, absorb_all, absorb_event}
use cocaine_core.Locator.Sinks.Chain.{absorb_all-run}

abbrev sender_config : Config
sender_config = config "locator" (some "sender") "fresh" []

abbrev sent_service : Description ℕ ℕ
sent_service = record { endpoints = 1 ∷ []; protocol = 7; version = 2 }

abbrev takes_updates : {A : Type 0} → ℕ → Operation A → Option Code
takes_updates u op = none

abbrev sender_commands : List (Command ℕ ℕ)
sender_commands =
    serves "storage" sent_service
    ∷ connects "reader"
    ∷ serves "logging" sent_service
    ∷ attaches "reader" 9
    ∷ withdraws "storage" 2 7
    ∷ []

abbrev sender_start : World ℕ ℕ
sender_start = record { locator = new_locator false true; wire = [] }

abbrev reader_stream : Streamed (Update ℕ ℕ)
reader_stream = record { is_closed = false; outbox = record { operations = []; upstream = some 9 } }

absorb_all-run_example :
    registered
      (absorb_all "sender"
        (run takes_updates takes_updates sender_config "reader" sender_commands sender_start).wire
        []).0
      "sender"
      "logging"
    ≡ some sent_service
unfolding run step on_service on_connect attach_remote after_gateway announce broadcast each write
    append attach_streamed attach send_all lookup assign erase insert sent_to absorb absorb_all
    absorb_event consume cleanup services
absorb_all-run_example =
    absorb_all-run takes_updates takes_updates sender_config "reader" "logging" false true
      sender_commands reader_stream [] (λ u op. refl) tt refl refl
      ((refl, tt), ((refl, tt), ((refl, tt), tt))) refl
