-- ===== src/Authorization/Event/Tests.antt =====
-- Runs of src/authorization/event.cpp.
use cocaine_core.Base.{ℕ, String, ◌≡◌, Option, some, List, [], ◌∷◌}
use cocaine_core.Dynamic.{null_value, object_value, field, no_fields}
use cocaine_core.Authorization.Event.{holds, no_node, failed, ensure, new_watcher, passed}
use cocaine_core.Dynamic.{at}
use cocaine_core.Authorization.Event.Grants.{
  last_methods, Notice, changed, updated, run, ensure-granted,
}

abbrev only_seven : String → Option ℕ
only_seven node = some 7

abbrev client_notices : List (Notice ℕ)
client_notices =
    updated 7 (holds (object_value (field "get" null_value no_fields))) ∷ updated 7 no_node ∷ []

abbrev user_notices : List (Notice ℕ)
user_notices =
    changed (holds ("7" ∷ []))
    ∷ updated 7 (holds (object_value (field "get" null_value no_fields)))
    ∷ updated 7 failed
    ∷ updated 7 (holds null_value)
    ∷ []

ensure-granted_example :
    ensure "get" (7 ∷ []) (7 ∷ []) (record {
      uid = run only_seven user_notices new_watcher;
      cid = run only_seven client_notices new_watcher;
    })
    ≡ passed
unfolding last_methods at
ensure-granted_example =
    ensure-granted only_seven "get" client_notices user_notices (7 ∷ []) (7 ∷ [])
