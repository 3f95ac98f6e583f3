-- ===== src/Context/Core/Tests.antt =====
-- Runs of the context of src/context.cpp.
use cocaine_core.Base.{
  inr, arith, inl, Bool-cases, if◌then◌else◌, ℕ, String, Bool, ◌≡◌, refl, true, false, Option, none,
  some, List, [], ◌∷◌, ◌++◌,
}
use cocaine_core.Context.Core.{Actors, start, prepared, shutdown}
use cocaine_core.Context.Core.Start.{core_of, exposures, removals, running}
use cocaine_core.Context.Core.Ends.{start-runs, start-unwinds}
use cocaine_core.Context.Core.Heard.{Named, Coherent, Call, inserts, removes}
use cocaine_core.Context.Core.Heard.Calls.{serves}
use cocaine_core.Context.Core.Heard.Life.{serves-start}

record Actor : Type 0 where
  title : String
  works : Bool
  active : Bool

abbrev actors : Actors Actor ℕ ℕ
actors = record {
  run = λ a. if a.works then some (record a { active = true }) else none;
  terminate = λ a. record a { active = false };
  is_active = λ a. a.active;
  name = λ a. a.title;
  endpoints = λ a. 10053 ∷ [];
  version = λ a. 1;
  root = λ a. 0;
}

abbrev good : String → Actor
good name = record { title = name; works = true; active = false }

abbrev bad : String → Actor
bad name = record { title = name; works = false; active = false }

abbrev two_services : List (String × Option Actor)
two_services = ("locator", some (good "locator")) ∷ ("storage", some (good "storage")) ∷ []

abbrev third_fails : List (String × Option Actor)
third_fails = two_services ++ ("node", some (bad "node")) ∷ ("logging", some (good "logging")) ∷ []

abbrev two_up : List (String × Actor)
two_up = (running actors (("locator", good "locator") ∷ ("storage", good "storage") ∷ [])).0

start-runs_example :
    start actors two_services
    ≡ (core_of two_up [] true (exposures actors two_up ++ prepared ∷ []), true)
start-runs_example =
    start-runs actors two_services (("locator", good "locator") ∷ ("storage", good "storage") ∷ [])
      two_up refl refl

start-unwinds_example : start actors third_fails ≡ (
  core_of []
      (("node", bad "node") ∷ ("logging", good "logging") ∷ [])
      false
      (exposures actors two_up ++ shutdown ∷ removals actors two_up),
  false,
)
start-unwinds_example =
    start-unwinds actors third_fails
      (("locator", good "locator")
        ∷ ("storage", good "storage")
        ∷ ("node", bad "node")
        ∷ ("logging", good "logging")
        ∷ [])
      two_up ("node", bad "node") (("logging", good "logging") ∷ []) refl refl

run-name : (a b : Actor) → actors.run a ≡ some b → b.title ≡ a.title
run-name a b e = elim (Bool-cases a.works) [
  | inl works ↦ ground arith
  | inr fails ↦ absurd (ground arith)
]

actors-Named : Named actors
actors-Named = record { run = run-name; terminate = λ a. refl }

abbrev calls_of_context : List (Call Actor)
calls_of_context =
    inserts "node" (some (good "node"))
    ∷ inserts "storage" (some (good "storage"))
    ∷ removes "locator"
    ∷ inserts "cache" none
    ∷ removes "urlfetch"
    ∷ []

serves-start_example :
    Coherent actors (serves actors calls_of_context (start actors two_services).0)
serves-start_example =
    serves-start actors actors-Named two_services
      (("locator", good "locator") ∷ ("storage", good "storage") ∷ []) two_up calls_of_context refl
      refl (refl, (refl, tt)) (refl, (refl, tt)) (refl, (refl, (tt, (tt, (tt, tt)))))
