-- ===== src/Cluster/Tests.antt =====
-- Runs of multicast_t of src/cluster/multicast.cpp.
use cocaine_core.Base.{none, false, [], some, ◌∷◌, ℕ, true, List}
use cocaine_core.Cluster.{Multicast, new_multicast, announced, garbled}
use cocaine_core.Cluster.Discovery.{
  Event, prepares, ticks, receives, expires, serves, Tracked, Deaf, serves-Tracked, serves-Deaf,
}

abbrev events_of_cluster : List (Event ℕ)
events_of_cluster =
    prepares (some (1 ∷ []))
    ∷ receives (announced "b" (2 ∷ [])) 10
    ∷ receives (announced "a" (1 ∷ [])) 11
    ∷ receives (announced "c" (3 ∷ [])) 12
    ∷ ticks false (some (1 ∷ []))
    ∷ expires true "b"
    ∷ expires false "c"
    ∷ []

serves-Tracked_example : Tracked (serves events_of_cluster (new_multicast "a" 5 true))
serves-Tracked_example = serves-Tracked "a" 5 true events_of_cluster

abbrev running_cluster : Multicast ℕ
running_cluster = new_multicast "a" 5 true

serves-Deaf_example : Deaf running_cluster (
    serves
      (receives garbled 3 ∷ receives (announced "b" (2 ∷ [])) 10 ∷ ticks false none ∷ [])
      running_cluster)
serves-Deaf_example =
    serves-Deaf 3 (receives (announced "b" (2 ∷ [])) 10 ∷ ticks false none ∷ []) running_cluster
