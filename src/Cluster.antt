-- ===== src/Cluster.antt =====
-- multicast_t and predefine_t of src/cluster, which find other nodes for the locator. A timer that is
-- set again or destroyed calls its handler with operation_aborted.
pub mod Discovery
mod Tests
use cocaine_core.Base.{
  is_empty, none, some, string_key, ◌*◌, ◌+◌, map, ◌∷◌, true, ◌++◌, ◌==◌, false, if◌then◌else◌,
  Option, [], ℕ, Bool, String, List,
}
use cocaine_core.Base.Map.{Map, assign, erase}

-- What a cluster does: a datagram with the local endpoints, and calls of link_node and drop_node of
-- the locator.
pub data Effect (E : Type 0) : Type 0 where
  sends : List E → Effect E
  links : String → List E → Effect E
  drops : String → Effect E

-- multicast_t. `publishing` and `receiving` are whether a wait of m_timer and a receive of the socket
-- are pending, and `expirations` has the time at which each timer expires.
pub record Multicast (E : Type 0) : Type 0 where
  pub uuid : String
  pub interval : ℕ
  pub expirations : Map String ℕ
  pub publishing : Bool
  pub receiving : Bool
  pub done : List (Effect E)

-- The constructor; the Boolean is whether the mode is `full`.
abbrev pub new_multicast : {E : Type 0} → String → ℕ → Bool → Multicast E
new_multicast uuid interval full = record {
  uuid = uuid;
  interval = interval;
  expirations = [];
  publishing = false;
  receiving = full;
  done = [];
}

-- What async_receive_from gives: an error, a datagram that msgpack cannot unpack or decode, or an
-- announce.
pub data Receipt (E : Type 0) : Type 0 where
  failed : Receipt E
  garbled : Receipt E
  announced : String → List E → Receipt E

-- on_publish; `quote` is what the context locates under the name of the locator. An exception of the
-- socket is logged and the timer is set all the same.
unfoldable pub on_publish : {E : Type 0} → Bool → Option (List E) → Multicast E → Multicast E
on_publish aborted quote s = if aborted then s else (elim quote [
  | none ↦ s
  | some endpoints ↦ record s {
    publishing = true;
    done = if is_empty endpoints then s.done else s.done ++ sends endpoints ∷ [];
  }
])

-- on_receive at the time `now`.
unfoldable pub on_receive : {E : Type 0} → Receipt E → ℕ → Multicast E → Multicast E
on_receive failed now s = s
on_receive garbled now s = s
on_receive (announced uuid endpoints) now s =
    if uuid == s.uuid then record s { receiving = true } else record s {
      expirations = assign uuid (now + s.interval * 3) s.expirations;
      receiving = true;
      done = s.done ++ links uuid endpoints ∷ [];
    }

-- on_expired
unfoldable pub on_expired : {E : Type 0} → Bool → String → Multicast E → Multicast E
on_expired aborted uuid s =
    if aborted
    then s
    else record s { expirations = erase uuid s.expirations; done = s.done ++ drops uuid ∷ [] }

-- predefine_t::on_announce, given the configured nodes: the calls of the locator and whether the timer
-- is set.
unfoldable pub on_announce : {E : Type 0} → Bool → Map String (List E) → List (Effect E) × Bool
on_announce aborted nodes = if aborted then ([], false) else (map (λ p. links p.0 p.1) nodes, true)
