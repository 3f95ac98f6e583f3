-- ===== src/Context/Ports.antt =====
-- port_mapping_t: include/cocaine/context/mapper.hpp and src/context/mapper.cpp. The order of the
-- shared ports, which the constructor shuffles, is an argument.
pub mod Leases
mod Tests
use cocaine_core.Base.{
  ℕ, zero, suc, ◌+◌, ◌-◌, ◌*◌, ◌/◌, ◌%◌, ◌^◌, ◌≤◌, ◌<◌, min, String, ◌≡◌, refl, sym, ap, ◌∙◌, subst,
  ◌≢◌, ◌↔◌, ◌⊎◌, inl, inr, Bool, true, false, not, ◌&&◌, ◌||◌, Option, none, some, List, [], ◌∷◌,
  ◌++◌, map, append_assoc, append-nil, arith, ltb, leb, nat_beq, if◌then◌else◌, Bool-cases,
  Option-cases, codes, All, length, get_elem?, take, drop, replicate, find_index, find?, any, all,
  keep, is_empty, length-append, length-take, length-drop, length-replicate, take-append-drop,
  take-append_left, take-append_exact, drop-nil, take-nil, take-drop, drop-append_left,
  drop-append_right, find?-All, find?-passes, find?-any, any-find?, find?-none, Key, ◌==◌, nat_key,
  string_key, list_key, list_same, list_same_iff, ==_refl,
}
use cocaine_core.Base.Map.{Map, lookup, contains, erase, insert}

pub record PortMapping : Type 0 where
  pub pinned : Map String ℕ
  pub shared : List ℕ
  pub in_use : Map String ℕ

-- std::iota: `n` numbers from `first` on.
unfoldable pub iota : ℕ → ℕ → List ℕ
iota zero first = []
iota (suc n) first = first ∷ iota n (suc first)

-- The seed of the constructor: 0, which lets the system choose, if no range is configured.
unfoldable pub seed_of : ℕ → ℕ → List ℕ
seed_of minimum maximum =
    if (nat_beq minimum 0 && nat_beq maximum 0) || leb maximum minimum
    then replicate 65535 0
    else iota (maximum - minimum) minimum

-- The constructor; `shuffle` is std::shuffle with some random numbers.
unfoldable pub new : (List ℕ → List ℕ) → Map String ℕ → ℕ → ℕ → PortMapping
new shuffle pinned minimum maximum = record {
  pinned = pinned;
  shared = shuffle (seed_of minimum maximum);
  in_use = [];
}

pub data PortError : Type 0 where
  already_in_use no_ports_left never_assigned : PortError

-- The dynamic branch of `assign`.
unfoldable pub assign_shared : String → PortMapping → PortError ⊎ (ℕ × PortMapping)
assign_shared name m = elim m.shared [
  | [] ↦ inl no_ports_left
  | port ∷ rest ↦ inr (port, record m { shared = rest; in_use = insert name port m.in_use })
]

-- assign
unfoldable pub assign : String → PortMapping → PortError ⊎ (ℕ × PortMapping)
assign name m = if contains name m.in_use then inl already_in_use else elim (lookup name m.pinned) [
  | some port ↦ inr (port, record m { in_use = insert name port m.in_use })
  | none ↦ assign_shared name m
]

-- retain
unfoldable pub retain : String → PortMapping → PortError ⊎ PortMapping
retain name m = elim (lookup name m.in_use) [
  | none ↦ inl never_assigned
  | some port ↦ inr (record m {
    shared = if contains name m.pinned then m.shared else m.shared ++ port ∷ [];
    in_use = erase name m.in_use;
  })
]
