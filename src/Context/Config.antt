-- ===== src/Context/Config.antt =====
-- The checks of src/context/config.cpp. `D` stands for double, and `none` for an exception. The paths
-- of the configuration and the local host name come from the system and are arguments.
pub mod Groups
pub mod Sections
mod Tests
use cocaine_core.Base.{
  ℕ, zero, suc, ◌+◌, ◌-◌, ◌*◌, ◌/◌, ◌%◌, ◌^◌, ◌≤◌, ◌<◌, min, String, ◌≡◌, refl, sym, ap, ◌∙◌, subst,
  ◌≢◌, ◌↔◌, ◌⊎◌, inl, inr, Bool, true, false, not, ◌&&◌, ◌||◌, Option, none, some, List, [], ◌∷◌,
  ◌++◌, map, append_assoc, append-nil, arith, ltb, leb, nat_beq, if◌then◌else◌, Bool-cases,
  Option-cases, codes, All, length, get_elem?, take, drop, replicate, find_index, find?, any, all,
  keep, is_empty, length-append, length-take, length-drop, length-replicate, take-append-drop,
  take-append_left, take-append_exact, drop-nil, take-nil, take-drop, drop-append_left,
  drop-append_right, find?-All, find?-passes, find?-any, any-find?, find?-none, Key, ◌==◌, nat_key,
  string_key, list_key, list_same, list_same_iff, ==_refl,
}
use cocaine_core.Base.Map.{Map, lookup, assign}
use cocaine_core.Dynamic.{
  Dynamic, Array, Object, no_items, item, no_fields, field, object_value, array_value, uint_value,
  as_uint, as_string, as_array, as_object, at, at_or, string_value,
}

-- `o.then(f)` where `none` is an exception on the way.
abbrev pub bind {ℓ κ} : {A : Type ℓ} {B : Type κ} → Option A → (A → Option B) → Option B
bind none f = none
bind (some a) f = f a

-- The conversion to port_t, an unsigned short.
abbrev pub to_port : ℕ → ℕ
to_port n = n % 2 ^ 16

pub record Ports : Type 0 where
  pub pinned : Map String ℕ
  pub shared : ℕ × ℕ

pub data Priority : Type 0 where
  debug info warning error : Priority

pub record Component (D : Type 0) : Type 0 where
  pub type : String
  pub args : Dynamic D

abbrev pub is_group : String → Bool
is_group name = "services" == name || "storages" == name || "unicorns" == name

abbrev pub is_reserved : String → Bool
is_reserved name =
    is_group name || "paths" == name || "network" == name || "logging" == name || "version" == name

abbrev pub Groups : Type 0 → Type 0
Groups D = Map String (Map String (Component D))

module _ {D : Type 0} where
  abbrev pub empty_object : Dynamic D
  empty_object = object_value no_fields

  abbrev pub default_range : Dynamic D
  default_range = array_value (item (uint_value 0) (item (uint_value 0) no_items))

  -- The loop of ports_t over the pinned ports.
  unfoldable pub pinned_ports : Object D → Option (Map String ℕ)
  pinned_ports no_fields = some []
  pinned_ports (field name d fields) =
      let rest = pinned_ports fields in
      bind (as_uint d) (λ port. bind rest (λ pinned. some (assign name (to_port port) pinned)))

  unfoldable pub shared_ports : Array D → Option (ℕ × ℕ)
  shared_ports no_items = none
  shared_ports (item x no_items) = none
  shared_ports (item x (item y no_items)) =
      bind (as_uint x) (λ least. bind (as_uint y) (λ most. some (to_port least, to_port most)))
  shared_ports (item x (item y (item z items))) = none

  -- ports_t
  unfoldable pub ports : Object D → Option Ports
  ports source = bind (as_object (at_or "pinned" empty_object source)) (λ section.
      bind (pinned_ports section) (λ pinned.
        bind (as_array (at_or "shared" default_range source)) (λ range.
          bind (shared_ports range)
            (λ shared. some (record { pinned = pinned; shared = shared })))))

  -- The size of the pool in network_t, given the number of processors.
  unfoldable pub pool : ℕ → Object D → Option ℕ
  pool processors source =
      bind (as_uint (at_or "pool" (uint_value (processors * 2)) source))
        (λ n. if nat_beq n 0 then none else some n)

  -- logging_t
  unfoldable pub severity : Object D → Option Priority
  severity source = bind (at "loggers" source) (λ loggers.
      bind (as_string (at_or "severity" (string_value "info") source)) (λ name.
        if name == "debug"
        then some debug
        else if name == "info"
        then some info
        else if name == "warning"
        then some warning
        else if name == "error"
        then some error
        else none))

  -- component_t
  unfoldable pub component : Dynamic D → Option (Component D)
  component source = bind (as_object source) (λ fields.
      bind (as_string (at_or "type" (string_value "unspecified") fields))
        (λ type. some (record { type = type; args = at_or "args" empty_object fields })))

  -- component_group_t
  unfoldable pub component_group : Object D → Option (Map String (Component D))
  component_group no_fields = some []
  component_group (field name d fields) =
      let rest = component_group fields in
      bind (component d) (λ made. bind rest (λ components. some (assign name made components)))

  abbrev pub section : String → Object D → Option (Map String (Component D))
  section name source = bind (as_object (at_or name empty_object source)) component_group

  -- The loop of init_components_groups; the keys of an object are distinct, so its order is free.
  unfoldable pub other_groups : Object D → Groups D → Option (Groups D)
  other_groups no_fields groups = some groups
  other_groups (field name d fields) groups =
      let rest = other_groups fields groups in
      if is_reserved name
      then rest
      else bind (bind (as_object d) component_group)
          (λ made. bind rest (λ more. some (assign name made more)))

  -- init_components_groups
  unfoldable pub init_components_groups : Object D → Option (Groups D)
  init_components_groups source = bind (section "services" source) (λ services.
      bind (section "storages" source) (λ storages. bind (section "unicorns" source) (λ unicorns.
        other_groups source
          (("services", services) ∷ ("storages", storages) ∷ ("unicorns", unicorns) ∷ []))))
