-- ===== src/Context/Config/Tests.antt =====
-- Runs of the checks of src/context/config.cpp.
use cocaine_core.Base.{◌%◌, string_key, refl, some, [], ◌∷◌, ◌≡◌, ℕ}
use cocaine_core.Base.Map.{lookup, assign, erase}
use cocaine_core.Dynamic.{
  as_uint, no_items, item, array_value, as_array, Dynamic, Object, no_fields, field, object_value,
  string_value, uint_value, at, at_or,
}
use cocaine_core.Context.Config.{
  Component, Groups, Ports, empty_object, init_components_groups, component_group, other_groups,
  ports, pinned_ports, shared_ports, component,
}
use cocaine_core.Context.Config.Sections.{GroupOf, init_components_groups-lookup, ports-lookup}

abbrev node_section : Object ℕ
node_section = field "type" (string_value "node") no_fields

abbrev source_config : Object ℕ
source_config =
    field "isolates" (object_value (field "node" (object_value node_section) no_fields)) (
      field "services" (object_value (field "node" (object_value node_section) no_fields))
        (field "version" (uint_value 4) no_fields))

abbrev node_component : Component ℕ
node_component = record { type = "node"; args = empty_object }

abbrev source_groups : Groups ℕ
source_groups =
    ("isolates", (("node", node_component) ∷ []))
    ∷ ("services", (("node", node_component) ∷ []))
    ∷ ("storages", [])
    ∷ ("unicorns", [])
    ∷ []

init-source : init_components_groups source_config ≡ some source_groups
unfolding init_components_groups component_group other_groups component assign erase at at_or
init-source = refl

init_components_groups-lookup_example :
    GroupOf (at "isolates" source_config) (lookup "isolates" source_groups)
init_components_groups-lookup_example =
    init_components_groups-lookup source_config source_groups "isolates" init-source

abbrev pinned_section : Object ℕ
pinned_section = field "locator" (uint_value 75589) no_fields

abbrev source_network : Object ℕ
source_network = field "pinned" (object_value pinned_section) no_fields

abbrev source_ports : Ports
source_ports = record { pinned = ("locator", 10053) ∷ []; shared = (0, 0) }

ports-source : ports source_network ≡ some source_ports
unfolding ports pinned_ports shared_ports at_or assign erase
ports-source = refl

ports-lookup_example :
    (lookup "locator" source_ports.pinned ≡ some 10053)
    × ((x y : Dynamic ℕ) × (as_array (
            at_or "shared"
              (array_value (item (uint_value 0) (item (uint_value 0) no_items)))
              source_network)
          ≡ some (item x (item y no_items)))
        × ((least most : ℕ) × (as_uint x ≡ some least)
            × (as_uint y ≡ some most)
            × (source_ports.shared ≡ (least % 65536, most % 65536))))
unfolding at at_or
ports-lookup_example =
    ports-lookup source_network pinned_section source_ports "locator" ports-source refl
