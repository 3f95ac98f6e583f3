-- ===== src/Context/Config/Sections.antt =====
-- What the checks of src/context/config.cpp accept, entry by entry.
use cocaine_core.Context.Config.{
  component, default_range, shared_ports, empty_object, Ports, is_group, section, ports,
  init_components_groups, Component, component_group, is_reserved, Groups, to_port, pinned_ports,
  bind,
}
use cocaine_core.Base.{
  refl, ◌%◌, any, Option, ◌∷◌, ℕ, String, ◌≡◌, sym, ap, ◌∙◌, subst, inl, inr, true, false, none,
  some, [], arith, if◌then◌else◌, Bool-cases, Option-cases, ◌==◌, nat_key, string_key, list_key,
}
use cocaine_core.Base.Map.{Map, lookup, assign, lookup-assign}
use cocaine_core.Dynamic.{
  uint_value, array_value, no_items, string_value, item, as_string, object_value, Array, Dynamic,
  as_array, at_or, Object, no_fields, field, as_uint, as_object, at,
}
use cocaine_core.Context.Config.Groups.{groups_of_sections, group-built, other-built}

pinned_ports-lookup :
    {D : Type 0} (section : Object D) (pinned : Map String ℕ) (name : String)
    → pinned_ports section ≡ some pinned
    → lookup name pinned ≡ bind (bind (at name section) as_uint) (λ n. some (to_port n))
unfolding pinned_ports at lookup
pinned_ports-lookup no_fields pinned name e =
    let same : [] ≡ pinned = ground arith in ap (lookup name) (sym same)
pinned_ports-lookup (field key d fs) pinned name e = elim (Option-cases (as_uint d)) [
  | inl other ↦ absurd (ground arith)
  | inr (port, is_port) ↦ elim (Option-cases (pinned_ports fs)) [
    | inl fails ↦ absurd (ground arith)
    | inr (more, rest) ↦
        let tail = pinned_ports-lookup fs more name rest in
        let same : assign key (to_port port) more ≡ pinned = ground arith in
        ap (lookup name) (sym same)
        ∙ lookup-assign key name (to_port port) more
        ∙ elim (Bool-cases (key == name)) [ inl hit ↦ ground arith | inr miss ↦ ground arith ]
  ]
]

-- A section is described entry by entry: what a component is made of, and what stands under a name of
-- a group or of all groups, where `found` is what is looked up there.
pub record Describes {D : Type 0} (d : Dynamic D) (c : Component D) : Type 0 where
  pub entries : Object D
  pub is_object : as_object d ≡ some entries
  pub is_type : as_string (at_or "type" (string_value "unspecified") entries) ≡ some c.type
  pub are_args : c.args ≡ at_or "args" (object_value no_fields) entries

abbrev pub ComponentOf : {D : Type 0} → Option (Dynamic D) → Option (Component D) → Type 0
ComponentOf none found = found ≡ none
ComponentOf {D = D} (some d) found = (c : Component D) × (found ≡ some c) × Describes d c

abbrev pub GroupOf : {D : Type 0} → Option (Dynamic D) → Option (Map String (Component D)) → Type 0
GroupOf none found = found ≡ none
GroupOf {D = D} (some d) found =
    (group : Map String (Component D)) × (found ≡ some group)
    × ((entries : Object D) × (as_object d ≡ some entries)
        × ((name : String) → ComponentOf (at name entries) (lookup name group)))

component-Describes :
    {D : Type 0} (d : Dynamic D) (c : Component D) → component d ≡ some c → Describes d c
unfolding component
component-Describes {D = D} d c e = elim (Option-cases (as_object d)) [
  | inl fails ↦ absurd (ground arith)
  | inr (entries, is_object) ↦
      elim (Option-cases (as_string (at_or "type" (string_value "unspecified") entries))) [
        | inl fails ↦ absurd (ground arith)
        | inr (type, is_type) ↦
            let built : Component D = record {
              type = type;
              args = at_or "args" empty_object entries;
            } in
            let same : built ≡ c = ground arith in
            subst (Describes d) same (record {
              entries = entries;
              is_object = is_object;
              is_type = is_type;
              are_args = refl;
            })
      ]
]

component_group-ComponentOf :
    {D : Type 0} (entries : Object D) (group : Map String (Component D)) (name : String)
    → component_group entries ≡ some group
    → ComponentOf (at name entries) (lookup name group)
unfolding component_group at lookup
component_group-ComponentOf no_fields group name e =
    let same : [] ≡ group = ground arith in ap (lookup name) (sym same)
component_group-ComponentOf (field key d fs) group name e = elim (Option-cases (component d)) [
  | inl fails ↦ absurd (ground arith)
  | inr (c, made) ↦ elim (Option-cases (component_group fs)) [
    | inl fails ↦ absurd (ground arith)
    | inr (more, rest) ↦
        let tail = component_group-ComponentOf fs more name rest in
        let same : assign key c more ≡ group = ground arith in
        let step = lookup-assign key name c more in
        subst (λ g. ComponentOf (at name (field key d fs)) (lookup name g)) same
          (elim (Bool-cases (key == name)) [
            | inl hit ↦ rw (hit, step, hit) (c, refl, component-Describes d c made)
            | inr miss ↦ rw (miss, step, miss) tail
          ])
  ]
]

bind-GroupOf :
    {D : Type 0} (d : Dynamic D) (group : Map String (Component D))
    (found : Option (Map String (Component D)))
    → bind (as_object d) component_group ≡ some group
    → found ≡ some group
    → GroupOf (some d) found
bind-GroupOf d group found e same = elim (Option-cases (as_object d)) [
  | inl fails ↦ absurd (ground arith)
  | inr (entries, is_object) ↦
      let built : component_group entries ≡ some group = ground arith in
      (
        group,
        same,
        (entries, is_object, λ name. component_group-ComponentOf entries group name built),
      )
]

-- Where init_components_groups does not throw: the groups "services", "storages" and "unicorns" are
-- there, each made entry by entry of its section or of an empty one; there is no group "paths",
-- "network", "logging" or "version", whatever section has that name; and there is a group of any
-- other name exactly if there is a section of the name, which it is made of. A component has the
-- type and the arguments of its entry, or "unspecified" and an empty object.
pub init_components_groups-lookup :
    {D : Type 0} (source : Object D) (groups : Groups D) (name : String)
    → init_components_groups source ≡ some groups
    → (if any (λ k. k == name) ("services" ∷ "storages" ∷ "unicorns" ∷ [])
        then GroupOf (some (at_or name (object_value no_fields) source)) (lookup name groups)
        else if any (λ k. k == name) ("paths" ∷ "network" ∷ "logging" ∷ "version" ∷ [])
        then lookup name groups ≡ none
        else GroupOf (at name source) (lookup name groups))
init_components_groups-lookup source groups name e =
    let found = groups_of_sections source groups name e in
    let is_one = any (λ k. k == name) ("services" ∷ "storages" ∷ "unicorns" ∷ []) in
    let is_kept = any (λ k. k == name) ("paths" ∷ "network" ∷ "logging" ∷ "version" ∷ []) in
    elim (Bool-cases is_one) [
      | inl hit ↦
          let one : is_group name ≡ true = ground arith in
          let (group, built) = group-built source groups name e one in
          rw hit (
            bind-GroupOf (at_or name empty_object source) group (lookup name groups) built
              (ground arith))
      | inr miss ↦
          let other : is_group name ≡ false = ground arith in
          elim (Bool-cases is_kept) [
            | inl reserved ↦
                let kept : is_reserved name ≡ true = ground arith in
                rw (miss, reserved) (ground arith)
            | inr free ↦
                let not_kept : is_reserved name ≡ false = ground arith in
                elim (Option-cases (at name source)) [
                  | inl absent ↦ rw (miss, free, absent) (ground arith)
                  | inr (d, there) ↦
                      let (group, built) = other-built source groups name d e not_kept there in
                      rw (miss, free, there)
                        (bind-GroupOf d group (lookup name groups) built (ground arith))
                ]
          ]
    ]

-- The two ends of the shared range.
shared_ports-two :
    {D : Type 0} (range : Array D) (shared : ℕ × ℕ)
    → shared_ports range ≡ some shared
    → (x y : Dynamic D) × (range ≡ item x (item y no_items))
      × ((least most : ℕ) × (as_uint x ≡ some least)
          × (as_uint y ≡ some most)
          × (shared ≡ (least % 65536, most % 65536)))
unfolding shared_ports
shared_ports-two no_items shared e = absurd (ground arith)
shared_ports-two (item x no_items) shared e = absurd (ground arith)
shared_ports-two (item x (item y (item z items))) shared e = absurd (ground arith)
shared_ports-two (item x (item y no_items)) shared e = elim (Option-cases (as_uint x)) [
  | inl fails ↦ absurd (ground arith)
  | inr (least, a) ↦ elim (Option-cases (as_uint y)) [
    | inl fails ↦ absurd (ground arith)
    | inr (most, b) ↦ (x, y, refl, (least, most, a, b, ground arith))
  ]
]

-- Where ports_t does not throw, every pinned port is the unsigned number of its section modulo 65536:
-- a larger one is cut off silently. So are the two numbers of the shared range, which are zero where
-- it is not configured.
pub ports-lookup :
    {D : Type 0} (source section : Object D) (p : Ports) (name : String)
    → ports source ≡ some p
    → as_object (at_or "pinned" (object_value no_fields) source) ≡ some section
    → (lookup name p.pinned ≡ elim (at name section) [
      | none ↦ none
      | some d ↦ elim (as_uint d) [ none ↦ none | some n ↦ some (n % 65536) ]
    ])
      × ((x y : Dynamic D) × (as_array (
              at_or "shared"
                (array_value (item (uint_value 0) (item (uint_value 0) no_items)))
                source)
            ≡ some (item x (item y no_items)))
          × ((least most : ℕ) × (as_uint x ≡ some least)
              × (as_uint y ≡ some most)
              × (p.shared ≡ (least % 65536, most % 65536))))
unfolding ports
ports-lookup source section p name e pins = elim (Option-cases (pinned_ports section)) [
  | inl fails ↦ absurd (ground arith)
  | inr (pinned, made) ↦ elim (Option-cases (as_array (at_or "shared" default_range source))) [
    | inl fails ↦ absurd (ground arith)
    | inr (range, is_range) ↦ elim (Option-cases (shared_ports range)) [
      | inl fails ↦ absurd (ground arith)
      | inr (shared, both) ↦
          let same : pinned ≡ p.pinned = ground arith in
          let ends : shared ≡ p.shared = ground arith in
          let (x, y, two, (least, most, a, b, cut)) = shared_ports-two range shared both in
          (
            ap (lookup name) (sym same)
                ∙ pinned_ports-lookup section pinned name made
                ∙ elim (Option-cases (at name section)) [
                  | inl absent ↦ rw absent
                  | inr (d, there) ↦ elim (Option-cases (as_uint d)) [
                    | inl not_number ↦ rw (there, not_number)
                    | inr (n, number) ↦ rw (there, number)
                  ]
                ],
            (x, y, is_range ∙ ap some two, (least, most, a, b, sym ends ∙ cut)),
          )
    ]
  ]
]
