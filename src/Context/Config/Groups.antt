-- ===== src/Context/Config/Groups.antt =====
-- The loop of init_components_groups in src/context/config.cpp: which sections become groups.
use cocaine_core.Context.Config.{
  is_group, section, init_components_groups, Component, component_group, is_reserved, Groups,
  other_groups, bind,
}
use cocaine_core.Base.{
  ◌∷◌, String, ◌≡◌, sym, ap, ◌∙◌, subst, inl, inr, true, false, none, some, [], arith,
  if◌then◌else◌, Bool-cases, Option-cases, ◌==◌, nat_key, string_key, list_key,
}
use cocaine_core.Base.Map.{Map, lookup, assign, lookup-assign}
use cocaine_core.Dynamic.{Dynamic, Object, no_fields, field, as_object, at}

other_groups-lookup :
    {D : Type 0} (source : Object D) (groups made : Groups D) (name : String)
    → other_groups source groups ≡ some made
    → lookup name made ≡ (
        if is_reserved name then lookup name groups else elim (at name source) [
          | none ↦ lookup name groups
          | some d ↦ bind (as_object d) component_group
        ])
unfolding other_groups at
other_groups-lookup no_fields groups made name e =
    let same : groups ≡ made = ground arith in ap (lookup name) (sym same) ∙ ground arith
other_groups-lookup (field key d fs) groups made name e = elim (Bool-cases (is_reserved key)) [
  | inl reserved ↦
      let tail = other_groups-lookup fs groups made name (ground arith) in
      elim (Bool-cases (key == name)) [
        | inl hit ↦
            let here =
              subst (λ k. is_reserved k ≡ true) ((string_key.same_iff key name).0 hit) reserved in
            ground arith
        | inr miss ↦ ground arith
      ]
  | inr other ↦ elim (Option-cases (bind (as_object d) component_group)) [
    | inl fails ↦ absurd (ground arith)
    | inr (group, built) ↦ elim (Option-cases (other_groups fs groups)) [
      | inl fails ↦ absurd (ground arith)
      | inr (more, rest) ↦
          let tail = other_groups-lookup fs groups more name rest in
          let same : assign key group more ≡ made = ground arith in
          ap (lookup name) (sym same)
          ∙ lookup-assign key name group more
          ∙ elim (Bool-cases (key == name)) [
            | inl hit ↦
                let here =
                  subst (λ k. is_reserved k ≡ false) ((string_key.same_iff key name).0 hit) other in
                ground arith
            | inr miss ↦ ground arith
          ]
    ]
  ]
]

abbrev three_groups :
    {D : Type 0} → (services storages unicorns : Map String (Component D)) → Groups D
three_groups services storages unicorns =
    ("services", services) ∷ ("storages", storages) ∷ ("unicorns", unicorns) ∷ []

section_path :
    {D : Type 0} (key name : String) (source : Object D) (made : Map String (Component D))
    → (key == name) ≡ true
    → section key source ≡ some made
    → section name source ≡ some made
section_path key name source made hit e =
    subst (λ k. section k source ≡ some made) ((string_key.same_iff key name).0 hit) e

three_groups-lookup :
    {D : Type 0} (source : Object D) (services storages unicorns : Map String (Component D))
    (name : String)
    → section "services" source ≡ some services
    → section "storages" source ≡ some storages
    → section "unicorns" source ≡ some unicorns
    → lookup name (three_groups services storages unicorns)
      ≡ (if is_group name then section name source else none)
unfolding lookup
three_groups-lookup source services storages unicorns name e f g =
    elim (Bool-cases ("services" == name)) [
      | inl hit ↦ let here = section_path "services" name source services hit e in ground arith
      | inr not_services ↦ elim (Bool-cases ("storages" == name)) [
        | inl hit ↦ let here = section_path "storages" name source storages hit f in ground arith
        | inr not_storages ↦ elim (Bool-cases ("unicorns" == name)) [
          | inl hit ↦ let here = section_path "unicorns" name source unicorns hit g in ground arith
          | inr not_unicorns ↦ ground arith
        ]
      ]
    ]

pub groups_of_sections :
    {D : Type 0} (source : Object D) (groups : Groups D) (name : String)
    → init_components_groups source ≡ some groups
    → lookup name groups ≡ (
        if is_group name
        then section name source
        else if is_reserved name
        then none
        else elim (at name source) [ none ↦ none | some d ↦ bind (as_object d) component_group ])
unfolding init_components_groups
groups_of_sections source groups name e = elim (Option-cases (section "services" source)) [
  | inl fails ↦ absurd (ground arith)
  | inr (services, a) ↦ elim (Option-cases (section "storages" source)) [
    | inl fails ↦ absurd (ground arith)
    | inr (storages, b) ↦ elim (Option-cases (section "unicorns" source)) [
      | inl fails ↦ absurd (ground arith)
      | inr (unicorns, c) ↦
          let rest =
            other_groups-lookup source (three_groups services storages unicorns) groups name
              (ground arith) in
          let three = three_groups-lookup source services storages unicorns name a b c in
          elim (Bool-cases (is_group name)) [
            | inl hit ↦ ground arith
            | inr miss ↦ elim (Bool-cases (is_reserved name)) [
              | inl reserved ↦ ground arith
              | inr other ↦ elim (Option-cases (at name source)) [
                | inl absent ↦ ground arith
                | inr (d, there) ↦ ground arith
              ]
            ]
          ]
    ]
  ]
]

-- Every section that the loop does not skip has been made a group.
other_groups-built :
    {D : Type 0} (source : Object D) (groups made : Groups D) (name : String) (d : Dynamic D)
    → other_groups source groups ≡ some made
    → is_reserved name ≡ false
    → at name source ≡ some d
    → (group : Map String (Component D)) × (bind (as_object d) component_group ≡ some group)
unfolding other_groups at
other_groups-built no_fields groups made name d e other there = absurd (ground arith)
other_groups-built (field key x fs) groups made name d e other there =
    elim (Bool-cases (is_reserved key)) [
      | inl reserved ↦ elim (Bool-cases (key == name)) [
        | inl hit ↦
            let here =
              subst (λ k. is_reserved k ≡ true) ((string_key.same_iff key name).0 hit) reserved in
            absurd (ground arith)
        | inr miss ↦ other_groups-built fs groups made name d (ground arith) other (ground arith)
      ]
      | inr kept ↦ elim (Option-cases (bind (as_object x) component_group)) [
        | inl fails ↦ absurd (ground arith)
        | inr (group, built) ↦ elim (Option-cases (other_groups fs groups)) [
          | inl fails ↦ absurd (ground arith)
          | inr (more, rest) ↦ elim (Bool-cases (key == name)) [
            | inl hit ↦
                let same : x ≡ d = ground arith in
                subst
                  (λ y.
                    (g : Map String (Component _)) × (bind (as_object y) component_group ≡ some g))
                  same (group, built)
            | inr miss ↦ other_groups-built fs groups more name d rest other (ground arith)
          ]
        ]
      ]
    ]

-- The three groups that are always there.
pub group-built :
    {D : Type 0} (source : Object D) (groups : Groups D) (name : String)
    → init_components_groups source ≡ some groups
    → is_group name ≡ true
    → (group : Map String (Component D)) × (section name source ≡ some group)
unfolding init_components_groups
group-built source groups name e g = elim (Option-cases (section "services" source)) [
  | inl fails ↦ absurd (ground arith)
  | inr (services, a) ↦ elim (Option-cases (section "storages" source)) [
    | inl fails ↦ absurd (ground arith)
    | inr (storages, b) ↦ elim (Option-cases (section "unicorns" source)) [
      | inl fails ↦ absurd (ground arith)
      | inr (unicorns, c) ↦ elim (Bool-cases ("services" == name)) [
        | inl hit ↦ (services, section_path "services" name source services hit a)
        | inr not_services ↦ elim (Bool-cases ("storages" == name)) [
          | inl hit ↦ (storages, section_path "storages" name source storages hit b)
          | inr not_storages ↦ elim (Bool-cases ("unicorns" == name)) [
            | inl hit ↦ (unicorns, section_path "unicorns" name source unicorns hit c)
            | inr not_unicorns ↦ absurd (ground arith)
          ]
        ]
      ]
    ]
  ]
]

pub other-built :
    {D : Type 0} (source : Object D) (groups : Groups D) (name : String) (d : Dynamic D)
    → init_components_groups source ≡ some groups
    → is_reserved name ≡ false
    → at name source ≡ some d
    → (group : Map String (Component D)) × (bind (as_object d) component_group ≡ some group)
unfolding init_components_groups
other-built source groups name d e other there = elim (Option-cases (section "services" source)) [
  | inl fails ↦ absurd (ground arith)
  | inr (services, a) ↦ elim (Option-cases (section "storages" source)) [
    | inl fails ↦ absurd (ground arith)
    | inr (storages, b) ↦ elim (Option-cases (section "unicorns" source)) [
      | inl fails ↦ absurd (ground arith)
      | inr (unicorns, c) ↦
          other_groups-built source (three_groups services storages unicorns) groups name d
            (ground arith) other there
    ]
  ]
]
