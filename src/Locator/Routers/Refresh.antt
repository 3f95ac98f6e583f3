-- ===== src/Locator/Routers/Refresh.antt =====
-- What on_refresh of src/service/locator.cpp makes of the routing groups.
use cocaine_core.Base.{
  ℕ, String, ◌≡◌, refl, ap, ◌∙◌, subst, Bool, false, Option, none, some, List, [], ◌∷◌, arith,
  if◌then◌else◌, Bool-cases, Option-cases, inl, inr, any, ◌==◌, string_key, ==_refl,
}
use text.Mathlib.TextEquality.{eq_iff}
use cocaine_core.Base.Map.{Map, lookup, erase, lookup-erase, lookup-insert}
use cocaine_core.Errors.Codes.{Code}
use cocaine_core.Rpc.Queue.{Operation}
use cocaine_core.Locator.Continuum.{Element, Group}
use cocaine_core.Locator.Node.{Locator, RoutingTable}
use cocaine_core.Locator.Routers.{
  Storage, refresh_group, refresh_groups, tell_routers, on_refresh, on_routing, ruids_of,
}

abbrev pub listed : String → List String → Bool
listed name names = any (λ n. n == name) names

-- The ring of a group that the storage has.
abbrev pub ring_of :
    (Group → Option (List Element)) → (String → Option Group) → String → Option (List Element)
ring_of make stored name = elim (stored name) [ none ↦ none | some g ↦ make g ]

module _ (make : Group → Option (List Element)) (updated : List String)
    (stored : String → Option Group) where
  refresh_group-own :
      (group : String) (groups groups' : Map String (List Element))
      → refresh_group make updated stored group groups ≡ some groups'
      → lookup group groups' ≡ (if listed group updated then ring_of make stored group else none)
  unfolding refresh_group
  refresh_group-own group groups groups' e =
      let gone = lookup-erase group group groups in
      let own = ==_refl group in
      elim (Bool-cases (listed group updated)) [
        | inr absent ↦ ground arith
        | inl there ↦ elim (Option-cases (stored group)) [
          | inl unread ↦ absurd (ground arith)
          | inr (g, read) ↦ elim (Option-cases (make g)) [
            | inl light ↦ absurd (ground arith)
            | inr (ring, made) ↦ ground (arith, lookup-insert group group ring (erase group groups))
          ]
        ]
      ]

  refresh_group-other :
      (group name : String) (groups groups' : Map String (List Element))
      → refresh_group make updated stored group groups ≡ some groups'
      → (group == name) ≡ false
      → lookup name groups' ≡ lookup name groups
  unfolding refresh_group
  refresh_group-other group name groups groups' e miss =
      let left = lookup-erase group name groups in
      elim (Bool-cases (listed group updated)) [
        | inr absent ↦ ground arith
        | inl there ↦ elim (Option-cases (stored group)) [
          | inl unread ↦ absurd (ground arith)
          | inr (g, read) ↦ elim (Option-cases (make g)) [
            | inl light ↦ absurd (ground arith)
            | inr (ring, made) ↦ ground (arith, lookup-insert group name ring (erase group groups))
          ]
        ]
      ]

  refresh_group-lookup :
      (group name : String) (groups groups' : Map String (List Element))
      → refresh_group make updated stored group groups ≡ some groups'
      → lookup name groups' ≡ (
          if group == name
          then (if listed name updated then ring_of make stored name else none)
          else lookup name groups)
  refresh_group-lookup group name groups groups' e = elim (Bool-cases (group == name)) [
    | inr miss ↦ rw miss (refresh_group-other group name groups groups' e miss)
    | inl hit ↦
        let same : group ≡ name = (eq_iff group name).0 hit in
        rw hit (
          subst (λ n. lookup n groups' ≡ (if listed n updated then ring_of make stored n else none))
            same (refresh_group-own group groups groups' e))
  ]

  refresh_groups-lookup :
      (names : List String) (name : String) (groups groups' : Map String (List Element))
      → refresh_groups make updated stored names groups ≡ some groups'
      → lookup name groups' ≡ (
          if listed name names
          then (if listed name updated then ring_of make stored name else none)
          else lookup name groups)
  unfolding refresh_groups
  refresh_groups-lookup [] name groups groups' e = ground arith
  refresh_groups-lookup (group ∷ names) name groups groups' e =
      elim (Option-cases (refresh_group make updated stored group groups)) [
        | inl threw ↦ absurd (ground arith)
        | inr (next, there) ↦
            let first = refresh_group-lookup group name groups next there in
            let rest = refresh_groups-lookup names name next groups' (ground arith) in
            ground (arith, eq_iff group name)
      ]

module _ {E P : Type 0} (send : ℕ → Operation RoutingTable → Option Code) where
  tell_routers-groups :
      (ruids : List String) (l : Locator E P) → (tell_routers send ruids l).0.groups ≡ l.groups
  unfolding tell_routers
  tell_routers-groups [] l = refl
  tell_routers-groups (ruid ∷ ruids) l =
      let told = on_routing send ruid false l in
      let same : told.0.groups ≡ l.groups = unfold on_routing in refl in
      elim (Option-cases told.2) [
        | inl fine ↦ ground (arith, tell_routers-groups ruids told.0)
        | inr (ec, failed) ↦ ground (
          arith,
          tell_routers-groups ruids (record told.0 { routers = erase ruid told.0.routers }),
        )
      ]

-- `on_refresh` that does not throw makes each group that it is given anew: it has the ring of the
-- group that the storage keeps, if the group is active, and no ring otherwise. It leaves the other
-- groups alone.
pub on_refresh-lookup :
    {E P : Type 0} (send : ℕ → Operation RoutingTable → Option Code)
    (make : Group → Option (List Element)) (storage : Storage) (updated names : List String)
    (name : String) (l l' : Locator E P) (posts : List (String × Operation RoutingTable))
    → storage.active ≡ some updated
    → on_refresh send make storage names l ≡ some (l', posts)
    → lookup name l'.groups ≡ (
        if listed name names
        then (if listed name updated then ring_of make storage.group name else none)
        else lookup name l.groups)
unfolding on_refresh
on_refresh-lookup {E = E} {P = P} send make storage updated names name l l' posts active e =
    elim (Option-cases (refresh_groups make updated storage.group names l.groups)) [
      | inl threw ↦ absurd (ground arith)
      | inr (groups, made) ↦
          let fresh : Locator E P = record l { groups = groups } in
          let kept : l'.groups ≡ groups =
            ground (arith, tell_routers-groups send (ruids_of l.routers) fresh) in
          ap (λ m. lookup name m) kept
          ∙ refresh_groups-lookup make updated storage.group names name l.groups groups made
    ]
