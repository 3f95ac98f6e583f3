-- ===== src/Context/Core.antt =====
-- context_impl_t of src/context.cpp: its services and the signals that it fires. Actors are of any
-- type `A` with the operations of `Actors`, endpoints of `E` and protocol graphs of `P`.
pub mod Start
pub mod Ends
pub mod Heard
mod Tests
use cocaine_core.Base.Map.{Map, insert}
use cocaine_core.Gateway.{Description}
use cocaine_core.Base.{
  ℕ, zero, suc, ◌+◌, ◌-◌, ◌*◌, ◌/◌, ◌%◌, ◌^◌, ◌≤◌, ◌<◌, min, String, ◌≡◌, refl, sym, ap, ◌∙◌, subst,
  ◌≢◌, ◌↔◌, ◌⊎◌, inl, inr, Bool, true, false, not, ◌&&◌, ◌||◌, Option, none, some, List, [], ◌∷◌,
  ◌++◌, map, append_assoc, append-nil, arith, ltb, leb, nat_beq, if◌then◌else◌, Bool-cases,
  Option-cases, codes, All, length, get_elem?, take, drop, replicate, find_index, find?, any, all,
  keep, is_empty, length-append, length-take, length-drop, length-replicate, take-append-drop,
  take-append_left, take-append_exact, drop-nil, take-nil, take-drop, drop-append_left,
  drop-append_right, find?-All, find?-passes, find?-any, any-find?, find?-none, Key, ◌==◌, nat_key,
  string_key, list_key, list_same, list_same_iff, ==_refl,
}

-- What the context asks of a tcp_actor_t; `run` may throw.
pub record Actors (A E P : Type 0) : Type 0 where
  pub run : A → Option A
  pub terminate : A → A
  pub is_active : A → Bool
  pub name : A → String
  pub endpoints : A → List E
  pub version : A → ℕ
  pub root : A → P

-- The signals of the context that it fires itself.
pub data Fired (E P : Type 0) : Type 0 where
  prepared : Fired E P
  shutdown : Fired E P
  exposed : String → Description E P → Fired E P
  removed : String → Description E P → Fired E P

pub record Core (A E P : Type 0) : Type 0 where
  pub services : List (String × A)
  pub unpublished : List (String × A)
  pub bootstrapped : Bool
  pub fired : List (Fired E P)

abbrev pub new_core : {A E P : Type 0} → Core A E P
new_core = record { services = []; unpublished = []; bootstrapped = false; fired = [] }

pub data InsertError : Type 0 where
  already_exists failed : InsertError

-- std::find_if with `match`
abbrev pub find_service : {A : Type 0} → String → List (String × A) → Option (String × A)
find_service name list = find? (λ p. p.0 == name) list

-- The erasure of what `find_service` finds.
unfoldable pub erase_service : {A : Type 0} → String → List (String × A) → List (String × A)
erase_service name [] = []
erase_service name ((n, a) ∷ list) =
    let rest = erase_service name list in if n == name then list else (n, a) ∷ rest

abbrev pub names_of : {B : Type 0} → List (String × B) → List String
names_of list = map (λ p. p.0) list

module _ {A E P : Type 0} (ops : Actors A E P) where
  abbrev pub quote : A → Description E P
  quote a = record { endpoints = ops.endpoints a; protocol = ops.root a; version = ops.version a }

  abbrev pub farewell : A → Description E P
  farewell a = record { endpoints = []; protocol = ops.root a; version = ops.version a }

  -- publish; `none` where `run` throws.
  unfoldable pub publish : String → A → Core A E P → Option (Core A E P)
  publish name service c = elim (ops.run service) [
    | none ↦ none
    | some a ↦ some (record c {
      services = c.services ++ (name, a) ∷ [];
      fired = c.fired ++ exposed (ops.name a) (quote a) ∷ [];
    })
  ]

  -- publish_all, and whether it ends without an exception. What is left stays in `unpublished`,
  -- where the actor that threw is moved from and its entry is never read again.
  unfoldable pub publish_all : List (String × A) → Core A E P → Core A E P × Bool
  publish_all [] c = (record c { unpublished = [] }, true)
  publish_all ((name, service) ∷ rest) c = elim (publish name service c) [
    | none ↦ (record c { unpublished = (name, service) ∷ rest }, false)
    | some c' ↦ publish_all rest c'
  ]

  -- insert_with; the function makes the service, or throws.
  unfoldable pub insert_with : String → Option A → Core A E P → InsertError ⊎ Core A E P
  insert_with name made c = elim (find_service name c.services) [
    | some found ↦ inl already_exists
    | none ↦ elim made [
      | none ↦ inl failed
      | some service ↦
          if c.bootstrapped
          then (elim (publish name service c) [ none ↦ inl failed | some c' ↦ inr c' ])
          else inr (record c { unpublished = c.unpublished ++ (name, service) ∷ [] })
    ]
  ]

  -- remove; `none` where there is no such service.
  unfoldable pub remove : String → Core A E P → Option (Core A E P × A)
  remove name c = elim (find_service name c.services) [
    | none ↦ none
    | some found ↦
        let a = ops.terminate found.1 in
        some (
          record c {
            services = erase_service name c.services;
            fired = c.fired ++ removed (ops.name a) (farewell a) ∷ [];
          },
          a,
        )
  ]

  -- locate
  unfoldable pub locate : String → Core A E P → Option (Description E P)
  locate name c = elim (find_service name c.services) [
    | none ↦ none
    | some found ↦ if ops.is_active found.1 then some (quote found.1) else none
  ]

  -- snapshot
  unfoldable pub snapshot_of :
      List (String × A) → Map String (Description E P) → Map String (Description E P)
  snapshot_of [] result = result
  snapshot_of ((name, a) ∷ list) result = snapshot_of list (insert name (quote a) result)

  abbrev pub snapshot : Core A E P → Map String (Description E P)
  snapshot c = snapshot_of c.services []

  -- The loop of `terminate` over the configured services: one that is absent is passed over.
  unfoldable pub remove_all : List String → Core A E P → Core A E P
  remove_all [] c = c
  remove_all (name ∷ names) c =
      remove_all names (elim (remove name c) [ none ↦ c | some (c', a) ↦ c' ])

  -- terminate
  unfoldable pub terminate : List String → Core A E P → Core A E P
  terminate names c = remove_all names (record c { fired = c.fired ++ shutdown ∷ [] })

  -- The loop of the constructor over the configured services, and whether it ends.
  unfoldable pub insert_all : List (String × Option A) → Core A E P → Core A E P × Bool
  insert_all [] c = (c, true)
  insert_all ((name, made) ∷ configured) c = elim (insert_with name made c) [
    | inl e ↦ (c, false)
    | inr c' ↦ insert_all configured c'
  ]

  -- The constructor, and whether it ends without an exception.
  unfoldable pub start : List (String × Option A) → Core A E P × Bool
  start configured =
      let (inserted, ok) = insert_all configured new_core in
      let (published, done) = publish_all inserted.unpublished inserted in
      if ok
      then (if done
          then (
            record published { bootstrapped = true; fired = published.fired ++ prepared ∷ [] },
            true,
          )
          else (terminate (names_of configured) published, false))
      else (terminate (names_of configured) inserted, false)

-- engine: std::min_element over the utilizations of the pool, the first unit with the least one;
-- `none` is undefined.
unfoldable pub engine : List ℕ → Option (ℕ × ℕ)
engine [] = none
engine (u ∷ us) = elim (engine us) [
  | none ↦ some (0, u)
  | some (i, v) ↦ if leb u v then some (0, u) else some (suc i, v)
]
