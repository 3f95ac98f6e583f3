-- ===== src/Gateway/Registry.antt =====
-- src/gateway/adhoc.cpp as a partial map from names and uuids to remote services.
use cocaine_core.Base.{
  ◌-◌, get_elem?-some, ◌⊎◌, zero, suc, ◌≤◌, suc, length, get_elem?, ◌<◌, subst, inl, inr,
  Bool-cases, is_empty, [], ◌∷◌, refl, ℕ, String, ◌≡◌, Bool, true, false, not, ◌&&◌, Option, none,
  some, List, [], arith, if◌then◌else◌, ◌==◌, nat_key, string_key, list_key,
}
use text.Mathlib.TextEquality.{eq_iff}
use cocaine_core.Base.Map.{
  lookup-nil, lookup-erase, assign-Unique, insert-Unique, Unique, erase, Map, lookup, assign,
  insert, lookup-assign, lookup-insert,
}
use cocaine_core.Errors.{service_not_available, gateway_duplicate_service, gateway_missing_service}
use cocaine_core.Errors.Codes.{Code, locator_code}
use cocaine_core.Gateway.{
  description, resolve, Remote, Remotes, remote, services, consume, cleanup, cleanup_all,
}

-- A call that changes the registry.
pub data Request (E P : Type 0) : Type 0 where
  consumes : String → String → ℕ → List E → P → Request E P
  cleans : String → String → Request E P
  cleans_all : String → Request E P

unfoldable pub serve : {E P : Type 0} → Request E P → Remotes E P → Remotes E P × Option Code
serve (consumes uuid name version endpoints protocol) remotes =
    consume uuid name version endpoints protocol remotes
serve (cleans uuid name) remotes = cleanup uuid name remotes
serve (cleans_all uuid) remotes = (cleanup_all uuid remotes, none)

-- The abstract registry.
abbrev pub Registry : Type 0 → Type 0 → Type 0
Registry E P = String → String → Option (Remote E P)

abbrev pub located : {E P : Type 0} → Remotes E P → Registry E P
located remotes uuid name = lookup uuid (services name remotes)

abbrev pub is_some {ℓ} : {A : Type ℓ} → Option A → Bool
is_some none = false
is_some (some a) = true

-- What a call makes of the abstract registry.
abbrev pub expected : {E P : Type 0} → Request E P → Registry E P → Registry E P
expected (consumes uuid name version endpoints protocol) f u n =
    if not (is_some (f uuid name)) && (u == uuid && n == name)
    then some (remote uuid version endpoints protocol)
    else f u n
expected (cleans uuid name) f u n = if u == uuid && n == name then none else f u n
expected (cleans_all uuid) f u n = if u == uuid then none else f u n

abbrev pub expected_error : {E P : Type 0} → Request E P → Registry E P → Option Code
expected_error (consumes uuid name version endpoints protocol) f =
    if is_some (f uuid name) then some (locator_code gateway_duplicate_service) else none
expected_error (cleans uuid name) f =
    if is_some (f uuid name) then none else some (locator_code gateway_missing_service)
expected_error (cleans_all uuid) f = none

services-insert :
    {E P : Type 0} (name n : String) (remotes : Remotes E P)
    → services n (insert name [] remotes) ≡ services n remotes
unfolding services
services-insert {E = E} {P = P} name n remotes =
    ground (arith, lookup-insert {V = Map String (Remote E P)} name n [] remotes, eq_iff name n)

services-assign :
    {E P : Type 0} (name n : String) (m : Map String (Remote E P)) (remotes : Remotes E P)
    → services n (assign name m remotes) ≡ (if name == n then m else services n remotes)
unfolding services
services-assign name n m remotes = ground (arith, lookup-assign name n m remotes)

is_empty-nil {ℓ} : {A : Type ℓ} (xs : List A) → is_empty xs ≡ true → xs ≡ []
is_empty-nil [] e = refl
is_empty-nil (x ∷ xs) e = cc

length-not_empty {ℓ} : {A : Type ℓ} (xs : List A) → is_empty xs ≡ false → 0 < length xs
length-not_empty [] e = cc
length-not_empty (x ∷ xs) e = omega arith

services-cleanup_all :
    {E P : Type 0} (uuid n : String) (remotes : Remotes E P)
    → Unique remotes
    → services n (cleanup_all uuid remotes) ≡ erase uuid (services n remotes)
unfolding services cleanup_all lookup erase
services-cleanup_all uuid n [] u = refl
services-cleanup_all uuid n ((name, m) ∷ remotes) u = elim (Bool-cases (name == n)) [
  | inr miss ↦ ground (arith, services-cleanup_all uuid n remotes u.1)
  | inl hit ↦
      let same : name ≡ n = (eq_iff name n).0 hit in
      let last : lookup n remotes ≡ none =
        subst (λ (k : String). lookup k remotes ≡ none) same u.0 in
      ground (arith, services-cleanup_all uuid n remotes u.1, is_empty-nil (erase uuid m))
]

lookup-cleanup_all :
    {E P : Type 0} (uuid n : String) (remotes : Remotes E P)
    → lookup n remotes ≡ none
    → lookup n (cleanup_all uuid remotes) ≡ none
unfolding lookup cleanup_all
lookup-cleanup_all uuid n [] e = refl
lookup-cleanup_all uuid n ((name, m) ∷ remotes) e =
    ground (arith, lookup-cleanup_all uuid n remotes)

cleanup_all-Unique :
    {E P : Type 0} (uuid : String) (remotes : Remotes E P)
    → Unique remotes
    → Unique (cleanup_all uuid remotes)
unfolding cleanup_all
cleanup_all-Unique uuid [] u = tt
cleanup_all-Unique uuid ((name, m) ∷ remotes) u =
    ground (arith, cleanup_all-Unique uuid remotes u.1, lookup-cleanup_all uuid name remotes u.0)

-- Each call on a registry whose names are unique does to the partial map what its description says:
-- `consume` adds a service that is not there and else changes nothing and fails, `cleanup` removes
-- one and fails if it is not there, and `cleanup` of a uuid removes all its services. The names stay
-- unique.
pub serve-expected :
    {E P : Type 0} (r : Request E P) (remotes : Remotes E P) (u n : String)
    → Unique remotes
    → (located (serve r remotes).0 u n ≡ expected r (located remotes) u n)
      × ((serve r remotes).1 ≡ expected_error r (located remotes))
      × Unique (serve r remotes).0
unfolding serve
serve-expected {E = E} {P = P} (consumes uuid name version endpoints protocol) remotes u n unique =
    unfold consume in
    let touched = insert name [] remotes in
    let own = services-insert name name remotes in
    let other = services-insert name n remotes in
    let r : Remote E P = remote uuid version endpoints protocol in
    (
      ground (
        arith,
        own,
        other,
        services-assign name n (insert uuid r (services name touched)) touched,
        lookup-insert uuid u r (services name touched),
        eq_iff name n,
        eq_iff uuid u,
        eq_iff u uuid,
        eq_iff n name,
      ),
      ground (arith, own),
      ground (
        arith,
        insert-Unique name [] remotes unique,
        assign-Unique name (insert uuid r (services name touched)) touched
            (insert-Unique name [] remotes unique),
      ),
    )
serve-expected (cleans uuid name) remotes u n unique =
    unfold cleanup in
    let touched = insert name [] remotes in
    let own = services-insert name name remotes in
    let other = services-insert name n remotes in
    let left = erase uuid (services name touched) in
    (
      ground (
        arith,
        own,
        other,
        services-assign name n left touched,
        lookup-erase uuid u (services name touched),
        eq_iff name n,
        eq_iff uuid u,
        eq_iff u uuid,
        eq_iff n name,
      ),
      ground (arith, own),
      ground (
        arith,
        insert-Unique name [] remotes unique,
        assign-Unique name left touched (insert-Unique name [] remotes unique),
      ),
    )
serve-expected (cleans_all uuid) remotes u n unique = (
  rw (services-cleanup_all uuid n remotes unique)
      (ground (arith, lookup-erase uuid u (services n remotes), eq_iff uuid u, eq_iff u uuid)),
  refl,
  cleanup_all-Unique uuid remotes unique,
)

get_elem-lookup :
    {V : Type 0} (m : Map String V) (i : ℕ) (k : String) (v : V)
    → Unique m
    → get_elem? m i ≡ some (k, v)
    → lookup k m ≡ some v
unfolding lookup
get_elem-lookup [] i k v u e = absurd (ground arith)
get_elem-lookup ((j, w) ∷ m) zero k v u e =
    let same : j ≡ k = ground arith in ground (arith, eq_iff j k)
get_elem-lookup ((j, w) ∷ m) (suc i) k v u e =
    let later = get_elem-lookup m i k v u.1 e in
    elim (Bool-cases (j == k)) [
      | inl hit ↦
          let same : j ≡ k = (eq_iff j k).0 hit in
          let missing : lookup k m ≡ none = subst (λ (x : String). lookup x m ≡ none) same u.0 in
          absurd (ground arith)
      | inr miss ↦ ground arith
    ]

-- `resolve` gives the description of a registered service of the name, and fails only if there is
-- none. The uuids of a name are unique, and the random number is at most the given one.
pub resolve-located :
    {E P : Type 0} (roll : ℕ → ℕ) (name : String) (remotes : Remotes E P)
    → ((n : ℕ) → roll n ≤ n)
    → Unique (services name remotes)
    → (((u : String) → located remotes u name ≡ none)
        × (resolve roll name remotes ≡ inl (locator_code service_not_available)))
      ⊎ ((u : String) × (r : Remote E P) × (located remotes u name ≡ some r)
          × (resolve roll name remotes ≡ inr (description r)))
unfolding resolve
resolve-located {E = E} {P = P} roll name remotes bound unique =
    let m = services name remotes in
    elim (Bool-cases (is_empty m)) [
      | inl none_there ↦
          let nil = is_empty-nil m none_there in
          inl (λ u. rw nil (lookup-nil {V = Remote E P} u), rw (nil, resolve) refl)
      | inr some_there ↦
          let ((u, r), here) =
            get_elem?-some m (roll (length m - 1))
              (omega (arith, bound (length m - 1), length-not_empty m some_there)) in
          inr (u, r, get_elem-lookup m _ u r unique here, rw (here, resolve) refl)
    ]
