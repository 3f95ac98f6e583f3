-- ===== src/Authorization/Storage/Rules.antt =====
-- What src/authorization/storage.cpp allows, and what its cache hides.
use cocaine_core.Base.{
  ◌==◌, any, if◌then◌else◌, inr, inl, Option-cases, ℕ, ◌+◌, ◌≤◌, String, ◌≡◌, refl, ◌↔◌, Bool, true,
  false, not, ◌&&◌, ◌||◌, Option, none, some, List, [], ◌∷◌, arith, all, is_empty, nat_key,
  string_key, list_key, ==_refl,
}
use cocaine_core.Base.Map.{assign, lookup, Map, lookup-assign}
use cocaine_core.Errors.Codes.{Code}
use cocaine_core.Authorization.Storage.{
  grant, Flags, both_flags, flags_and, flags_or, Metainfo, no_metainfo, empty, Identity, Operation,
  reads, writes, permits, perm_of, accumulate, extract_permissions, initialized, on_metainfo,
  no_such_file, Cache, cached_value, is_expired, on_fetched, Environment, verify_collection,
}

-- What an access list says of an id: one that is not listed may do nothing, and a listed one what
-- the bit of the operation says.
abbrev pub allows : Operation → Option Flags → Bool
allows op none = false
allows reads (some f) = f.read
allows writes (some f) = f.write

-- There are credentials, and the access list allows each of them the operation.
abbrev pub granted : Operation → Map ℕ Flags → List ℕ → Bool
granted op perms ids = not (is_empty ids) && all (λ id. allows op (lookup id perms)) ids

permits-perm_of :
    (op : Operation) (perms : Map ℕ Flags) (id : ℕ)
    → permits op (perm_of perms id) ≡ allows op (lookup id perms)
unfolding permits perm_of
permits-perm_of reads perms id = elim (Option-cases (lookup id perms)) [
  | inl missing ↦ ground arith
  | inr (f, listed) ↦ ground arith
]
permits-perm_of writes perms id = elim (Option-cases (lookup id perms)) [
  | inl missing ↦ ground arith
  | inr (f, listed) ↦ ground arith
]

accumulate-permits :
    (op : Operation) (perms : Map ℕ Flags) (acc : Flags) (ids : List ℕ)
    → permits op (accumulate perms acc ids)
      ≡ permits op acc && all (λ id. allows op (lookup id perms)) ids
unfolding accumulate permits
accumulate-permits reads perms acc [] = ground arith
accumulate-permits writes perms acc [] = ground arith
accumulate-permits reads perms acc (id ∷ ids) = ground (
  arith,
  accumulate-permits reads perms (flags_and acc (perm_of perms id)) ids,
  permits-perm_of reads perms id,
)
accumulate-permits writes perms acc (id ∷ ids) = ground (
  arith,
  accumulate-permits writes perms (flags_and acc (perm_of perms id)) ids,
  permits-perm_of writes perms id,
)

extract_permissions-permits :
    (op : Operation) (perms : Map ℕ Flags) (ids : List ℕ)
    → permits op (extract_permissions ids perms) ≡ granted op perms ids
unfolding extract_permissions permits
extract_permissions-permits reads perms ids =
    ground (arith, accumulate-permits reads perms both_flags ids)
extract_permissions-permits writes perms ids =
    ground (arith, accumulate-permits writes perms both_flags ids)

flags_or-permits :
    (op : Operation) (a b : Flags) → permits op (flags_or a b) ≡ permits op a || permits op b
unfolding permits
flags_or-permits reads a b = refl
flags_or-permits writes a b = refl

-- Where an access list exists, `verify` of it writes nothing, and allows the operation exactly if
-- the identity has client ids that are all listed with its bit, or user ids that are all listed with
-- its bit.
pub on_metainfo-granted :
    (op : Operation) (who : Identity) (written : Option Code) (m : Metainfo)
    → empty m ≡ false
    → ((on_metainfo op who written m).put ≡ none)
      × (((on_metainfo op who written m).error ≡ none)
          ↔ (granted op m.c_perms who.cids || granted op m.u_perms who.uids ≡ true))
unfolding on_metainfo
on_metainfo-granted op who written m h =
    let c = extract_permissions who.cids m.c_perms in
    let u = extract_permissions who.uids m.u_perms in
    let c_granted = extract_permissions-permits op m.c_perms who.cids in
    let u_granted = extract_permissions-permits op m.u_perms who.uids in
    ground (arith, flags_or-permits op c u)

-- An access list with the credentials of the identity only, each with the right to read and to write.
abbrev pub owned_flags : List ℕ → ℕ → Option Flags
owned_flags ids id =
    if any (λ k. k == id) ids then some (record { read = true; write = true }) else none

abbrev pub OwnedBy : Identity → Metainfo → Type 0
OwnedBy who m =
    (id : ℕ)
    → (lookup id m.c_perms ≡ owned_flags who.cids id)
      × (lookup id m.u_perms ≡ owned_flags who.uids id)

lookup-grant :
    (ids : List ℕ) (perms : Map ℕ Flags) (id : ℕ)
    → lookup id (grant ids perms) ≡ (
        if any (λ k. k == id) ids
        then some (record { read = true; write = true })
        else lookup id perms)
unfolding grant
lookup-grant [] perms id = refl
lookup-grant (k ∷ ids) perms id =
    ground
      (arith, lookup-grant ids (assign k both_flags perms) id, lookup-assign k id both_flags perms)

initialized-OwnedBy : (who : Identity) → OwnedBy who (initialized who no_metainfo)
unfolding initialized lookup
initialized-OwnedBy who id = (lookup-grant who.cids [] id, lookup-grant who.uids [] id)

stale_puts :
    (env later : Environment) (collection : String) (owner other : Identity) (cache : Cache)
    → cached_value env.now collection cache ≡ none
    → env.get collection ≡ no_such_file
    → not (is_empty owner.cids) || not (is_empty owner.uids) ≡ true
    → not (is_empty other.cids) || not (is_empty other.uids) ≡ true
    → later.now ≤ env.now + env.cache_duration
    → let (cached, first) = verify_collection env writes collection owner cache in
      let (left, second) = verify_collection later writes collection other cached in
      (first ≡ record { put = some (initialized owner no_metainfo); error = env.written })
      × (second ≡ record { put = some (initialized other no_metainfo); error = later.written })
unfolding verify_collection cached_value on_fetched on_metainfo is_expired empty permits
stale_puts env later collection owner other cache missing absent a b valid = ground (
  arith,
  lookup-assign collection collection
      (record { value = no_metainfo; expiration_time = env.now + env.cache_duration }) cache,
  ==_refl collection,
)

-- A write to a collection without an access list gives it to the writer, with all rights for each of
-- the writer's credentials and none for any other, but leaves the empty list in the cache. So as long
-- as that entry is valid, a write of any other identity with a credential is allowed too, and replaces
-- the list with its own, whatever the backend holds by then.
pub verify_collection-stale :
    (env later : Environment) (collection : String) (owner other : Identity) (cache : Cache)
    → cached_value env.now collection cache ≡ none
    → env.get collection ≡ no_such_file
    → not (is_empty owner.cids) || not (is_empty owner.uids) ≡ true
    → not (is_empty other.cids) || not (is_empty other.uids) ≡ true
    → later.now ≤ env.now + env.cache_duration
    → let (cached, first) = verify_collection env writes collection owner cache in
      let (left, second) = verify_collection later writes collection other cached in
      (first ≡ record { put = some (initialized owner no_metainfo); error = env.written })
      × (second ≡ record { put = some (initialized other no_metainfo); error = later.written })
      × OwnedBy owner (initialized owner no_metainfo)
      × OwnedBy other (initialized other no_metainfo)
verify_collection-stale env later collection owner other cache missing absent a b valid =
    let puts = stale_puts env later collection owner other cache missing absent a b valid in
    (puts.0, puts.1, initialized-OwnedBy owner, initialized-OwnedBy other)
