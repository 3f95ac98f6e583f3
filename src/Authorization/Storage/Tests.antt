-- ===== src/Authorization/Storage/Tests.antt =====
-- The access control of collections on concrete inputs.
use cocaine_core.Base.{
  ◌≡◌, refl, ◌↔◌, true, ◌||◌, none, some, [], ◌∷◌, arith, nat_key, string_key, list_key,
}
use cocaine_core.Base.Map.{lookup}
use cocaine_core.Authorization.Storage.{
  both_flags, Metainfo, no_metainfo, empty, Identity, writes, initialized, on_metainfo, found,
  no_such_file, cached_value, Environment, verify_collection,
}
use cocaine_core.Authorization.Storage.Rules.{
  OwnedBy, granted, on_metainfo-granted, verify_collection-stale,
}

abbrev owner : Identity
owner = record { cids = []; uids = 7 ∷ [] }

abbrev stranger : Identity
stranger = record { cids = 5 ∷ []; uids = [] }

abbrev owned : Metainfo
owned = record { c_perms = []; u_perms = (7, both_flags) ∷ [] }

on_metainfo-granted_example :
    ((on_metainfo writes owner none owned).put ≡ none)
    × (((on_metainfo writes owner none owned).error ≡ none) ↔ (
        granted writes owned.c_perms owner.cids || granted writes owned.u_perms owner.uids ≡ true))
unfolding empty
on_metainfo-granted_example = on_metainfo-granted writes owner none owned refl

abbrev first_call : Environment
first_call = record { now = 100; cache_duration = 60; get = λ c. no_such_file; written = none }

abbrev second_call : Environment
second_call = record { now = 130; cache_duration = 60; get = λ c. found owned; written = none }

verify_collection-stale_example :
    let (cached, first) = verify_collection first_call writes "c" owner [] in
    let (left, second) = verify_collection second_call writes "c" stranger cached in
    (first ≡ record { put = some (initialized owner no_metainfo); error = none })
    × (second ≡ record { put = some (initialized stranger no_metainfo); error = none })
    × OwnedBy owner (initialized owner no_metainfo)
    × OwnedBy stranger (initialized stranger no_metainfo)
unfolding cached_value lookup
verify_collection-stale_example =
    verify_collection-stale first_call second_call "c" owner stranger [] refl refl refl refl
      (omega arith)
