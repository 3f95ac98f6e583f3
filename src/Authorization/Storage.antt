-- ===== src/Authorization/Storage.antt =====
-- authorization::storage: src/authorization/storage.cpp and src/authorization/storage/metainfo.hpp. The
-- clock, what the backend reads and how its write ends are arguments. Of a flags_t the two bits that
-- `verify` looks at are kept.
pub mod Rules
mod Tests
use cocaine_core.Base.{
  ℕ, zero, suc, ◌+◌, ◌-◌, ◌*◌, ◌/◌, ◌%◌, ◌^◌, ◌≤◌, ◌<◌, min, String, ◌≡◌, refl, sym, ap, ◌∙◌, subst,
  ◌≢◌, ◌↔◌, ◌⊎◌, inl, inr, Bool, true, false, not, ◌&&◌, ◌||◌, Option, none, some, List, [], ◌∷◌,
  ◌++◌, map, append_assoc, append-nil, arith, ltb, leb, nat_beq, if◌then◌else◌, Bool-cases,
  Option-cases, codes, All, length, get_elem?, take, drop, replicate, find_index, find?, any, all,
  keep, is_empty, length-append, length-take, length-drop, length-replicate, take-append-drop,
  take-append_left, take-append_exact, drop-nil, take-nil, take-drop, drop-append_left,
  drop-append_right, find?-All, find?-passes, find?-any, any-find?, find?-none, Key, ◌==◌, nat_key,
  string_key, list_key, list_same, list_same_iff, ==_refl,
}
use cocaine_core.Base.Map.{Map, lookup, assign}
use cocaine_core.Errors.{invalid_acl_framing}
use cocaine_core.Errors.Codes.{Code, security_code}

-- flags_t
pub record Flags : Type 0 where
  pub read : Bool
  pub write : Bool

abbrev pub none_flag : Flags
none_flag = record { read = false; write = false }

abbrev pub both_flags : Flags
both_flags = record { read = true; write = true }

-- The operators `&` and `|` on flags.
abbrev pub flags_and : Flags → Flags → Flags
flags_and a b = record { read = a.read && b.read; write = a.write && b.write }

abbrev pub flags_or : Flags → Flags → Flags
flags_or a b = record { read = a.read || b.read; write = a.write || b.write }

-- metainfo_t
pub record Metainfo : Type 0 where
  pub c_perms : Map ℕ Flags
  pub u_perms : Map ℕ Flags

abbrev pub no_metainfo : Metainfo
no_metainfo = record { c_perms = []; u_perms = [] }

-- metainfo_t::empty
unfoldable pub empty : Metainfo → Bool
empty m = is_empty m.c_perms && is_empty m.u_perms

-- identity_t
pub record Identity : Type 0 where
  pub cids : List ℕ
  pub uids : List ℕ

pub data Operation : Type 0 where
  reads writes : Operation

-- operation_t::from, by the identifiers of read, write, remove and find; another event is
-- undefined behaviour.
unfoldable pub operation_of : ℕ → Option Operation
operation_of event =
    if nat_beq event 0 || nat_beq event 3
    then some reads
    else if nat_beq event 1 || nat_beq event 2
    then some writes
    else none

-- `(flags & op.flag) == op.flag`
unfoldable pub permits : Operation → Flags → Bool
permits reads f = f.read
permits writes f = f.write

-- cached<metainfo_t>
pub record Cached : Type 0 where
  pub value : Metainfo
  pub expiration_time : ℕ

unfoldable pub is_expired : ℕ → Cached → Bool
is_expired now c = ltb c.expiration_time now

-- `perms[id]`, on a copy of the map.
unfoldable pub perm_of : Map ℕ Flags → ℕ → Flags
perm_of perms id = elim (lookup id perms) [ none ↦ none_flag | some f ↦ f ]

-- boost::accumulate in `extract_permissions`.
unfoldable pub accumulate : Map ℕ Flags → Flags → List ℕ → Flags
accumulate perms acc [] = acc
accumulate perms acc (id ∷ ids) = accumulate perms (flags_and acc (perm_of perms id)) ids

unfoldable pub extract_permissions : List ℕ → Map ℕ Flags → Flags
extract_permissions credentials perms =
    if is_empty credentials then none_flag else accumulate perms both_flags credentials

-- `perms[id] = flags_t::both` for each credential.
unfoldable pub grant : List ℕ → Map ℕ Flags → Map ℕ Flags
grant [] perms = perms
grant (id ∷ ids) perms = grant ids (assign id both_flags perms)

unfoldable pub initialized : Identity → Metainfo → Metainfo
initialized who m = record {
  c_perms = grant who.cids m.c_perms;
  u_perms = grant who.uids m.u_perms;
}

-- std::errc::permission_denied is EACCES.
abbrev pub permission_denied_code : Code
permission_denied_code = record { category = "generic"; value = 13 }

-- What a call tells the backend to write, and the code that the callback is given.
pub record Verdict : Type 0 where
  pub put : Option Metainfo
  pub error : Option Code

-- on_metainfo; `written` is the code of the exception of `backend->put`, if any.
unfoldable pub on_metainfo : Operation → Identity → Option Code → Metainfo → Verdict
on_metainfo op who written m =
    if empty m
    then (if permits op (record { read = false; write = true })
          && (not (is_empty who.cids) || not (is_empty who.uids))
        then record { put = some (initialized who m); error = written }
        else record { put = none; error = none })
    else if permits op
        (flags_or (extract_permissions who.cids m.c_perms) (extract_permissions who.uids m.u_perms))
    then record { put = none; error = none }
    else record { put = none; error = some permission_denied_code }

-- What `backend->get` gives: the list, no such file, another std::system_error, or a value that
-- cannot be unpacked.
pub data Fetched : Type 0 where
  found : Metainfo → Fetched
  no_such_file : Fetched
  failed : Code → Fetched
  malformed : Fetched

abbrev pub Cache : Type 0
Cache = Map String Cached

-- The valid entry of the cache.
unfoldable pub cached_value : ℕ → String → Cache → Option Metainfo
cached_value now collection cache = elim (lookup collection cache) [
  | none ↦ none
  | some c ↦ if is_expired now c then none else some c.value
]

-- The callback of `backend->get`.
unfoldable pub on_fetched :
    Operation → Identity → Option Code → ℕ → String → Fetched → Cache → Cache × Verdict
on_fetched op who written expiration_time collection (found m) cache = (
  assign collection (record { value = m; expiration_time = expiration_time }) cache,
  on_metainfo op who written m,
)
on_fetched op who written expiration_time collection no_such_file cache = (
  assign collection (record { value = no_metainfo; expiration_time = expiration_time }) cache,
  on_metainfo op who written no_metainfo,
)
on_fetched op who written expiration_time collection (failed ec) cache =
    (cache, record { put = none; error = some ec })
on_fetched op who written expiration_time collection malformed cache =
    (cache, record { put = none; error = some (security_code invalid_acl_framing) })

-- What the world gives to a call: the time, the duration of cache entries, and the backend.
pub record Environment : Type 0 where
  pub now : ℕ
  pub cache_duration : ℕ
  pub get : String → Fetched
  pub written : Option Code

-- verify of one collection.
unfoldable pub verify_collection :
    Environment → Operation → String → Identity → Cache → Cache × Verdict
verify_collection env op collection who cache = elim (cached_value env.now collection cache) [
  | some m ↦ (cache, on_metainfo op who env.written m)
  | none ↦
      on_fetched op who env.written (env.now + env.cache_duration) collection (env.get collection)
        cache
]

-- verify; `none` is undefined behaviour for an event that storage does not have.
unfoldable pub verify :
    Environment → ℕ → String → String → Identity → Cache → Option (Cache × Verdict)
verify env event collection key who cache = elim (operation_of event) [
  | none ↦ none
  | some op ↦ some (
      if collection == ".collection-acls"
      then verify_collection env op key who cache
      else verify_collection env op collection who cache)
]
