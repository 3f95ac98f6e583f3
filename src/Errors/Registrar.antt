-- ===== src/Errors/Registrar.antt =====
-- error::registrar: include/cocaine/errors.hpp and src/errors.cpp. The names of the categories of the
-- standard library and of asio are parameters.
pub mod Laws
use cocaine_core.Base.{
  ℕ, zero, suc, ◌+◌, ◌-◌, ◌*◌, ◌/◌, ◌%◌, ◌^◌, ◌≤◌, ◌<◌, min, String, ◌≡◌, refl, sym, ap, ◌∙◌, subst,
  ◌≢◌, ◌↔◌, ◌⊎◌, inl, inr, Bool, true, false, not, ◌&&◌, ◌||◌, Option, none, some, List, [], ◌∷◌,
  ◌++◌, map, append_assoc, append-nil, arith, ltb, leb, nat_beq, if◌then◌else◌, Bool-cases,
  Option-cases, codes, All, length, get_elem?, take, drop, replicate, find_index, find?, any, all,
  keep, is_empty, length-append, Key, ◌==◌, nat_key, string_key, list_key, list_same, list_same_iff,
  ==_refl,
}
use cocaine_core.Errors.{
  transport_category, dispatch_category, repository_category, security_category, locator_category,
  unicorn_category, protocol_category, unknown_category,
}

pub record CategoryRecord : Type 0 where
  pub id : ℕ
  pub category : String

abbrev pub Mapping : Type 0
Mapping = List CategoryRecord

-- The names of the categories that other libraries define.
pub record Foreign : Type 0 where
  pub system : String
  pub asio_system : String
  pub netdb : String
  pub addrinfo : String
  pub misc : String
  pub generic : String

abbrev pub entry : ℕ → String → CategoryRecord
entry id category = record { id = id; category = category }

-- storage_type()
unfoldable pub storage : Foreign → Mapping
storage f =
    entry 0x01 f.system
    ∷ entry 0x02 f.asio_system
    ∷ entry 0x03 f.netdb
    ∷ entry 0x04 f.addrinfo
    ∷ entry 0x05 f.misc
    ∷ entry 0x06 transport_category
    ∷ entry 0x07 dispatch_category
    ∷ entry 0x08 repository_category
    ∷ entry 0x09 security_category
    ∷ entry 0x0A locator_category
    ∷ entry 0x0B unicorn_category
    ∷ entry 0x0C f.generic
    ∷ entry 0x0D protocol_category
    ∷ entry 0xFF unknown_category
    ∷ []

-- map(id)
unfoldable pub category_of : Mapping → ℕ → String
category_of m id = elim (find? (λ (r : CategoryRecord). nat_beq r.id id) m) [
  | none ↦ unknown_category
  | some r ↦ r.category
]

-- map(category)
unfoldable pub id_of : Mapping → String → ℕ
id_of m category = elim (find? (λ (r : CategoryRecord). r.category == category) m) [
  | none ↦ 0xFF
  | some r ↦ r.id
]

-- add; `none` is the exception for a number that another category has.
unfoldable pub add : Mapping → String → ℕ → Option Mapping
add m category index = elim (find? (λ (r : CategoryRecord). nat_beq r.id index) m) [
  | none ↦ some (m ++ entry index category ∷ [])
  | some r ↦ if r.category == category then some m else none
]
