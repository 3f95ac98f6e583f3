-- ===== src/Dynamic/Converters.antt =====
-- dynamic_converter: include/cocaine/dynamic/converters.hpp. A target is a type that `to` converts to;
-- the narrowing of a number to an arithmetic type is not modelled, so such a type is one target, and
-- std::vector and std::set are one target, and so are the maps: they differ in the container filled.
-- The converters to a vector, object or map of dynamic_t, which copy nothing, convert each entry to
-- itself here.
pub mod Laws
use cocaine_core.Dynamic.{
  no_items, no_fields, as_object, as_array, as_double, as_string, field, as_uint, is_some, as_bool,
  Object, as_int, item, Array, Dynamic, ℤ,
}
use cocaine_core.Base.{
  ℕ, zero, suc, ◌+◌, ◌-◌, ◌*◌, ◌/◌, ◌%◌, ◌^◌, ◌≤◌, ◌<◌, min, String, ◌≡◌, refl, sym, ap, ◌∙◌, subst,
  ◌≢◌, ◌↔◌, ◌⊎◌, inl, inr, Bool, true, false, not, ◌&&◌, ◌||◌, Option, none, some, List, [], ◌∷◌,
  ◌++◌, map, append_assoc, append-nil, arith, ltb, leb, nat_beq, if◌then◌else◌, Bool-cases,
  Option-cases, codes, All, length, get_elem?, take, drop, replicate, find_index, find?, any, all,
  keep, is_empty, length-append, length-take, length-drop, length-replicate, take-append-drop,
  take-append_left, take-append_exact, drop-nil, take-nil, take-drop, drop-append_left,
  drop-append_right, find?-All, find?-passes, find?-any, any-find?, find?-none, Key, ◌==◌, nat_key,
  string_key, list_key, list_same, list_same_iff, ==_refl,
}

mutual
  pub data Target : Type 0 where
    to_dynamic : Target
    to_bool : Target
    to_number : Target
    to_string : Target
    to_vector : Target → Target
    to_tuple : Targets → Target
    to_map : Target → Target

  pub data Targets : Type 0 where
    no_more : Targets
    more : Target → Targets → Targets

pub data Number (D : Type 0) : Type 0 where
  from_int : ℤ → Number D
  from_uint : ℕ → Number D
  from_double : D → Number D

abbrev mutual
  pub Result : Type 0 → Target → Type 0
  Result D to_dynamic = Dynamic D
  Result D to_bool = Bool
  Result D to_number = Number D
  Result D to_string = String
  Result D (to_vector t) = List (Result D t)
  Result D (to_tuple ts) = Results D ts
  Result D (to_map t) = List (String × Result D t)

  pub Results : Type 0 → Targets → Type 0
  Results D no_more = Unit {0}
  Results D (more t ts) = Result D t × Results D ts

infixl 5 ◌>>=◌
abbrev pub ◌>>=◌ {ℓ κ} : {A : Type ℓ} {B : Type κ} → Option A → (A → Option B) → Option B
none >>= f = none
some a >>= f = f a

abbrev pub number_of : Targets → ℕ
number_of no_more = 0
number_of (more t ts) = suc (number_of ts)

module _ {D : Type 0} where
  abbrev pub size_items : Array D → ℕ
  size_items no_items = 0
  size_items (item d xs) = suc (size_items xs)

  -- The conversion to an arithmetic type.
  unfoldable pub convert_number : Dynamic D → Option (Number D)
  convert_number d = elim (as_int d) [
    | some n ↦ some (from_int n)
    | none ↦ elim (as_uint d) [
      | some n ↦ some (from_uint n)
      | none ↦ (elim (as_double d) [ none ↦ none | some x ↦ some (from_double x) ])
    ]
  ]

  -- The loops over an array and over an object; an exception leaves them.
  unfoldable pub convert_all {ℓ} : {R : Type ℓ} → (Dynamic D → Option R) → Array D → Option (List R)
  convert_all convert_one no_items = some []
  convert_all convert_one (item d xs) = do
    r ← convert_one d
    rs ← convert_all convert_one xs
    some (r ∷ rs)

  unfoldable pub convert_fields {ℓ} :
      {R : Type ℓ} → (Dynamic D → Option R) → Object D → Option (List (String × R))
  convert_fields convert_one no_fields = some []
  convert_fields convert_one (field k d fs) = do
    r ← convert_one d
    rs ← convert_fields convert_one fs
    some ((k, r) ∷ rs)

  -- `to`: what the conversion gives, `none` where it throws.
  unfoldable mutual
    unfolding convert_number convert_all convert_fields

    pub convert : (t : Target) → Dynamic D → Option (Result D t)
    convert to_dynamic d = some d
    convert to_bool d = as_bool d
    convert to_number d = convert_number d
    convert to_string d = as_string d
    convert (to_vector t) d = do xs ← as_array d; convert_all (convert t) xs
    convert (to_tuple ts) d = do
      xs ← as_array d
      if nat_beq (number_of ts) (size_items xs) then convert_tuple ts xs else none
    convert (to_map t) d = do fs ← as_object d; convert_fields (convert t) fs

    pub convert_tuple : (ts : Targets) → Array D → Option (Results D ts)
    convert_tuple no_more xs = some tt
    convert_tuple (more t ts) no_items = none
    convert_tuple (more t ts) (item d xs) = do
      r ← convert t d
      rs ← convert_tuple ts xs
      some (r, rs)

  unfoldable pub all_items : (Dynamic D → Bool) → Array D → Bool
  all_items test no_items = true
  all_items test (item d xs) = test d && all_items test xs

  unfoldable pub all_fields : (Dynamic D → Bool) → Object D → Bool
  all_fields test no_fields = true
  all_fields test (field k d fs) = test d && all_fields test fs

  unfoldable mutual
    pub convertible : Target → Dynamic D → Bool
    convertible to_dynamic d = true
    convertible to_bool d = is_some (λ b. true) (as_bool d)
    convertible to_number d =
        is_some (λ n. true) (as_int d)
        || is_some (λ n. true) (as_uint d)
        || is_some (λ x. true) (as_double d)
    convertible to_string d = is_some (λ s. true) (as_string d)
    convertible (to_vector t) d = is_some (λ xs. all_items (convertible t) xs) (as_array d)
    convertible (to_tuple ts) d =
        is_some (λ xs. nat_beq (number_of ts) (size_items xs) && convertible_tuple ts xs)
          (as_array d)
    convertible (to_map t) d = is_some (λ fs. all_fields (convertible t) fs) (as_object d)

    pub convertible_tuple : Targets → Array D → Bool
    convertible_tuple no_more xs = true
    convertible_tuple (more t ts) no_items = false
    convertible_tuple (more t ts) (item d xs) = convertible t d && convertible_tuple ts xs
