-- ===== src/Dynamic/Converters/Laws.antt =====
-- The two functions of each converter of include/cocaine/dynamic/converters.hpp agree.
use cocaine_core.Base.{
  none, if◌then◌else◌, ◌&&◌, nat_beq, some, ◌≡◌, refl, Bool, true, ◌||◌, Option, arith,
}
use cocaine_core.Dynamic.{
  as_object, as_object, as_array, Dynamic, Array, Object, no_items, item, no_fields, field, is_some,
  as_int, as_uint, as_double,
}
use cocaine_core.Dynamic.Converters.{
  size_items, number_of, ◌>>=◌, Target, Targets, convert, convert_tuple, convertible,
  convertible_tuple, convert_all, convert_fields, convert_number, all_items, all_fields, to_dynamic,
  to_bool, to_number, to_string, to_vector, to_tuple, to_map, no_more, more,
}

-- The conversion did not throw.
abbrev pub succeeds {ℓ} : {A : Type ℓ} → Option A → Bool
succeeds found = is_some (λ r. true) found

is_some-bind {ℓ κ} :
    {A : Type ℓ} {B : Type κ} (test : A → Bool) (f : A → Option B)
    → ((a : A) → test a ≡ succeeds (f a))
    → (found : Option A) → is_some test found ≡ succeeds (found >>= f)
is_some-bind test f agree none = refl
is_some-bind test f agree (some a) = agree a

module _ {D : Type 0} where
  module _ {ℓ} {R : Type ℓ} (test : Dynamic D → Bool) (convert_one : Dynamic D → Option R) where
    all_items-convert_all :
        ((d : Dynamic D) → test d ≡ succeeds (convert_one d))
        → (xs : Array D) → all_items test xs ≡ succeeds (convert_all convert_one xs)
    unfolding all_items convert_all
    all_items-convert_all agree no_items = refl
    all_items-convert_all agree (item d xs) =
        let rest = all_items-convert_all agree xs in ground (arith, agree d)

    all_fields-convert_fields :
        ((d : Dynamic D) → test d ≡ succeeds (convert_one d))
        → (fs : Object D) → all_fields test fs ≡ succeeds (convert_fields convert_one fs)
    unfolding all_fields convert_fields
    all_fields-convert_fields agree no_fields = refl
    all_fields-convert_fields agree (field k d fs) =
        let rest = all_fields-convert_fields agree fs in ground (arith, agree d)

  convertible-number :
      (d : Dynamic D)
      → (is_some (λ n. true) (as_int d)
          || is_some (λ n. true) (as_uint d)
          || is_some (λ x. true) (as_double d))
        ≡ succeeds (convert_number d)
  unfolding convert_number
  convertible-number d = ground arith

  mutual
    unfolding convert convertible

    convertible-agrees : (t : Target) (d : Dynamic D) → convertible t d ≡ succeeds (convert t d)
    convertible-agrees to_dynamic d = refl
    convertible-agrees to_bool d = refl
    convertible-agrees to_number d = convertible-number d
    convertible-agrees to_string d = refl
    convertible-agrees (to_vector t) d =
        is_some-bind (λ xs. all_items (convertible t) xs) (λ xs. convert_all (convert t) xs)
          (all_items-convert_all (convertible t) (convert t) (convertible-agrees t)) (as_array d)
    convertible-agrees (to_tuple ts) d =
        is_some-bind (λ xs. nat_beq (number_of ts) (size_items xs) && convertible_tuple ts xs)
          (λ xs. if nat_beq (number_of ts) (size_items xs) then convert_tuple ts xs else none)
          (λ xs. let same = convertible_tuple-agrees ts xs in ground arith) (as_array d)
    convertible-agrees (to_map t) d =
        is_some-bind (λ fs. all_fields (convertible t) fs) (λ fs. convert_fields (convert t) fs)
          (all_fields-convert_fields (convertible t) (convert t) (convertible-agrees t))
          (as_object d)

    convertible_tuple-agrees :
        (ts : Targets) (xs : Array D) → convertible_tuple ts xs ≡ succeeds (convert_tuple ts xs)
    convertible_tuple-agrees no_more xs = refl
    convertible_tuple-agrees (more t ts) no_items = refl
    convertible_tuple-agrees (more t ts) (item d xs) =
        ground (arith, convertible-agrees t d, convertible_tuple-agrees ts xs)

-- For each target type, nested ones included, `convertible` says of a value that it converts exactly
-- when the conversion does not throw.
pub convertible-convert :
    {D : Type 0} (t : Target) (d : Dynamic D) → convertible t d ≡ succeeds (convert t d)
convertible-convert t d = convertible-agrees t d
