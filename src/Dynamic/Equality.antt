-- ===== src/Dynamic/Equality.antt =====
-- operator== of src/dynamic.cpp.
use cocaine_core.Base.{string_key, ==_refl, ◌≡◌, refl, Bool, true, not, ◌&&◌, arith, nat_beq}
use cocaine_core.Dynamic.{
  object_value, array_value, string_value, double_value, uint_value, int_value, bool_value, Dynamic,
  Array, Object, equals, equals_items, equals_fields, nonzero, equals_int, equals_uint, null_value,
  no_items, item, no_fields, field,
}

module _ {D : Type 0} (same_double : D → D → Bool) where
  -- No number in the value is the integer zero, and each double in it equals itself.
  unfoldable mutual
    pub has_no_zero : Dynamic D → Bool
    has_no_zero null_value = true
    has_no_zero (bool_value v) = true
    has_no_zero (int_value v) = nonzero v
    has_no_zero (uint_value v) = not (nat_beq v 0)
    has_no_zero (double_value v) = same_double v v
    has_no_zero (string_value v) = true
    has_no_zero (array_value v) = items_have_no_zero v
    has_no_zero (object_value v) = fields_have_no_zero v

    pub items_have_no_zero : Array D → Bool
    items_have_no_zero no_items = true
    items_have_no_zero (item d xs) = has_no_zero d && items_have_no_zero xs

    pub fields_have_no_zero : Object D → Bool
    fields_have_no_zero no_fields = true
    fields_have_no_zero (field k d fs) = has_no_zero d && fields_have_no_zero fs

  mutual
    unfolding equals equals_int equals_uint has_no_zero

    equals-same : (d : Dynamic D) → equals same_double d d ≡ has_no_zero d
    equals-same null_value = refl
    equals-same (bool_value v) = ground arith
    equals-same (int_value v) = refl
    equals-same (uint_value v) = refl
    equals-same (double_value v) = refl
    equals-same (string_value v) = ==_refl v
    equals-same (array_value v) = equals_items-same v
    equals-same (object_value v) = equals_fields-same v

    equals_items-same : (xs : Array D) → equals_items same_double xs xs ≡ items_have_no_zero xs
    equals_items-same no_items = refl
    equals_items-same (item d xs) = ground (arith, equals-same d, equals_items-same xs)

    equals_fields-same : (fs : Object D) → equals_fields same_double fs fs ≡ fields_have_no_zero fs
    equals_fields-same no_fields = refl
    equals_fields-same (field k d fs) =
        ground (arith, ==_refl k, equals-same d, equals_fields-same fs)

-- A value equals itself when no number in it, at any depth of its arrays and objects, is the integer
-- zero, and each double in it equals itself; otherwise it does not.
pub equals_self :
    {D : Type 0} (same_double : D → D → Bool) (d : Dynamic D)
    → equals same_double d d ≡ has_no_zero same_double d
equals_self same_double d = equals-same same_double d
