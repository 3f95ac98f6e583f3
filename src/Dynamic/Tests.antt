-- ===== src/Dynamic/Tests.antt =====
-- Runs of src/dynamic.cpp and include/cocaine/dynamic/converters.hpp on small values.
use cocaine_core.Base.{false, ℕ, ◌≡◌, refl, true, nat_beq, string_key}
use cocaine_core.Dynamic.{
  string_value, Dynamic, equals, equals_int, equals_uint, int_value, uint_value, array_value,
  object_value, item, no_items, field, no_fields, pos, negsuc,
}
use cocaine_core.Dynamic.Equality.{equals_self, has_no_zero}
use cocaine_core.Dynamic.Converters.{
  Target, to_tuple, more, to_string, to_vector, to_number, no_more, convert, convertible, all_items,
}
use cocaine_core.Dynamic.Converters.Laws.{convertible-convert, succeeds}

-- [{"": 7}, -3, 0]
abbrev mixed : Dynamic ℕ
mixed = array_value (
    item (object_value (field "" (uint_value 7) no_fields))
      (item (int_value (negsuc 2)) (item (int_value (pos 0)) no_items)))

different_integers : equals nat_beq (int_value (pos 1)) (int_value (pos 2)) ≡ true
unfolding equals equals_int
different_integers = refl

int_with_uint : equals nat_beq (int_value (pos 4)) (uint_value 4) ≡ true
unfolding equals equals_uint
int_with_uint = refl

equals_self_example : equals nat_beq mixed mixed ≡ has_no_zero nat_beq mixed
equals_self_example = equals_self nat_beq mixed

-- std::pair of a string and a vector of numbers.
abbrev pair_target : Target
pair_target = to_tuple (more to_string (more (to_vector to_number) no_more))

abbrev pair_value : Dynamic ℕ
pair_value =
    array_value
      (item (string_value "size") (item (array_value (item (uint_value 3) no_items)) no_items))

convertible-convert_example :
    convertible pair_target pair_value ≡ succeeds (convert pair_target pair_value)
convertible-convert_example = convertible-convert pair_target pair_value

pair_converts : convertible pair_target pair_value ≡ true
unfolding convertible all_items
pair_converts = refl

pair_differs : convertible pair_target mixed ≡ false
unfolding convertible
pair_differs = refl
