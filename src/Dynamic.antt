-- ===== src/Dynamic.antt =====
-- dynamic_t: include/cocaine/dynamic/dynamic.hpp, object.hpp and src/dynamic.cpp. `D` stands for
-- double. An object is the list of its entries in the order of the keys, as std::map iterates.
pub mod Equality
pub mod Converters
mod Tests
use cocaine_core.Base.{
  ℕ, zero, suc, ◌+◌, ◌-◌, ◌*◌, ◌/◌, ◌%◌, ◌^◌, ◌≤◌, ◌<◌, min, String, ◌≡◌, refl, sym, ap, ◌∙◌, subst,
  ◌≢◌, ◌↔◌, ◌⊎◌, inl, inr, Bool, true, false, not, ◌&&◌, ◌||◌, Option, none, some, List, [], ◌∷◌,
  ◌++◌, map, append_assoc, append-nil, arith, ltb, leb, nat_beq, if◌then◌else◌, Bool-cases,
  Option-cases, codes, All, length, get_elem?, take, drop, replicate, find_index, find?, any, all,
  keep, is_empty, length-append, length-take, length-drop, length-replicate, take-append-drop,
  take-append_left, take-append_exact, drop-nil, take-nil, take-drop, drop-append_left,
  drop-append_right, find?-All, find?-passes, find?-any, any-find?, find?-none, Key, ◌==◌, nat_key,
  string_key, list_key, list_same, list_same_iff, ==_refl,
}

pub data ℤ : Type 0 where
  pos : ℕ → ℤ
  negsuc : ℕ → ℤ

mutual
  pub data Dynamic (D : Type 0) : Type 0 where
    null_value : Dynamic D
    bool_value : Bool → Dynamic D
    int_value : ℤ → Dynamic D
    uint_value : ℕ → Dynamic D
    double_value : D → Dynamic D
    string_value : String → Dynamic D
    array_value : Array D → Dynamic D
    object_value : Object D → Dynamic D

  pub data Array (D : Type 0) : Type 0 where
    no_items : Array D
    item : Dynamic D → Array D → Array D

  pub data Object (D : Type 0) : Type 0 where
    no_fields : Object D
    field : String → Dynamic D → Object D → Object D

module _ {D : Type 0} where
  abbrev pub is_null : Dynamic D → Bool
  is_null d = elim d [ null_value ↦ true | _ ↦ false ]

  -- The accessors, `none` where they throw.
  abbrev pub as_bool : Dynamic D → Option Bool
  as_bool d = elim d [ bool_value b ↦ some b | _ ↦ none ]

  abbrev pub as_int : Dynamic D → Option ℤ
  as_int d = elim d [ int_value n ↦ some n | _ ↦ none ]

  abbrev pub as_uint : Dynamic D → Option ℕ
  as_uint d = elim d [ uint_value n ↦ some n | _ ↦ none ]

  abbrev pub as_double : Dynamic D → Option D
  as_double d = elim d [ double_value x ↦ some x | _ ↦ none ]

  abbrev pub as_string : Dynamic D → Option String
  as_string d = elim d [ string_value s ↦ some s | _ ↦ none ]

  abbrev pub as_array : Dynamic D → Option (Array D)
  as_array d = elim d [ array_value xs ↦ some xs | _ ↦ none ]

  abbrev pub as_object : Dynamic D → Option (Object D)
  as_object d = elim d [ object_value fs ↦ some fs | _ ↦ none ]

  -- object_t::at
  unfoldable pub at : String → Object D → Option (Dynamic D)
  at key no_fields = none
  at key (field k d fs) = if k == key then some d else at key fs

  unfoldable pub at_or : String → Dynamic D → Object D → Dynamic D
  at_or key default no_fields = default
  at_or key default (field k d fs) = if k == key then d else at_or key default fs

-- The conversion of a number to bool, and static_cast to uint_t of one that is not negative.
abbrev pub nonzero : ℤ → Bool
nonzero n = elim n [ pos m ↦ not (nat_beq m 0) | negsuc m ↦ true ]

abbrev pub as_unsigned : ℤ → Option ℕ
as_unsigned n = elim n [ pos m ↦ some m | negsuc m ↦ none ]

abbrev pub is_some {ℓ} : {A : Type ℓ} → (A → Bool) → Option A → Bool
is_some test found = elim found [ none ↦ false | some x ↦ test x ]

module _ {D : Type 0} (same_double : D → D → Bool) where
  -- The calls of equals_visitor on numbers, with `other` for m_other.
  unfoldable pub equals_int : Dynamic D → ℤ → Bool
  equals_int other v = elim (as_int other) [
    | some n ↦ nonzero n
    | none ↦
        is_some (λ m. elim (as_unsigned v) [ none ↦ false | some n ↦ nat_beq n m ]) (as_uint other)
  ]

  unfoldable pub equals_uint : Dynamic D → ℕ → Bool
  equals_uint other v = elim (as_uint other) [
    | some n ↦ not (nat_beq n 0)
    | none ↦
        is_some (λ m. elim (as_unsigned m) [ none ↦ false | some n ↦ nat_beq v n ]) (as_int other)
  ]

  -- operator== of dynamic_t, vectors and maps: the right side is visited.
  unfoldable mutual
    pub equals : Dynamic D → Dynamic D → Bool
    equals other null_value = is_null other
    equals other (bool_value v) = is_some (λ b. if b then v else not v) (as_bool other)
    equals other (int_value v) = equals_int other v
    equals other (uint_value v) = equals_uint other v
    equals other (double_value v) = is_some (λ x. same_double x v) (as_double other)
    equals other (string_value v) = is_some (λ s. s == v) (as_string other)
    equals other (array_value v) = is_some (λ xs. equals_items xs v) (as_array other)
    equals other (object_value v) = is_some (λ fs. equals_fields fs v) (as_object other)

    pub equals_items : Array D → Array D → Bool
    equals_items no_items no_items = true
    equals_items (item d xs) no_items = false
    equals_items no_items (item e ys) = false
    equals_items (item d xs) (item e ys) = equals d e && equals_items xs ys

    pub equals_fields : Object D → Object D → Bool
    equals_fields no_fields no_fields = true
    equals_fields (field j d fs) no_fields = false
    equals_fields no_fields (field k e gs) = false
    equals_fields (field j d fs) (field k e gs) = j == k && equals d e && equals_fields fs gs
