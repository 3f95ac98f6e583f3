-- ===== src/Storage/Order.antt =====
-- std::sort and std::set_intersection as src/storage/files.cpp uses them, for any linear order.
pub mod Laws
pub mod Intersection
use cocaine_core.Base.{
  ℕ, zero, suc, ◌+◌, ◌-◌, ◌*◌, ◌/◌, ◌%◌, ◌^◌, ◌≤◌, ◌<◌, min, String, ◌≡◌, refl, sym, ap, ◌∙◌, subst,
  ◌≢◌, ◌↔◌, ◌⊎◌, inl, inr, Bool, true, false, not, ◌&&◌, ◌||◌, Option, none, some, List, [], ◌∷◌,
  ◌++◌, map, append_assoc, append-nil, arith, ltb, leb, nat_beq, if◌then◌else◌, Bool-cases,
  Option-cases, codes, All, length, get_elem?, take, drop, replicate, find_index, find?, any, all,
  keep, is_empty, length-append, length-take, length-drop, length-replicate, take-append-drop,
  take-append_left, take-append_exact, drop-nil, take-nil, take-drop, drop-append_left,
  drop-append_right, find?-All, find?-passes, find?-any, any-find?, find?-none, Key, ◌==◌, nat_key,
  string_key, list_key, list_same, list_same_iff, ==_refl,
}

-- operator< of a linear order.
pub record Linear (A : Type 0) : Type 0 where
  pub less : A → A → Bool
  pub irreflexive : (x : A) → less x x ≡ false
  pub transitive : (x y z : A) → less x y ≡ true → less y z ≡ true → less x z ≡ true
  pub linear : (x y : A) → less x y ≡ false → less y x ≡ false → x ≡ y

-- The order of std::string, which is that of the bytes.
unfoldable pub less_bytes : List ℕ → List ℕ → Bool
less_bytes [] [] = false
less_bytes [] (y ∷ ys) = true
less_bytes (x ∷ xs) [] = false
less_bytes (x ∷ xs) (y ∷ ys) =
    let rest = less_bytes xs ys in if ltb x y then true else if ltb y x then false else rest

pub less_bytes-irreflexive : (xs : List ℕ) → less_bytes xs xs ≡ false
unfolding less_bytes
less_bytes-irreflexive [] = refl
less_bytes-irreflexive (x ∷ xs) = ground (arith, less_bytes-irreflexive xs)

pub less_bytes-transitive :
    (xs ys zs : List ℕ)
    → less_bytes xs ys ≡ true
    → less_bytes ys zs ≡ true
    → less_bytes xs zs ≡ true
unfolding less_bytes
less_bytes-transitive [] [] zs h k = cc
less_bytes-transitive [] (y ∷ ys) [] h k = cc
less_bytes-transitive [] (y ∷ ys) (z ∷ zs) h k = refl
less_bytes-transitive (x ∷ xs) [] zs h k = cc
less_bytes-transitive (x ∷ xs) (y ∷ ys) [] h k = cc
less_bytes-transitive (x ∷ xs) (y ∷ ys) (z ∷ zs) h k =
    ground (arith, less_bytes-transitive xs ys zs)

pub less_bytes-linear :
    (xs ys : List ℕ) → less_bytes xs ys ≡ false → less_bytes ys xs ≡ false → xs ≡ ys
unfolding less_bytes
less_bytes-linear [] [] h k = refl
less_bytes-linear [] (y ∷ ys) h k = cc
less_bytes-linear (x ∷ xs) [] h k = cc
less_bytes-linear (x ∷ xs) (y ∷ ys) h k = ground (arith, less_bytes-linear xs ys)

abbrev pub bytes_order : Linear (List ℕ)
bytes_order = record {
  less = less_bytes;
  irreflexive = less_bytes-irreflexive;
  transitive = less_bytes-transitive;
  linear = less_bytes-linear;
}

module _ {A : Type 0} (o : Linear A) where
  -- std::sort
  unfoldable pub insert_sorted : A → List A → List A
  insert_sorted x [] = x ∷ []
  insert_sorted x (y ∷ ys) =
      let rest = insert_sorted x ys in if o.less y x then y ∷ rest else x ∷ y ∷ ys

  unfoldable pub sort : List A → List A
  sort [] = []
  sort (x ∷ xs) = insert_sorted x (sort xs)

  -- The loop of std::set_intersection where the first range starts with `x`, given what it makes of
  -- the rest of the first range.
  unfoldable pub meet_from : A → (List A → List A) → List A → List A
  meet_from x rest [] = []
  meet_from x rest (y ∷ ys) =
      let later = meet_from x rest ys in
      if o.less x y then rest (y ∷ ys) else if o.less y x then later else x ∷ rest ys

  -- std::set_intersection
  unfoldable pub set_intersection : List A → List A → List A
  set_intersection [] ys = []
  set_intersection (x ∷ xs) ys = meet_from x (set_intersection xs) ys

  abbrev pub same_item : A → A → Bool
  same_item x y = not (o.less x y) && not (o.less y x)

  abbrev pub member : A → List A → Bool
  member z [] = false
  member z (x ∷ xs) = same_item x z || member z xs

  -- No entry is below an earlier one.
  abbrev pub Sorted : List A → Type 0
  Sorted [] = Unit
  Sorted (x ∷ xs) = All (λ y. o.less y x ≡ false) xs × Sorted xs
