-- ===== src/Storage/Order/Laws.antt =====
-- What the sort and the intersection of src/storage/files.cpp keep.
use cocaine_core.Storage.Order.{Sorted, member, sort, insert_sorted, same_item, Linear}
use cocaine_core.Base.{
  ◌≡◌, refl, inl, inr, true, false, ◌||◌, List, [], ◌∷◌, arith, Bool-cases, All, all, nat_key,
  string_key, list_key,
}

module _ {A : Type 0} (o : Linear A) where
  pub same_refl : (x : A) → same_item o x x ≡ true
  same_refl x = ground (arith, o.irreflexive x)

  pub same-path : (x y : A) → same_item o x y ≡ true → x ≡ y
  same-path x y e = o.linear x y (ground arith) (ground arith)

  -- What is not below x, and x is below y, is not y.
  pub less-not_less : (x y z : A) → o.less x y ≡ true → o.less z y ≡ false → o.less x z ≡ true
  less-not_less x y z below above = elim (Bool-cases (o.less x z)) [
    | inl is ↦ is
    | inr is_not ↦ elim (Bool-cases (o.less z x)) [
      | inl under ↦ let h = o.transitive z x y under below in absurd (ground arith)
      | inr over ↦ let same = o.linear x z is_not over in absurd (ground arith)
    ]
  ]

  pub not_less_trans : (x y z : A) → o.less y x ≡ false → o.less z y ≡ false → o.less z x ≡ false
  not_less_trans x y z h k = elim (Bool-cases (o.less z x)) [
    | inr is_not ↦ is_not
    | inl is ↦ let bad = less-not_less z x y is h in absurd (ground arith)
  ]

  pub less-asym : (x y : A) → o.less x y ≡ true → o.less y x ≡ false
  less-asym x y h = elim (Bool-cases (o.less y x)) [
    | inr is_not ↦ is_not
    | inl is ↦
        let loop = o.transitive x y x h is in let none = o.irreflexive x in absurd (ground arith)
  ]

  member-insert :
      (z x : A) (ys : List A)
      → member o z (insert_sorted o x ys) ≡ (same_item o x z || member o z ys)
  unfolding insert_sorted
  member-insert z x [] = refl
  member-insert z x (y ∷ ys) = ground (arith, member-insert z x ys)

  pub member-sort : (z : A) (xs : List A) → member o z (sort o xs) ≡ member o z xs
  unfolding sort
  member-sort z [] = refl
  member-sort z (x ∷ xs) = ground (arith, member-insert z x (sort o xs), member-sort z xs)

  pub All-insert :
      (w x : A) (ys : List A)
      → o.less x w ≡ false
      → All (λ y. o.less y w ≡ false) ys
      → All (λ y. o.less y w ≡ false) (insert_sorted o x ys)
  unfolding insert_sorted
  All-insert w x [] h all = (h, tt)
  All-insert w x (y ∷ ys) h all = elim (Bool-cases (o.less y x)) [
    | inl below ↦ rw below (all.0, All-insert w x ys h all.1)
    | inr above ↦ rw above (h, all)
  ]

  All-above :
      (x y : A) (ys : List A)
      → o.less y x ≡ false
      → All (λ z. o.less z y ≡ false) ys
      → All (λ z. o.less z x ≡ false) ys
  All-above x y [] h all = tt
  All-above x y (z ∷ ys) h all = (not_less_trans x y z h all.0, All-above x y ys h all.1)

  insert-Sorted : (x : A) (ys : List A) → Sorted o ys → Sorted o (insert_sorted o x ys)
  unfolding insert_sorted
  insert-Sorted x [] s = (tt, tt)
  insert-Sorted x (y ∷ ys) s = elim (Bool-cases (o.less y x)) [
    | inl below ↦ rw below (All-insert y x ys (less-asym y x below) s.0, insert-Sorted x ys s.1)
    | inr above ↦ rw above ((above, All-above x y ys above s.0), s)
  ]

  pub sort-Sorted : (xs : List A) → Sorted o (sort o xs)
  unfolding sort
  sort-Sorted [] = tt
  sort-Sorted (x ∷ xs) = insert-Sorted x (sort o xs) (sort-Sorted xs)
