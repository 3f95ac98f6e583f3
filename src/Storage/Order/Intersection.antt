-- ===== src/Storage/Order/Intersection.antt =====
-- std::set_intersection in src/storage/files.cpp.
use cocaine_core.Storage.Order.Laws.{same-path, less-not_less}
use cocaine_core.Storage.Order.{set_intersection, Sorted, meet_from, member, same_item, Linear}
use cocaine_core.Base.{
  ◌≡◌, refl, ap, subst, inl, inr, true, false, ◌&&◌, List, [], ◌∷◌, arith, Bool-cases, All, all,
  nat_key, string_key, list_key,
}

module _ {A : Type 0} (o : Linear A) where
  -- What is below every entry is none.
  member-below : (z : A) (ys : List A) → All (λ y. o.less z y ≡ true) ys → member o z ys ≡ false
  member-below z [] all = refl
  member-below z (y ∷ ys) all = ground (arith, member-below z ys all.1)

  All-below :
      (x y : A) (ys : List A)
      → o.less x y ≡ true
      → All (λ z. o.less z y ≡ false) ys
      → All (λ z. o.less x z ≡ true) ys
  All-below x y [] h all = tt
  All-below x y (z ∷ ys) h all = (less-not_less o x y z h all.0, All-below x y ys h all.1)

  -- The loop of std::set_intersection for one entry, given that it is right for the rest.
  meet_from-member :
      (z x : A) (xs ys : List A)
      → All (λ w. o.less w x ≡ false) xs
      → Sorted o ys
      → ((ns : List A)
          → Sorted o ns
          → member o z (set_intersection o xs ns) ≡ (member o z xs && member o z ns))
      → member o z (meet_from o x (set_intersection o xs) ys)
        ≡ (member o z (x ∷ xs) && member o z ys)
  unfolding meet_from
  meet_from-member z x xs [] above s rest = ground arith
  meet_from-member z x xs (y ∷ ys) above s rest = elim (Bool-cases (o.less x y)) [
    | inl lower ↦
        let out = member-below x (y ∷ ys) (lower, All-below x y ys lower s.0) in
        let inner = rest (y ∷ ys) s in
        elim (Bool-cases (same_item o x z)) [
          | inl hit ↦
              let away = subst (λ w. member o w (y ∷ ys) ≡ false) (same-path o x z hit) out in
              ground arith
          | inr miss ↦ ground arith
        ]
    | inr not_lower ↦ elim (Bool-cases (o.less y x)) [
      | inl higher ↦
          let out = member-below y (x ∷ xs) (higher, All-below y x xs higher above) in
          let inner = meet_from-member z x xs ys above s.1 rest in
          elim (Bool-cases (same_item o y z)) [
            | inl hit ↦
                let away = subst (λ w. member o w (x ∷ xs) ≡ false) (same-path o y z hit) out in
                ground arith
            | inr miss ↦ ground arith
          ]
      | inr not_higher ↦
          let equal = o.linear x y not_lower not_higher in
          let inner = rest ys s.1 in let items = ap (λ w. same_item o w z) equal in ground arith
    ]
  ]

  -- The intersection of sorted ranges has what both have.
  pub set_intersection-member :
      (z : A) (xs ys : List A)
      → Sorted o xs
      → Sorted o ys
      → member o z (set_intersection o xs ys) ≡ (member o z xs && member o z ys)
  unfolding set_intersection
  set_intersection-member z [] ys s t = refl
  set_intersection-member z (x ∷ xs) ys s t =
      meet_from-member z x xs ys s.0 t (λ ns u. set_intersection-member z xs ns s.1 u)

  All-meet :
      (w x : A) (rest : List A → List A) (ys : List A)
      → o.less x w ≡ false
      → ((ns : List A) → All (λ z. o.less z w ≡ false) (rest ns))
      → All (λ z. o.less z w ≡ false) (meet_from o x rest ys)
  unfolding meet_from
  All-meet w x rest [] h all = tt
  All-meet w x rest (y ∷ ys) h all = elim (Bool-cases (o.less x y)) [
    | inl lower ↦ rw lower (all (y ∷ ys))
    | inr not_lower ↦ elim (Bool-cases (o.less y x)) [
      | inl higher ↦ rw (not_lower, higher) (All-meet w x rest ys h all)
      | inr not_higher ↦ rw (not_lower, not_higher) (h, all ys)
    ]
  ]

  All-intersection :
      (w : A) (xs ys : List A)
      → All (λ z. o.less z w ≡ false) xs
      → All (λ z. o.less z w ≡ false) (set_intersection o xs ys)
  unfolding set_intersection
  All-intersection w [] ys all = tt
  All-intersection w (x ∷ xs) ys all =
      All-meet w x (set_intersection o xs) ys all.0 (λ ns. All-intersection w xs ns all.1)

  meet-Sorted :
      (x : A) (rest : List A → List A) (ys : List A)
      → ((ns : List A) → All (λ z. o.less z x ≡ false) (rest ns) × Sorted o (rest ns))
      → Sorted o (meet_from o x rest ys)
  unfolding meet_from
  meet-Sorted x rest [] h = tt
  meet-Sorted x rest (y ∷ ys) h = elim (Bool-cases (o.less x y)) [
    | inl lower ↦ rw lower (h (y ∷ ys)).1
    | inr not_lower ↦ elim (Bool-cases (o.less y x)) [
      | inl higher ↦ rw (not_lower, higher) (meet-Sorted x rest ys h)
      | inr not_higher ↦ rw (not_lower, not_higher) (h ys)
    ]
  ]

  pub intersection-Sorted : (xs ys : List A) → Sorted o xs → Sorted o (set_intersection o xs ys)
  unfolding set_intersection
  intersection-Sorted [] ys s = tt
  intersection-Sorted (x ∷ xs) ys s =
      meet-Sorted x (set_intersection o xs) ys
        (λ ns. (All-intersection x xs ns s.0, intersection-Sorted xs ns s.1))
