-- ===== src/Base/Map.antt =====
-- `std::map` and `std::set` as association lists. `insert` keeps an entry that is there, `assign`
-- is `map[k] = v`. The order in which the C++ maps iterate is not modelled.
use Prim.Native.Nat.{◌≤◌}
use mathlib.Core.Path.{◌≡◌, refl}
use mathlib.Core.Bool.{Bool, true, false}
use mathlib.Core.Option.{Option, none, some}
use mathlib.Core.List.{List, [], ◌∷◌}
use native.Mathlib.Omega.{arith}
use Prim.Native.Nat.{ℕ, ◌<◌}
use cocaine_core.Base.Conditions.{if◌then◌else◌, nat_beq, ltb}
use cocaine_core.Base.Classes.{Key, ◌==◌, nat_key}
use cocaine_core.Base.Lists.{length, All}

abbrev pub Map {ℓ κ} : Type ℓ → Type κ → Type (ℓ ⊔ κ)
Map K V = List (K × V)

module _ {ℓ κ} {K : Type ℓ} {V : Type κ} ⦃e : Key K⦄ where
  unfoldable pub lookup : K → Map K V → Option V
  lookup k [] = none
  lookup k ((j, v) ∷ m) = if j == k then some v else lookup k m

  -- m.count(k) > 0
  abbrev pub contains : K → Map K V → Bool
  contains k m = elim (lookup k m) [ none ↦ false | some v ↦ true ]

  unfoldable pub erase : K → Map K V → Map K V
  erase k [] = []
  erase k ((j, v) ∷ m) = let rest = erase k m in if j == k then rest else (j, v) ∷ rest

  unfoldable pub assign : K → V → Map K V → Map K V
  unfolding erase
  assign k v m = (k, v) ∷ erase k m

  unfoldable pub insert : K → V → Map K V → Map K V
  unfolding lookup
  insert k v m = if contains k m then m else (k, v) ∷ m

  pub lookup-erase :
      (k j : K) (m : Map K V) → lookup j (erase k m) ≡ (if k == j then none else lookup j m)
  unfolding lookup erase
  lookup-erase k j [] = ground arith
  lookup-erase k j ((i, v) ∷ m) =
      ground (arith, lookup-erase k j m, e.same_iff i k, e.same_iff i j, e.same_iff k j)

  pub lookup-assign :
      (k j : K) (v : V) (m : Map K V)
      → lookup j (assign k v m) ≡ (if k == j then some v else lookup j m)
  unfolding lookup assign
  lookup-assign k j v m = ground (arith, lookup-erase k j m)

  pub lookup-insert :
      (k j : K) (v : V) (m : Map K V)
      → lookup j (insert k v m)
        ≡ (if contains k m then lookup j m else if k == j then some v else lookup j m)
  unfolding lookup insert
  lookup-insert k j v m = ground arith

  -- No key has two entries.
  abbrev pub Unique : Map K V → Type κ
  Unique [] = Unit {κ}
  Unique ((k, v) ∷ m) = (lookup k m ≡ none) × Unique m

  pub erase-Unique : (k : K) (m : Map K V) → Unique m → Unique (erase k m)
  unfolding erase
  erase-Unique k [] u = tt
  erase-Unique k ((j, v) ∷ m) u = ground (arith, erase-Unique k m u.1, lookup-erase k j m)

  pub insert-Unique : (k : K) (v : V) (m : Map K V) → Unique m → Unique (insert k v m)
  unfolding insert
  insert-Unique k v m u = ground arith

  pub assign-Unique : (k : K) (v : V) (m : Map K V) → Unique m → Unique (assign k v m)
  unfolding assign
  assign-Unique k v m u = ground (arith, erase-Unique k m u, lookup-erase k k m, e.same_iff k k)

  pub lookup-nil : (k : K) → lookup k [] ≡ none
  unfolding lookup
  lookup-nil k = refl

  pub length-erase-le : (k : K) (m : Map K V) → length (erase k m) ≤ length m
  unfolding erase
  length-erase-le k [] = omega arith
  length-erase-le k ((j, v) ∷ m) = ground (arith, length-erase-le k m)

module _ {κ} {V : Type κ} where
  -- `map.insert({k, v})` that keeps the keys in increasing order.
  unfoldable pub emplace : ℕ → V → Map ℕ V → Map ℕ V
  emplace k v [] = (k, v) ∷ []
  emplace k v ((j, w) ∷ m) =
      let rest = emplace k v m in
      if nat_beq j k then (j, w) ∷ m else if ltb k j then (k, v) ∷ (j, w) ∷ m else (j, w) ∷ rest

  -- An assignment to the value of an entry, if it is there.
  unfoldable pub modify : ℕ → (V → V) → Map ℕ V → Map ℕ V
  modify k f [] = []
  modify k f ((j, w) ∷ m) =
      let rest = modify k f m in if nat_beq j k then (j, f w) ∷ m else (j, w) ∷ rest

  -- The keys are in increasing order.
  abbrev pub Ascending : Map ℕ V → Type 0
  Ascending [] = Unit {0}
  Ascending ((k, v) ∷ m) = All (λ (p : ℕ × V). k < p.0) m × Ascending m

  lookup-above :
      (j k : ℕ) (m : Map ℕ V) → All (λ (p : ℕ × V). k < p.0) m → j ≤ k → lookup j m ≡ none
  unfolding lookup
  lookup-above j k [] a le = refl
  lookup-above j k ((i, w) ∷ m) a le = ground (arith, lookup-above j k m a.1 le)

  weaken-above :
      (j k : ℕ) (m : Map ℕ V)
      → All (λ (p : ℕ × V). k < p.0) m
      → j ≤ k
      → All (λ (p : ℕ × V). j < p.0) m
  weaken-above j k [] a le = tt
  weaken-above j k ((i, w) ∷ m) a le = (omega arith, weaken-above j k m a.1 le)

  pub lookup-emplace :
      (k j : ℕ) (v : V) (m : Map ℕ V)
      → Ascending m
      → lookup j (emplace k v m)
        ≡ (if contains k m then lookup j m else if nat_beq k j then some v else lookup j m)
  unfolding lookup emplace
  lookup-emplace k j v [] a = ground arith
  lookup-emplace k j v ((i, w) ∷ m) a =
      ground (arith, lookup-emplace k j v m a.1, lookup-above k i m a.0, lookup-above j i m a.0)

  pub lookup-modify :
      (k j : ℕ) (f : V → V) (m : Map ℕ V)
      → lookup j (modify k f m) ≡ (
          if nat_beq k j
          then (elim (lookup j m) [ none ↦ none | some v ↦ some (f v) ])
          else lookup j m)
  unfolding lookup modify
  lookup-modify k j f [] = ground arith
  lookup-modify k j f ((i, w) ∷ m) = ground (arith, lookup-modify k j f m)

  above-emplace :
      (i k : ℕ) (v : V) (m : Map ℕ V)
      → All (λ (p : ℕ × V). i < p.0) m
      → i < k
      → All (λ (p : ℕ × V). i < p.0) (emplace k v m)
  unfolding emplace
  above-emplace i k v [] a lt = (lt, tt)
  above-emplace i k v ((j, w) ∷ m) a lt = ground (arith, above-emplace i k v m a.1 lt)

  above-erase :
      (i k : ℕ) (m : Map ℕ V)
      → All (λ (p : ℕ × V). i < p.0) m
      → All (λ (p : ℕ × V). i < p.0) (erase k m)
  unfolding erase
  above-erase i k [] a = tt
  above-erase i k ((j, w) ∷ m) a = ground (arith, above-erase i k m a.1)

  above-modify :
      (i k : ℕ) (f : V → V) (m : Map ℕ V)
      → All (λ (p : ℕ × V). i < p.0) m
      → All (λ (p : ℕ × V). i < p.0) (modify k f m)
  unfolding modify
  above-modify i k f [] a = tt
  above-modify i k f ((j, w) ∷ m) a = ground (arith, above-modify i k f m a.1)

  pub emplace-Ascending : (k : ℕ) (v : V) (m : Map ℕ V) → Ascending m → Ascending (emplace k v m)
  unfolding emplace
  emplace-Ascending k v [] a = (tt, tt)
  emplace-Ascending k v ((j, w) ∷ m) a =
      ground (arith, emplace-Ascending k v m a.1, above-emplace j k v m a.0, weaken-above k j m a.0)

  pub erase-Ascending : (k : ℕ) (m : Map ℕ V) → Ascending m → Ascending (erase k m)
  unfolding erase
  erase-Ascending k [] a = tt
  erase-Ascending k ((j, w) ∷ m) a = ground (arith, erase-Ascending k m a.1, above-erase j k m a.0)

  pub modify-Ascending : (k : ℕ) (f : V → V) (m : Map ℕ V) → Ascending m → Ascending (modify k f m)
  unfolding modify
  modify-Ascending k f [] a = tt
  modify-Ascending k f ((j, w) ∷ m) a =
      ground (arith, modify-Ascending k f m a.1, above-modify j k f m a.0)

pub ruleset map_laws = (lookup-erase, lookup-assign, lookup-insert, lookup-nil)
