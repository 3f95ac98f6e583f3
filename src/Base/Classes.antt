-- ===== src/Base/Classes.antt =====
-- Decidable equality of keys, as `operator==` of the source's key types.
use Prim.Native.Nat.{ℕ}
use Prim.Native.String.{String}
use mathlib.Core.Path.{◌≡◌, refl}
use mathlib.Core.Logic.{◌↔◌}
use mathlib.Core.Bool.{Bool, true, false, ◌&&◌}
use mathlib.Core.List.{List, [], ◌∷◌}
use native.Mathlib.Omega.{arith}
use text.Mathlib.Text.{◌==◌ as same_text}
use text.Mathlib.TextEquality.{eq_iff as same_text_iff}
use cocaine_core.Base.Conditions.{nat_beq, nat_beq_iff}

-- A key type: a test, and what it decides.
pub record Key {κ} (K : Type κ) : Type κ where
  pub same : K → K → Bool
  pub same_iff : (j k : K) → (same j k ≡ true) ↔ (j ≡ k)

module _ {κ} {K : Type κ} ⦃keys : Key K⦄ where
  infix 50 ◌==◌
  abbrev pub ◌==◌ : K → K → Bool
  j == k = keys.same j k

  pub ==_refl : (k : K) → (k == k) ≡ true
  ==_refl k = (keys.same_iff k k).1 refl

  abbrev pub list_same : List K → List K → Bool
  list_same [] [] = true
  list_same [] (k ∷ ks) = false
  list_same (j ∷ js) [] = false
  list_same (j ∷ js) (k ∷ ks) = keys.same j k && list_same js ks

  pub list_same_iff : (js ks : List K) → (list_same js ks ≡ true) ↔ (js ≡ ks)
  list_same_iff [] [] = ground arith
  list_same_iff [] (k ∷ ks) = ground arith
  list_same_iff (j ∷ js) [] = ground arith
  list_same_iff (j ∷ js) (k ∷ ks) = ground (arith, list_same_iff js ks, keys.same_iff j k)

instance abbrev pub string_key : Key String
string_key = record { same = same_text; same_iff = same_text_iff }

instance abbrev pub nat_key : Key ℕ
nat_key = record { same = nat_beq; same_iff = nat_beq_iff }

instance abbrev pub list_key {κ} : {K : Type κ} ⦃keys : Key K⦄ → Key (List K)
list_key = record { same = list_same; same_iff = list_same_iff }
