-- ===== src/Signals/Token/Spent.antt =====
-- How often the tokens of src/signal.cpp call a callback: what they hold, and what one operation
-- tells.
use cocaine_core.Signals.{update_at}
use cocaine_core.Signals.Token.{
  Tokens, passed, throws, calls, constructs, makes, moves, assigns, cancels, detaches, detaches,
  cancels, assigns, moves, throws, store, makes, calls, assign_token, cancel, move_token, Use,
  Cancelled, Cancellation,
}
use cocaine_core.Base.{
  inr, inl, count, Option-cases, ℕ, zero, suc, ◌+◌, ◌≡◌, refl, ap, false, Option, none, some, List,
  [], ◌∷◌, ◌++◌, arith, nat_beq, if◌then◌else◌, get_elem?, nat_key, string_key, list_key,
}

-- Whether a callback, which may be an empty one, is the one in question.
abbrev pub owns : Option ℕ → Option ℕ → ℕ
owns none none = 1
owns none (some d) = 0
owns (some c) none = 0
owns (some c) (some d) = if nat_beq d c then 1 else 0

-- How often a token would call the callback.
abbrev pub holds : Option ℕ → Cancellation ℕ → ℕ
holds c t = if t.detached then 0 else owns c t.callback

abbrev pub held : Option ℕ → List (Cancellation ℕ) → ℕ
held c [] = 0
held c (t ∷ objects) = holds c t + held c objects

abbrev pub told : Option ℕ → Cancelled ℕ → ℕ
told c passed = 0
told c (calls d) = owns c (some d)
told c throws = owns c none

-- How often the callback was called.
abbrev pub times_in : Option ℕ → List ℕ → ℕ → ℕ
times_in none called thrown = thrown
times_in (some c) called thrown = count c called

abbrev pub times : Option ℕ → Tokens ℕ → ℕ
times c s = times_in c s.called s.thrown

-- How often the program makes a token of the callback.
abbrev pub made : Option ℕ → List (Use ℕ) → ℕ
made c [] = 0
made c (makes d ∷ uses) = owns c d + made c uses
made c (constructs ∷ uses) = made c uses
made c (moves i ∷ uses) = made c uses
made c (assigns i j ∷ uses) = made c uses
made c (cancels i ∷ uses) = made c uses
made c (detaches i ∷ uses) = made c uses

pub held-append :
    (c : Option ℕ) (xs ys : List (Cancellation ℕ)) → held c (xs ++ ys) ≡ held c xs + held c ys
held-append c [] ys = omega arith
held-append c (x ∷ xs) ys = omega (arith, held-append c xs ys)

pub held-store :
    (c : Option ℕ) (i : ℕ) (t old : Cancellation ℕ) (objects : List (Cancellation ℕ))
    → get_elem? objects i ≡ some old
    → held c (store i t objects) + holds c old ≡ held c objects + holds c t
unfolding update_at
held-store c i t old [] e = cc
held-store c zero t old (x ∷ objects) e =
    let same : x ≡ old = ground arith in omega (arith, ap (holds c) same)
held-store c (suc i) t old (x ∷ objects) e = omega (arith, held-store c i t old objects e)

pub get_elem?-store :
    (i j : ℕ) (t : Cancellation ℕ) (objects : List (Cancellation ℕ))
    → nat_beq i j ≡ false
    → get_elem? (store i t objects) j ≡ get_elem? objects j
unfolding update_at
get_elem?-store i j t [] e = refl
get_elem?-store zero zero t (x ∷ objects) e = cc
get_elem?-store zero (suc j) t (x ∷ objects) e = refl
get_elem?-store (suc i) zero t (x ∷ objects) e = refl
get_elem?-store (suc i) (suc j) t (x ∷ objects) e = get_elem?-store i j t objects (ground arith)

pub move_token-holds :
    (c : Option ℕ) (other : Cancellation ℕ)
    → holds c (move_token other).0 + holds c (move_token other).1 ≡ holds c other
unfolding move_token
move_token-holds c other = ground arith

pub cancel-holds :
    (c : Option ℕ) (t : Cancellation ℕ) → holds c (cancel t).0 + told c (cancel t).1 ≡ holds c t
unfolding cancel
cancel-holds c t = elim (Option-cases t.callback) [
  | inl hollow ↦ ground arith
  | inr (d, there) ↦ ground arith
]

pub assign_token-holds :
    (c : Option ℕ) (t other : Cancellation ℕ)
    → holds c (assign_token t other).0
        + (holds c (assign_token t other).1 + told c (assign_token t other).2)
      ≡ holds c t + holds c other
unfolding assign_token
assign_token-holds c t other = elim (Option-cases t.callback) [
  | inl hollow ↦ ground arith
  | inr (d, there) ↦ ground arith
]
