-- ===== src/Context/Core/Heard.antt =====
-- The services of context_impl_t in src/context.cpp against the signals that tell of them.
pub mod Calls
pub mod Life
use cocaine_core.Context.Core.Start.{running}
use cocaine_core.Base.{
  ◌⊎◌, ◌≢◌, subst, String, ◌≡◌, refl, sym, ap, ◌∙◌, Bool, true, false, Option, none, some, List, [],
  ◌∷◌, ◌++◌, arith, if◌then◌else◌, Bool-cases, Option-cases, All, All-append, any, string_key, ◌==◌,
  inl, inr,
}
use cocaine_core.Context.Core.{
  InsertError, farewell, quote, Actors, Fired, prepared, shutdown, exposed, removed, Core, publish,
  insert_with, remove, names_of, find_service, erase_service,
}

abbrev pub erase_name : String → List String → List String
erase_name name [] = []
erase_name name (n ∷ ns) = let rest = erase_name name ns in if n == name then ns else n ∷ rest

-- The names that a subscriber knows that adds each name it is told is exposed.
abbrev pub hear : {E P : Type 0} → List String → List (Fired E P) → List String
hear known [] = known
hear known (prepared ∷ fired) = hear known fired
hear known (shutdown ∷ fired) = hear known fired
hear known (exposed name d ∷ fired) = hear (known ++ name ∷ []) fired
hear known (removed name d ∷ fired) = hear (erase_name name known) fired

abbrev pub Distinct : List String → Type 0
Distinct [] = Unit
Distinct (n ∷ ns) = (any (λ m. n == m) ns ≡ false) × Distinct ns

-- Running and stopping an actor leaves it its name.
pub record Named {A E P : Type 0} (ops : Actors A E P) : Type 0 where
  pub run : (a b : A) → ops.run a ≡ some b → ops.name b ≡ ops.name a
  pub terminate : (a : A) → ops.name (ops.terminate a) ≡ ops.name a

pub record Coherent {A E P : Type 0} (ops : Actors A E P) (c : Core A E P) : Type 0 where
  pub bootstrapped : c.bootstrapped ≡ true
  pub heard : hear [] c.fired ≡ names_of c.services
  pub named : All (λ (p : String × A). ops.name p.1 ≡ p.0) c.services
  pub distinct : Distinct (names_of c.services)

pub data Call (A : Type 0) : Type 0 where
  inserts : String → Option A → Call A
  removes : String → Call A

pub hear-append :
    {E P : Type 0} (known : List String) (fs gs : List (Fired E P))
    → hear known (fs ++ gs) ≡ hear (hear known fs) gs
hear-append known [] gs = refl
hear-append known (prepared ∷ fs) gs = hear-append known fs gs
hear-append known (shutdown ∷ fs) gs = hear-append known fs gs
hear-append known (exposed name d ∷ fs) gs = hear-append (known ++ name ∷ []) fs gs
hear-append known (removed name d ∷ fs) gs = hear-append (erase_name name known) fs gs

any-erase :
    (n name : String) (ns : List String)
    → any (λ m. n == m) ns ≡ false
    → any (λ m. n == m) (erase_name name ns) ≡ false
any-erase n name [] h = refl
any-erase n name (m ∷ ns) h = ground (arith, any-erase n name ns)

pub Distinct-erase :
    (name : String) (ns : List String) → Distinct ns → Distinct (erase_name name ns)
Distinct-erase name [] h = h
Distinct-erase name (n ∷ ns) h = elim (Bool-cases (n == name)) [
  | inl hit ↦ rw hit h.1
  | inr miss ↦ rw miss (any-erase n name ns h.0, Distinct-erase name ns h.1)
]

any-snoc :
    (n name : String) (ns : List String)
    → any (λ m. n == m) ns ≡ false
    → (n == name) ≡ false
    → any (λ m. n == m) (ns ++ name ∷ []) ≡ false
any-snoc n name [] h e = ground arith
any-snoc n name (m ∷ ns) h e = ground (arith, any-snoc n name ns)

pub Distinct-snoc :
    (name : String) (ns : List String)
    → Distinct ns
    → any (λ m. m == name) ns ≡ false
    → Distinct (ns ++ name ∷ [])
Distinct-snoc name [] h new = (refl, tt)
Distinct-snoc name (n ∷ ns) h new =
    (any-snoc n name ns h.0 (ground arith), Distinct-snoc name ns h.1 (ground arith))

pub find_service-none :
    {A : Type 0} (name : String) (list : List (String × A))
    → find_service name list ≡ none
    → any (λ m. m == name) (names_of list) ≡ false
find_service-none name [] e = refl
find_service-none name ((n, a) ∷ list) e = ground (arith, find_service-none name list)

pub names-snoc :
    {A : Type 0} (name : String) (a : A) (list : List (String × A))
    → names_of (list ++ (name, a) ∷ []) ≡ names_of list ++ name ∷ []
names-snoc name a [] = refl
names-snoc name a ((n, b) ∷ list) = ap (λ ns. n ∷ ns) (names-snoc name a list)

pub names-erase :
    {A : Type 0} (name : String) (list : List (String × A))
    → names_of (erase_service name list) ≡ erase_name name (names_of list)
unfolding erase_service
names-erase name [] = refl
names-erase name ((n, a) ∷ list) = ground (arith, names-erase name list)

pub All-erase :
    {A : Type 0} (P : String × A → Type 0) (name : String) (list : List (String × A))
    → All P list
    → All P (erase_service name list)
unfolding erase_service
All-erase P name [] h = h
All-erase P name ((n, a) ∷ list) h = elim (Bool-cases (n == name)) [
  | inl hit ↦ rw hit h.1
  | inr miss ↦ rw miss (h.0, All-erase P name list h.1)
]

pub find_service-name :
    {A : Type 0} (name_of : A → String) (name : String) (list : List (String × A))
    (found : String × A)
    → All (λ (p : String × A). name_of p.1 ≡ p.0) list
    → find_service name list ≡ some found
    → name_of found.1 ≡ name
find_service-name name_of name [] found h e = cc
find_service-name name_of name ((n, a) ∷ list) found h e = elim (Bool-cases (n == name)) [
  | inl hit ↦
      let me : (n, a) ≡ found = ground arith in
      ap (λ p. name_of p.1) (sym me) ∙ h.0 ∙ (string_key.same_iff n name).0 hit
  | inr miss ↦ find_service-name name_of name list found h.1 (ground arith)
]
