-- ===== src/Context/Ports/Leases.antt =====
-- src/context/mapper.cpp over time: no shared port is lost or made, and none is given twice.
use cocaine_core.Base.{
  count, count-append, ℕ, ◌+◌, ◌≤◌, ◌<◌, String, ◌≡◌, refl, sym, ap, subst, ◌≢◌, ◌⊎◌, inl, inr,
  true, false, none, some, List, [], ◌∷◌, ◌++◌, arith, nat_beq, if◌then◌else◌, Bool-cases,
  Option-cases, ◌==◌, nat_key, string_key, list_key,
}
use cocaine_core.Base.Map.{
  erase-Unique, insert-Unique, Unique, Map, lookup, contains, erase, insert, lookup-erase,
}
use text.Mathlib.TextEquality.{eq_iff}
use cocaine_core.Context.Ports.{PortMapping, assign, assign_shared, retain}

-- The ports in use that were shared: those of the names that are not pinned.
unfoldable pub leased : Map String ℕ → Map String ℕ → List ℕ
leased pinned [] = []
leased pinned ((name, port) ∷ m) =
    let rest = leased pinned m in if contains name pinned then rest else port ∷ rest

-- A call that succeeds.
pub data Step : PortMapping → PortMapping → Type 0 where
  assigns :
      {m n : PortMapping} (name : String) (port : ℕ) → assign name m ≡ inr (port, n) → Step m n
  retains : {m n : PortMapping} (name : String) → retain name m ≡ inr n → Step m n

pub data Reach (m : PortMapping) : PortMapping → Type 0 where
  here : Reach m m
  next : {n o : PortMapping} → Reach m n → Step n o → Reach m o

-- Every port is shared or leased as often as it was in the seed.
pub record Inv (seed : List ℕ) (m : PortMapping) : Type 0 where
  pub unique : Unique m.in_use
  pub conserved : (p : ℕ) → count p m.shared + count p (leased m.pinned m.in_use) ≡ count p seed

erase-missing : (name : String) (m : Map String ℕ) → lookup name m ≡ none → erase name m ≡ m
unfolding lookup erase
erase-missing name [] e = refl
erase-missing name ((other, port) ∷ m) e = ground (arith, erase-missing name m)

-- What `erase` takes from the leased ports.
leased-erase :
    (pinned : Map String ℕ) (name : String) (m : Map String ℕ) (port p : ℕ)
    → Unique m
    → lookup name m ≡ some port
    → count p (leased pinned m)
      ≡ count p (leased pinned (erase name m))
        + (if contains name pinned then 0 else if nat_beq port p then 1 else 0)
unfolding lookup erase leased
leased-erase pinned name [] port p u e = absurd (ground arith)
leased-erase pinned name ((other, q) ∷ m) port p u e = elim (Bool-cases (other == name)) [
  | inl hit ↦
      let same : other ≡ name = (eq_iff other name).0 hit in
      let gone : lookup name m ≡ none = subst (λ (k : String). lookup k m ≡ none) same u.0 in
      let pin : contains other pinned ≡ contains name pinned =
        ap (λ (k : String). contains k pinned) same in
      ground (arith, erase-missing name m gone)
  | inr miss ↦ ground (arith, leased-erase pinned name m port p u.1)
]

leased-insert :
    (pinned : Map String ℕ) (name : String) (port p : ℕ) (m : Map String ℕ)
    → contains name m ≡ false
    → count p (leased pinned (insert name port m))
      ≡ (if contains name pinned then 0 else if nat_beq port p then 1 else 0)
        + count p (leased pinned m)
unfolding insert leased
leased-insert pinned name port p m e = ground arith

pinned-Inv :
    (seed : List ℕ) (name : String) (port : ℕ) (m : PortMapping)
    → contains name m.in_use ≡ false
    → contains name m.pinned ≡ true
    → Inv seed m
    → Inv seed (record m { in_use = insert name port m.in_use })
pinned-Inv seed name port m free own v = record {
  unique = insert-Unique name port m.in_use v.unique;
  conserved = λ p. ground (arith, v.conserved p, leased-insert m.pinned name port p m.in_use free);
}

shared-Inv :
    (seed : List ℕ) (name : String) (port : ℕ) (rest : List ℕ) (m : PortMapping)
    → contains name m.in_use ≡ false
    → contains name m.pinned ≡ false
    → m.shared ≡ port ∷ rest
    → Inv seed m
    → Inv seed (record m { shared = rest; in_use = insert name port m.in_use })
shared-Inv seed name port rest m free own front v = record {
  unique = insert-Unique name port m.in_use v.unique;
  conserved = λ p.
      let whole = ap (count p) front in
      ground (arith, v.conserved p, leased-insert m.pinned name port p m.in_use free);
}

front_cases : (xs : List ℕ) → (xs ≡ []) ⊎ ((x : ℕ) × (rest : List ℕ) × (xs ≡ x ∷ rest))
front_cases [] = inl refl
front_cases (x ∷ rest) = inr (x, rest, refl)

assign-Inv :
    (seed : List ℕ) (name : String) (m n : PortMapping) (port : ℕ)
    → Inv seed m
    → assign name m ≡ inr (port, n)
    → Inv seed n
unfolding assign assign_shared
assign-Inv seed name m n port v e = elim (Bool-cases (contains name m.in_use)) [
  | inl taken ↦ absurd (ground arith)
  | inr free ↦ elim (Option-cases (lookup name m.pinned)) [
    | inr (own, pin) ↦
        let same : record m { in_use = insert name own m.in_use } ≡ n = ground arith in
        subst (Inv seed) same (pinned-Inv seed name own m free (ground arith) v)
    | inl loose ↦ elim (front_cases m.shared) [
      | inl nothing ↦ absurd (ground arith)
      | inr (first, rest, front) ↦
          let same : record m { shared = rest; in_use = insert name first m.in_use } ≡ n =
            ground arith in
          subst (Inv seed) same (shared-Inv seed name first rest m free (ground arith) front v)
    ]
  ]
]

retained-Inv :
    (seed : List ℕ) (name : String) (port : ℕ) (m : PortMapping)
    → lookup name m.in_use ≡ some port
    → Inv seed m
    → Inv seed (record m {
      shared = if contains name m.pinned then m.shared else m.shared ++ port ∷ [];
      in_use = erase name m.in_use;
    })
retained-Inv seed name port m held v = record {
  unique = erase-Unique name m.in_use v.unique;
  conserved = λ p. ground (
    arith,
    v.conserved p,
    leased-erase m.pinned name m.in_use port p v.unique held,
    count-append p m.shared (port ∷ []),
  );
}

retain-Inv :
    (seed : List ℕ) (name : String) (m n : PortMapping)
    → Inv seed m
    → retain name m ≡ inr n
    → Inv seed n
unfolding retain
retain-Inv seed name m n v e = elim (Option-cases (lookup name m.in_use)) [
  | inl missing ↦ absurd (ground arith)
  | inr (port, held) ↦
      let same : record m {
        shared = if contains name m.pinned then m.shared else m.shared ++ port ∷ [];
        in_use = erase name m.in_use;
      }
          ≡ n =
        ground arith in
      subst (Inv seed) same (retained-Inv seed name port m held v)
]

-- However ports are assigned and retained, starting with none in use: no name has two ports, and
-- every port is among the shared ones and those leased to names that are not pinned exactly as often
-- as it was among the shared ones at the start.
pub Reach-conserved : {m n : PortMapping} → m.in_use ≡ [] → Reach m n → Inv m.shared n
unfolding leased
Reach-conserved {m = m} unused here = record {
  unique = rw unused tt;
  conserved = λ p. rw unused (omega arith);
}
Reach-conserved {m = m} unused (next r (assigns name port e)) =
    assign-Inv m.shared name _ _ port (Reach-conserved unused r) e
Reach-conserved {m = m} unused (next r (retains name e)) =
    retain-Inv m.shared name _ _ (Reach-conserved unused r) e

count-leased :
    (pinned m : Map String ℕ) (name : String) (port : ℕ)
    → lookup name m ≡ some port
    → contains name pinned ≡ false
    → 0 < count port (leased pinned m)
unfolding lookup leased
count-leased pinned [] name port e own = absurd (ground arith)
count-leased pinned ((other, q) ∷ m) name port e own = elim (Bool-cases (other == name)) [
  | inl hit ↦
      let same : other ≡ name = (eq_iff other name).0 hit in
      let loose : contains other pinned ≡ false =
        subst (λ (k : String). contains k pinned ≡ false) (sym same) own in
      ground arith
  | inr miss ↦ ground (arith, count-leased pinned m name port (ground arith) own)
]

-- If the shared ports were different at the start, two names that are not pinned never hold one port
-- at the same time.
pub lookup-exclusive :
    {m n : PortMapping} (a b : String) (p q : ℕ)
    → m.in_use ≡ []
    → ((port : ℕ) → count port m.shared ≤ 1)
    → Reach m n
    → contains a n.pinned ≡ false
    → contains b n.pinned ≡ false
    → a ≢ b
    → lookup a n.in_use ≡ some p
    → lookup b n.in_use ≡ some q
    → p ≢ q
lookup-exclusive {m = m} {n = n} a b p q unused different r own_a own_b ne held_a held_b same =
    let v = Reach-conserved unused r in
    let left = leased-erase n.pinned a n.in_use p q v.unique held_a in
    let still : lookup b (erase a n.in_use) ≡ some q =
      ground (arith, lookup-erase a b n.in_use, eq_iff a b) in
    let more = count-leased n.pinned (erase a n.in_use) b q still own_b in
    ground (arith, v.conserved q, different q)
