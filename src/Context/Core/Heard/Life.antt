-- ===== src/Context/Core/Heard/Life.antt =====
-- A context of src/context.cpp from its constructor on.
use cocaine_core.Context.Core.Heard.Calls.{serves-Coherent, serves, Owned}
use cocaine_core.Context.Core.Ends.{start-runs}
use cocaine_core.Context.Core.Heard.{Call, Distinct, hear-append, hear, Named, Coherent}
use cocaine_core.Context.Core.Start.{all_made-names, Run, all_made, exposures, running}
use cocaine_core.Base.{
  append_assoc, append-nil, subst, String, ◌≡◌, refl, sym, ap, ◌∙◌, Option, some, List, [], ◌∷◌,
  ◌++◌, arith, Option-cases, All, string_key, inl, inr,
}
use cocaine_core.Context.Core.{start, Actors, prepared, names_of}

running-names :
    {A E P : Type 0} (ops : Actors A E P) (list : List (String × A))
    → (running ops list).1 ≡ []
    → names_of (running ops list).0 ≡ names_of list
running-names ops [] e = refl
running-names ops ((name, a) ∷ list) e = elim (Option-cases (ops.run a)) [
  | inl threw ↦ absurd (ground arith)
  | inr (b, up) ↦
      let left : (running ops list).1 ≡ [] = ground arith in
      rw (up, running) (ap (λ ns. name ∷ ns) (running-names ops list left))
]

running-All :
    {A E P : Type 0} (ops : Actors A E P) (laws : Named ops) (list : List (String × A))
    → All (λ (p : String × A). ops.name p.1 ≡ p.0) list
    → All (λ (p : String × A). ops.name p.1 ≡ p.0) (running ops list).0
running-All ops laws [] h = h
running-All ops laws ((name, a) ∷ list) h = elim (Option-cases (ops.run a)) [
  | inl threw ↦ rw (threw, running) tt
  | inr (b, up) ↦ rw (up, running) (laws.run a b up ∙ h.0, running-All ops laws list h.1)
]

hear-exposures :
    {A E P : Type 0} (ops : Actors A E P) (known : List String) (list : List (String × A))
    → All (λ (p : String × A). ops.name p.1 ≡ p.0) list
    → hear known (exposures ops list) ≡ known ++ names_of list
hear-exposures ops known [] h = sym (append-nil known)
hear-exposures ops known ((name, a) ∷ list) h =
    hear-exposures ops (known ++ ops.name a ∷ []) list h.1
    ∙ append_assoc known (ops.name a ∷ []) (names_of list)
    ∙ ap (λ n. known ++ n ∷ names_of list) h.0

start-Coherent :
    {A E P : Type 0} (ops : Actors A E P) (laws : Named ops) (configured : List (String × Option A))
    (list up : List (String × A))
    → all_made configured ≡ some list
    → running ops list ≡ (up, [])
    → Distinct (names_of configured)
    → All (λ (p : String × A). ops.name p.1 ≡ p.0) list
    → Coherent ops (start ops configured).0
start-Coherent {A} ops laws configured list up made run apart named =
    let up_is : (running ops list).0 ≡ up = ap (λ (r : Run A). r.0) run in
    let named_up =
      subst (All (λ (p : String × A). ops.name p.1 ≡ p.0)) up_is
        (running-All ops laws list named) in
    let names : names_of configured ≡ names_of up =
      all_made-names configured list made
      ∙ sym (running-names ops list (ap (λ (r : Run A). r.1) run))
      ∙ ap names_of up_is in
    rw (start-runs ops configured list up made run) (record {
      bootstrapped = refl;
      heard = hear-append [] (exposures ops up) (prepared ∷ []) ∙ hear-exposures ops [] up named_up;
      named = named_up;
      distinct = subst Distinct names apart;
    })

-- A context whose configured services have distinct names, all are made, all run, and have the
-- names that they are configured under, and that then serves any calls of insert_with, each with an
-- actor under its own name or a factory that throws, and of remove, which may fail: it stays
-- bootstrapped, the names of its services are distinct and are the names of their actors, and they
-- are, in order, the names that one who listened to all its signals knows.
pub serves-start :
    {A E P : Type 0} (ops : Actors A E P) (laws : Named ops) (configured : List (String × Option A))
    (list up : List (String × A)) (calls : List (Call A))
    → all_made configured ≡ some list
    → running ops list ≡ (up, [])
    → Distinct (names_of configured)
    → All (λ (p : String × A). ops.name p.1 ≡ p.0) list
    → All (Owned ops) calls
    → Coherent ops (serves ops calls (start ops configured).0)
serves-start ops laws configured list up calls made run apart named own =
    serves-Coherent ops laws calls (start ops configured).0 own
      (start-Coherent ops laws configured list up made run apart named)
