-- ===== src/Context/Core/Heard/Calls.antt =====
-- The calls of insert_with and remove of src/context.cpp once the context has started.
use cocaine_core.Context.Core.Heard.{
  Distinct, Call, Named, Distinct-erase, find_service-none, All-erase, Distinct-snoc, names-erase,
  removes, erase_name, names-snoc, inserts, find_service-name, hear-append, Coherent,
}
use cocaine_core.Base.{
  ◌⊎◌, ◌≢◌, subst, String, ◌≡◌, refl, sym, ap, ◌∙◌, Option, none, some, List, [], ◌∷◌, ◌++◌, arith,
  Option-cases, All, All-append, string_key, inl, inr,
}
use cocaine_core.Context.Core.{
  InsertError, farewell, quote, Actors, exposed, removed, Core, publish, insert_with, remove,
  names_of, find_service, erase_service,
}

exposed-Coherent :
    {A E P : Type 0} (ops : Actors A E P) (laws : Named ops) (name : String) (a b : A)
    (c : Core A E P)
    → Coherent ops c
    → ops.name a ≡ name
    → find_service name c.services ≡ none
    → ops.run a ≡ some b
    → Coherent ops (record c {
      services = c.services ++ (name, b) ∷ [];
      fired = c.fired ++ exposed (ops.name b) (quote ops b) ∷ [];
    })
exposed-Coherent ops laws name a b c h own new up =
    let kept : ops.name b ≡ name = laws.run a b up ∙ own in
    record {
      bootstrapped = h.bootstrapped;
      heard =
          hear-append [] c.fired (exposed (ops.name b) (quote ops b) ∷ [])
          ∙ ap (λ ns. ns ++ ops.name b ∷ []) h.heard
          ∙ ap (λ n. names_of c.services ++ n ∷ []) kept
          ∙ sym (names-snoc name b c.services);
      named = All-append (λ p. ops.name p.1 ≡ p.0) c.services ((name, b) ∷ []) h.named (kept, tt);
      distinct = subst Distinct (sym (names-snoc name b c.services)) (
          Distinct-snoc name (names_of c.services) h.distinct
            (find_service-none name c.services new));
    }

insert_with-Coherent :
    {A E P : Type 0} (ops : Actors A E P) (laws : Named ops) (name : String) (a : A)
    (c c' : Core A E P)
    → Coherent ops c
    → ops.name a ≡ name
    → insert_with ops name (some a) c ≡ inr c'
    → Coherent ops c'
unfolding insert_with publish
insert_with-Coherent ops laws name a c c' h own e =
    elim (Option-cases (find_service name c.services)) [
      | inr (found, taken) ↦ absurd (ground arith)
      | inl new ↦ elim (Option-cases (ops.run a)) [
        | inl threw ↦ let booted = h.bootstrapped in absurd (ground arith)
        | inr (b, up) ↦
            let booted = h.bootstrapped in
            let me : record c {
              services = c.services ++ (name, b) ∷ [];
              fired = c.fired ++ exposed (ops.name b) (quote ops b) ∷ [];
            }
                ≡ c' =
              ground arith in
            subst (Coherent ops) me (exposed-Coherent ops laws name a b c h own new up)
      ]
    ]

removed-Coherent :
    {A E P : Type 0} (ops : Actors A E P) (laws : Named ops) (name : String) (found : String × A)
    (c : Core A E P)
    → Coherent ops c
    → find_service name c.services ≡ some found
    → Coherent ops (record c {
      services = erase_service name c.services;
      fired =
          c.fired
          ++ removed (ops.name (ops.terminate found.1)) (farewell ops (ops.terminate found.1)) ∷ [];
    })
removed-Coherent {A} ops laws name found c h there =
    let a = ops.terminate found.1 in
    let kept : ops.name a ≡ name =
      laws.terminate found.1 ∙ find_service-name ops.name name c.services found h.named there in
    record {
      bootstrapped = h.bootstrapped;
      heard =
          hear-append [] c.fired (removed (ops.name a) (farewell ops a) ∷ [])
          ∙ ap (erase_name (ops.name a)) h.heard
          ∙ ap (λ n. erase_name n (names_of c.services)) kept
          ∙ sym (names-erase name c.services);
      named = All-erase (λ (p : String × A). ops.name p.1 ≡ p.0) name c.services h.named;
      distinct =
          subst Distinct (sym (names-erase name c.services))
            (Distinct-erase name (names_of c.services) h.distinct);
    }

remove-Coherent :
    {A E P : Type 0} (ops : Actors A E P) (laws : Named ops) (name : String) (a : A)
    (c c' : Core A E P)
    → Coherent ops c
    → remove ops name c ≡ some (c', a)
    → Coherent ops c'
unfolding remove
remove-Coherent ops laws name a c c' h e = elim (Option-cases (find_service name c.services)) [
  | inl missing ↦ absurd (ground arith)
  | inr (found, there) ↦
      let me : record c {
        services = erase_service name c.services;
        fired =
            c.fired
            ++ removed (ops.name (ops.terminate found.1)) (farewell ops (ops.terminate found.1))
              ∷ [];
      }
          ≡ c' =
        ground arith in
      subst (Coherent ops) me (removed-Coherent ops laws name found c h there)
]

abbrev pub inserted_or : {A E P : Type 0} → Core A E P → InsertError ⊎ Core A E P → Core A E P
inserted_or c (inl e) = c
inserted_or c (inr c') = c'

abbrev pub removed_or : {A E P : Type 0} → Core A E P → Option (Core A E P × A) → Core A E P
removed_or c none = c
removed_or c (some (c', a)) = c'

-- A caller of insert_with or remove, to which an exception leaves the context as it is.
unfoldable pub serve : {A E P : Type 0} → Actors A E P → Call A → Core A E P → Core A E P
serve ops (inserts name made) c = inserted_or c (insert_with ops name made c)
serve ops (removes name) c = removed_or c (remove ops name c)

unfoldable pub serves : {A E P : Type 0} → Actors A E P → List (Call A) → Core A E P → Core A E P
serves ops [] c = c
serves ops (call ∷ calls) c = serves ops calls (serve ops call c)

-- A call that inserts an actor does so under the name of the actor.
abbrev pub Owned : {A E P : Type 0} → Actors A E P → Call A → Type 0
Owned ops (inserts name none) = Unit
Owned ops (inserts name (some a)) = ops.name a ≡ name
Owned ops (removes name) = Unit

insert_with-made :
    {A E P : Type 0} (ops : Actors A E P) (name : String) (c c' : Core A E P)
    → insert_with ops name none c ≢ inr c'
unfolding insert_with
insert_with-made ops name c c' e = elim (Option-cases (find_service name c.services)) [
  | inl new ↦ absurd (ground arith)
  | inr (found, taken) ↦ absurd (ground arith)
]

inserted_or-Coherent :
    {A E P : Type 0} (ops : Actors A E P) (c : Core A E P) (r : InsertError ⊎ Core A E P)
    → Coherent ops c
    → ((c' : Core A E P) → r ≡ inr c' → Coherent ops c')
    → Coherent ops (inserted_or c r)
inserted_or-Coherent ops c (inl e) h next = h
inserted_or-Coherent ops c (inr c') h next = next c' refl

removed_or-Coherent :
    {A E P : Type 0} (ops : Actors A E P) (c : Core A E P) (r : Option (Core A E P × A))
    → Coherent ops c
    → ((c' : Core A E P) (a : A) → r ≡ some (c', a) → Coherent ops c')
    → Coherent ops (removed_or c r)
removed_or-Coherent ops c none h next = h
removed_or-Coherent ops c (some (c', a)) h next = next c' a refl

serve-Coherent :
    {A E P : Type 0} (ops : Actors A E P) (laws : Named ops) (call : Call A) (c : Core A E P)
    → Owned ops call
    → Coherent ops c
    → Coherent ops (serve ops call c)
unfolding serve
serve-Coherent ops laws (inserts name none) c own h =
    inserted_or-Coherent ops c (insert_with ops name none c) h
      (λ c' e. absurd (insert_with-made ops name c c' e))
serve-Coherent ops laws (inserts name (some a)) c own h =
    inserted_or-Coherent ops c (insert_with ops name (some a) c) h
      (λ c' e. insert_with-Coherent ops laws name a c c' h own e)
serve-Coherent ops laws (removes name) c own h =
    removed_or-Coherent ops c (remove ops name c) h
      (λ c' a e. remove-Coherent ops laws name a c c' h e)

pub serves-Coherent :
    {A E P : Type 0} (ops : Actors A E P) (laws : Named ops) (calls : List (Call A))
    (c : Core A E P)
    → All (Owned ops) calls
    → Coherent ops c
    → Coherent ops (serves ops calls c)
unfolding serves
serves-Coherent ops laws [] c own h = h
serves-Coherent ops laws (call ∷ calls) c own h =
    serves-Coherent ops laws calls (serve ops call c) own.1 (serve-Coherent ops laws call c own.0 h)
