-- ===== src/Context/Core/Start.antt =====
-- The two ends of the constructor of context_impl_t in src/context.cpp.
use cocaine_core.Base.{
  String, ◌≡◌, refl, ap, ◌∙◌, sym, subst, Bool, true, false, Option, none, some, List, [], ◌∷◌,
  ◌++◌, map, append_assoc, append-nil, arith, Option-cases, inl, inr, is_empty, string_key, ==_refl,
}
use cocaine_core.Context.Core.{
  Actors, Fired, shutdown, exposed, removed, Core, new_core, publish, publish_all, insert_with,
  insert_all, remove, remove_all, terminate, start, names_of, quote, farewell, erase_service,
}

abbrev pub fresh : {A E P : Type 0} → List (String × A) → List (Fired E P) → Core A E P
fresh unpublished fired = record {
  services = [];
  unpublished = unpublished;
  bootstrapped = false;
  fired = fired;
}

abbrev pub also :
    {A : Type 0} → String × A → Option (List (String × A)) → Option (List (String × A))
also x none = none
also x (some list) = some (x ∷ list)

-- The services, if all could be made.
abbrev pub all_made : {A : Type 0} → List (String × Option A) → Option (List (String × A))
all_made [] = some []
all_made ((name, none) ∷ configured) = none
all_made ((name, some a) ∷ configured) = also (name, a) (all_made configured)

abbrev pub Run : Type 0 → Type 0
Run A = List (String × A) × List (String × A)

abbrev pub ahead : {A : Type 0} → String × A → Run A → Run A
ahead x (up, left) = (x ∷ up, left)

-- What the loop of the constructor does where all services are made and where one is not.
abbrev pub Inserted :
    {A E P : Type 0}
    → Option (List (String × A))
    → List (String × A)
    → List (Fired E P)
    → Core A E P × Bool
    → Type 0
Inserted none u f (c, ok) = (ok ≡ false) × (c.services ≡ []) × (c.fired ≡ f)
Inserted (some list) u f r = r ≡ (fresh (u ++ list) f, true)

also-Inserted :
    {A E P : Type 0} (o : Option (List (String × A))) (x : String × A) (u : List (String × A))
    (f : List (Fired E P)) (r : Core A E P × Bool)
    → Inserted o (u ++ x ∷ []) f r
    → Inserted (also x o) u f r
also-Inserted none x u f r h = h
also-Inserted (some list) x u f r h = h ∙ ap (λ l. (fresh l f, true)) (append_assoc u (x ∷ []) list)

abbrev pub core_of :
    {A E P : Type 0} → List (String × A) → List (String × A) → Bool → List (Fired E P) → Core A E P
core_of services u b fired = record {
  services = services;
  unpublished = u;
  bootstrapped = b;
  fired = fired;
}

-- The configured services that did not get to run.
abbrev pub Before : List String → List String → Type 0
Before names all = (rest : List String) × (all ≡ names ++ rest)

pub all_made-names :
    {A : Type 0} (configured : List (String × Option A)) (list : List (String × A))
    → all_made configured ≡ some list
    → names_of configured ≡ names_of list
all_made-names [] list e = ground arith
all_made-names ((name, none) ∷ configured) list e = cc
all_made-names ((name, some a) ∷ configured) list e = elim (Option-cases (all_made configured)) [
  | inl missing ↦ absurd (ground arith)
  | inr (more, all) ↦
      let r = all_made-names configured more all in
      ground (arith, all_made-names configured more all)
]

module _ {A E P : Type 0} (ops : Actors A E P) where
  -- The services that run, up to the first that does not, and the rest.
  abbrev pub running : List (String × A) → Run A
  running [] = ([], [])
  running ((name, a) ∷ list) = elim (ops.run a) [
    | none ↦ ([], (name, a) ∷ list)
    | some b ↦ ahead (name, b) (running list)
  ]

  abbrev pub exposures : List (String × A) → List (Fired E P)
  exposures list = map (λ p. exposed (ops.name p.1) (quote ops p.1)) list

  abbrev pub removals : List (String × A) → List (Fired E P)
  removals list =
      map (λ p. removed (ops.name (ops.terminate p.1)) (farewell ops (ops.terminate p.1))) list

  pub insert_all-made :
      (configured : List (String × Option A)) (u : List (String × A)) (f : List (Fired E P))
      → Inserted (all_made configured) u f (insert_all ops configured (fresh u f))
  unfolding insert_all insert_with
  insert_all-made [] u f = ap (λ l. (fresh l f, true)) (sym (append-nil u))
  insert_all-made ((name, none) ∷ configured) u f = (refl, refl, refl)
  insert_all-made ((name, some a) ∷ configured) u f =
      also-Inserted (all_made configured) (name, a) u f
        (insert_all ops configured (fresh (u ++ (name, a) ∷ []) f))
        (insert_all-made configured (u ++ (name, a) ∷ []) f)

  abbrev pub published : Core A E P → Run A → Core A E P × Bool
  published c (up, left) = (
    record c { services = c.services ++ up; unpublished = left; fired = c.fired ++ exposures up },
    is_empty left,
  )

  published-ahead :
      (c : Core A E P) (name : String) (b : A) (r : Run A)
      → published
          (record c {
            services = c.services ++ (name, b) ∷ [];
            fired = c.fired ++ exposed (ops.name b) (quote ops b) ∷ [];
          })
          r
        ≡ published c (ahead (name, b) r)
  published-ahead c name b (up, left) = rw (
    append_assoc c.services ((name, b) ∷ []) up,
    append_assoc c.fired (exposed (ops.name b) (quote ops b) ∷ []) (exposures up),
  )

  pub publish_all-running :
      (list : List (String × A)) (c : Core A E P)
      → publish_all ops list c ≡ published c (running list)
  unfolding publish_all publish
  publish_all-running [] c = rw (append-nil c.services, append-nil c.fired)
  publish_all-running ((name, a) ∷ list) c = elim (Option-cases (ops.run a)) [
    | inl threw ↦
        rw (threw, publish_all, publish, running) (rw (append-nil c.services, append-nil c.fired))
    | inr (b, up) ↦
        rw (up, publish_all, publish, running)
          (publish_all-running list (record c {
            services = c.services ++ (name, b) ∷ [];
            fired = c.fired ++ exposed (ops.name b) (quote ops b) ∷ [];
          })
            ∙ published-ahead c name b (running list))
  ]

  pub running-Before :
      (list : List (String × A)) → Before (names_of (running list).0) (names_of list)
  running-Before [] = ([], refl)
  running-Before ((name, a) ∷ list) = elim (Option-cases (ops.run a)) [
    | inl threw ↦ (names_of ((name, a) ∷ list), ground arith)
    | inr (b, up) ↦ let (rest, e) = running-Before list in (rest, ground arith)
  ]

  remove_all-absent :
      (names : List String) (u : List (String × A)) (b : Bool) (fired : List (Fired E P))
      → remove_all ops names (core_of [] u b fired) ≡ core_of [] u b fired
  unfolding remove_all remove
  remove_all-absent [] u b fired = refl
  remove_all-absent (name ∷ names) u b fired = remove_all-absent names u b fired

  remove-head :
      (name : String) (a : A) (list u : List (String × A)) (b : Bool) (fired : List (Fired E P))
      → remove ops name (core_of ((name, a) ∷ list) u b fired)
        ≡ some (
          core_of list u b
              (fired ++ removed (ops.name (ops.terminate a)) (farewell ops (ops.terminate a)) ∷ []),
          ops.terminate a,
        )
  unfolding remove erase_service
  remove-head name a list u b fired = ground (arith, ==_refl name)

  remove_all-cons :
      (name : String) (names : List String) (c c' : Core A E P) (a : A)
      → remove ops name c ≡ some (c', a)
      → remove_all ops (name ∷ names) c ≡ remove_all ops names c'
  unfolding remove_all
  remove_all-cons name names c c' a e = rw (e, remove_all)

  -- Services that stand in the order of their removal all go, each with its signal.
  pub remove_all-removals :
      (list : List (String × A)) (rest : List String) (u : List (String × A)) (b : Bool)
      (fired : List (Fired E P))
      → remove_all ops (names_of list ++ rest) (core_of list u b fired)
        ≡ core_of [] u b (fired ++ removals list)
  unfolding remove_all
  remove_all-removals [] rest u b fired =
      remove_all-absent rest u b fired ∙ ap (core_of [] u b) (sym (append-nil fired))
  remove_all-removals ((name, a) ∷ list) rest u b fired =
      let bye = removed (ops.name (ops.terminate a)) (farewell ops (ops.terminate a)) in
      remove_all-cons name (names_of list ++ rest) (core_of ((name, a) ∷ list) u b fired)
        (core_of list u b (fired ++ bye ∷ [])) (ops.terminate a) (remove-head name a list u b fired)
      ∙ remove_all-removals list rest u b (fired ++ bye ∷ [])
      ∙ ap (core_of [] u b) (append_assoc fired (bye ∷ []) (removals list))

  -- The services that `terminate` removes, of those that run.
  pub terminate-removals :
      (names : List String) (up : List (String × A)) (rest : List String) (u : List (String × A))
      (fired : List (Fired E P))
      → names ≡ names_of up ++ rest
      → terminate ops names (core_of up u false fired)
        ≡ core_of [] u false (fired ++ shutdown ∷ removals up)
  unfolding terminate
  terminate-removals names up rest u fired e =
      ap (λ n. remove_all ops n (core_of up u false (fired ++ shutdown ∷ []))) e
      ∙ remove_all-removals up rest u false (fired ++ shutdown ∷ [])
      ∙ ap (core_of [] u false) (append_assoc fired (shutdown ∷ []) (removals up))

  terminate-absent :
      (names : List String) (c : Core A E P)
      → c.services ≡ []
      → ((terminate ops names c).services ≡ [])
        × ((terminate ops names c).fired ≡ c.fired ++ shutdown ∷ [])
  unfolding terminate
  terminate-absent names c nothing =
      let e : terminate ops names c
          ≡ core_of [] c.unpublished c.bootstrapped (c.fired ++ shutdown ∷ []) =
        ap
          (λ s.
            remove_all ops names
              (core_of s c.unpublished c.bootstrapped (c.fired ++ shutdown ∷ [])))
          nothing
        ∙ remove_all-absent names c.unpublished c.bootstrapped (c.fired ++ shutdown ∷ []) in
      (ap (λ c'. c'.services) e, ap (λ c'. c'.fired) e)

  pub start-published :
      (configured : List (String × Option A)) (list : List (String × A)) (r : Run A)
      → all_made configured ≡ some list
      → running list ≡ r
      → (insert_all ops configured new_core ≡ (core_of [] list false [], true))
        × (publish_all ops list (core_of [] list false [])
            ≡ (core_of r.0 r.1 false (exposures r.0), is_empty r.1))
  start-published configured list r made run =
      let i =
        subst (λ o. Inserted o [] [] (insert_all ops configured new_core)) made
          (insert_all-made configured [] []) in
      (
        i,
        publish_all-running list (core_of [] list false [])
            ∙ ap (published (core_of [] list false [])) run,
      )

  -- One service that is not made stops the constructor.
  pub start_absent_of :
      (configured : List (String × Option A)) (r : Core A E P × Bool)
      → insert_all ops configured new_core ≡ r
      → Inserted none [] [] r
      → ((start ops configured).1 ≡ false)
        × ((start ops configured).0.services ≡ [])
        × ((start ops configured).0.fired ≡ shutdown ∷ [])
  unfolding start
  start_absent_of configured (c, ok) e (stopped, nothing, silent) =
      let (gone, bye) = terminate-absent (names_of configured) c nothing in
      rw (e, start, stopped) (refl, gone, bye ∙ ap (λ f. f ++ shutdown ∷ []) silent)
