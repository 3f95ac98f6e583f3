-- ===== src/Context/Core/Ends.antt =====
-- How the constructor of context_impl_t in src/context.cpp ends.
use cocaine_core.Base.{
  String, ◌≡◌, refl, ap, ◌∙◌, subst, true, false, Option, none, some, List, [], ◌∷◌, ◌++◌,
}
use cocaine_core.Context.Core.{
  Actors, prepared, shutdown, new_core, insert_all, terminate, start, names_of,
}
use cocaine_core.Context.Core.Start.{
  Run, running, all_made, exposures, removals, core_of, start-published, running-Before,
  all_made-names, terminate-removals, start_absent_of, Inserted, insert_all-made,
}

-- Where every configured service is made and runs, the constructor ends without an exception
-- with all of them in service in the order of the configuration, none unpublished, and has fired
-- `exposed` for each in that order and then `prepared`.
pub start-runs :
    {A E P : Type 0} (ops : Actors A E P) (configured : List (String × Option A))
    (list up : List (String × A))
    → all_made configured ≡ some list
    → running ops list ≡ (up, [])
    → start ops configured ≡ (core_of up [] true (exposures ops up ++ prepared ∷ []), true)
unfolding start
start-runs ops configured list up made run =
    let (i, p) = start-published ops configured list (up, []) made run in rw (i, start, p)

-- Where every configured service is made and one does not run, the constructor ends with an
-- exception, no service is left, and those in front of it, which did run, were each told of by
-- `exposed`, in order, then `shutdown` was fired, then `removed` for each of them, in order, and
-- nothing else; the one that did not run and the rest were never told of.
pub start-unwinds :
    {A E P : Type 0} (ops : Actors A E P) (configured : List (String × Option A))
    (list up : List (String × A)) (x : String × A) (left : List (String × A))
    → all_made configured ≡ some list
    → running ops list ≡ (up, x ∷ left)
    → start ops configured
      ≡ (core_of [] (x ∷ left) false (exposures ops up ++ shutdown ∷ removals ops up), false)
unfolding start terminate
start-unwinds {A} ops configured list up x left made run =
    let (i, p) = start-published ops configured list (up, x ∷ left) made run in
    let (rest, e) = running-Before ops list in
    let all = all_made-names configured list made in
    let same = ap (λ (r : Run A). names_of r.0) run in
    let names : names_of configured ≡ names_of up ++ rest = all ∙ e ∙ ap (λ n. n ++ rest) same in
    rw (i, start, p)
      (ap (λ c. (c, false))
        (terminate-removals ops (names_of configured) up rest (x ∷ left) (exposures ops up) names))

-- Where a configured service cannot be made, the constructor ends with an exception, no service is
-- left, and `shutdown` is all that was fired: no service ran.
pub start-absent :
    {A E P : Type 0} (ops : Actors A E P) (configured : List (String × Option A))
    → all_made configured ≡ none
    → ((start ops configured).1 ≡ false)
      × ((start ops configured).0.services ≡ [])
      × ((start ops configured).0.fired ≡ shutdown ∷ [])
unfolding start terminate
start-absent ops configured missing =
    start_absent_of ops configured (insert_all ops configured new_core) refl (
      subst (λ o. Inserted o [] [] (insert_all ops configured new_core)) missing
        (insert_all-made ops configured [] []))
