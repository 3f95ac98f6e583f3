-- ===== src/Locator/Node/Mirror.antt =====
-- What the other locators know of the services of a locator: src/service/locator.cpp.
use cocaine_core.Base.{
  subst, String, ◌≡◌, refl, sym, false, Option, none, some, List, [], ◌∷◌, ◌++◌, map, append-nil,
  arith, if◌then◌else◌, Bool-cases, inl, inr, is_empty, ◌==◌, string_key, ==_refl,
}
use cocaine_core.Base.Map.{Unique, Map, lookup}
use cocaine_core.Gateway.{Description}
use cocaine_core.Rpc.Queue.{Event, error, choke, chunk, Operation, chunk, Streamed, Appended}
use cocaine_core.Locator.Node.{Update, each}

-- What a reader of a stream knows of the service `name` after an update, if it knew `known`: a
-- description without endpoints tells of a removal, as in connect_sink_t::on_announce.
abbrev pub visible : {E P : Type 0} → Option (Description E P) → Option (Description E P)
visible found = elim found [
  | none ↦ none
  | some meta ↦ if is_empty meta.endpoints then none else some meta
]

unfoldable pub learn :
    {E P : Type 0} → String → Update E P → Option (Description E P) → Option (Description E P)
learn name update known = elim (lookup name update.1) [
  | none ↦ known
  | some meta ↦ visible (some meta)
]

unfoldable pub hear :
    {E P : Type 0}
    → String
    → Event (Update E P)
    → Option (Description E P)
    → Option (Description E P)
hear name (chunk update) known = learn name update known
hear name (error ec reason) known = known
hear name choke known = known

-- The same after the messages of a stream, in their order.
unfoldable pub reads :
    {E P : Type 0}
    → String
    → List (Operation (Update E P))
    → Option (Description E P)
    → Option (Description E P)
reads name [] known = known
reads name (op ∷ ops) known = reads name ops (hear name op.event known)

pub reads-append :
    {E P : Type 0} (name : String) (ops more : List (Operation (Update E P)))
    (known : Option (Description E P))
    → reads name (ops ++ more) known ≡ reads name more (reads name ops known)
unfolding reads
reads-append name [] more known = refl
reads-append name (op ∷ ops) more known = reads-append name ops more (hear name op.event known)

-- The messages of one stream among those that were sent.
unfoldable pub sent_to : {A : Type 0} → String → List (String × Operation A) → List (Operation A)
sent_to uuid [] = []
sent_to uuid ((other, op) ∷ posts) =
    if other == uuid then op ∷ sent_to uuid posts else sent_to uuid posts

module _ {A : Type 0} where
  sent_to-append :
      (uuid : String) (posts more : List (String × Operation A))
      → sent_to uuid (posts ++ more) ≡ sent_to uuid posts ++ sent_to uuid more
  unfolding sent_to
  sent_to-append uuid [] more = refl
  sent_to-append uuid ((other, op) ∷ posts) more = ground (arith, sent_to-append uuid posts more)

  sent_to-own :
      (uuid : String) (ops : List (Operation A)) → sent_to uuid (map (λ op. (uuid, op)) ops) ≡ ops
  unfolding sent_to
  sent_to-own uuid [] = refl
  sent_to-own uuid (op ∷ ops) = ground (arith, ==_refl uuid, sent_to-own uuid ops)

  sent_to-other :
      (uuid other : String) (ops : List (Operation A))
      → (other == uuid) ≡ false
      → sent_to uuid (map (λ op. (other, op)) ops) ≡ []
  unfolding sent_to
  sent_to-other uuid other [] ne = refl
  sent_to-other uuid other (op ∷ ops) ne = ground (arith, sent_to-other uuid other ops ne)

  module _ (call : Streamed A → Appended (Streamed A) A) (uuid : String) where
    pub lookup-each :
        (m : Map String (Streamed A))
        → lookup uuid (each call m).0
          ≡ (elim (lookup uuid m) [ none ↦ none | some s ↦ some (call s).queue ])
    unfolding each lookup
    lookup-each [] = refl
    lookup-each ((other, s) ∷ m) = ground (arith, lookup-each m)

    pub sent_to-each :
        (m : Map String (Streamed A))
        → Unique m
        → sent_to uuid (each call m).1
          ≡ (elim (lookup uuid m) [ none ↦ [] | some s ↦ (call s).sent ])
    unfolding each lookup
    sent_to-each [] u = unfold sent_to in refl
    sent_to-each ((other, s) ∷ m) u = elim (Bool-cases (other == uuid)) [
      | inl own ↦
          let same : other ≡ uuid = (string_key.same_iff other uuid).0 own in
          let split = sent_to-append uuid (map (λ op. (other, op)) (call s).sent) (each call m).1 in
          let mine : sent_to uuid (map (λ op. (other, op)) (call s).sent) ≡ (call s).sent =
            subst (λ k. sent_to uuid (map (λ op. (k, op)) (call s).sent) ≡ (call s).sent) (sym same)
              (sent_to-own uuid (call s).sent) in
          let last : lookup uuid m ≡ none = subst (λ k. lookup k m ≡ none) same u.0 in
          let rest = sent_to-each m u.1 in ground (arith, append-nil (call s).sent)
      | inr apart ↦
          let split = sent_to-append uuid (map (λ op. (other, op)) (call s).sent) (each call m).1 in
          let none_mine = sent_to-other uuid other (call s).sent apart in
          let rest = sent_to-each m u.1 in ground arith
    ]

  pub each-Unique :
      (call : Streamed A → Appended (Streamed A) A) (m : Map String (Streamed A))
      → Unique m
      → Unique (each call m).0
  unfolding each
  each-Unique call [] u = tt
  each-Unique call ((other, s) ∷ m) u =
      ground (arith, lookup-each call other m, each-Unique call m u.1)
