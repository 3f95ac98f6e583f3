-- ===== src/Locator/Sinks/Heard.antt =====
-- What the gateway of src/service/locator.cpp knows after the updates of a node.
use text.Mathlib.TextEquality.{eq_iff}
use cocaine_core.Base.{
  All, String, ◌≡◌, refl, ap, ◌∙◌, sym, subst, true, Option, none, some, List, [], ◌∷◌, arith,
  if◌then◌else◌, Bool-cases, Option-cases, inl, inr, is_empty, ◌==◌, string_key, ==_refl,
}
use cocaine_core.Base.Map.{Map, lookup, Unique}
use cocaine_core.Errors.Codes.{Code}
use cocaine_core.Gateway.{Remotes, Description, consume, cleanup, description}
use cocaine_core.Gateway.Registry.{Request, consumes, cleans, serve, serve-expected, located}
use cocaine_core.Rpc.Queue.{Operation, Event, chunk, error, choke}
use cocaine_core.Locator.Node.{Update}
use cocaine_core.Locator.Node.Mirror.{visible, learn, hear, reads}
use cocaine_core.Locator.Sinks.{absorb}

-- The description of a registered service.
abbrev pub registered : {E P : Type 0} → Remotes E P → String → String → Option (Description E P)
registered g uuid name = elim (located g uuid name) [ none ↦ none | some r ↦ some (description r) ]

module _ {E P : Type 0} where
  -- The request that one entry of an update makes.
  abbrev request : String → String → Description E P → Request E P
  request uuid name meta =
      if is_empty meta.endpoints
      then cleans uuid name
      else consumes uuid name meta.version meta.endpoints meta.protocol

  -- One request that does not fail.
  registered-request :
      (uuid name n : String) (meta : Description E P) (g : Remotes E P)
      → Unique g
      → (serve (request uuid name meta) g).1 ≡ none
      → registered (serve (request uuid name meta) g).0 uuid n
        ≡ (if name == n then visible (some meta) else registered g uuid n)
  registered-request uuid name n meta g keys took = elim (Bool-cases (is_empty meta.endpoints)) [
    | inl gone ↦
        let same : request uuid name meta ≡ cleans uuid name = ground arith in
        let (now, failed, kept) = serve-expected (cleans uuid name) g uuid n keys in
        subst
          (λ r.
            registered (serve r g).0 uuid n
            ≡ (if name == n then visible (some meta) else registered g uuid n))
          (sym same) (ground (arith, ==_refl uuid, eq_iff name n, eq_iff n name))
    | inr there ↦
        let r : Request E P = consumes uuid name meta.version meta.endpoints meta.protocol in
        let same : request uuid name meta ≡ r = ground arith in
        let fine : (serve r g).1 ≡ none = subst (λ q. (serve q g).1 ≡ none) same took in
        let (now, failed, kept) = serve-expected r g uuid n keys in
        subst
          (λ q.
            registered (serve q g).0 uuid n
            ≡ (if name == n then visible (some meta) else registered g uuid n))
          (sym same) (ground (arith, ==_refl uuid, eq_iff name n, eq_iff n name))
  ]

  absorb-request :
      (uuid name : String) (meta : Description E P) (update : Map String (Description E P))
      (g : Remotes E P)
      → (absorb uuid ((name, meta) ∷ update) g).1 ≡ none
      → ((serve (request uuid name meta) g).1 ≡ none)
        × (absorb uuid ((name, meta) ∷ update) g
            ≡ absorb uuid update (serve (request uuid name meta) g).0)
  unfolding absorb
  absorb-request uuid name meta update g took =
      let same : serve (request uuid name meta) g ≡ (
          if is_empty meta.endpoints
          then cleanup uuid name g
          else consume uuid name meta.version meta.endpoints meta.protocol g) =
        unfold serve in ground arith in
      elim (Option-cases (serve (request uuid name meta) g).1) [
        | inl fine ↦ (fine, ground arith)
        | inr (ec, failed) ↦ absurd (ground arith)
      ]

  absorb-registered :
      (uuid n : String) (update : Map String (Description E P)) (g : Remotes E P)
      → Unique update
      → Unique g
      → (absorb uuid update g).1 ≡ none
      → Unique (absorb uuid update g).0
        × (registered (absorb uuid update g).0 uuid n ≡ (elim (lookup n update) [
          | none ↦ registered g uuid n
          | some meta ↦ visible (some meta)
        ]))
  unfolding absorb lookup
  absorb-registered uuid n [] g names keys took = (keys, refl)
  absorb-registered uuid n ((name, meta) ∷ update) g names keys took =
      let (fine, next) = absorb-request uuid name meta update g took in
      let g' : Remotes E P = (serve (request uuid name meta) g).0 in
      let keys' : Unique g' = (serve-expected (request uuid name meta) g uuid n keys).2 in
      let rest =
        absorb-registered uuid n update g' names.1 keys' (subst (λ r. r.1 ≡ none) next took) in
      let now = registered-request uuid name n meta g keys fine in
      let last : (name == n) ≡ true → lookup n update ≡ none =
        λ hit. subst (λ k. lookup k update ≡ none) ((eq_iff name n).0 hit) names.0 in
      subst
        (λ r.
          Unique r.0
          × (registered r.0 uuid n ≡ (elim (lookup n ((name, meta) ∷ update)) [
            | none ↦ registered g uuid n
            | some m ↦ visible (some m)
          ])))
        (sym next)
        (
          rest.0,
          elim (Bool-cases (name == n)) [
            | inl hit ↦ let none_later = last hit in ground (arith, rest.1)
            | inr miss ↦ ground (arith, rest.1)
          ],
        )

  unfoldable pub absorb_event :
      String → Event (Update E P) → Remotes E P → Remotes E P × Option Code
  absorb_event uuid (chunk update) g = absorb uuid update.1 g
  absorb_event uuid (error ec reason) g = (g, none)
  absorb_event uuid choke g = (g, none)

  -- The messages of a stream in their order, until an update fails.
  unfoldable pub absorb_all :
      String → List (Operation (Update E P)) → Remotes E P → Remotes E P × Option Code
  absorb_all uuid [] g = (g, none)
  absorb_all uuid (op ∷ ops) g =
      let (g', failure) = absorb_event uuid op.event g in
      elim failure [ none ↦ absorb_all uuid ops g' | some ec ↦ (g', some ec) ]

  -- The services of an update have different names.
  abbrev pub Named : Event (Update E P) → Type 0
  Named (chunk update) = Unique update.1
  Named (error ec reason) = Unit {0}
  Named choke = Unit {0}

  absorb_event-hear :
      (uuid n : String) (e : Event (Update E P)) (g : Remotes E P)
      → Named e
      → Unique g
      → (absorb_event uuid e g).1 ≡ none
      → Unique (absorb_event uuid e g).0
        × (registered (absorb_event uuid e g).0 uuid n ≡ hear n e (registered g uuid n))
  unfolding absorb_event hear learn
  absorb_event-hear uuid n (chunk update) g named keys took =
      absorb-registered uuid n update.1 g named keys took
  absorb_event-hear uuid n (error ec reason) g named keys took = (keys, refl)
  absorb_event-hear uuid n choke g named keys took = (keys, refl)

  pub absorb_all-reads :
      (uuid n : String) (ops : List (Operation (Update E P))) (g : Remotes E P)
      → All (λ op. Named op.event) ops
      → Unique g
      → (absorb_all uuid ops g).1 ≡ none
      → registered (absorb_all uuid ops g).0 uuid n ≡ reads n ops (registered g uuid n)
  unfolding absorb_all reads
  absorb_all-reads uuid n [] g names keys took = refl
  absorb_all-reads uuid n (op ∷ ops) g names keys took =
      elim (Option-cases (absorb_event uuid op.event g).1) [
        | inr (ec, failed) ↦ absurd (ground arith)
        | inl fine ↦
            let g' : Remotes E P = (absorb_event uuid op.event g).0 in
            let same : absorb_all uuid (op ∷ ops) g ≡ absorb_all uuid ops g' =
              unfold absorb_all in ground arith in
            let now = absorb_event-hear uuid n op.event g names.0 keys fine in
            let rest =
              absorb_all-reads uuid n ops g' names.1 now.0 (subst (λ r. r.1 ≡ none) same took) in
            ap (λ (r : Remotes E P × Option Code). registered r.0 uuid n) same
            ∙ rest
            ∙ ap (λ known. reads n ops known) now.1
      ]
