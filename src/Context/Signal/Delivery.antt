-- ===== src/Context/Signal/Delivery.antt =====
-- What a subscriber of include/cocaine/context/signal.hpp gets, whenever it starts to listen.
use cocaine_core.Base.{
  append-nil, count-append, append_assoc, sym, ◌∙◌, ap, count, ℕ, ◌≡◌, refl, ◌≢◌, inl, inr, Bool,
  true, List, [], ◌∷◌, ◌++◌, arith, nat_beq, if◌then◌else◌, Bool-cases, keep, nat_key, string_key,
  list_key,
}
use cocaine_core.Context.Signal.{new_signal, Signal, visit_event, replay, listen, broadcast, invoke}

pub data Command (E : Type 0) : Type 0 where
  listens : ℕ → Command E
  invokes : (ℕ → Bool) → E → Command E

unfoldable pub step :
    {E : Type 0} → (ℕ → E → Bool) → (E → Bool) → Command E → Signal E → Signal E × List (ℕ × E)
step handles kept (listens slot) s = listen handles slot s
step handles kept (invokes alive event) s = invoke handles kept alive event s

-- The commands in order, with everything that they post.
unfoldable pub run :
    {E : Type 0}
    → (ℕ → E → Bool)
    → (E → Bool)
    → List (Command E)
    → Signal E
    → Signal E × List (ℕ × E)
run handles kept [] s = (s, [])
run handles kept (c ∷ cs) s =
    let (s', posts) = step handles kept c s in
    let (s'', more) = run handles kept cs s' in (s'', posts ++ more)

-- The events posted to one dispatch.
abbrev pub events_of : {E : Type 0} → ℕ → List (ℕ × E) → List E
events_of slot [] = []
events_of slot ((other, event) ∷ posts) =
    if nat_beq other slot then event ∷ events_of slot posts else events_of slot posts

-- The events invoked by some commands.
abbrev pub invoked : {E : Type 0} → List (Command E) → List E
invoked [] = []
invoked (listens slot ∷ cs) = invoked cs
invoked (invokes alive event ∷ cs) = event ∷ invoked cs

-- No command makes the dispatch listen.
abbrev pub Unheard : {E : Type 0} → ℕ → List (Command E) → Type 0
Unheard x [] = Unit {0}
Unheard x (listens slot ∷ cs) = (slot ≢ x) × Unheard x cs
Unheard x (invokes alive event ∷ cs) = Unheard x cs

-- The dispatch is alive at every invocation.
abbrev pub Alive : {E : Type 0} → ℕ → List (Command E) → Type 0
Alive x [] = Unit {0}
Alive x (listens slot ∷ cs) = Alive x cs
Alive x (invokes alive event ∷ cs) = (alive x ≡ true) × Alive x cs

events_of-append :
    {E : Type 0} (x : ℕ) (ps qs : List (ℕ × E))
    → events_of x (ps ++ qs) ≡ events_of x ps ++ events_of x qs
events_of-append x [] qs = refl
events_of-append x ((y, e) ∷ ps) qs = ground (arith, events_of-append x ps qs)

keep-append_lem {ℓ} :
    {A : Type ℓ} (p : A → Bool) (xs ys : List A) → keep p (xs ++ ys) ≡ keep p xs ++ keep p ys
keep-append_lem p [] ys = refl
keep-append_lem p (x ∷ xs) ys = ground (arith, keep-append_lem p xs ys)

events_of-replay :
    {E : Type 0} (handles : ℕ → E → Bool) (x : ℕ) (history : List E)
    → events_of x (replay handles x history) ≡ keep (handles x) history
unfolding replay visit_event
events_of-replay handles x [] = refl
events_of-replay handles x (e ∷ history) = ground (arith, events_of-replay handles x history)

events_of-replay_other :
    {E : Type 0} (handles : ℕ → E → Bool) (x y : ℕ) (history : List E)
    → y ≢ x
    → events_of x (replay handles y history) ≡ []
unfolding replay visit_event
events_of-replay_other handles x y [] ne = refl
events_of-replay_other handles x y (e ∷ history) ne =
    ground (arith, events_of-replay_other handles x y history ne)

broadcast-absent :
    {E : Type 0} (handles : ℕ → E → Bool) (alive : ℕ → Bool) (event : E) (x : ℕ) (slots : List ℕ)
    → count x slots ≡ 0
    → (count x (broadcast handles alive event slots).0 ≡ 0)
      × (events_of x (broadcast handles alive event slots).1 ≡ [])
unfolding broadcast visit_event
broadcast-absent handles alive event x [] h = (refl, refl)
broadcast-absent handles alive event x (y ∷ slots) h =
    let rest = broadcast-absent handles alive event x slots (omega arith) in
    (ground (arith, rest.0), ground (arith, rest.1))

broadcast-once :
    {E : Type 0} (handles : ℕ → E → Bool) (alive : ℕ → Bool) (event : E) (x : ℕ) (slots : List ℕ)
    → count x slots ≡ 1
    → alive x ≡ true
    → (count x (broadcast handles alive event slots).0 ≡ 1)
      × (events_of x (broadcast handles alive event slots).1
          ≡ (if handles x event then event ∷ [] else []))
unfolding broadcast visit_event
broadcast-once handles alive event x [] h on = absurd (omega arith)
broadcast-once handles alive event x (y ∷ slots) h on = elim (Bool-cases (nat_beq y x)) [
  | inl own ↦
      let same : y ≡ x = ground arith in
      let rest = broadcast-absent handles alive event x slots (ground arith) in
      rw same (ground (arith, rest.0), ground (arith, rest.1))
  | inr other ↦
      let rest = broadcast-once handles alive event x slots (ground arith) on in
      (ground (arith, rest.0), ground (arith, rest.1))
]

-- A subscriber that listens already, and does not listen again, gets the events invoked.
run-subscribed :
    {E : Type 0} (handles : ℕ → E → Bool) (kept : E → Bool) (x : ℕ) (cs : List (Command E))
    (s : Signal E)
    → count x s.subscribers ≡ 1
    → Unheard x cs
    → Alive x cs
    → events_of x (run handles kept cs s).1 ≡ keep (handles x) (invoked cs)
unfolding run step listen invoke
run-subscribed handles kept x [] s once u a = refl
run-subscribed handles kept x (listens y ∷ cs) s once u a =
    let next : Signal _ = record s { subscribers = s.subscribers ++ y ∷ [] } in
    let rest =
      run-subscribed handles kept x cs next (ground (arith, count-append x s.subscribers (y ∷ [])))
        u.1 a in
    events_of-append x (replay handles y s.history) (run handles kept cs next).1
    ∙ ap (λ l. l ++ events_of x (run handles kept cs next).1)
        (events_of-replay_other handles x y s.history u.0)
    ∙ rest
run-subscribed {E = E} handles kept x (invokes alive e ∷ cs) s once u a =
    let left = broadcast handles alive e s.subscribers in
    let next : Signal E = record {
      history = if kept e then s.history ++ e ∷ [] else s.history;
      subscribers = left.0;
    } in
    let now = broadcast-once handles alive e x s.subscribers once a.0 in
    let rest = run-subscribed handles kept x cs next now.0 u a.1 in
    events_of-append x left.1 (run handles kept cs next).1 ∙ ground (arith, now.1, rest)

-- A dispatch that does not listen gets nothing, and the history grows by the events that are kept.
run-Unheard :
    {E : Type 0} (handles : ℕ → E → Bool) (kept : E → Bool) (x : ℕ) (cs : List (Command E))
    (s : Signal E)
    → count x s.subscribers ≡ 0
    → Unheard x cs
    → (events_of x (run handles kept cs s).1 ≡ [])
      × (count x (run handles kept cs s).0.subscribers ≡ 0)
      × ((run handles kept cs s).0.history ≡ s.history ++ keep kept (invoked cs))
unfolding run step listen invoke
run-Unheard handles kept x [] s absent u = (refl, absent, sym (append-nil s.history))
run-Unheard {E = E} handles kept x (listens y ∷ cs) s absent u =
    let next : Signal E = record s { subscribers = s.subscribers ++ y ∷ [] } in
    let rest =
      run-Unheard handles kept x cs next (ground (arith, count-append x s.subscribers (y ∷ [])))
        u.1 in
    (
      events_of-append x (replay handles y s.history) (run handles kept cs next).1
          ∙ ap (λ l. l ++ events_of x (run handles kept cs next).1)
              (events_of-replay_other handles x y s.history u.0)
          ∙ rest.0,
      rest.1,
      rest.2,
    )
run-Unheard {E = E} handles kept x (invokes alive e ∷ cs) s absent u =
    let left = broadcast handles alive e s.subscribers in
    let next : Signal E = record {
      history = if kept e then s.history ++ e ∷ [] else s.history;
      subscribers = left.0;
    } in
    let now = broadcast-absent handles alive e x s.subscribers absent in
    let rest = run-Unheard handles kept x cs next now.0 u in
    (
      events_of-append x left.1 (run handles kept cs next).1 ∙ ground (arith, now.1, rest.0),
      rest.1,
      rest.2 ∙ ground (arith, append_assoc s.history (e ∷ []) (keep kept (invoked cs))),
    )

run-append :
    {E : Type 0} (handles : ℕ → E → Bool) (kept : E → Bool) (cs ds : List (Command E))
    (s : Signal E)
    → (run handles kept (cs ++ ds) s).1
      ≡ (run handles kept cs s).1 ++ (run handles kept ds (run handles kept cs s).0).1
unfolding run
run-append handles kept [] ds s = refl
run-append handles kept (c ∷ cs) ds s =
    let next = step handles kept c s in
    ap (λ l. next.1 ++ l) (run-append handles kept cs ds next.0)
    ∙ sym (append_assoc next.1 (run handles kept cs next.0).1 _)

-- A dispatch that listens once, and is alive at every invocation after that, is posted exactly the
-- events that it has a slot for, in the order of their invocation: of those before it listened the
-- ones that the history keeps, and of those after it all.
pub events_of-run :
    {E : Type 0} (handles : ℕ → E → Bool) (kept : E → Bool) (x : ℕ)
    (before after : List (Command E))
    → Unheard x before
    → Unheard x after
    → Alive x after
    → events_of x (run handles kept (before ++ listens x ∷ after) new_signal).1
      ≡ keep (handles x) (keep kept (invoked before)) ++ keep (handles x) (invoked after)
unfolding run step listen
events_of-run {E = E} handles kept x before after unheard once alive =
    let start = run-Unheard handles kept x before new_signal refl unheard in
    let s = (run handles kept before new_signal).0 in
    let next : Signal E = record s { subscribers = s.subscribers ++ x ∷ [] } in
    let posts = replay handles x s.history in
    let one : count x next.subscribers ≡ 1 =
      ground (arith, count-append x s.subscribers (x ∷ []), start.1) in
    let rest = run-subscribed handles kept x after next one once alive in
    ap (events_of x) (run-append handles kept before (listens x ∷ after) new_signal)
    ∙ events_of-append x (run handles kept before new_signal).1 _
    ∙ ap (λ l. l ++ events_of x (posts ++ (run handles kept after next).1)) start.0
    ∙ events_of-append x posts (run handles kept after next).1
    ∙ ap (λ l. l ++ events_of x (run handles kept after next).1)
        (events_of-replay handles x s.history)
    ∙ ap (λ l. keep (handles x) s.history ++ l) rest
    ∙ ap (λ l. keep (handles x) l ++ keep (handles x) (invoked after)) start.2
