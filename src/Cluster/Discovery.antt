-- ===== src/Cluster/Discovery.antt =====
-- What multicast_t of src/cluster/multicast.cpp tells the locator.
use cocaine_core.Base.{
  ℕ, suc, ◌+◌, ◌*◌, String, ◌≡◌, refl, ◌∙◌, inl, inr, Bool, true, false, not, ◌&&◌, ◌||◌, Option,
  none, some, List, [], ◌∷◌, ◌++◌, arith, if◌then◌else◌, Bool-cases, ◌==◌, nat_key, string_key,
  list_key,
}
use cocaine_core.Base.Map.{contains, lookup, lookup-assign, lookup-erase}
use cocaine_core.Cluster.{
  new_multicast, on_expired, on_receive, on_publish, Effect, Multicast, Receipt, failed, garbled,
  announced, sends, links, drops,
}

-- A call of a handler: the signal `prepared`, the timer, the socket, or the timer of a node.
pub data Event (E : Type 0) : Type 0 where
  prepares : Option (List E) → Event E
  ticks : Bool → Option (List E) → Event E
  receives : Receipt E → ℕ → Event E
  expires : Bool → String → Event E

-- A handler is called only while its wait is pending, which the call ends.
unfoldable pub serve : {E : Type 0} → Event E → Multicast E → Multicast E
serve (prepares quote) s = on_publish false quote s
serve (ticks aborted quote) s =
    if s.publishing then on_publish aborted quote (record s { publishing = false }) else s
serve (receives receipt now) s =
    if s.receiving then on_receive receipt now (record s { receiving = false }) else s
serve (expires aborted uuid) s =
    if contains uuid s.expirations then on_expired aborted uuid s else s

abbrev pub serves : {E : Type 0} → List (Event E) → Multicast E → Multicast E
serves [] s = s
serves (e ∷ events) s = serves events (serve e s)

-- Whether the locator was last told to link the node and not to drop it.
abbrev pub linked : {E : Type 0} → String → Bool → List (Effect E) → Bool
linked u b [] = b
linked u b (sends endpoints ∷ done) = linked u b done
linked u b (links v endpoints ∷ done) = linked u (v == u || b) done
linked u b (drops v ∷ done) = linked u (not (v == u) && b) done

-- How many nodes the locator was told to link.
abbrev pub links_of : {E : Type 0} → List (Effect E) → ℕ
links_of [] = 0
links_of (sends endpoints ∷ done) = links_of done
links_of (links v endpoints ∷ done) = suc (links_of done)
links_of (drops v ∷ done) = links_of done

linked-append :
    {E : Type 0} (u : String) (b : Bool) (xs ys : List (Effect E))
    → linked u b (xs ++ ys) ≡ linked u (linked u b xs) ys
linked-append u b [] ys = refl
linked-append u b (sends endpoints ∷ xs) ys = linked-append u b xs ys
linked-append u b (links v endpoints ∷ xs) ys = linked-append u (v == u || b) xs ys
linked-append u b (drops v ∷ xs) ys = linked-append u (not (v == u) && b) xs ys

links_of-append :
    {E : Type 0} (xs ys : List (Effect E)) → links_of (xs ++ ys) ≡ links_of xs + links_of ys
links_of-append [] ys = omega arith
links_of-append (sends endpoints ∷ xs) ys = links_of-append xs ys
links_of-append (links v endpoints ∷ xs) ys = omega (arith, links_of-append xs ys)
links_of-append (drops v ∷ xs) ys = links_of-append xs ys

abbrev pub Tracked : {E : Type 0} → Multicast E → Type 0
Tracked s = (u : String) → linked u false s.done ≡ contains u s.expirations

on_publish-Tracked :
    {E : Type 0} (aborted : Bool) (quote : Option (List E)) (s : Multicast E)
    → Tracked s
    → Tracked (on_publish aborted quote s)
unfolding on_publish
on_publish-Tracked true quote s h = h
on_publish-Tracked false none s h = h
on_publish-Tracked false (some []) s h = h
on_publish-Tracked false (some (p ∷ ps)) s h =
    λ u. linked-append u false s.done (sends (p ∷ ps) ∷ []) ∙ h u

on_receive-Tracked :
    {E : Type 0} (receipt : Receipt E) (now : ℕ) (s : Multicast E)
    → Tracked s
    → Tracked (on_receive receipt now s)
unfolding on_receive
on_receive-Tracked failed now s h = h
on_receive-Tracked garbled now s h = h
on_receive-Tracked (announced uuid endpoints) now s h = elim (Bool-cases (uuid == s.uuid)) [
  | inl own ↦ rw own h
  | inr other ↦ rw other (λ u.
      (let before = h u in
        let after = linked-append u false s.done (links uuid endpoints ∷ []) in
        let set = lookup-assign uuid u (now + s.interval * 3) s.expirations in ground arith))
]

on_expired-Tracked :
    {E : Type 0} (aborted : Bool) (uuid : String) (s : Multicast E)
    → Tracked s
    → Tracked (on_expired aborted uuid s)
unfolding on_expired
on_expired-Tracked true uuid s h = h
on_expired-Tracked false uuid s h = λ u.
    (let before = h u in
      let after = linked-append u false s.done (drops uuid ∷ []) in
      let gone = lookup-erase uuid u s.expirations in ground arith)

serve-Tracked : {E : Type 0} (e : Event E) (s : Multicast E) → Tracked s → Tracked (serve e s)
unfolding serve
serve-Tracked (prepares quote) s h = on_publish-Tracked false quote s h
serve-Tracked (ticks aborted quote) s h = elim (Bool-cases s.publishing) [
  | inl pending ↦
      rw (pending, serve) (on_publish-Tracked aborted quote (record s { publishing = false }) h)
  | inr idle ↦ rw (idle, serve) h
]
serve-Tracked (receives receipt now) s h = elim (Bool-cases s.receiving) [
  | inl pending ↦
      rw (pending, serve) (on_receive-Tracked receipt now (record s { receiving = false }) h)
  | inr idle ↦ rw (idle, serve) h
]
serve-Tracked (expires aborted uuid) s h = elim (Bool-cases (contains uuid s.expirations)) [
  | inl pending ↦ rw (pending, serve) (on_expired-Tracked aborted uuid s h)
  | inr idle ↦ rw (idle, serve) h
]

serves-tracks :
    {E : Type 0} (events : List (Event E)) (s : Multicast E) → Tracked s → Tracked (serves events s)
serves-tracks [] s h = h
serves-tracks (e ∷ events) s h = serves-tracks events (serve e s) (serve-Tracked e s h)

-- Whatever signals, ticks of the timer, datagrams and expirations come, in whatever order, the nodes
-- that the locator was last told to link and not to drop are those with a timer that is set.
pub serves-Tracked :
    {E : Type 0} (uuid : String) (interval : ℕ) (full : Bool) (events : List (Event E))
    → Tracked (serves events (new_multicast uuid interval full))
unfolding lookup
serves-Tracked uuid interval full events =
    serves-tracks events (new_multicast uuid interval full) (λ u. refl)

-- What neither receives nor tells the locator of nodes.
abbrev pub Deaf : {E : Type 0} → Multicast E → Multicast E → Type 0
Deaf s t = (t.receiving ≡ false) × (links_of t.done ≡ links_of s.done)

on_publish-Deaf :
    {E : Type 0} (aborted : Bool) (quote : Option (List E)) (s : Multicast E)
    → s.receiving ≡ false
    → Deaf s (on_publish aborted quote s)
unfolding on_publish
on_publish-Deaf true quote s deaf = (deaf, refl)
on_publish-Deaf false none s deaf = (deaf, refl)
on_publish-Deaf false (some []) s deaf = (deaf, refl)
on_publish-Deaf false (some (p ∷ ps)) s deaf =
    (deaf, omega (arith, links_of-append s.done (sends (p ∷ ps) ∷ [])))

on_expired-Deaf :
    {E : Type 0} (aborted : Bool) (uuid : String) (s : Multicast E)
    → s.receiving ≡ false
    → Deaf s (on_expired aborted uuid s)
unfolding on_expired
on_expired-Deaf true uuid s deaf = (deaf, refl)
on_expired-Deaf false uuid s deaf = (deaf, omega (arith, links_of-append s.done (drops uuid ∷ [])))

serve-Deaf : {E : Type 0} (e : Event E) (s : Multicast E) → s.receiving ≡ false → Deaf s (serve e s)
unfolding serve
serve-Deaf (prepares quote) s deaf = on_publish-Deaf false quote s deaf
serve-Deaf (ticks aborted quote) s deaf = elim (Bool-cases s.publishing) [
  | inl pending ↦
      rw (pending, serve) (on_publish-Deaf aborted quote (record s { publishing = false }) deaf)
  | inr idle ↦ rw (idle, serve) (deaf, refl)
]
serve-Deaf (receives receipt now) s deaf = ground arith
serve-Deaf (expires aborted uuid) s deaf = elim (Bool-cases (contains uuid s.expirations)) [
  | inl pending ↦ rw (pending, serve) (on_expired-Deaf aborted uuid s deaf)
  | inr idle ↦ rw (idle, serve) (deaf, refl)
]

serves-quiet :
    {E : Type 0} (events : List (Event E)) (s : Multicast E)
    → s.receiving ≡ false
    → Deaf s (serves events s)
serves-quiet [] s deaf = (deaf, refl)
serves-quiet (e ∷ events) s deaf =
    let (still, one) = serve-Deaf e s deaf in
    let (after, rest) = serves-quiet events (serve e s) still in (after, rest ∙ one)

garbled-Deaf : {E : Type 0} (now : ℕ) (s : Multicast E) → Deaf s (serve (receives garbled now) s)
unfolding serve on_receive
garbled-Deaf now s = elim (Bool-cases s.receiving) [
  | inl pending ↦ rw (pending, serve) (refl, refl)
  | inr idle ↦ ground arith
]

-- One datagram that cannot be unpacked or decoded ends the discovery: no receive is started again,
-- and whatever happens after it, no node is linked any more.
pub serves-Deaf :
    {E : Type 0} (now : ℕ) (events : List (Event E)) (s : Multicast E)
    → Deaf s (serves (receives garbled now ∷ events) s)
serves-Deaf now events s =
    let (deaf, one) = garbled-Deaf now s in
    let (after, rest) = serves-quiet events (serve (receives garbled now) s) deaf in
    (after, rest ∙ one)
