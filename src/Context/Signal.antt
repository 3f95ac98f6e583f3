-- ===== src/Context/Signal.antt =====
-- retroactive_signal: include/cocaine/context/signal.hpp, with the history_traits of
-- include/cocaine/idl/context.hpp. Dispatches are numbers, and which of them a weak pointer still
-- reaches is an argument of each call. A posted slot is a dispatch with an event.
pub mod Delivery
mod Tests
use cocaine_core.Base.{
  ℕ, zero, suc, ◌+◌, ◌-◌, ◌*◌, ◌/◌, ◌%◌, ◌^◌, ◌≤◌, ◌<◌, min, String, ◌≡◌, refl, sym, ap, ◌∙◌, subst,
  ◌≢◌, ◌↔◌, ◌⊎◌, inl, inr, Bool, true, false, not, ◌&&◌, ◌||◌, Option, none, some, List, [], ◌∷◌,
  ◌++◌, map, append_assoc, append-nil, arith, ltb, leb, nat_beq, if◌then◌else◌, Bool-cases,
  Option-cases, codes, All, length, get_elem?, take, drop, replicate, find_index, find?, any, all,
  keep, is_empty, length-append, length-take, length-drop, length-replicate, take-append-drop,
  take-append_left, take-append_exact, drop-nil, take-nil, take-drop, drop-append_left,
  drop-append_right, find?-All, find?-passes, find?-any, any-find?, find?-none, Key, ◌==◌, nat_key,
  string_key, list_key, list_same, list_same_iff, ==_refl,
}

pub record Signal (E : Type 0) : Type 0 where
  pub history : List E
  pub subscribers : List ℕ

abbrev pub new_signal : {E : Type 0} → Signal E
new_signal = record { history = []; subscribers = [] }

-- event_visitor: an event that the dispatch has no slot for is passed over.
unfoldable pub visit_event : {E : Type 0} → (ℕ → E → Bool) → ℕ → E → List (ℕ × E)
visit_event handles slot event = if handles slot event then (slot, event) ∷ [] else []

-- The loop of `listen`.
unfoldable pub replay : {E : Type 0} → (ℕ → E → Bool) → ℕ → List E → List (ℕ × E)
replay handles slot [] = []
replay handles slot (event ∷ history) =
    visit_event handles slot event ++ replay handles slot history

-- listen
unfoldable pub listen : {E : Type 0} → (ℕ → E → Bool) → ℕ → Signal E → Signal E × List (ℕ × E)
listen handles slot s =
    (record s { subscribers = s.subscribers ++ slot ∷ [] }, replay handles slot s.history)

-- The loop of `invoke`: subscribers that are gone are erased.
unfoldable pub broadcast :
    {E : Type 0} → (ℕ → E → Bool) → (ℕ → Bool) → E → List ℕ → List ℕ × List (ℕ × E)
broadcast handles alive event [] = ([], [])
broadcast handles alive event (slot ∷ slots) =
    let (left, posts) = broadcast handles alive event slots in
    if alive slot then (slot ∷ left, visit_event handles slot event ++ posts) else (left, posts)

-- invoke; `kept` tells the events that history_traits stores.
unfoldable pub invoke :
    {E : Type 0} → (ℕ → E → Bool) → (E → Bool) → (ℕ → Bool) → E → Signal E → Signal E × List (ℕ × E)
invoke handles kept alive event s =
    let (left, posts) = broadcast handles alive event s.subscribers in
    (
      record {
        history = if kept event then s.history ++ event ∷ [] else s.history;
        subscribers = left;
      },
      posts,
    )
