-- ===== src/Rpc/Slots.antt =====
-- dispatch<Tag> and its slots: include/cocaine/rpc/dispatch.hpp, include/cocaine/rpc/slot/blocking.hpp
-- and include/cocaine/rpc/slot/deferred.hpp. Slots are values of any type; what they compute, how
-- arguments are unpacked and what an upstream does with a message are arguments. The text of an
-- exception is left out.
pub mod Laws
use cocaine_core.Base.{
  ◌++◌, ℕ, zero, suc, ◌+◌, ◌-◌, ◌*◌, ◌/◌, ◌%◌, ◌^◌, ◌≤◌, ◌<◌, min, String, ◌≡◌, refl, sym, ap, ◌∙◌,
  subst, ◌≢◌, ◌↔◌, ◌⊎◌, inl, inr, Bool, true, false, not, ◌&&◌, ◌||◌, Option, none, some, List, [],
  ◌∷◌, ◌++◌, map, append_assoc, append-nil, arith, ltb, leb, nat_beq, if◌then◌else◌, Bool-cases,
  Option-cases, codes, All, length, get_elem?, take, drop, replicate, find_index, find?, any, all,
  keep, is_empty, length-append, length-take, length-drop, length-replicate, take-append-drop,
  take-append_left, take-append_exact, drop-nil, take-nil, take-drop, drop-append_left,
  drop-append_right, find?-All, find?-passes, find?-any, any-find?, find?-none, Key, ◌==◌, nat_key,
  string_key, list_key, list_same, list_same_iff, ==_refl,
}
use cocaine_core.Base.Map.{Map, lookup, contains, erase, insert}
use cocaine_core.Errors.{duplicate_slot, slot_not_found, invalid_argument, uncaught_error}
use cocaine_core.Errors.Codes.{Code, dispatch_code, Failure, system, standard}
use cocaine_core.Hpack.Header.{Header}
use cocaine_core.Hpack.Msgpack.{Objects}
use cocaine_core.Rpc.Session.{
  Completion, completed, threw, broken, Reply, replied, raised, Invocation,
}
use cocaine_core.Rpc.Session.Handle.{to_int}

-- on(ptr), of the event with the given identifier.
unfoldable pub on : {S : Type 0} → ℕ → S → Map ℕ S → Completion (Map ℕ S)
on id slot slots =
    if contains id slots
    then threw (system (dispatch_code duplicate_slot))
    else completed (insert id slot slots)

-- drop
unfoldable pub drop_slot : {S : Type 0} → ℕ → Map ℕ S → Completion (Map ℕ S)
drop_slot id slots =
    if contains id slots
    then completed (erase id slots)
    else threw (system (dispatch_code slot_not_found))

-- halt
unfoldable pub halt : {S : Type 0} → Map ℕ S → Map ℕ S
halt slots = []

-- process(id, visitor)
unfoldable pub visit : {S R : Type 0} → ℕ → (S → Completion R) → Map ℕ S → Completion R
visit id visitor slots = elim (lookup id slots) [
  | none ↦ threw (system (dispatch_code slot_not_found))
  | some slot ↦ visitor slot
]

-- calling_visitor_t; `none` is a msgpack::type_error.
unfoldable pub calling_visitor :
    {S A R : Type 0}
    → (S → Objects → Option A)
    → (S → List Header → A → ℕ → Completion R)
    → List Header
    → Objects
    → ℕ
    → S
    → Completion R
calling_visitor unpack call headers unpacked upstream slot = elim (unpack slot unpacked) [
  | none ↦ threw (system (dispatch_code invalid_argument))
  | some args ↦ call slot headers args upstream
]

-- process(message, upstream)
unfoldable pub process :
    {S A R : Type 0}
    → (S → Objects → Option A)
    → (S → List Header → A → ℕ → Completion R)
    → Invocation
    → ℕ
    → Map ℕ S
    → Completion R
process unpack call m upstream slots =
    visit (to_int m.type) (calling_visitor unpack call m.headers m.args upstream) slots

-- What a slot sends back: its value, or an error.
pub data Answer (V : Type 0) : Type 0 where
  value : V → Answer V
  error : Code → Answer V

-- The messages that an upstream took, and the transition or the exception of the slot.
pub record Answered (V D : Type 0) : Type 0 where
  pub sent : List (Answer V)
  pub reply : Reply D

-- The end of a slot: a recurrent transition, or the end of the dispatch graph.
unfoldable pub transition : {D : Type 0} → Bool → Reply D
transition is_recursed = if is_recursed then replied none else replied (some none)

-- A `catch` clause: the error is sent back. `upstream` gives the code of the exception of `send`.
unfoldable pub send_error : {V D : Type 0} → Bool → (Answer V → Option Code) → Code → Answered V D
send_error is_recursed upstream ec = elim (upstream (error ec)) [
  | none ↦ record { sent = error ec ∷ []; reply = transition is_recursed }
  | some failure ↦ record { sent = []; reply = raised (system failure) }
]

-- The code that the `catch` clauses give to an exception.
unfoldable pub code_of : Failure → Code
code_of (system ec) = ec
code_of standard = dispatch_code uncaught_error

-- blocking_slot::operator(), given how its callable ends. Behaviour that the language leaves
-- undefined is not continued.
unfoldable pub blocking_slot :
    {V D : Type 0} → Bool → (Answer V → Option Code) → Completion V → Option (Answered V D)
blocking_slot is_recursed upstream (completed v) = elim (upstream (value v)) [
  | none ↦ some (record { sent = value v ∷ []; reply = transition is_recursed })
  | some ec ↦ some (send_error is_recursed upstream ec)
]
blocking_slot is_recursed upstream (threw f) = some (send_error is_recursed upstream (code_of f))
blocking_slot is_recursed upstream broken = none

-- blocking_slot<..., mute_slot_tag>::operator(): an exception is passed on.
unfoldable pub mute_slot : {V D : Type 0} → Bool → Completion V → Option (Reply D)
mute_slot is_recursed (completed v) = some (transition is_recursed)
mute_slot is_recursed (threw f) = some (raised f)
mute_slot is_recursed broken = none

-- deferred_slot::operator(): what the attached queue has sent, with the code of an exception of
-- `attach`, is an argument for each result of the callable.
unfoldable pub deferred_slot :
    {P V D : Type 0}
    → Bool
    → (Answer V → Option Code)
    → (P → List (Answer V) × Option Code)
    → Completion P
    → Option (Answered V D)
deferred_slot is_recursed upstream attach (completed promise) =
    let (sent, failure) = attach promise in
    elim failure [
      | none ↦ some (record { sent = sent; reply = transition is_recursed })
      | some ec ↦
          let told = send_error is_recursed upstream ec in
          some (record told { sent = sent ++ told.sent })
    ]
deferred_slot is_recursed upstream attach (threw f) =
    some (send_error is_recursed upstream (code_of f))
deferred_slot is_recursed upstream attach broken = none
