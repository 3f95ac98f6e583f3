-- ===== src/Rpc/Queue.antt =====
-- message_queue, streamed and deferred: include/cocaine/rpc/queue.hpp, rpc/slot/streamed.hpp and
-- rpc/slot/deferred.hpp there. An upstream is its channel number; what `send` does is an argument,
-- which gives the code of the std::system_error that it throws, if any.
pub mod Order
pub mod Torn
pub mod History
mod Tests
use cocaine_core.Base.{
  ℕ, zero, suc, ◌+◌, ◌-◌, ◌*◌, ◌/◌, ◌%◌, ◌^◌, ◌≤◌, ◌<◌, min, String, ◌≡◌, refl, sym, ap, ◌∙◌, subst,
  ◌≢◌, ◌↔◌, ◌⊎◌, inl, inr, Bool, true, false, not, ◌&&◌, ◌||◌, Option, none, some, List, [], ◌∷◌,
  ◌++◌, map, append_assoc, append-nil, arith, ltb, leb, nat_beq, if◌then◌else◌, Bool-cases,
  Option-cases, codes, All, length, get_elem?, take, drop, replicate, find_index, find?, any, all,
  keep, is_empty, length-append, length-take, length-drop, length-replicate, take-append-drop,
  take-append_left, take-append_exact, drop-nil, take-nil, take-drop, drop-append_left,
  drop-append_right, find?-All, find?-passes, find?-any, any-find?, find?-none, Key, ◌==◌, nat_key,
  string_key, list_key, list_same, list_same_iff, ==_refl,
}
use cocaine_core.Errors.{closed_upstream}
use cocaine_core.Errors.Codes.{Code, protocol_code}
use cocaine_core.Hpack.Header.{Header}

-- The messages of the streaming and of the primitive protocol. The latter has no `choke`, and its
-- `value` is a chunk here.
pub data Event (A : Type 0) : Type 0 where
  chunk : A → Event A
  error : Code → String → Event A
  choke : Event A

-- A frozen message with its headers.
pub record Operation (A : Type 0) : Type 0 where
  pub headers : List Header
  pub event : Event A

pub record Queue (A : Type 0) : Type 0 where
  pub operations : List (Operation A)
  pub upstream : Option ℕ

abbrev pub empty_queue : {A : Type 0} → Queue A
empty_queue = record { operations = []; upstream = none }

-- A queue after a call, the messages that the upstream took, and the error code of the call.
pub record Appended (Q A : Type 0) : Type 0 where
  pub queue : Q
  pub sent : List (Operation A)
  pub error : Option Code

-- append
unfoldable pub append :
    {A : Type 0} → (ℕ → Operation A → Option Code) → Operation A → Queue A → Appended (Queue A) A
append send op q = elim q.upstream [
  | none ↦ record {
    queue = record q { operations = q.operations ++ op ∷ [] };
    sent = [];
    error = none;
  }
  | some u ↦ elim (send u op) [
    | none ↦ record { queue = q; sent = op ∷ []; error = none }
    | some ec ↦ record { queue = q; sent = []; error = some ec }
  ]
]

-- The loop of `attach`; an exception leaves it, with the messages sent before.
unfoldable pub send_all :
    {A : Type 0}
    → (ℕ → Operation A → Option Code)
    → ℕ
    → List (Operation A)
    → List (Operation A) × Option Code
send_all send u [] = ([], none)
send_all send u (op ∷ ops) =
    let (sent, failure) = send_all send u ops in
    elim (send u op) [ none ↦ (op ∷ sent, failure) | some ec ↦ ([], some ec) ]

-- attach. After an exception the operations are still in the queue. Those that were sent, and the one
-- whose send threw, have been moved from, so that the source leaves their contents unspecified; here
-- they keep the old ones, which nothing may rely on.
unfoldable pub attach :
    {A : Type 0} → (ℕ → Operation A → Option Code) → ℕ → Queue A → Appended (Queue A) A
attach send u q =
    let (sent, failure) = send_all send u q.operations in
    elim failure [
      | none ↦ record {
        queue = record { operations = []; upstream = some u };
        sent = sent;
        error = none;
      }
      | some ec ↦ record { queue = q; sent = sent; error = some ec }
    ]

-- streamed<T>::data_t
pub record Streamed (A : Type 0) : Type 0 where
  pub is_closed : Bool
  pub outbox : Queue A

abbrev pub new_streamed : {A : Type 0} → Streamed A
new_streamed = record { is_closed = false; outbox = empty_queue }

abbrev pub of_outbox : {A : Type 0} → Bool → Appended (Queue A) A → Appended (Streamed A) A
of_outbox closed a = record {
  queue = record { is_closed = closed; outbox = a.queue };
  sent = a.sent;
  error = a.error;
}

abbrev pub refused : {A : Type 0} → Streamed A → Appended (Streamed A) A
refused s = record { queue = s; sent = []; error = some (protocol_code closed_upstream) }

-- streamed<T>::write
unfoldable pub write :
    {A : Type 0}
    → (ℕ → Operation A → Option Code)
    → List Header
    → A
    → Streamed A
    → Appended (Streamed A) A
write send headers a s =
    if s.is_closed
    then refused s
    else of_outbox false (append send (record { headers = headers; event = chunk a }) s.outbox)

-- streamed<T>::abort
unfoldable pub abort :
    {A : Type 0}
    → (ℕ → Operation A → Option Code)
    → List Header
    → Code
    → String
    → Streamed A
    → Appended (Streamed A) A
abort send headers ec reason s =
    if s.is_closed
    then refused s
    else of_outbox true
        (append send (record { headers = headers; event = error ec reason }) s.outbox)

-- streamed<T>::close
unfoldable pub close :
    {A : Type 0}
    → (ℕ → Operation A → Option Code)
    → List Header
    → Streamed A
    → Appended (Streamed A) A
close send headers s =
    if s.is_closed
    then refused s
    else of_outbox true (append send (record { headers = headers; event = choke }) s.outbox)

-- streamed<T>::attach
unfoldable pub attach_streamed :
    {A : Type 0} → (ℕ → Operation A → Option Code) → ℕ → Streamed A → Appended (Streamed A) A
attach_streamed send u s = of_outbox s.is_closed (attach send u s.outbox)

-- deferred<T>::write and deferred<void>::close
unfoldable pub write_deferred :
    {A : Type 0}
    → (ℕ → Operation A → Option Code)
    → List Header
    → A
    → Queue A
    → Appended (Queue A) A
write_deferred send headers a q = append send (record { headers = headers; event = chunk a }) q

-- deferred<T>::abort
unfoldable pub abort_deferred :
    {A : Type 0}
    → (ℕ → Operation A → Option Code)
    → List Header
    → Code
    → String
    → Queue A
    → Appended (Queue A) A
abort_deferred send headers ec reason q =
    append send (record { headers = headers; event = error ec reason }) q
