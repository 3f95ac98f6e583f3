-- ===== src/Rpc/Session.antt =====
-- session_t: include/cocaine/rpc/session.hpp and src/session.cpp. Dispatches are values of a type D
-- whose behaviour is an interface; what they are told by `discard` is kept in a list. Metrics are
-- reduced to the map of timers, whose keys are those of the root of the prototype.
pub mod Handle
pub mod Invariant
pub mod History
pub mod Handling
mod Tests
use cocaine_core.Base.{
  refl, inr, inl, ◌⊎◌, ◌≡◌, ℕ, ◌+◌, ◌%◌, ◌^◌, String, Bool, true, false, not, ◌&&◌, Option, none,
  some, List, [], ◌∷◌, ◌++◌, map, ltb, leb, nat_beq, if◌then◌else◌, codes, length, nat_key,
  string_key, list_key,
}
use cocaine_core.Base.Map.{Map, lookup, contains, erase, emplace, modify}
use cocaine_core.Hpack.Header.{Bytes, Header, find_first, unpack}
use cocaine_core.Hpack.Headers.Late.{trace_id, span_id, parent_id}
use cocaine_core.Hpack.Msgpack.{Objects}
use cocaine_core.Errors.{revoked_channel, unbound_dispatch, uncaught_error, not_connected}
use cocaine_core.Errors.Codes.{
  Code, no_error, invalid_argument_code, dispatch_code, Failure, system, standard,
}
use cocaine_core.Trace.{Trace, empty, make, push as push_trace, pop, restore_scope}
use cocaine_core.Rpc.Encoder.{name_of}

-- What a decoded message shows: span(), type(), args() and headers().
pub record Invocation : Type 0 where
  pub span : ℕ
  pub type : ℕ
  pub args : Objects
  pub headers : List Header

-- channel_t. The upstream is its channel number.
pub record Channel (D : Type 0) : Type 0 where
  pub dispatch : Option D
  pub upstream : ℕ
  pub trace : Option Trace

-- channel_t{...}
abbrev pub channel_of : {D : Type 0} → Option D → ℕ → Option Trace → Channel D
channel_of dispatch upstream trace = record {
  dispatch = dispatch;
  upstream = upstream;
  trace = trace;
}

pub record Session (D : Type 0) : Type 0 where
  pub prototype : Option D
  pub service_dispatch : D
  pub channels : Map ℕ (Channel D)
  pub max_channel_id : ℕ
  pub attached : Bool
  pub discarded : List (D × Code)

-- What `process` returns: the optional dispatch pointer, or an exception.
pub data Reply (D : Type 0) : Type 0 where
  replied : Option (Option D) → Reply D
  raised : Failure → Reply D

-- basic_dispatch_t. `process` is given the message, the upstream and the trace of the thread, and
-- may use the session.
pub record Dispatches (D : Type 0) : Type 0 where
  pub name : D → String
  pub root : D → Map ℕ String
  pub process : D → Invocation → ℕ → Trace → Session D → Session D × Reply D

-- How a call ends: with a value, with an exception, or in undefined behaviour (a null pointer or a
-- failed assertion).
pub data Completion (A : Type 0) : Type 0 where
  completed : A → Completion A
  threw : Failure → Completion A
  broken : Completion A

pub Completion-cases :
    {A : Type 0} (r : Completion A)
    → ((a : A) × (r ≡ completed a)) ⊎ (((f : Failure) × (r ≡ threw f)) ⊎ (r ≡ broken))
Completion-cases (completed a) = inl (a, refl)
Completion-cases (threw f) = inr (inl (f, refl))
Completion-cases broken = inr (inr refl)

pub Reply-cases :
    {D : Type 0} (r : Reply D)
    → ((next : Option (Option D)) × (r ≡ replied next)) ⊎ ((f : Failure) × (r ≡ raised f))
Reply-cases (replied next) = inl (next, refl)
Reply-cases (raised f) = inr (f, refl)

unfoldable pub dispatch_name : {D : Type 0} → Dispatches D → Option D → String
dispatch_name ops none = "<none>"
dispatch_name ops (some d) = ops.name d

-- revoke(id, ec)
unfoldable pub revoke : {D : Type 0} → ℕ → Code → Session D → Session D
revoke id ec s = elim (lookup id s.channels) [
  | none ↦ s
  | some c ↦ record s {
    channels = erase id s.channels;
    discarded = elim c.dispatch [ none ↦ s.discarded | some d ↦ s.discarded ++ (d, ec) ∷ [] ];
  }
]

-- fork; `id` is what `generate_id` returns. The result is the number of the new upstream.
unfoldable pub fork : {D : Type 0} → Dispatches D → Trace → ℕ → Option D → Session D → Session D × ℕ
fork ops current id dispatch s =
    let channel_id = (s.max_channel_id + 1) % 2 ^ 64 in
    let trace = push_trace id (dispatch_name ops dispatch) current in
    let channel = channel_of dispatch channel_id (some trace) in
    (
      record s {
        channels = elim dispatch [
          | none ↦ s.channels
          | some d ↦ emplace channel_id channel s.channels
        ];
        max_channel_id = channel_id;
      },
      channel_id,
    )

-- What `detach` tells the dispatches of the channels.
unfoldable pub discards : {D : Type 0} → Code → Map ℕ (Channel D) → List (D × Code)
discards ec [] = []
discards ec ((id, c) ∷ rest) = elim c.dispatch [
  | none ↦ discards ec rest
  | some d ↦ (d, ec) ∷ discards ec rest
]

unfoldable pub detach : {D : Type 0} → Code → Session D → Session D
detach ec s =
    if s.attached
    then record s {
      attached = false;
      channels = [];
      discarded = s.discarded ++ discards ec s.channels;
    }
    else s

-- push_action_t::finalize
unfoldable pub finalize_push : {D : Type 0} → Code → Session D → Session D
finalize_push ec s = if nat_beq ec.value 0 then s else detach ec s

-- pull and push start their action only on an attached session.
unfoldable pub connected : {D : Type 0} → Session D → Completion (Unit {0})
connected s = if s.attached then completed tt else threw (system (dispatch_code not_connected))

-- active_channels()
unfoldable pub active_channels : {D : Type 0} → Dispatches D → Session D → Map ℕ String
active_channels ops s = map (λ p. (p.0, dispatch_name ops p.1.dispatch)) s.channels

-- memory_pressure(), from the pressure of the reader and of the writer.
unfoldable pub memory_pressure : {D : Type 0} → ℕ → ℕ → Session D → ℕ
memory_pressure reader writer s = if s.attached then reader + writer else 0
