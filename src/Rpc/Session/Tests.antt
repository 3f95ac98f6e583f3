-- ===== src/Rpc/Session/Tests.antt =====
-- A session with one service of one slot, whose every message is the last, on concrete inputs.
use cocaine_core.Base.{
  ℕ, zero, suc, String, ◌≡◌, refl, ◌≢◌, Bool, true, Option, none, some, [], ◌∷◌, arith, nat_key,
  string_key, list_key,
}
use cocaine_core.Base.Map.{Map, lookup}
use cocaine_core.Errors.{revoked_channel}
use cocaine_core.Errors.Codes.{dispatch_code, system, no_error}
use cocaine_core.Hpack.Header.{Bytes}
use cocaine_core.Hpack.Msgpack.{end}
use cocaine_core.Trace.{empty, empty_trace, restore_scope}
use cocaine_core.Rpc.Session.{
  Session, Invocation, Dispatches, completed, threw, replied, revoke, fork,
}
use cocaine_core.Rpc.Session.Handle.{handle, finalize_pull, invocation_trace, resume}
use cocaine_core.Rpc.Session.Invariant.{Inv, Keeps}
use cocaine_core.Rpc.Session.History.{
  UsesCalls, none_yet, forks, calls, receives, here, next, Reach-Keeps, handle-revoked,
}
use cocaine_core.Rpc.Session.Handling.{handle-replied}

-- Dispatch 0 has the one event 0 and the control messages, and any other dispatch none.
unfoldable root_of : ℕ → Map ℕ String
root_of zero =
    (0, "enqueue")
    ∷ (65532, "goaway")
    ∷ (65533, "ping")
    ∷ (65534, "settings")
    ∷ (65535, "revoke")
    ∷ []
root_of (suc n) = []

abbrev service : Dispatches ℕ
service = record {
  name = λ d. "service";
  root = root_of;
  process = λ d m upstream t s. (s, replied (some none));
}

service-UsesCalls : UsesCalls service
service-UsesCalls d m upstream t s = none_yet

abbrev lexical_cast : Bytes → Option Bool
lexical_cast b = some true

abbrev fresh : Session ℕ
fresh = record {
  prototype = some 0;
  service_dispatch = 1;
  channels = [];
  max_channel_id = 0;
  attached = true;
  discarded = [];
}

fresh-Inv : Inv fresh
unfolding lookup
fresh-Inv = record { ascending = tt; bounded = λ id c e. absurd (ground arith); word = omega arith }

abbrev invocation : ℕ → ℕ → Invocation
invocation span type = record { span = span; type = type; args = end; headers = [] }

abbrev one_channel : Session ℕ
one_channel = record fresh {
  channels = (3, record { dispatch = some 0; upstream = 3; trace = none }) ∷ [];
  max_channel_id = 3;
}

one_channel-Inv : Inv one_channel
unfolding lookup
one_channel-Inv = record {
  ascending = (tt, tt);
  bounded = λ id c e. ground arith;
  word = omega arith;
}

Reach-Keeps_example :
    Keeps fresh
      (finalize_pull service lexical_cast empty_trace none
        (invocation 4 0)
        (fork service empty_trace 1 (some 0) fresh).0).0
Reach-Keeps_example = Reach-Keeps service-UsesCalls fresh-Inv (
    next (next here (calls (forks fresh empty_trace 1 (some 0) (omega arith)))) (
      receives (fork service empty_trace 1 (some 0) fresh).0 empty_trace none (invocation 4 0)
        (omega arith)))

handle-revoked_example :
    handle service lexical_cast empty_trace
      (invocation 3 0)
      (fork service empty_trace 1 (some 0) (revoke 3 no_error one_channel)).0
    ≡ (
      (fork service empty_trace 1 (some 0) (revoke 3 no_error one_channel)).0,
      threw (system (dispatch_code revoked_channel)),
    )
handle-revoked_example =
    handle-revoked one_channel
      (fork service empty_trace 1 (some 0) (revoke 3 no_error one_channel)).0 3 no_error empty_trace
      (invocation 3 0) service-UsesCalls one_channel-Inv (omega arith)
      (next here (
        calls (
          forks (revoke 3 no_error one_channel) empty_trace 1 (some 0)
            (unfold revoke lookup in omega arith))))
      refl

handle-replied_example :
    let after = (handle service lexical_cast empty_trace (invocation 3 0) one_channel).0 in
    ((handle service lexical_cast empty_trace (invocation 3 0) one_channel).1 ≡ completed tt)
    × (lookup 3 after.channels ≡ none)
    × ((j : ℕ) → j ≢ 3 → lookup j after.channels ≡ lookup j one_channel.channels)
    × (after.discarded ≡ [])
    × ((after.attached ≡ true)
        × (after.max_channel_id ≡ 3)
        × (after.prototype ≡ one_channel.prototype)
        × (after.service_dispatch ≡ one_channel.service_dispatch))
unfolding lookup invocation_trace restore_scope resume empty
handle-replied_example =
    handle-replied service lexical_cast empty_trace empty_trace (invocation 3 0) one_channel
      (record { dispatch = some 0; upstream = 3; trace = none }) 0 (some none) refl refl refl refl
