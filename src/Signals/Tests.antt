-- ===== src/Signals/Tests.antt =====
-- Runs of the dispatcher and of the tokens of src/signal.cpp.
use cocaine_core.Base.{
  none, some, ◌^◌, true, arith, false, ◌<◌, refl, ◌+◌, ◌∷◌, ◌≡◌, ℕ, count, [], List,
}
use cocaine_core.Signals.{
  caught, cancel_all, drain, take_out, async_wait_all, cancel_wait, call, put, call_all, Wait,
  update_at, dispatch, canceled, async_wait, Handlers, new_handlers, signaled, interrupted, run,
}
use cocaine_core.Signals.Engine.{Handler, ignoring, terminating, user, react}
use cocaine_core.Signals.Once.{keys, total, below}
use cocaine_core.Signals.Once.History.{Step, waits, cancels, serve, serve-once, run-once}
use cocaine_core.Signals.Token.{Use, makes, constructs, moves, assigns, detaches}
use cocaine_core.Signals.Token.Spent.{times, held}
use cocaine_core.Signals.Token.Uses.{released, use_all, no_tokens, use_all-spent}

abbrev steps_of_engine : List (Step Handler)
steps_of_engine =
    waits 13 ignoring ∷ waits 2 terminating ∷ waits 1 (user 7) ∷ waits 1 (user 8) ∷ cancels 1 2 ∷ []

abbrev handlers_of_engine : Handlers Handler
handlers_of_engine = record {
  callbacks =
      []
      ∷ ((3, user 8) ∷ [])
      ∷ ((1, terminating) ∷ [])
      ∷ []
      ∷ []
      ∷ []
      ∷ []
      ∷ []
      ∷ []
      ∷ []
      ∷ []
      ∷ []
      ∷ []
      ∷ ((0, ignoring) ∷ [])
      ∷ [];
  next = 4;
  started = 4;
  called = (2, canceled) ∷ [];
}

serve-engine : serve react steps_of_engine new_handlers ≡ some handlers_of_engine
unfolding serve async_wait update_at put cancel_wait take_out
serve-engine = refl

serve-once_example :
    count 3 (keys handlers_of_engine.called) + total 3 handlers_of_engine.callbacks ≡ below 3 4
serve-once_example =
    serve-once react steps_of_engine handlers_of_engine serve-engine (omega arith) 3

quiet_engine : (h : Handler) → react h canceled ≡ []
quiet_engine ignoring = refl
quiet_engine terminating = refl
quiet_engine (user n) = refl

abbrev waits_of_engine : List Wait
waits_of_engine = signaled 13 false ∷ interrupted ∷ signaled 13 false ∷ signaled 18 true ∷ []

run-engine :
    ((run react waits_of_engine handlers_of_engine).1 ≡ true)
    × ((run react waits_of_engine handlers_of_engine).0.called
        ≡ (2, canceled)
          ∷ (0, caught 13)
          ∷ (4, caught 13)
          ∷ (3, canceled)
          ∷ (1, canceled)
          ∷ (5, canceled)
          ∷ [])
    × ((run react waits_of_engine handlers_of_engine).0.started ≡ 6)
unfolding run dispatch call_all call async_wait_all async_wait update_at put drain cancel_all
run-engine = (refl, refl, refl)

few : (n : ℕ) → n ≡ 6 → n < 2 ^ 64
few n e = omega arith

run-once_example :
    ((run react waits_of_engine handlers_of_engine).0.callbacks ≡ [])
    × ((i : ℕ)
        → count i (keys (run react waits_of_engine handlers_of_engine).0.called)
          ≡ below i (run react waits_of_engine handlers_of_engine).0.started)
run-once_example =
    run-once react steps_of_engine handlers_of_engine waits_of_engine quiet_engine serve-engine
      run-engine.0 (few (run react waits_of_engine handlers_of_engine).0.started run-engine.2)

abbrev uses_of_tokens : List (Use ℕ)
uses_of_tokens =
    constructs
    ∷ makes (some 5)
    ∷ assigns 0 1
    ∷ moves 0
    ∷ makes (some 6)
    ∷ assigns 3 2
    ∷ detaches 3
    ∷ makes none
    ∷ assigns 4 3
    ∷ []

use_all-spent_example :
    held none (use_all uses_of_tokens no_tokens).objects
      + times none (use_all uses_of_tokens no_tokens)
      + released none uses_of_tokens no_tokens
    ≡ 1
use_all-spent_example = use_all-spent uses_of_tokens none
