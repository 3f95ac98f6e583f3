-- ===== src/Signals.antt =====
-- handler_t of src/signal.cpp, the dispatcher of system signals. Handlers are of any type `H`; what
-- a handler asks for while it is called, which is more waits, is the function `react`. The mutexes
-- leave the calls in one order, which is the order of the steps here.
pub mod Token
pub mod Engine
pub mod Once
mod Tests
use cocaine_core.Base.{
  is_empty, zero, ◌&&◌, ◌^◌, ltb, length, ◌||◌, false, ◌%◌, ◌-◌, nat_beq, true, none, ◌+◌,
  if◌then◌else◌, replicate, some, get_elem?, suc, ◌∷◌, ◌++◌, Option, Bool, [], List, ℕ,
}
use cocaine_core.Base.Map.{Map}

-- What a handler is told: a signal, or the error operation_canceled with the number 0.
pub data Outcome : Type 0 where
  caught : ℕ → Outcome
  canceled : Outcome

-- handler_t: for every signal number its handlers under their indices. `next` is current_index,
-- `called` the calls of handlers so far, `started` the number of waits so far.
pub record Handlers (H : Type 0) : Type 0 where
  pub callbacks : List (Map ℕ H)
  pub next : ℕ
  pub started : ℕ
  pub called : List (ℕ × Outcome)

abbrev pub new_handlers : {H : Type 0} → Handlers H
new_handlers = record { callbacks = []; next = 0; started = 0; called = [] }

-- What sigwaitinfo gives; the Boolean is whether stop() was called by then.
pub data Wait : Type 0 where
  signaled : ℕ → Bool → Wait
  interrupted : Wait
  broken : Wait

-- SIGCONT
abbrev pub interrupt_signal : ℕ
interrupt_signal = 18

-- get_signal_set: SIGILL, SIGBUS, SIGFPE and SIGSEGV cannot be handled.
unfoldable pub get_signal_set : List ℕ → Option (List ℕ)
get_signal_set [] = some []
get_signal_set (sig ∷ signals) = elim (get_signal_set signals) [
  | none ↦ none
  | some sigset ↦
      if nat_beq sig 11 || nat_beq sig 8 || nat_beq sig 4 || nat_beq sig 7
      then none
      else some (sig ∷ sigset)
]

-- `callbacks.resize(n)` where there are fewer than `n`.
abbrev pub grow : {H : Type 0} → ℕ → List (Map ℕ H) → List (Map ℕ H)
grow n callbacks = callbacks ++ replicate (n - length callbacks) []

-- `storage[index] = handler` of a std::map, whose keys stay in increasing order.
unfoldable pub put : {H : Type 0} → ℕ → H → Map ℕ H → Map ℕ H
put index handler [] = (index, handler) ∷ []
put index handler ((j, h) ∷ m) =
    let rest = put index handler m in
    if nat_beq index j
    then (index, handler) ∷ m
    else if ltb index j
    then (index, handler) ∷ (j, h) ∷ m
    else (j, h) ∷ rest

-- An update of one entry of the vector.
unfoldable pub update_at : {A : Type 0} → ℕ → (A → A) → List A → List A
update_at n f [] = []
update_at zero f (m ∷ ms) = f m ∷ ms
update_at (suc n) f (m ∷ ms) = m ∷ update_at n f ms

-- async_wait_detailed; the result is what the token needs to cancel the wait.
unfoldable pub async_wait : {H : Type 0} → ℕ → H → Handlers H → Handlers H × (ℕ × ℕ)
async_wait signum handler s =
    let index = s.next in
    (
      record s {
        callbacks = update_at signum (put index handler) (grow (suc signum) s.callbacks);
        next = (index + 1) % 2 ^ 64;
        started = suc s.started;
      },
      (signum, index),
    )

unfoldable pub async_wait_all : {H : Type 0} → List (ℕ × H) → Handlers H → Handlers H
async_wait_all [] s = s
async_wait_all ((signum, handler) ∷ waits) s = async_wait_all waits (async_wait signum handler s).0

-- `find` and `erase` of a std::map.
unfoldable pub take_out : {H : Type 0} → ℕ → Map ℕ H → Option (H × Map ℕ H)
take_out index [] = none
take_out index ((j, h) ∷ m) =
    let rest = take_out index m in
    if nat_beq j index
    then some (h, m)
    else elim rest [ none ↦ none | some (found, m') ↦ some (found, (j, h) ∷ m') ]

module _ {H : Type 0} (react : H → Outcome → List (ℕ × H)) where
  -- A call of a handler, with the waits that it asks for.
  unfoldable pub call : ℕ → H → Outcome → Handlers H → Handlers H
  call index handler outcome s =
      async_wait_all (react handler outcome)
        (record s { called = s.called ++ (index, outcome) ∷ [] })

  -- The calls of handlers that were moved out of the object.
  unfoldable pub call_all : Map ℕ H → Outcome → Handlers H → Handlers H
  call_all [] outcome s = s
  call_all ((index, handler) ∷ m) outcome s = call_all m outcome (call index handler outcome s)

  -- One signal in `run`: its handlers are moved out at one hop and called.
  unfoldable pub dispatch : ℕ → Handlers H → Handlers H
  dispatch signum s = elim (get_elem? s.callbacks signum) [
    | none ↦ s
    | some m ↦
        call_all m (caught signum)
          (record s { callbacks = update_at signum (λ m'. []) s.callbacks })
  ]

  -- The end of `run`: every handler that is left is moved out and canceled.
  unfoldable pub cancel_all : List (Map ℕ H) → Handlers H → Handlers H
  cancel_all [] s = s
  cancel_all (m ∷ ms) s = cancel_all ms (call_all m canceled s)

  unfoldable pub drain : Handlers H → Handlers H
  drain s = cancel_all s.callbacks (record s { callbacks = [] })

  -- run, over what sigwaitinfo gives until the loop ends, and whether it ends without an exception.
  unfoldable pub run : List Wait → Handlers H → Handlers H × Bool
  run [] s = (drain s, true)
  run (interrupted ∷ waits) s = run waits s
  run (broken ∷ waits) s = (s, false)
  run (signaled signum stopped ∷ waits) s =
      if nat_beq signum interrupt_signal && stopped
      then run waits s
      else run waits (dispatch signum s)

  -- The callback of the token. `none` is undefined: the vector was moved out by the end of `run`,
  -- or the handler, which is canceled under the lock of the object, waits for the object again.
  unfoldable pub cancel_wait : ℕ × ℕ → Handlers H → Option (Handlers H × Bool)
  cancel_wait (signum, index) s = elim (get_elem? s.callbacks signum) [
    | none ↦ none
    | some m ↦ elim (take_out index m) [
      | none ↦ some (s, false)
      | some (handler, m') ↦
          if is_empty (react handler canceled)
          then some (
            record s {
              callbacks = update_at signum (λ m''. m') s.callbacks;
              called = s.called ++ (index, canceled) ∷ [];
            },
            true,
          )
          else none
    ]
  ]
