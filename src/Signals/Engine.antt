-- ===== src/Signals/Engine.antt =====
-- engine_t and ignore_t of src/signal.cpp, over the dispatcher of Signals.
use cocaine_core.Base.{none, some, some, ◌++◌, Option, [], ◌∷◌, List, ℕ}
use cocaine_core.Signals.{cancel_wait, async_wait, Handlers, Outcome, caught, canceled}

-- The handlers of the engine: ignore_t, the one of `wait_for` that calls `terminate`, and those of a
-- user, which ask for no waits and are named by numbers.
pub data Handler : Type 0 where
  ignoring : Handler
  terminating : Handler
  user : ℕ → Handler

-- ignore_t::operator(): it waits again unless it is canceled.
abbrev pub react : Handler → Outcome → List (ℕ × Handler)
react ignoring (caught signum) = (signum, ignoring) ∷ []
react ignoring canceled = []
react terminating outcome = []
react (user n) outcome = []

-- ignore: the token of the wait is dropped, which detaches it.
unfoldable pub ignore : ℕ → Handlers Handler → Handlers Handler
ignore signum s = (async_wait signum ignoring s).0

-- on: the token is kept in `cancellations`.
unfoldable pub on : ℕ → Handler → Handlers Handler × List (ℕ × ℕ) → Handlers Handler × List (ℕ × ℕ)
on signum handler (s, cancellations) =
    let (s', token) = async_wait signum handler s in (s', cancellations ++ token ∷ [])

-- wait_for, until it blocks.
unfoldable pub wait_for : List ℕ → Handlers Handler × List (ℕ × ℕ) → Handlers Handler × List (ℕ × ℕ)
wait_for [] e = e
wait_for (signum ∷ signums) e = wait_for signums (on signum terminating e)

-- The loop of the destructor over the tokens, none of which was canceled or detached before; the
-- result of each callback is dropped. `none` is undefined.
unfoldable pub cancel_tokens : List (ℕ × ℕ) → Handlers Handler → Option (Handlers Handler)
cancel_tokens [] s = some s
cancel_tokens (token ∷ cancellations) s = elim (cancel_wait react token s) [
  | none ↦ none
  | some (s', b) ↦ cancel_tokens cancellations s'
]
