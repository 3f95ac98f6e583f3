-- ===== src/Signals/Once/History.antt =====
-- Histories of the dispatcher of src/signal.cpp.
use cocaine_core.Signals.Once.Steps.{cancel_wait-Sound, run-Sound}
use cocaine_core.Signals.Once.{below, total, keys, async_wait-Sound, Sound}
use cocaine_core.Signals.{
  new_handlers, interrupted, broken, interrupt_signal, signaled, Wait, canceled, cancel_wait, run,
  drain, cancel_all, dispatch, call_all, call, Outcome, async_wait_all, async_wait, Handlers,
}
use cocaine_core.Base.Map.{Map}
use cocaine_core.Base.{
  none, some, true, ◌∙◌, Option, subst, ◌&&◌, Bool-cases, inr, inl, Option-cases, some, count, ℕ,
  ◌+◌, ◌^◌, ◌<◌, ◌≡◌, refl, ap, List, [], ◌∷◌, ◌++◌, arith, nat_beq, nat_key, string_key, list_key,
}

-- A call of the object: of async_wait, of the callback of a token, or of `run`.
pub data Step (H : Type 0) : Type 0 where
  waits : ℕ → H → Step H
  cancels : ℕ → ℕ → Step H
  runs : List Wait → Step H

module _ {H : Type 0} (react : H → Outcome → List (ℕ × H)) where
  unfoldable pub serve : List (Step H) → Handlers H → Option (Handlers H)
  serve [] s = some s
  serve (waits signum h ∷ steps) s = serve steps (async_wait signum h s).0
  serve (runs list ∷ steps) s = serve steps (run react list s).0
  serve (cancels signum index ∷ steps) s = elim (cancel_wait react (signum, index) s) [
    | none ↦ none
    | some (s', b) ↦ serve steps s'
  ]

  pub serve-Sound :
      (steps : List (Step H)) (s s' : Handlers H)
      → serve steps s ≡ some s'
      → Sound [] s
      → Sound [] s'
  unfolding serve
  serve-Sound [] s s' e sound = let same : s ≡ s' = ground arith in subst (Sound []) same sound
  serve-Sound (waits signum h ∷ steps) s s' e sound =
      serve-Sound steps (async_wait signum h s).0 s' e (async_wait-Sound [] signum h s sound)
  serve-Sound (runs list ∷ steps) s s' e sound =
      serve-Sound steps (run react list s).0 s' e (run-Sound react list s sound)
  serve-Sound (cancels signum index ∷ steps) s s' e sound =
      elim (Option-cases (cancel_wait react (signum, index) s)) [
        | inl undefined ↦ absurd (ground arith)
        | inr ((t, b), done) ↦
            serve-Sound steps t s' (ground arith)
              (cancel_wait-Sound react signum index s t b done sound)
      ]

  module _ (quiet : (h : H) → react h canceled ≡ []) where
    call_all-quiet :
        (m : Map ℕ H) (s : Handlers H) → (call_all react m canceled s).callbacks ≡ s.callbacks
    unfolding call_all call async_wait_all
    call_all-quiet [] s = refl
    call_all-quiet ((index, h) ∷ m) s =
        call_all-quiet m (call react index h canceled s)
        ∙ ap
            (λ w.
              (async_wait_all w
                (record s { called = s.called ++ (index, canceled) ∷ [] })).callbacks)
            (quiet h)

    cancel_all-quiet :
        (ms : List (Map ℕ H)) (s : Handlers H) → (cancel_all react ms s).callbacks ≡ s.callbacks
    unfolding cancel_all
    cancel_all-quiet [] s = refl
    cancel_all-quiet (m ∷ ms) s =
        cancel_all-quiet ms (call_all react m canceled s) ∙ call_all-quiet m s

    pub run-empty :
        (list : List Wait) (s : Handlers H)
        → (run react list s).1 ≡ true
        → (run react list s).0.callbacks ≡ []
    unfolding run drain
    run-empty [] s e = cancel_all-quiet s.callbacks (record s { callbacks = [] })
    run-empty (interrupted ∷ list) s e = run-empty list s e
    run-empty (broken ∷ list) s e = cc
    run-empty (signaled signum stopped ∷ list) s e =
        elim (Bool-cases (nat_beq signum interrupt_signal && stopped)) [
          | inl skipped ↦ rw (skipped, run) (run-empty list s (rw (skipped, run) at e))
          | inr told ↦
              rw (told, run) (run-empty list (dispatch react signum s) (rw (told, run) at e))
        ]

new_handlers-Sound : (H : Type 0) → Sound {H = H} [] new_handlers
new_handlers-Sound H lt = (refl, λ i. ground arith)

-- Whatever calls of async_wait, of the callbacks of tokens and of `run` are made, with handlers that
-- may wait again while they are called: as long as fewer than 2^64 waits were started and nothing
-- undefined happened, every wait started is either called once or still waits once, and not both,
-- and nothing else is called.
pub serve-once :
    {H : Type 0} (react : H → Outcome → List (ℕ × H)) (steps : List (Step H)) (s : Handlers H)
    → serve react steps new_handlers ≡ some s
    → s.started < 2 ^ 64
    → (i : ℕ) → count i (keys s.called) + total i s.callbacks ≡ below i s.started
serve-once {H} react steps s e lt i =
    let each = (serve-Sound react steps new_handlers s e (new_handlers-Sound H) lt).1 i in
    omega arith

-- If moreover handlers do not wait again when they are canceled, then a `run` that ends without an
-- exception leaves no handler, and every wait started until then has been called exactly once.
pub run-once :
    {H : Type 0} (react : H → Outcome → List (ℕ × H)) (steps : List (Step H)) (s : Handlers H)
    (list : List Wait)
    → ((h : H) → react h canceled ≡ [])
    → serve react steps new_handlers ≡ some s
    → (run react list s).1 ≡ true
    → (run react list s).0.started < 2 ^ 64
    → ((run react list s).0.callbacks ≡ [])
      × ((i : ℕ)
          → count i (keys (run react list s).0.called) ≡ below i (run react list s).0.started)
run-once {H} react steps s list quiet e done lt =
    let sound = serve-Sound react steps new_handlers s e (new_handlers-Sound H) in
    let empty = run-empty react quiet list s done in
    (empty, λ i. omega (arith, ap (total i) empty, (run-Sound react list s sound lt).1 i))
