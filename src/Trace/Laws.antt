-- ===== src/Trace/Laws.antt =====
-- src/trace.cpp: traces stay valid, `pop` undoes `push` without a failed assertion, and the scopes
-- give the trace of the thread back.
use cocaine_core.Base.{
  ℕ, ◌<◌, String, ◌≡◌, refl, ◌≢◌, Bool, true, false, none, some, arith, if◌then◌else◌, nat_key,
  string_key, list_key,
}
use cocaine_core.Trace.{Trace, empty, make, pop, push, restore_scope, push_scope, bind, call}

-- A trace has a span exactly if it has an identifier, and a pushed one has a parent and a state to
-- go back to.
pub record IsValid (t : Trace) : Type 0 where
  pub zero : t.trace_id ≡ 0 → (t.state.span_id ≡ 0) × (t.state.parent_id ≡ 0)
  pub span : t.trace_id ≢ 0 → t.state.span_id ≢ 0
  pub parent : t.was_pushed ≡ true → t.state.parent_id ≢ 0
  pub previous : t.was_pushed ≡ true → t.previous_state.span_id ≢ 0
  pub pushed : t.was_pushed ≡ true → t.trace_id ≢ 0

-- What the constructor returns is valid.
pub make-IsValid :
    (id span parent : ℕ) (verbose : Bool) (name : String) (t : Trace)
    → make id span parent verbose name ≡ some t
    → IsValid t
unfolding make
make-IsValid id span parent verbose name t e = grind arith

-- `push` with an identifier other than 0 keeps a trace valid.
pub push-IsValid :
    (t : Trace) (id : ℕ) (name : String) → 0 < id → IsValid t → IsValid (push id name t)
unfolding push empty
push-IsValid t id name pos v = grind arith

-- `pop` keeps a trace valid.
pub pop-IsValid : (t u : Trace) → IsValid t → pop t ≡ some u → IsValid u
unfolding pop empty
pop-IsValid t u v e = grind arith

-- `pop` of a valid trace that was pushed passes its assertions.
pub pop-passes : (t : Trace) → IsValid t → t.was_pushed ≡ true → (u : Trace) × (pop t ≡ some u)
unfolding pop empty
pop-passes t v e = (record t { state = t.previous_state; was_pushed = false }, grind arith)

-- `pop` after `push` passes its assertions and gives the identifiers and the name back that a valid
-- trace had; only whether it was pushed before, and its own previous state, are forgotten.
pub pop-push :
    (t : Trace) (id : ℕ) (name : String)
    → IsValid t
    → pop (push id name t)
      ≡ some (if empty t then t else record t { previous_state = t.state; was_pushed = false })
unfolding pop push empty
pop-push t id name v = grind arith

-- Of a trace that is not empty only the last `push` can be undone: after two of them the second
-- `pop` fails its assertion.
pub pop-pop :
    (t u : Trace) (i j : ℕ) (m n : String)
    → empty t ≡ false
    → pop (push j n (push i m t)) ≡ some u
    → pop u ≡ none
unfolding pop push empty
pop-pop t u i j m n h e = grind arith

-- A scope with a trace that is not empty runs its body on that trace and leaves the trace of the
-- thread as it was, whatever the body does; any other scope just runs its body.
pub restore_scope-current {ℓ} :
    {A : Type ℓ} (t : Trace) (body : Trace → A × Trace) (current : Trace)
    → (empty t ≡ false → restore_scope (some t) body current ≡ ((body t).0, current))
      × (empty t ≡ true → restore_scope (some t) body current ≡ body current)
      × (restore_scope none body current ≡ body current)
unfolding restore_scope
restore_scope-current t body current = (λ h. ground arith, λ h. ground arith, refl)

-- A call of a bound function runs in the trace of `bind` and leaves the caller's trace as it was.
pub call-bind {ℓ} :
    {A : Type ℓ} (f : Trace → A × Trace) (binder caller : Trace)
    → empty binder ≡ false
    → call (bind f binder) caller ≡ ((f binder).0, caller)
unfolding call bind restore_scope
call-bind f binder caller h = ground arith

-- A push scope shows its body the pushed trace, and if the body leaves that alone, the identifiers
-- and the name are back after the scope.
pub push_scope-state {ℓ} :
    {A : Type ℓ} (id : ℕ) (name : String) (g : Trace → A) (t : Trace)
    → IsValid t
    → (u : Trace) × (push_scope id name (λ c. (g c, c)) t ≡ some (g (push id name t), u))
      × (u.trace_id ≡ t.trace_id)
      × (u.state ≡ t.state)
unfolding push_scope push pop empty
push_scope-state id name g t v = (
  if empty t then t else record t { previous_state = t.state; was_pushed = false },
  grind arith,
  grind arith,
  grind arith,
)
