-- ===== src/Trace.antt =====
-- trace_t and its scopes: include/cocaine/trace/trace.hpp and src/trace.cpp. The trace of the thread
-- is passed on explicitly, and the random identifiers are arguments.
pub mod Laws
use cocaine_core.Base.{
  ℕ, zero, suc, ◌+◌, ◌-◌, ◌*◌, ◌/◌, ◌%◌, ◌^◌, ◌≤◌, ◌<◌, min, String, ◌≡◌, refl, sym, ap, ◌∙◌, subst,
  ◌≢◌, ◌↔◌, ◌⊎◌, inl, inr, Bool, true, false, not, ◌&&◌, ◌||◌, Option, none, some, List, [], ◌∷◌,
  ◌++◌, map, append_assoc, append-nil, arith, ltb, leb, nat_beq, if◌then◌else◌, Bool-cases,
  Option-cases, codes, All, length, get_elem?, take, drop, replicate, find_index, find?, any, all,
  keep, is_empty, length-append, length-take, length-drop, length-replicate, take-append-drop,
  take-append_left, take-append_exact, drop-nil, take-nil, take-drop, drop-append_left,
  drop-append_right, find?-All, find?-passes, find?-any, any-find?, find?-none, Key, ◌==◌, nat_key,
  string_key, list_key, list_same, list_same_iff, ==_refl,
}

pub record State : Type 0 where
  pub span_id : ℕ
  pub parent_id : ℕ
  pub rpc_name : String

pub record Trace : Type 0 where
  pub is_verbose : Bool
  pub trace_id : ℕ
  pub state : State
  pub previous_state : State
  pub was_pushed : Bool

abbrev pub zero_state : State
zero_state = record { span_id = 0; parent_id = 0; rpc_name = "" }

-- trace_t()
abbrev pub empty_trace : Trace
empty_trace = record {
  is_verbose = false;
  trace_id = 0;
  state = zero_state;
  previous_state = zero_state;
  was_pushed = false;
}

-- empty()
unfoldable pub empty : Trace → Bool
empty t = nat_beq t.trace_id 0

-- The constructor; `none` is its exception.
unfoldable pub make : ℕ → ℕ → ℕ → Bool → String → Option Trace
make id span parent verbose name =
    let made : Trace = record {
      is_verbose = verbose;
      trace_id = id;
      state = record { span_id = span; parent_id = parent; rpc_name = name };
      previous_state = zero_state;
      was_pushed = false;
    } in
    if nat_beq id 0
    then (if not (nat_beq parent 0) || not (nat_beq span 0) then none else some made)
    else if nat_beq span 0
    then none
    else some made

-- generate
unfoldable pub generate : ℕ → String → Option Trace
unfolding make
generate id name = make id id 0 false name

-- pop; `none` is a failed assertion.
unfoldable pub pop : Trace → Option Trace
pop t =
    if empty t
    then some t
    else if nat_beq t.state.parent_id 0 || not t.was_pushed
    then none
    else some (record t { state = t.previous_state; was_pushed = false })

-- push; `id` is what `generate_id` returns.
unfoldable pub push : ℕ → String → Trace → Trace
push id name t = if empty t then t else record t {
  was_pushed = true;
  previous_state = t.state;
  state = record { span_id = id; parent_id = t.state.span_id; rpc_name = name };
}

-- A scope that runs `body` on the current trace, and what its destructor makes of that trace.
-- restore_scope_t
unfoldable pub restore_scope {ℓ} :
    {A : Type ℓ} → Option Trace → (Trace → A × Trace) → Trace → A × Trace
restore_scope none body current = body current
restore_scope (some t) body current = if empty t then body current else ((body t).0, current)

-- push_scope_t
unfoldable pub push_scope {ℓ} :
    {A : Type ℓ} → ℕ → String → (Trace → A × Trace) → Trace → Option (A × Trace)
push_scope id name body current =
    let (a, after) = body (if empty current then current else push id name current) in
    elim (pop after) [ none ↦ none | some t ↦ some (a, if empty after then after else t) ]

-- callable_wrapper: the trace at the time of `bind` is restored for each call.
pub record Callable {ℓ} (A : Type ℓ) : Type ℓ where
  pub f : Trace → A × Trace
  pub trace : Trace

unfoldable pub bind {ℓ} : {A : Type ℓ} → (Trace → A × Trace) → Trace → Callable A
bind f current = record { f = f; trace = current }

unfoldable pub call {ℓ} : {A : Type ℓ} → Callable A → Trace → A × Trace
call c current = restore_scope (some c.trace) c.f current
