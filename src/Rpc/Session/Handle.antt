-- ===== src/Rpc/Session/Handle.antt =====
-- session_t::handle of src/session.cpp, and the end of a read that calls it.
use cocaine_core.Base.{
  ℕ, ◌%◌, ◌^◌, String, Bool, true, false, not, ◌&&◌, Option, none, some, List, ltb, leb,
  if◌then◌else◌, codes, length, nat_key, string_key, list_key,
}
use cocaine_core.Base.Map.{lookup, contains, emplace, modify}
use cocaine_core.Hpack.Header.{Bytes, Header, find_first, unpack}
use cocaine_core.Hpack.Headers.Late.{trace_id, span_id, parent_id}
use cocaine_core.Errors.{revoked_channel, unbound_dispatch, uncaught_error}
use cocaine_core.Errors.Codes.{
  Code, no_error, invalid_argument_code, dispatch_code, system, standard,
}
use cocaine_core.Trace.{Trace, empty, make, pop, restore_scope}
use cocaine_core.Rpc.Encoder.{name_of}
use cocaine_core.Rpc.Session.{
  Channel, Completion, Dispatches, Invocation, Session, broken, channel_of, completed, detach,
  raised, replied, revoke, threw,
}

-- The conversion of a message type to the `int` keys of a dispatch graph. A negative result is kept
-- as its bits; no graph has such a key.
abbrev pub to_int : ℕ → ℕ
to_int n = n % 2 ^ 32

-- The arguments of the `trace_t` constructor in `extract_trace`, which may throw in any order; here
-- the identifiers are read first.
unfoldable pub construct_trace :
    Option ℕ → Option ℕ → Option ℕ → Bool → Option String → Completion (Option Trace)
construct_trace (some id) (some span) (some parent) verbose (some name) =
    elim (make id span parent verbose name) [
      | none ↦ threw (system invalid_argument_code)
      | some t ↦ completed (some t)
    ]
construct_trace (some id) (some span) (some parent) verbose none = threw standard
construct_trace _ _ _ verbose name = threw (system invalid_argument_code)

-- The headers of the trace, if all three are there.
unfoldable pub traced_headers : List Header → Option (Header × Header × Header)
traced_headers headers = elim (find_first headers (name_of trace_id)) [
  | none ↦ none
  | some t ↦ elim (find_first headers (name_of span_id)) [
    | none ↦ none
    | some s ↦ elim (find_first headers (name_of parent_id)) [
      | none ↦ none
      | some p ↦ some (t, s, p)
    ]
  ]
]

-- The trace bit; `lexical_cast` is boost's, and `none` is its exception.
unfoldable pub verbose_of : (Bytes → Option Bool) → List Header → Option Bool
verbose_of lexical_cast headers = elim (find_first headers (codes "trace_bit")) [
  | none ↦ some false
  | some h ↦ lexical_cast h.value
]

unfoldable pub extract_trace :
    {D : Type 0}
    → Dispatches D
    → (Bytes → Option Bool)
    → Option D
    → Invocation
    → Completion (Option Trace)
extract_trace ops lexical_cast prototype m = elim (traced_headers m.headers) [
  | none ↦ completed none
  | some (t, s, p) ↦ elim (verbose_of lexical_cast m.headers) [
    | none ↦ threw standard
    | some verbose ↦ elim prototype [
      | none ↦ broken
      | some d ↦
          construct_trace (unpack 8 t.value) (unpack 8 s.value) (unpack 8 p.value) verbose
            (lookup (to_int m.type) (ops.root d))
    ]
  ]
]

unfoldable pub select_dispatch : {D : Type 0} → Dispatches D → D → D → ℕ → D
select_dispatch ops prototype service_dispatch type =
    if ltb type (length (ops.root prototype)) then prototype else service_dispatch

-- The insertion of a new channel in `handle`: the timer of the message is looked up first.
unfoldable pub insert_channel :
    {D : Type 0}
    → Dispatches D
    → Invocation
    → Option Trace
    → Session D
    → Session D × Completion (Channel D)
insert_channel ops m trace s = elim s.prototype [
  | none ↦ (s, broken)
  | some p ↦
      let channel =
        channel_of (some (select_dispatch ops p s.service_dispatch m.type)) m.span trace in
      if contains (to_int m.type) (ops.root p)
      then (
        record s { channels = emplace m.span channel s.channels; max_channel_id = m.span },
        completed channel,
      )
      else (s, threw standard)
]

-- The first part of `handle`: the channel of the message, found or made.
unfoldable pub find_channel :
    {D : Type 0}
    → Dispatches D
    → (Bytes → Option Bool)
    → Invocation
    → Session D
    → Session D × Completion (Channel D)
find_channel ops lexical_cast m s = elim (lookup m.span s.channels) [
  | some channel ↦ (s, completed channel)
  | none ↦
      if leb m.span s.max_channel_id
      then (s, threw (system (dispatch_code revoked_channel)))
      else elim (extract_trace ops lexical_cast s.prototype m) [
        | completed trace ↦ insert_channel ops m trace s
        | threw f ↦ (s, threw f)
        | broken ↦ (s, broken)
      ]
]

-- The trace that a slot runs in: the channel's, or the thread's if that is empty; popped if pushed.
unfoldable pub resume : Trace → Option Trace
resume t = if not (empty t) && t.was_pushed then pop t else some t

unfoldable pub invocation_trace : Trace → Option Trace → Option Trace
invocation_trace current trace = (restore_scope trace (λ t. (resume t, t)) current).0

-- `channel->dispatch = next`, seen in the map if the channel is still there.
unfoldable pub assign_dispatch : {D : Type 0} → ℕ → Option D → Session D → Session D
assign_dispatch id next s = record s {
  channels = modify id (λ c. record c { dispatch = next }) s.channels;
}

-- The last part of `handle`. The channel pointer is unique exactly if the map has lost the channel.
unfoldable pub advance : {D : Type 0} → ℕ → D → Option (Option D) → Session D → Session D
advance id d none s = assign_dispatch id (some d) s
advance id d (some (some next)) s = assign_dispatch id (some next) s
advance id d (some none) s =
    if contains id s.channels then revoke id no_error (assign_dispatch id none s) else s

unfoldable pub invoke :
    {D : Type 0}
    → Dispatches D
    → Trace
    → Invocation
    → Channel D
    → Session D
    → Session D × Completion (Unit {0})
invoke ops current m channel s = elim channel.dispatch [
  | none ↦ (s, threw (system (dispatch_code unbound_dispatch)))
  | some d ↦ elim (invocation_trace current channel.trace) [
    | none ↦ (s, broken)
    | some t ↦
        let (after, reply) = ops.process d m channel.upstream t s in
        elim reply [
          | raised f ↦ (after, threw f)
          | replied next ↦ (advance m.span d next after, completed tt)
        ]
  ]
]

unfoldable pub handle :
    {D : Type 0}
    → Dispatches D
    → (Bytes → Option Bool)
    → Trace
    → Invocation
    → Session D
    → Session D × Completion (Unit {0})
handle ops lexical_cast current m s =
    let (found, channel) = find_channel ops lexical_cast m s in
    elim channel [
      | completed c ↦ invoke ops current m c found
      | threw f ↦ (found, threw f)
      | broken ↦ (found, broken)
    ]

-- pull_action_t::finalize; the result tells whether the next message is read.
unfoldable pub finalize_pull :
    {D : Type 0}
    → Dispatches D
    → (Bytes → Option Bool)
    → Trace
    → Option Code
    → Invocation
    → Session D
    → Session D × Completion Bool
finalize_pull ops lexical_cast current (some ec) m s = (detach ec s, completed false)
finalize_pull ops lexical_cast current none m s =
    if s.attached
    then (let (after, end) = handle ops lexical_cast current m s in
        elim end [
          | completed _ ↦ (after, completed true)
          | threw f ↦ elim f [
            | system ec ↦ (detach ec after, completed false)
            | standard ↦ (detach (dispatch_code uncaught_error) after, completed false)
          ]
          | broken ↦ (after, broken)
        ])
    else (s, completed false)
