-- ===== src/Rpc/Session/Handling.antt =====
-- `handle`, `fork` and `detach` of src/session.cpp: what one message, one new channel and the end of
-- a session do.
use cocaine_core.Base.{
  sym, subst, ◌&&◌, leb, ◌||◌, if◌then◌else◌, ltb, ℕ, ◌+◌, ◌%◌, ◌^◌, ◌≤◌, ◌<◌, String, ◌≡◌, refl,
  ◌≢◌, inl, inr, Bool, true, false, Option, none, some, [], ◌++◌, arith, Bool-cases, Option-cases,
  length, nat_key, string_key, list_key,
}
use cocaine_core.Base.Map.{
  emplace, Map, lookup, contains, modify, lookup-erase, lookup-modify, lookup-emplace,
}
use cocaine_core.Hpack.Header.{Bytes}
use cocaine_core.Errors.Codes.{standard, system, Code}
use cocaine_core.Trace.{Trace, empty, push as push_trace, restore_scope}
use cocaine_core.Rpc.Session.Invariant.{Inv}
use cocaine_core.Trace.Laws.{IsValid, pop-push}
use cocaine_core.Rpc.Session.{
  threw, Completion, channel_of, Session, Channel, Invocation, Dispatches, completed, replied,
  revoke, fork, detach, discards, dispatch_name, Completion-cases,
}
use cocaine_core.Rpc.Session.Handle.{
  select_dispatch, to_int, handle, find_channel, insert_channel, invoke, advance, assign_dispatch,
  finalize_pull, invocation_trace, resume, extract_trace,
}

-- The channel of a message after its slot has replied: kept with the old dispatch, dropped, or
-- moved to the next dispatch.
abbrev pub replied_channel : {D : Type 0} → D → Option (Option D) → Channel D → Option (Channel D)
replied_channel d none c = some (record c { dispatch = some d })
replied_channel d (some none) c = none
replied_channel d (some (some next)) c = some (record c { dispatch = some next })

abbrev pub if_there :
    {D : Type 0} → Option (Channel D) → (Channel D → Option (Channel D)) → Option (Channel D)
if_there none f = none
if_there (some c) f = f c

lookup-advance :
    {D : Type 0} (id : ℕ) (d : D) (next : Option (Option D)) (s : Session D)
    → lookup id (advance id d next s).channels
      ≡ if_there (lookup id s.channels) (replied_channel d next)
unfolding advance assign_dispatch revoke
lookup-advance {D = D} id d none s =
    ground
      (arith, lookup-modify id id (λ (c : Channel D). record c { dispatch = some d }) s.channels)
lookup-advance {D = D} id d (some (some next)) s =
    ground
      (arith, lookup-modify id id (λ (c : Channel D). record c { dispatch = some next }) s.channels)
lookup-advance {D = D} id d (some none) s =
    let dropped = modify id (λ (c : Channel D). record c { dispatch = none }) s.channels in
    ground (
      arith,
      lookup-modify id id (λ (c : Channel D). record c { dispatch = none }) s.channels,
      lookup-erase id id dropped,
    )

others-advance :
    {D : Type 0} (id j : ℕ) (d : D) (next : Option (Option D)) (s : Session D)
    → j ≢ id
    → lookup j (advance id d next s).channels ≡ lookup j s.channels
unfolding advance assign_dispatch revoke
others-advance {D = D} id j d none s ne =
    ground
      (arith, lookup-modify id j (λ (c : Channel D). record c { dispatch = some d }) s.channels)
others-advance {D = D} id j d (some (some next)) s ne =
    ground
      (arith, lookup-modify id j (λ (c : Channel D). record c { dispatch = some next }) s.channels)
others-advance {D = D} id j d (some none) s ne =
    let dropped = modify id (λ (c : Channel D). record c { dispatch = none }) s.channels in
    ground (
      arith,
      lookup-modify id j (λ (c : Channel D). record c { dispatch = none }) s.channels,
      lookup-erase id j dropped,
    )

discarded-advance :
    {D : Type 0} (id : ℕ) (d : D) (next : Option (Option D)) (s : Session D)
    → (advance id d next s).discarded ≡ s.discarded
unfolding advance assign_dispatch revoke
discarded-advance id d none s = refl
discarded-advance id d (some (some next)) s = refl
discarded-advance {D = D} id d (some none) s =
    ground (arith, lookup-modify id id (λ (c : Channel D). record c { dispatch = none }) s.channels)

rest-advance :
    {D : Type 0} (id : ℕ) (d : D) (next : Option (Option D)) (s : Session D)
    → ((advance id d next s).attached ≡ s.attached)
      × ((advance id d next s).max_channel_id ≡ s.max_channel_id)
      × ((advance id d next s).prototype ≡ s.prototype)
      × ((advance id d next s).service_dispatch ≡ s.service_dispatch)
unfolding advance assign_dispatch revoke
rest-advance id d none s = (refl, refl, refl, refl)
rest-advance id d (some (some next)) s = (refl, refl, refl, refl)
rest-advance id d (some none) s = ground arith

handle_known :
    {D : Type 0} (ops : Dispatches D) (lexical_cast : Bytes → Option Bool) (current t : Trace)
    (m : Invocation) (s : Session D) (c : Channel D) (d : D) (next : Option (Option D))
    → lookup m.span s.channels ≡ some c
    → c.dispatch ≡ some d
    → invocation_trace current c.trace ≡ some t
    → (ops.process d m c.upstream t s).1 ≡ replied next
    → handle ops lexical_cast current m s
      ≡ (advance m.span d next (ops.process d m c.upstream t s).0, completed tt)
unfolding handle find_channel invoke
handle_known ops lexical_cast current t m s c d next e de te re = ground arith

-- A message for a channel with a dispatch, whose slot replies: the slot is called once, in the
-- channel's trace. Where it has left the channel in the map, the channel then has the next dispatch,
-- keeps its own, or is gone after the last message; nothing else of the session changes, and no
-- dispatch is discarded, beyond what the slot itself did.
pub handle-replied :
    {D : Type 0} (ops : Dispatches D) (lexical_cast : Bytes → Option Bool) (current t : Trace)
    (m : Invocation) (s : Session D) (c : Channel D) (d : D) (next : Option (Option D))
    → lookup m.span s.channels ≡ some c
    → c.dispatch ≡ some d
    → invocation_trace current c.trace ≡ some t
    → (ops.process d m c.upstream t s).1 ≡ replied next
    → let called = (ops.process d m c.upstream t s).0 in
      let after = (handle ops lexical_cast current m s).0 in
      ((handle ops lexical_cast current m s).1 ≡ completed tt)
      × (lookup m.span after.channels
          ≡ if_there (lookup m.span called.channels) (replied_channel d next))
      × ((j : ℕ) → j ≢ m.span → lookup j after.channels ≡ lookup j called.channels)
      × (after.discarded ≡ called.discarded)
      × ((after.attached ≡ called.attached)
          × (after.max_channel_id ≡ called.max_channel_id)
          × (after.prototype ≡ called.prototype)
          × (after.service_dispatch ≡ called.service_dispatch))
handle-replied ops lexical_cast current t m s c d next e de te re =
    let run = handle_known ops lexical_cast current t m s c d next e de te re in
    let called = (ops.process d m c.upstream t s).0 in
    rw run (
      refl,
      lookup-advance m.span d next called,
      λ j ne. others-advance m.span j d next called ne,
      discarded-advance m.span d next called,
      rest-advance m.span d next called,
    )

invocation_trace_pushed :
    (caller current : Trace) (id : ℕ) (name : String)
    → IsValid caller
    → empty caller ≡ false
    → invocation_trace current (some (push_trace id name caller))
      ≡ some (record caller { previous_state = caller.state; was_pushed = false })
unfolding invocation_trace restore_scope resume push_trace empty
invocation_trace_pushed caller current id name v ne = ground (arith, pop-push caller id name v)

-- The graph of a service with `k` messages of its own: they are numbered from 0 on, and the four
-- control messages from 65535 down.
pub record RootOf (k : ℕ) (root : Map ℕ String) : Type 0 where
  pub keys : (n : ℕ) → contains n root ≡ ltb n k || leb 65532 n && leb n 65535
  pub total : length root ≡ k + 4
  pub apart : k + 4 ≤ 65532

-- The session and its new channel with the given dispatch.
abbrev pub opened :
    {D : Type 0} → D → Invocation → Option Trace → Session D → Session D × Completion (Channel D)
opened d m trace s = (
  record s {
    channels = emplace m.span (channel_of (some d) m.span trace) s.channels;
    max_channel_id = m.span;
  },
  completed (channel_of (some d) m.span trace),
)

-- The first message of a channel with a new, larger number, whose trace can be read and whose type
-- is below 2^32: one of the service's own messages opens the channel with the prototype, a control
-- message opens it with the control dispatch, and any other type throws and leaves the session as it
-- is.
pub find_channel-opened :
    {D : Type 0} (ops : Dispatches D) (lexical_cast : Bytes → Option Bool) (m : Invocation)
    (s : Session D) (p : D) (trace : Option Trace) (k : ℕ)
    → s.prototype ≡ some p
    → RootOf k (ops.root p)
    → m.type < 2 ^ 32
    → lookup m.span s.channels ≡ none
    → s.max_channel_id < m.span
    → extract_trace ops lexical_cast s.prototype m ≡ completed trace
    → find_channel ops lexical_cast m s ≡ (
        if ltb m.type k
        then opened p m trace s
        else if leb 65532 m.type && leb m.type 65535
        then opened s.service_dispatch m trace s
        else (s, threw standard))
unfolding find_channel insert_channel select_dispatch
find_channel-opened ops lexical_cast m s p trace k e root word missing newer read =
    let own : m.type % 2 ^ 32 ≡ m.type = omega arith in
    let has : contains (to_int m.type) (ops.root p)
        ≡ ltb m.type k || leb 65532 m.type && leb m.type 65535 =
      subst
        (λ (n : ℕ). contains n (ops.root p) ≡ ltb m.type k || leb 65532 m.type && leb m.type 65535)
        (sym own) (root.keys m.type) in
    ground (arith, root.total, root.apart)

-- A forked channel has the next number and the given dispatch, and a reply on it is handled in the
-- trace of the caller of `fork`, except that this does not remember an earlier push. The session is
-- well-formed, its next number fits in 64 bits, and the trace is valid and not empty.
pub fork-trace :
    {D : Type 0} (ops : Dispatches D) (caller current : Trace) (id : ℕ) (d : D) (s : Session D)
    → Inv s
    → s.max_channel_id + 1 < 2 ^ 64
    → IsValid caller
    → empty caller ≡ false
    → let (forked, number) = fork ops caller id (some d) s in
      (number ≡ s.max_channel_id + 1)
      × ((c : Channel D) × (lookup number forked.channels ≡ some c)
          × (c.dispatch ≡ some d)
          × (c.upstream ≡ number)
          × (invocation_trace current c.trace
              ≡ some (record caller { previous_state = caller.state; was_pushed = false })))
unfolding fork
fork-trace {D = D} ops caller current id d s v room valid ne =
    let number = (s.max_channel_id + 1) % 2 ^ 64 in
    let trace = push_trace id (dispatch_name ops (some d)) caller in
    let channel : Channel D = channel_of (some d) number (some trace) in
    let free : lookup number s.channels ≡ none = elim (Option-cases (lookup number s.channels)) [
      | inl missing ↦ missing
      | inr (c, e) ↦ absurd (omega (arith, v.bounded number c e))
    ] in
    (
      omega arith,
      (
        channel,
        ground (arith, lookup-emplace number number channel s.channels v.ascending),
        refl,
        refl,
        invocation_trace_pushed caller current id (dispatch_name ops (some d)) valid ne,
      ),
    )

-- `detach` of an attached session tells every bound dispatch of its channels once, in the order of
-- the channel numbers, and drops the channels; a second `detach` does nothing.
pub detach-once :
    {D : Type 0} (s : Session D) (ec again : Code)
    → s.attached ≡ true
    → ((detach ec s).discarded ≡ s.discarded ++ discards ec s.channels)
      × ((detach ec s).channels ≡ [])
      × ((detach ec s).attached ≡ false)
      × (detach again (detach ec s) ≡ detach ec s)
unfolding detach
detach-once s ec again on = ground arith

-- A session stops reading only when it is detached.
pub finalize_pull-stops :
    {D : Type 0} (ops : Dispatches D) (lexical_cast : Bytes → Option Bool) (current : Trace)
    (ec : Option Code) (m : Invocation) (s : Session D)
    → (finalize_pull ops lexical_cast current ec m s).1 ≡ completed false
    → (finalize_pull ops lexical_cast current ec m s).0.attached ≡ false
unfolding finalize_pull detach
finalize_pull-stops ops lexical_cast current (some ec) m s e = ground arith
finalize_pull-stops ops lexical_cast current none m s e = elim (Bool-cases s.attached) [
  | inr off ↦ ground arith
  | inl on ↦ elim (Completion-cases (handle ops lexical_cast current m s).1) [
    | inl (u, done) ↦ absurd (ground arith)
    | inr (inl (system code, failed)) ↦ ground arith
    | inr (inl (standard, failed)) ↦ ground arith
    | inr (inr undefined) ↦ absurd (ground arith)
  ]
]
