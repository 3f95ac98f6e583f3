-- ===== src/Rpc/Session/History.antt =====
-- src/session.cpp over time: channel numbers only grow, and a channel that is gone never comes back.
use cocaine_core.Errors.{revoked_channel, uncaught_error}
use cocaine_core.Rpc.Session.Invariant.{
  lookup-revoke, max_channel_id-revoke, advance-Keeps, Keeps-trans, revoke-Keeps, detach-Keeps,
  find_channel-Keeps, Keeps-refl, fork-Keeps, Keeps,
}
use cocaine_core.Rpc.Session.Invariant.{Inv}
use cocaine_core.Base.{
  ℕ, ◌+◌, ◌^◌, ◌≤◌, ◌<◌, ◌≡◌, subst, inl, inr, Bool, Option, none, some, arith, nat_beq, Bool-cases,
  Option-cases, nat_key, string_key, list_key,
}
use cocaine_core.Hpack.Header.{Bytes}
use cocaine_core.Errors.Codes.{standard, dispatch_code, system, Code}
use cocaine_core.Trace.{Trace}
use cocaine_core.Rpc.Session.{
  threw, finalize_push, Completion-cases, Reply-cases, Invocation, Session, Channel, Dispatches,
  revoke, fork, detach,
}
use cocaine_core.Rpc.Session.Handle.{
  finalize_pull, invocation_trace, handle, invoke, find_channel, advance,
}

-- What a slot may do to the session that it is called from.
pub data Call {D : Type 0} (ops : Dispatches D) : Session D → Session D → Type 0 where
  forks :
      (s : Session D) (current : Trace) (id : ℕ) (d : Option D)
      → s.max_channel_id + 1 < 2 ^ 64
      → Call ops s (fork ops current id d s).0
  revokes : (s : Session D) (id : ℕ) (ec : Code) → Call ops s (revoke id ec s)
  detaches : (s : Session D) (ec : Code) → Call ops s (detach ec s)

pub data Calls {D : Type 0} (ops : Dispatches D) (s : Session D) : Session D → Type 0 where
  none_yet : Calls ops s s
  one_more : {t u : Session D} → Calls ops s t → Call ops t u → Calls ops s u

-- The slots use the session only by its operations.
abbrev pub UsesCalls : {D : Type 0} → Dispatches D → Type 0
UsesCalls {D = D} ops =
    (d : D) (m : Invocation) (upstream : ℕ) (t : Trace) (s : Session D)
    → Calls ops s (ops.process d m upstream t s).0

Call-Keeps : {D : Type 0} {ops : Dispatches D} {s t : Session D} → Call ops s t → Inv s → Keeps s t
Call-Keeps (forks s current id d room) v = fork-Keeps _ current id d s v room
Call-Keeps (revokes s id ec) v = revoke-Keeps id ec s v
Call-Keeps (detaches s ec) v = detach-Keeps ec s v

Calls-Keeps :
    {D : Type 0} {ops : Dispatches D} {s t : Session D} → Calls ops s t → Inv s → Keeps s t
Calls-Keeps none_yet v = Keeps-refl _ v
Calls-Keeps (one_more cs c) v =
    let first = Calls-Keeps cs v in Keeps-trans first (Call-Keeps c first.inv)

invoke-Keeps :
    {D : Type 0} (ops : Dispatches D) (current : Trace) (m : Invocation) (c : Channel D)
    (s : Session D)
    → UsesCalls ops
    → Inv s
    → Keeps s (invoke ops current m c s).0
unfolding invoke
invoke-Keeps ops current m c s uses v = elim (Option-cases c.dispatch) [
  | inl e ↦
      let same : s ≡ (invoke ops current m c s).0 = ground arith in
      subst (Keeps s) same (Keeps-refl s v)
  | inr (d, e) ↦ elim (Option-cases (invocation_trace current c.trace)) [
    | inl stuck ↦
        let same : s ≡ (invoke ops current m c s).0 = ground arith in
        subst (Keeps s) same (Keeps-refl s v)
    | inr (t, resumed) ↦
        let ran = ops.process d m c.upstream t s in
        let called = Calls-Keeps (uses d m c.upstream t s) v in
        elim (Reply-cases ran.1) [
          | inl (next, r) ↦
              let same : advance m.span d next ran.0 ≡ (invoke ops current m c s).0 =
                ground arith in
              subst (Keeps s) same
                (Keeps-trans called (advance-Keeps m.span d next ran.0 called.inv))
          | inr (f, r) ↦
              let same : ran.0 ≡ (invoke ops current m c s).0 = ground arith in
              subst (Keeps s) same called
        ]
  ]
]

handle-Keeps :
    {D : Type 0} (ops : Dispatches D) (lexical_cast : Bytes → Option Bool) (current : Trace)
    (m : Invocation) (s : Session D)
    → UsesCalls ops
    → Inv s
    → m.span < 2 ^ 64
    → Keeps s (handle ops lexical_cast current m s).0
unfolding handle
handle-Keeps ops lexical_cast current m s uses v word =
    let found = find_channel ops lexical_cast m s in
    let first = find_channel-Keeps ops lexical_cast m s v word in
    elim (Completion-cases found.1) [
      | inl (c, e) ↦
          let same : (invoke ops current m c found.0).0 ≡ (handle ops lexical_cast current m s).0 =
            ground arith in
          subst (Keeps s) same
            (Keeps-trans first (invoke-Keeps ops current m c found.0 uses first.inv))
      | inr failed ↦
          let same : found.0 ≡ (handle ops lexical_cast current m s).0 = ground arith in
          subst (Keeps s) same first
    ]

finalize_pull-Keeps :
    {D : Type 0} (ops : Dispatches D) (lexical_cast : Bytes → Option Bool) (current : Trace)
    (ec : Option Code) (m : Invocation) (s : Session D)
    → UsesCalls ops
    → Inv s
    → m.span < 2 ^ 64
    → Keeps s (finalize_pull ops lexical_cast current ec m s).0
unfolding finalize_pull
finalize_pull-Keeps ops lexical_cast current (some ec) m s uses v word = detach-Keeps ec s v
finalize_pull-Keeps ops lexical_cast current none m s uses v word = elim (Bool-cases s.attached) [
  | inr off ↦
      let same : s ≡ (finalize_pull ops lexical_cast current none m s).0 = ground arith in
      subst (Keeps s) same (Keeps-refl s v)
  | inl on ↦
      let ran = handle ops lexical_cast current m s in
      let first = handle-Keeps ops lexical_cast current m s uses v word in
      let last = λ (ec : Code). Keeps-trans first (detach-Keeps ec ran.0 first.inv) in
      elim (Completion-cases ran.1) [
        | inl (c, e) ↦
            let same : ran.0 ≡ (finalize_pull ops lexical_cast current none m s).0 = ground arith in
            subst (Keeps s) same first
        | inr (inl (system ec, e)) ↦
            let same : detach ec ran.0 ≡ (finalize_pull ops lexical_cast current none m s).0 =
              ground arith in
            subst (Keeps s) same (last ec)
        | inr (inl (standard, e)) ↦
            let same : detach (dispatch_code uncaught_error) ran.0
                ≡ (finalize_pull ops lexical_cast current none m s).0 =
              ground arith in
            subst (Keeps s) same (last (dispatch_code uncaught_error))
        | inr (inr e) ↦
            let same : ran.0 ≡ (finalize_pull ops lexical_cast current none m s).0 = ground arith in
            subst (Keeps s) same first
      ]
]

finalize_push-Keeps :
    {D : Type 0} (ec : Code) (s : Session D) → Inv s → Keeps s (finalize_push ec s)
unfolding finalize_push
finalize_push-Keeps ec s v = elim (Bool-cases (nat_beq ec.value 0)) [
  | inl ok ↦
      let same : s ≡ finalize_push ec s = ground arith in subst (Keeps s) same (Keeps-refl s v)
  | inr failed ↦
      let same : detach ec s ≡ finalize_push ec s = ground arith in
      subst (Keeps s) same (detach-Keeps ec s v)
]

-- What may happen to a session: a call of its operations, or the end of a read or of a write.
pub data Step {D : Type 0} (ops : Dispatches D) (lexical_cast : Bytes → Option Bool)
    : Session D → Session D → Type 0 where
  calls : {s t : Session D} → Call ops s t → Step ops lexical_cast s t
  receives :
      (s : Session D) (current : Trace) (ec : Option Code) (m : Invocation)
      → m.span < 2 ^ 64
      → Step ops lexical_cast s (finalize_pull ops lexical_cast current ec m s).0
  sends : (s : Session D) (ec : Code) → Step ops lexical_cast s (finalize_push ec s)

pub data Reach {D : Type 0} (ops : Dispatches D) (lexical_cast : Bytes → Option Bool)
    (s : Session D) : Session D → Type 0 where
  here : Reach ops lexical_cast s s
  next :
      {t u : Session D}
      → Reach ops lexical_cast s t
      → Step ops lexical_cast t u
      → Reach ops lexical_cast s u

Step-Keeps :
    {D : Type 0} {ops : Dispatches D} {lexical_cast : Bytes → Option Bool} {s t : Session D}
    → UsesCalls ops
    → Step ops lexical_cast s t
    → Inv s
    → Keeps s t
Step-Keeps uses (calls c) v = Call-Keeps c v
Step-Keeps uses (receives s current ec m word) v =
    finalize_pull-Keeps _ _ current ec m s uses v word
Step-Keeps uses (sends s ec) v = finalize_push-Keeps ec s v

-- Whatever happens to a session whose slots use it only by its operations and whose numbers stay
-- within 64 bits: the invariant stays, the largest number does not fall, and a channel that is gone
-- does not come back.
pub Reach-Keeps :
    {D : Type 0} {ops : Dispatches D} {lexical_cast : Bytes → Option Bool} {s t : Session D}
    → UsesCalls ops
    → Inv s
    → Reach ops lexical_cast s t
    → Keeps s t
Reach-Keeps uses v here = Keeps-refl _ v
Reach-Keeps uses v (next r st) =
    let first = Reach-Keeps uses v r in Keeps-trans first (Step-Keeps uses st first.inv)

-- After `revoke` of a number that was in use, every later message for it, whatever happened in
-- between, is refused with `revoked_channel` and changes nothing, if the slots use the session only
-- by its operations, and the numbers of the messages and those that `fork` hands out stay within 64
-- bits.
pub handle-revoked :
    {D : Type 0} {ops : Dispatches D} {lexical_cast : Bytes → Option Bool} (s t : Session D)
    (id : ℕ) (ec : Code) (current : Trace) (m : Invocation)
    → UsesCalls ops
    → Inv s
    → id ≤ s.max_channel_id
    → Reach ops lexical_cast (revoke id ec s) t
    → m.span ≡ id
    → handle ops lexical_cast current m t ≡ (t, threw (system (dispatch_code revoked_channel)))
unfolding handle find_channel
handle-revoked s t id ec current m uses v le r same =
    let first = revoke-Keeps id ec s v in
    let later = Reach-Keeps uses first.inv r in
    let missing =
      later.gone id (omega (arith, max_channel_id-revoke id ec s)) (lookup-revoke id ec s) in
    ground (arith, later.later, max_channel_id-revoke id ec s)
