-- ===== src/Rpc/Queue/History.antt =====
-- streamed and its message queue over time: what reaches the upstream, in which order, and how a
-- stream ends. Each call may meet another upstream, which takes some messages and refuses others.
use cocaine_core.Base.{
  Option-cases, ℕ, String, ◌≡◌, refl, sym, subst, ◌⊎◌, inl, inr, Bool, true, false, Option, none,
  some, List, [], ◌∷◌, ◌++◌, append-nil, arith, Bool-cases, All, nat_key, string_key, list_key,
}
use cocaine_core.Errors.Codes.{Code}
use cocaine_core.Hpack.Header.{Header}
use cocaine_core.Rpc.Queue.{
  Event, chunk, error, choke, Operation, Appended, append, attach, Streamed, new_streamed,
  of_outbox, refused, write, abort, close, attach_streamed,
}
use cocaine_core.Rpc.Queue.Order.{Ordered, accept, append-Ordered, attach-Ordered}
use cocaine_core.Rpc.Queue.Torn.{
  Torn, Quiet, append-Torn, append-Quiet, attach-Torn, attach-upstream,
}

-- How the stream was attached: no call of `attach` has thrown, one has and was the last, or there was
-- another one after it, which sends messages that were moved from.
pub data Phase : Type 0 where
  whole torn resent : Phase

abbrev pub attempted : Phase → Option Code → Phase
attempted whole none = whole
attempted whole (some ec) = torn
attempted torn e = resent
attempted resent e = resent

-- The stream with the messages that an upstream took, and those that a call accepted.
pub record World (A : Type 0) : Type 0 where
  pub stream : Streamed A
  pub wire : List (Operation A)
  pub accepted : List (Operation A)
  pub phase : Phase

abbrev pub start : {A : Type 0} → World A
start = record { stream = new_streamed; wire = []; accepted = []; phase = whole }

unfoldable pub after : {A : Type 0} → World A → Operation A → Appended (Streamed A) A → World A
after w op r = record {
  stream = r.queue;
  wire = w.wire ++ r.sent;
  accepted = accept r.error w.accepted op;
  phase = w.phase;
}

abbrev pub op_of : {A : Type 0} → List Header → Event A → Operation A
op_of headers event = record { headers = headers; event = event }

abbrev pub attached_world : {A : Type 0} → (ℕ → Operation A → Option Code) → ℕ → World A → World A
attached_world send u w = record w {
  stream = (attach_streamed send u w.stream).queue;
  wire = w.wire ++ (attach_streamed send u w.stream).sent;
  phase = attempted w.phase (attach_streamed send u w.stream).error;
}

pub data Step {A : Type 0} : World A → World A → Type 0 where
  writes :
      (w : World A) (send : ℕ → Operation A → Option Code) (headers : List Header) (a : A)
      → Step w (after w (op_of headers (chunk a)) (write send headers a w.stream))
  aborts :
      (w : World A) (send : ℕ → Operation A → Option Code) (headers : List Header) (ec : Code)
      (reason : String)
      → Step w (after w (op_of headers (error ec reason)) (abort send headers ec reason w.stream))
  closes :
      (w : World A) (send : ℕ → Operation A → Option Code) (headers : List Header)
      → Step w (after w (op_of headers choke) (close send headers w.stream))
  attaches :
      (w : World A) (send : ℕ → Operation A → Option Code) (u : ℕ)
      → Step w (attached_world send u w)

pub data Reach {A : Type 0} : World A → Type 0 where
  here : Reach start
  next : {v w : World A} → Reach v → Step v w → Reach w

-- An error or a choke.
abbrev pub is_terminal : {A : Type 0} → Operation A → Bool
is_terminal op = elim op.event [ chunk a ↦ false | error ec reason ↦ true | choke ↦ true ]

abbrev pub Chunks : {A : Type 0} → List (Operation A) → Type 0
Chunks = All (λ op. is_terminal op ≡ false)

-- Chunks only, and after the end of the stream at most one error or choke, at the very end.
abbrev pub Ended : {A : Type 0} → Bool → List (Operation A) → Type 0
Ended {A = A} false accepted = Chunks accepted
Ended {A = A} true accepted =
    (chunks : List (Operation A)) × Chunks chunks
    × ((accepted ≡ chunks)
        ⊎ ((last : Operation A) × (is_terminal last ≡ true) × (accepted ≡ chunks ++ last ∷ [])))

-- Where the accepted messages are.
abbrev pub Delivered : {A : Type 0} → Phase → World A → Type 0
Delivered whole w = Ordered w.wire w.stream.outbox w.accepted × Quiet w.wire w.stream.outbox
Delivered torn w = Torn w.wire w.stream.outbox w.accepted
Delivered resent w = Unit {0}

pub record Inv {A : Type 0} (w : World A) : Type 0 where
  pub delivered : Delivered w.phase w
  pub ended : Ended w.stream.is_closed w.accepted

-- What a call makes of the end of the stream.
Ended-append :
    {A : Type 0} (accepted : List (Operation A)) (op : Operation A) (e : Option Code)
    → Chunks accepted
    → is_terminal op ≡ true
    → Ended true (accept e accepted op)
Ended-append accepted op none c t = (accepted, c, inr (op, t, refl))
Ended-append accepted op (some ec) c t = (accepted, c, inl refl)

Chunks-snoc :
    {A : Type 0} (xs : List (Operation A)) (op : Operation A)
    → Chunks xs
    → is_terminal op ≡ false
    → Chunks (xs ++ op ∷ [])
Chunks-snoc [] op c e = (e, tt)
Chunks-snoc (x ∷ xs) op c e = (c.0, Chunks-snoc xs op c.1 e)

Chunks-accept :
    {A : Type 0} (accepted : List (Operation A)) (op : Operation A) (e : Option Code)
    → Chunks accepted
    → is_terminal op ≡ false
    → Chunks (accept e accepted op)
Chunks-accept accepted op none c t = Chunks-snoc accepted op c t
Chunks-accept accepted op (some ec) c t = c

-- A call that is refused since the stream is closed.
refused-Delivered :
    {A : Type 0} (phase : Phase) (w : World A) (op : Operation A)
    → Delivered phase w
    → Delivered phase (after w op (refused w.stream))
unfolding after
refused-Delivered whole w op v = rw (append-nil w.wire) v
refused-Delivered torn w op v = rw (append-nil w.wire) v
refused-Delivered resent w op v = tt

refused-Inv :
    {A : Type 0} (w : World A) (op : Operation A) → Inv w → Inv (after w op (refused w.stream))
unfolding after
refused-Inv w op v = record {
  delivered = refused-Delivered w.phase w op v.delivered;
  ended = v.ended;
}

-- A call that appends a message to an open stream, and closes it if the message is terminal.
append-Delivered :
    {A : Type 0} (phase : Phase) (send : ℕ → Operation A → Option Code) (w : World A)
    (op : Operation A) (closed : Bool)
    → Delivered phase w
    → Delivered phase (after w op (of_outbox closed (append send op w.stream.outbox)))
unfolding after
append-Delivered whole send w op closed v = (
  append-Ordered send op w.stream.outbox w.wire w.accepted v.0,
  append-Quiet send op w.stream.outbox w.wire v.1,
)
append-Delivered torn send w op closed v = append-Torn send op w.stream.outbox w.wire w.accepted v
append-Delivered resent send w op closed v = tt

append-Inv :
    {A : Type 0} (send : ℕ → Operation A → Option Code) (w : World A) (op : Operation A)
    → Inv w
    → w.stream.is_closed ≡ false
    → Inv (after w op (of_outbox (is_terminal op) (append send op w.stream.outbox)))
unfolding after
append-Inv send w op v open_ =
    let chunks : Chunks w.accepted = subst (λ b. Ended b w.accepted) open_ v.ended in
    let e = (append send op w.stream.outbox).error in
    record {
      delivered = append-Delivered w.phase send w op (is_terminal op) v.delivered;
      ended = elim (Bool-cases (is_terminal op)) [
        | inl last ↦
            subst (λ b. Ended b (accept e w.accepted op)) (sym last)
              (Ended-append w.accepted op e chunks last)
        | inr more ↦
            subst (λ b. Ended b (accept e w.accepted op)) (sym more)
              (Chunks-accept w.accepted op e chunks more)
      ];
    }

attach-Delivered :
    {A : Type 0} (phase : Phase) (send : ℕ → Operation A → Option Code) (u : ℕ) (w : World A)
    → Delivered phase w
    → Delivered (attempted phase (attach_streamed send u w.stream).error) (attached_world send u w)
unfolding attach_streamed
attach-Delivered whole send u w v = elim (Option-cases (attach send u w.stream.outbox).error) [
  | inl took ↦ rw took (
    attach-Ordered send u w.stream.outbox w.wire w.accepted v.0 took,
    inr (u, attach-upstream send u w.stream.outbox took),
  )
  | inr (ec, threw) ↦
      rw threw (attach-Torn send u w.stream.outbox w.wire w.accepted ec v.0 v.1 threw)
]
attach-Delivered torn send u w v = tt
attach-Delivered resent send u w v = tt

Step-Inv : {A : Type 0} {v w : World A} → Step v w → Inv v → Inv w
unfolding write abort close attach_streamed
Step-Inv {A = A} (writes w send headers a) v = elim (Bool-cases w.stream.is_closed) [
  | inl closed ↦
      subst (λ r. Inv (after w (op_of headers (chunk a)) r)) (ground arith)
        (refused-Inv w (op_of headers (chunk a)) v)
  | inr open_ ↦
      subst (λ r. Inv (after w (op_of headers (chunk a)) r)) (ground arith)
        (append-Inv send w (op_of headers (chunk a)) v open_)
]
Step-Inv {A = A} (aborts w send headers ec reason) v = elim (Bool-cases w.stream.is_closed) [
  | inl closed ↦
      subst (λ r. Inv (after w (op_of headers (error ec reason)) r)) (ground arith)
        (refused-Inv w (op_of headers (error ec reason)) v)
  | inr open_ ↦
      subst (λ r. Inv (after w (op_of headers (error ec reason)) r)) (ground arith)
        (append-Inv send w (op_of headers (error ec reason)) v open_)
]
Step-Inv {A = A} (closes w send headers) v = elim (Bool-cases w.stream.is_closed) [
  | inl closed ↦
      subst (λ r. Inv (after w (op_of headers choke) r)) (ground arith)
        (refused-Inv w (op_of headers choke) v)
  | inr open_ ↦
      subst (λ r. Inv (after w (op_of headers choke) r)) (ground arith)
        (append-Inv send w (op_of headers choke) v open_)
]
Step-Inv (attaches w send u) v = record {
  delivered = attach-Delivered w.phase send u w v.delivered;
  ended = v.ended;
}

start-Inv : {A : Type 0} → Inv (start {A = A})
start-Inv = record {
  delivered = (record { order = refl; attached = inl refl }, inl refl);
  ended = tt;
}

-- However a stream is written, aborted, closed and attached, and whichever sends of whichever call
-- fail: the accepted messages are chunks, with one error or choke at most, at the end, and none while
-- the stream is open. As long as no call of `attach` has thrown, the messages that were accepted are
-- on the wire or in the queue, in their order, an attached queue is empty, and nothing is on the wire
-- before the queue is attached. After one that threw, and until there is another, the queue is not
-- attached, what is on the wire is a prefix of what was accepted, the next message is lost, and all
-- later ones are still in the queue, in their order.
pub Reach-Inv_streamed : {A : Type 0} {w : World A} → Reach w → Inv w
Reach-Inv_streamed here = start-Inv
Reach-Inv_streamed (next r st) = Step-Inv st (Reach-Inv_streamed r)
