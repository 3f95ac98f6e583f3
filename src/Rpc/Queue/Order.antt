-- ===== src/Rpc/Queue/Order.antt =====
-- One call of `append` or `attach` of include/cocaine/rpc/queue.hpp keeps the order of the messages.
use cocaine_core.Base.{
  ℕ, ◌≡◌, refl, sym, ap, ◌∙◌, subst, ◌⊎◌, inl, inr, Option, none, some, List, [], ◌∷◌, ◌++◌,
  append_assoc, append-nil, arith, Option-cases, nat_key, string_key, list_key,
}
use cocaine_core.Errors.Codes.{Code}
use cocaine_core.Rpc.Queue.{Operation, Queue, Appended, append, send_all, attach}

-- The messages accepted after a call with the message `op`.
abbrev pub accept :
    {A : Type 0} → Option Code → List (Operation A) → Operation A → List (Operation A)
accept none accepted op = accepted ++ op ∷ []
accept (some ec) accepted op = accepted

-- What was accepted is on the wire or in the queue, in order, and an attached queue is empty.
pub record Ordered {A : Type 0} (wire : List (Operation A)) (q : Queue A)
    (accepted : List (Operation A)) : Type 0 where
  pub order : wire ++ q.operations ≡ accepted
  pub attached : (q.upstream ≡ none) ⊎ (q.operations ≡ [])

-- The three ends of `append`: queued, passed on, and lost.
unfoldable pub queued : {A : Type 0} → Operation A → Queue A → Appended (Queue A) A
queued op q = record {
  queue = record q { operations = q.operations ++ op ∷ [] };
  sent = [];
  error = none;
}

passed : {A : Type 0} → Operation A → Queue A → Appended (Queue A) A
passed op q = record { queue = q; sent = op ∷ []; error = none }

lost : {A : Type 0} → Code → Queue A → Appended (Queue A) A
lost ec q = record { queue = q; sent = []; error = some ec }

queued-Ordered :
    {A : Type 0} (op : Operation A) (q : Queue A) (wire accepted : List (Operation A))
    → Ordered wire q accepted
    → q.upstream ≡ none
    → Ordered
        (wire ++ (queued op q).sent)
        (queued op q).queue
        (accept (queued op q).error accepted op)
unfolding queued
queued-Ordered op q wire accepted v detached = record {
  order =
      rw (append-nil wire)
        (sym (append_assoc wire q.operations (op ∷ [])) ∙ ap (λ l. l ++ op ∷ []) v.order);
  attached = inl detached;
}

passed-Ordered :
    {A : Type 0} (op : Operation A) (q : Queue A) (wire accepted : List (Operation A))
    → Ordered wire q accepted
    → q.operations ≡ []
    → Ordered
        (wire ++ (passed op q).sent)
        (passed op q).queue
        (accept (passed op q).error accepted op)
unfolding passed
passed-Ordered op q wire accepted v idle =
    let before : wire ≡ accepted =
      sym (append-nil wire) ∙ ap (λ l. wire ++ l) (sym idle) ∙ v.order in
    record {
      order =
          ap (λ l. (wire ++ op ∷ []) ++ l) idle
          ∙ append-nil (wire ++ op ∷ [])
          ∙ ap (λ l. l ++ op ∷ []) before;
      attached = inr idle;
    }

lost-Ordered :
    {A : Type 0} (ec : Code) (op : Operation A) (q : Queue A) (wire accepted : List (Operation A))
    → Ordered wire q accepted
    → Ordered (wire ++ (lost ec q).sent) (lost ec q).queue (accept (lost ec q).error accepted op)
unfolding lost
lost-Ordered ec op q wire accepted v = record {
  order = rw (append-nil wire) v.order;
  attached = v.attached;
}

pub append-Ordered :
    {A : Type 0} (send : ℕ → Operation A → Option Code) (op : Operation A) (q : Queue A)
    (wire accepted : List (Operation A))
    → Ordered wire q accepted
    → Ordered
        (wire ++ (append send op q).sent)
        (append send op q).queue
        (accept (append send op q).error accepted op)
unfolding append
append-Ordered {A = A} send op q wire accepted v =
    let Goal : Appended (Queue A) A → Type 0 =
      λ r. Ordered (wire ++ r.sent) r.queue (accept r.error accepted op) in
    elim (Option-cases q.upstream) [
      | inl detached ↦
          let same : queued op q ≡ append send op q = unfold queued in ground arith in
          subst Goal same (queued-Ordered op q wire accepted v detached)
      | inr (u, up) ↦
          let idle : q.operations ≡ [] = ground (arith, v.attached) in
          elim (Option-cases (send u op)) [
            | inl took ↦
                let same : passed op q ≡ append send op q = unfold passed in ground arith in
                subst Goal same (passed-Ordered op q wire accepted v idle)
            | inr (ec, failed) ↦
                let same : lost ec q ≡ append send op q = unfold lost in ground arith in
                subst Goal same (lost-Ordered ec op q wire accepted v)
          ]
    ]

send_all-sent :
    {A : Type 0} (send : ℕ → Operation A → Option Code) (u : ℕ) (ops : List (Operation A))
    → (send_all send u ops).1 ≡ none
    → (send_all send u ops).0 ≡ ops
unfolding send_all
send_all-sent send u [] e = refl
send_all-sent send u (op ∷ ops) e = elim (Option-cases (send u op)) [
  | inl took ↦ ground (arith, send_all-sent send u ops)
  | inr (ec, threw) ↦ absurd (ground arith)
]

-- The end of an `attach` that does not throw.
emptied : {A : Type 0} → ℕ → Queue A → Appended (Queue A) A
emptied u q = record {
  queue = record { operations = []; upstream = some u };
  sent = q.operations;
  error = none;
}

emptied-Ordered :
    {A : Type 0} (u : ℕ) (q : Queue A) (wire accepted : List (Operation A))
    → Ordered wire q accepted
    → Ordered (wire ++ (emptied u q).sent) (emptied u q).queue accepted
unfolding emptied
emptied-Ordered u q wire accepted v = record {
  order = append-nil (wire ++ q.operations) ∙ v.order;
  attached = inr refl;
}

pub attach-Ordered :
    {A : Type 0} (send : ℕ → Operation A → Option Code) (u : ℕ) (q : Queue A)
    (wire accepted : List (Operation A))
    → Ordered wire q accepted
    → (attach send u q).error ≡ none
    → Ordered (wire ++ (attach send u q).sent) (attach send u q).queue accepted
unfolding attach
attach-Ordered {A = A} send u q wire accepted v e =
    let all_took : (send_all send u q.operations).1 ≡ none =
      elim (Option-cases (send_all send u q.operations).1) [
        | inl took ↦ took
        | inr (ec, failed) ↦ absurd (ground arith)
      ] in
    let same : emptied u q ≡ attach send u q =
      unfold emptied in ground (arith, send_all-sent send u q.operations) in
    subst (λ (r : Appended (Queue A) A). Ordered (wire ++ r.sent) r.queue accepted) same
      (emptied-Ordered u q wire accepted v)
