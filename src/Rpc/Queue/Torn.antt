-- ===== src/Rpc/Queue/Torn.antt =====
-- A call of `attach` of include/cocaine/rpc/queue.hpp that throws midway.
use cocaine_core.Base.{
  ℕ, suc, ◌≤◌, ◌≡◌, refl, sym, ap, ◌∙◌, subst, ◌⊎◌, inl, inr, Option, none, some, List, [], ◌∷◌,
  ◌++◌, append_assoc, append-nil, arith, Option-cases, nat_key, string_key, list_key, length, drop,
  length-append, drop-append_left,
}
use cocaine_core.Errors.Codes.{Code}
use cocaine_core.Rpc.Queue.{Operation, Queue, Appended, append, send_all, attach}
use cocaine_core.Rpc.Queue.Order.{Ordered, accept, queued}

-- An `attach` that throws has sent the messages before the one whose send threw.
send_all-lost :
    {A : Type 0} (send : ℕ → Operation A → Option Code) (u : ℕ) (ops : List (Operation A))
    (ec : Code)
    → (send_all send u ops).1 ≡ some ec
    → (suc (length (send_all send u ops).0) ≤ length ops)
      × ((lost : Operation A) × ((send_all send u ops).0
              ++ lost ∷ drop (suc (length (send_all send u ops).0)) ops
            ≡ ops))
unfolding send_all
send_all-lost send u [] ec e = absurd (ground arith)
send_all-lost send u (op ∷ ops) ec e = elim (Option-cases (send u op)) [
  | inl took ↦
      let (short, (lost, rest)) = send_all-lost send u ops ec (ground arith) in
      rw (took, send_all) (omega arith, (lost, ap (λ l. op ∷ l) rest))
  | inr (code, threw) ↦ rw (threw, send_all) (omega arith, (op, refl))
]

-- Nothing is on the wire before the queue is attached.
abbrev pub Quiet : {A : Type 0} → List (Operation A) → Queue A → Type 0
Quiet wire q = (wire ≡ []) ⊎ ((u : ℕ) × (q.upstream ≡ some u))

-- After an `attach` that threw and put the wire's messages there: the queue is not attached, the
-- message whose send threw is lost, and the later ones are still in the queue.
pub record Torn {A : Type 0} (wire : List (Operation A)) (q : Queue A)
    (accepted : List (Operation A)) : Type 0 where
  pub lost : Operation A
  pub order : wire ++ lost ∷ drop (suc (length wire)) q.operations ≡ accepted
  pub held : suc (length wire) ≤ length q.operations
  pub detached : q.upstream ≡ none

pub append-Quiet :
    {A : Type 0} (send : ℕ → Operation A → Option Code) (op : Operation A) (q : Queue A)
    (wire : List (Operation A))
    → Quiet wire q
    → Quiet (wire ++ (append send op q).sent) (append send op q).queue
unfolding append
append-Quiet send op q wire v = elim (Option-cases q.upstream) [
  | inl detached ↦
      rw (detached, append)
        (elim v [ inl idle ↦ inl (rw (append-nil wire) idle) | inr up ↦ absurd (ground arith) ])
  | inr (u, up) ↦ elim (Option-cases (send u op)) [
    | inl took ↦ rw (up, took, append) (inr (u, up))
    | inr (ec, threw) ↦ rw (up, threw, append) (inr (u, up))
  ]
]

pub append-Torn :
    {A : Type 0} (send : ℕ → Operation A → Option Code) (op : Operation A) (q : Queue A)
    (wire accepted : List (Operation A))
    → Torn wire q accepted
    → Torn
        (wire ++ (append send op q).sent)
        (append send op q).queue
        (accept (append send op q).error accepted op)
unfolding append
append-Torn {A = A} send op q wire accepted v =
    let same : queued op q ≡ append send op q = unfold queued in ground (arith, v.detached) in
    let more = op ∷ [] in
    subst (λ (r : Appended (Queue A) A). Torn (wire ++ r.sent) r.queue (accept r.error accepted op))
      same
      (unfold queued in
        rw (append-nil wire) (record {
          lost = v.lost;
          order =
              ap (λ l. wire ++ v.lost ∷ l)
                (drop-append_left (suc (length wire)) q.operations more v.held)
              ∙ sym (append_assoc wire (v.lost ∷ drop (suc (length wire)) q.operations) more)
              ∙ ap (λ l. l ++ more) v.order;
          held = omega (arith, v.held, length-append q.operations more);
          detached = v.detached;
        }))

pub attach-Torn :
    {A : Type 0} (send : ℕ → Operation A → Option Code) (u : ℕ) (q : Queue A)
    (wire accepted : List (Operation A)) (ec : Code)
    → Ordered wire q accepted
    → Quiet wire q
    → (attach send u q).error ≡ some ec
    → Torn (wire ++ (attach send u q).sent) (attach send u q).queue accepted
unfolding attach
attach-Torn {A = A} send u q wire accepted ec v quiet e =
    let ran = send_all send u q.operations in
    elim (Option-cases ran.1) [
      | inl took ↦ absurd (ground arith)
      | inr (code, threw) ↦
          let (short, (lost, rest)) = send_all-lost send u q.operations code threw in
          let detached : q.upstream ≡ none = elim v.attached [
            | inl off ↦ off
            | inr idle ↦ absurd (omega (arith, short, ap length idle))
          ] in
          let bare : wire ≡ [] = elim quiet [
            | inl idle ↦ idle
            | inr (w, up) ↦ absurd (ground arith)
          ] in
          rw (threw, bare, attach)
            (record {
              lost = lost;
              order = rest ∙ subst (λ w. w ++ q.operations ≡ accepted) bare v.order;
              held = short;
              detached = detached;
            })
    ]

pub attach-upstream :
    {A : Type 0} (send : ℕ → Operation A → Option Code) (u : ℕ) (q : Queue A)
    → (attach send u q).error ≡ none
    → (attach send u q).queue.upstream ≡ some u
unfolding attach
attach-upstream send u q e = elim (Option-cases (send_all send u q.operations).1) [
  | inl took ↦ rw (took, attach)
  | inr (ec, threw) ↦ absurd (ground arith)
]
