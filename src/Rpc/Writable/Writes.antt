-- ===== src/Rpc/Writable/Writes.antt =====
-- `write` of include/cocaine/rpc/asio/writable_stream.hpp keeps the invariant.
use cocaine_core.Base.{
  ℕ, ◌<◌, ◌≡◌, refl, sym, ap, ◌∙◌, subst, ◌⊎◌, inl, inr, false, ◌&&◌, ◌||◌, List, [], ◌∷◌, ◌++◌,
  append_assoc, append-nil, arith, nat_beq, Bool-cases, length, take, drop, length-drop,
  take-append-drop, nat_key, string_key, list_key,
}
use mathlib.Core.List.{map-append}
use mathlib.Core.Path.{ap₂}
use cocaine_core.Hpack.Header.{Bytes}
use cocaine_core.Rpc.Writable.{
  Entry, StreamState, idle, flushing, Sent, write, enqueue, handlers, succeeded, is_idle,
}
use cocaine_core.Rpc.Writable.World.{World, after_write, Answer, Inv}
use cocaine_core.Rpc.Writable.Queue.{waiting, waiting-append, Unsent}

-- A new entry at the end of the queue, for the bytes after the first `k`.
abbrev tail_entry : Bytes → ℕ → ℕ → Entry
tail_entry encoded handler k = record {
  buffer = drop k encoded;
  encoded = encoded;
  handler = handler;
}

-- The bytes sent at once come before the queued ones, since then the queue is empty.
bytes_queued :
    (wire : Bytes) (es : List Entry) (encoded : Bytes) (handler k : ℕ)
    → (es ≡ []) ⊎ (k ≡ 0)
    → (wire ++ take k encoded) ++ waiting (es ++ tail_entry encoded handler k ∷ [])
      ≡ (wire ++ waiting es) ++ encoded
unfolding waiting
bytes_queued wire es encoded handler k (inl none_left) =
    rw none_left (simp (append-nil, append_assoc, take-append-drop k encoded))
bytes_queued wire es encoded handler k (inr at_start) =
    rw (at_start, waiting-append es) (simp (append-nil, append_assoc))

Unsent-snoc :
    (es : List Entry) (e : Entry) → Unsent es → 0 < length e.buffer → Unsent (es ++ e ∷ [])
Unsent-snoc [] e u h = (h, tt)
Unsent-snoc (x ∷ es) e u h = (u.0, Unsent-snoc es e u.1 h)

-- The world after a write that queued the bytes from the `k`-th on.
queued : World → Bytes → ℕ → ℕ → World
queued w encoded handler k = record {
  stream = (enqueue w.stream encoded handler k).stream;
  in_flight = w.in_flight || is_idle w.stream.state;
  wire = w.wire ++ take k encoded;
  submitted = w.submitted ++ encoded;
  accepted = w.accepted ++ handler ∷ [];
  called = w.called ++ [];
}

queued-Inv :
    (w : World) (encoded : Bytes) (handler k : ℕ)
    → k < length encoded
    → (w.stream.entries ≡ []) ⊎ (k ≡ 0)
    → Inv w
    → Inv (queued w encoded handler k)
unfolding queued enqueue
queued-Inv w encoded handler k lt place v = record {
  bytes =
      bytes_queued w.wire w.stream.entries encoded handler k place ∙ ap (λ l. l ++ encoded) v.bytes;
  order = simp (append-nil, map-append, ← append_assoc, v.order);
  flight = ground (arith, v.flight);
  empty = λ e. absurd (ground arith);
  unsent = Unsent-snoc w.stream.entries _ v.unsent (omega (arith, length-drop k encoded));
}

-- The world after a write that sent everything at once.
sent_whole : World → Bytes → ℕ → World
sent_whole w encoded handler = record w {
  in_flight = w.in_flight || false;
  wire = w.wire ++ take (length encoded) encoded;
  submitted = w.submitted ++ encoded;
  accepted = w.accepted ++ handler ∷ [];
  called = w.called ++ handler ∷ [];
}

take_whole : (xs : Bytes) → take (length xs) xs ≡ xs
take_whole [] = refl
take_whole (x ∷ xs) = ap (λ l. x ∷ l) (take_whole xs)

sent_whole-Inv :
    (w : World) (encoded : Bytes) (handler : ℕ)
    → w.stream.entries ≡ []
    → Inv w
    → Inv (sent_whole w encoded handler)
unfolding sent_whole waiting
sent_whole-Inv w encoded handler e v =
    let wire_eq : w.wire ≡ w.submitted =
      sym (append-nil w.wire) ∙ ap (λ es. w.wire ++ waiting es) (sym e) ∙ v.bytes in
    let called_eq : w.called ≡ w.accepted =
      sym (append-nil w.called) ∙ ap (λ es. w.called ++ handlers es) (sym e) ∙ v.order in
    record {
      bytes =
          ap (λ es. (w.wire ++ take (length encoded) encoded) ++ waiting es) e
          ∙ append-nil (w.wire ++ take (length encoded) encoded)
          ∙ ap₂ (λ x y. x ++ y) wire_eq (take_whole encoded);
      order =
          ap (λ es. (w.called ++ handler ∷ []) ++ handlers es) e
          ∙ append-nil (w.called ++ handler ∷ [])
          ∙ ap (λ l. l ++ handler ∷ []) called_eq;
      flight = ground (arith, v.flight);
      empty = λ _. e;
      unsent = v.unsent;
    }

state_cases : (s : StreamState) → (s ≡ idle) ⊎ (s ≡ flushing)
state_cases idle = inl refl
state_cases flushing = inr refl

pub after_write-Inv :
    (w : World) (encoded : Bytes) (handler : ℕ) (sent : Sent)
    → 0 < length encoded
    → Answer encoded sent
    → Inv w
    → Inv (after_write w encoded handler sent)
unfolding after_write write queued sent_whole
after_write-Inv w encoded handler sent pos a v = elim (state_cases w.stream.state) [
  | inl quiet ↦ elim (Bool-cases (succeeded sent.error && nat_beq sent.bytes (length encoded))) [
    | inl whole ↦
        let same : after_write w encoded handler sent ≡ sent_whole w encoded handler =
          ground arith in
        subst Inv (sym same) (sent_whole-Inv w encoded handler (v.empty (ground arith)) v)
    | inr part ↦
        let same : after_write w encoded handler sent ≡ queued w encoded handler sent.bytes =
          ground arith in
        subst Inv (sym same)
          (queued-Inv w encoded handler sent.bytes (ground arith) (inl (v.empty (ground arith))) v)
  ]
  | inr busy ↦
      let same : after_write w encoded handler sent ≡ queued w encoded handler 0 = ground arith in
      subst Inv (sym same) (queued-Inv w encoded handler 0 pos (inr refl) v)
]
