-- ===== src/Rpc/Writable/Order.antt =====
-- include/cocaine/rpc/asio/writable_stream.hpp over a socket that accepts bytes in order: no byte is
-- lost or sent twice, and the handlers are called in order.
use cocaine_core.Base.{
  some, ℕ, ◌≤◌, ◌<◌, ◌≡◌, refl, sym, ap, ◌∙◌, subst, inl, inr, Bool, true, false, not, ◌&&◌, none,
  List, [], ◌∷◌, ◌++◌, append_assoc, arith, Bool-cases, length, take, drop, is_empty,
  take-append-drop, nat_key, string_key, list_key,
}
use cocaine_core.Hpack.Header.{Bytes}
use cocaine_core.Rpc.Writable.{
  ErrorCode, Entry, Stream, StreamState, idle, flushing, Sent, write, enqueue, flush, flush_sent,
  consume, pressure, handlers, is_idle, post_all,
}
use cocaine_core.Rpc.Writable.World.{
  World, start, posted, after_write, after_flush, Answer, Inv, start-Inv,
}
use cocaine_core.Rpc.Writable.Writes.{after_write-Inv}
use cocaine_core.Rpc.Writable.Queue.{waiting, waiting-consume, handlers-consume, consume-Unsent}

pub data Step : World → World → Type 0 where
  writes :
      (w : World) (encoded : Bytes) (handler : ℕ) (sent : Sent)
      → 0 < length encoded
      → Answer encoded sent
      → Step w (after_write w encoded handler sent)
  flushes :
      (w : World) (n : ℕ)
      → w.in_flight ≡ true
      → n ≤ pressure w.stream.entries
      → Step w (after_flush w n)

pub data Reach (s : World) : World → Type 0 where
  here : Reach s s
  next : {t u : World} → Reach s t → Step t u → Reach s u

posted-post_all : (hs : List ℕ) → posted (post_all none hs) ≡ hs
posted-post_all [] = refl
posted-post_all (h ∷ hs) = ap (λ l. h ∷ l) (posted-post_all hs)

-- The world after a flush of `n` bytes that leaves the given state.
flushed : World → ℕ → StreamState → Bool → World
flushed w n state started = record w {
  stream = record { entries = (consume n w.stream.entries).0; state = state };
  in_flight = started;
  wire = w.wire ++ take n (waiting w.stream.entries);
  called = w.called ++ posted (post_all none (consume n w.stream.entries).1);
}

flushed-Inv :
    (w : World) (n : ℕ) (state : StreamState) (started : Bool)
    → started ≡ not (is_idle state)
    → (is_idle state ≡ true → (consume n w.stream.entries).0 ≡ [])
    → Inv w
    → Inv (flushed w n state started)
unfolding flushed
flushed-Inv w n state started flight empty v = record {
  bytes = rw (waiting-consume n w.stream.entries) (
      append_assoc w.wire (take n (waiting w.stream.entries)) (drop n (waiting w.stream.entries))
      ∙ ap (λ l. w.wire ++ l) (take-append-drop n (waiting w.stream.entries))
      ∙ v.bytes);
  order = rw posted-post_all (
      append_assoc w.called (consume n w.stream.entries).1 (handlers (consume n w.stream.entries).0)
      ∙ ap (λ l. w.called ++ l) (handlers-consume n w.stream.entries)
      ∙ v.order);
  flight = flight;
  empty = empty;
  unsent = consume-Unsent n w.stream.entries v.unsent;
}

is_empty-nil : (es : List Entry) → is_empty es ≡ true → es ≡ []
is_empty-nil [] e = refl
is_empty-nil (x ∷ es) e = cc

after_flush-Inv : (w : World) (n : ℕ) → w.in_flight ≡ true → Inv w → Inv (after_flush w n)
unfolding after_flush flush flush_sent flushed
after_flush-Inv w n busy v =
    elim (Bool-cases (is_empty (consume n w.stream.entries).0 && not (is_idle w.stream.state))) [
      | inl drained ↦
          let same : after_flush w n ≡ flushed w n idle false = ground arith in
          subst Inv (sym same)
            (flushed-Inv w n idle false refl (λ _. is_empty-nil _ (ground arith)) v)
      | inr more ↦
          let same : after_flush w n ≡ flushed w n w.stream.state true = ground arith in
          subst Inv (sym same) (
            flushed-Inv w n w.stream.state true (ground (arith, v.flight))
              (λ quiet. absurd (ground (arith, v.flight))) v)
    ]

Step-Inv : {w u : World} → Step w u → Inv w → Inv u
Step-Inv (writes w encoded handler sent pos a) v = after_write-Inv w encoded handler sent pos a v
Step-Inv (flushes w n busy le) v = after_flush-Inv w n busy v

-- Whatever is written and however the socket splits it: the bytes on the wire and those that wait
-- are the bytes submitted, the handlers called and those that wait are the handlers submitted, both
-- in order; a write is in flight exactly while the stream is not idle, an idle stream has an empty
-- queue, and a queued message has bytes left to send.
pub Reach-Inv : {w : World} → Reach start w → Inv w
Reach-Inv here = start-Inv
Reach-Inv (next r st) = Step-Inv st (Reach-Inv r)

-- A failed flush calls every waiting handler with the error, in order, and empties the queue. From
-- a flushing stream the state stays, so a later write is queued and starts nothing.
pub flush-failed :
    (s : Stream) (code n : ℕ) (encoded : Bytes) (handler : ℕ) (sent : Sent)
    → s.state ≡ flushing
    → let failed = flush s (some (ErrorCode.other code)) n in
      let after = write failed.stream encoded handler sent in
      (failed.posts ≡ post_all (some (ErrorCode.other code)) (handlers s.entries))
      × (failed.stream.entries ≡ [])
      × (after.posts ≡ [])
      × (after.started ≡ false)
unfolding flush write enqueue
flush-failed s code n encoded handler sent e = ground arith
