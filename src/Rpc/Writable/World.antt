-- ===== src/Rpc/Writable/World.antt =====
-- What the outside sees of include/cocaine/rpc/asio/writable_stream.hpp, and the invariant of it.
use cocaine_core.Base.{
  ℕ, ◌≤◌, ◌≡◌, refl, Bool, true, false, not, ◌||◌, none, List, [], ◌∷◌, ◌++◌, map, length, take,
  nat_key, string_key, list_key,
}
use cocaine_core.Hpack.Header.{Bytes}
use cocaine_core.Rpc.Writable.{
  Stream, StreamState, idle, flushing, Sent, Post, new, write, flush, handlers, succeeded, is_idle,
}
use cocaine_core.Rpc.Writable.Queue.{waiting, Unsent}

-- The stream with what the outside has seen of it: whether an asynchronous write is in flight, the
-- bytes on the wire and those submitted, the handlers submitted and those called.
pub record World : Type 0 where
  pub stream : Stream
  pub in_flight : Bool
  pub wire : Bytes
  pub submitted : Bytes
  pub accepted : List ℕ
  pub called : List ℕ

abbrev pub start : World
start = record {
  stream = new;
  in_flight = false;
  wire = [];
  submitted = [];
  accepted = [];
  called = [];
}

abbrev pub posted : List Post → List ℕ
posted = map (λ (p : Post). p.handler)

-- The bytes that `write` itself puts on the wire.
abbrev pub sent_now : StreamState → Sent → ℕ
sent_now idle sent = sent.bytes
sent_now flushing sent = 0

unfoldable pub after_write : World → Bytes → ℕ → Sent → World
after_write w encoded handler sent =
    let e = write w.stream encoded handler sent in
    record {
      stream = e.stream;
      in_flight = w.in_flight || e.started;
      wire = w.wire ++ take (sent_now w.stream.state sent) encoded;
      submitted = w.submitted ++ encoded;
      accepted = w.accepted ++ handler ∷ [];
      called = w.called ++ posted e.posts;
    }

unfoldable pub after_flush : World → ℕ → World
after_flush w n =
    let e = flush w.stream none n in
    record w {
      stream = e.stream;
      in_flight = e.started;
      wire = w.wire ++ take n (waiting w.stream.entries);
      called = w.called ++ posted e.posts;
    }

-- What the socket may answer to `write_some`.
pub record Answer (encoded : Bytes) (sent : Sent) : Type 0 where
  pub at_most : sent.bytes ≤ length encoded
  pub on_error : succeeded sent.error ≡ false → sent.bytes ≡ 0

pub record Inv (w : World) : Type 0 where
  pub bytes : w.wire ++ waiting w.stream.entries ≡ w.submitted
  pub order : w.called ++ handlers w.stream.entries ≡ w.accepted
  pub flight : w.in_flight ≡ not (is_idle w.stream.state)
  pub empty : is_idle w.stream.state ≡ true → w.stream.entries ≡ []
  pub unsent : Unsent w.stream.entries

pub start-Inv : Inv start
unfolding new waiting
start-Inv = record { bytes = refl; order = refl; flight = refl; empty = λ _. refl; unsent = tt }
