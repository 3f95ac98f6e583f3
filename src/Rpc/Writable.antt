-- ===== src/Rpc/Writable.antt =====
-- io::writable_stream: include/cocaine/rpc/asio/writable_stream.hpp. The three deques are pushed and
-- popped together, and are one list of entries. Handlers are numbers; what the socket does is an
-- argument, and what the stream asks of it is part of the result.
pub mod Queue
pub mod World
pub mod Writes
pub mod Order
use cocaine_core.Base.{
  ℕ, zero, suc, ◌+◌, ◌-◌, ◌*◌, ◌/◌, ◌%◌, ◌^◌, ◌≤◌, ◌<◌, min, String, ◌≡◌, refl, sym, ap, ◌∙◌, subst,
  ◌≢◌, ◌↔◌, ◌⊎◌, inl, inr, Bool, true, false, not, ◌&&◌, ◌||◌, Option, none, some, List, [], ◌∷◌,
  ◌++◌, map, append_assoc, append-nil, arith, ltb, leb, nat_beq, if◌then◌else◌, Bool-cases,
  Option-cases, codes, All, length, get_elem?, take, drop, replicate, find_index, find?, any, all,
  keep, is_empty, length-append, Key, ◌==◌, nat_key, string_key, list_key, list_same, list_same_iff,
  ==_refl,
}
use cocaine_core.Hpack.Header.{Bytes}

pub data StreamState : Type 0 where
  idle flushing : StreamState

-- One place of m_messages, m_encoded_messages and m_handlers.
pub record Entry : Type 0 where
  pub buffer : Bytes
  pub encoded : Bytes
  pub handler : ℕ

pub record Stream : Type 0 where
  pub entries : List Entry
  pub state : StreamState

unfoldable pub new : Stream
new = record { entries = []; state = idle }

pub data ErrorCode : Type 0 where
  operation_aborted : ErrorCode
  other : ℕ → ErrorCode

-- A handler posted to the event loop, with its error code.
pub record Post : Type 0 where
  pub handler : ℕ
  pub error : Option ErrorCode

-- The stream after a call, what it posted, and whether it started an asynchronous write.
pub record Effect : Type 0 where
  pub stream : Stream
  pub posts : List Post
  pub started : Bool

-- What `write_some` reports.
pub record Sent : Type 0 where
  pub error : Option ErrorCode
  pub bytes : ℕ

abbrev pub succeeded : Option ErrorCode → Bool
succeeded none = true
succeeded (some e) = false

abbrev pub is_idle : StreamState → Bool
is_idle idle = true
is_idle flushing = false

-- The end of `write`: the unsent bytes are queued, and a flush is started if none is under way.
unfoldable pub enqueue : Stream → Bytes → ℕ → ℕ → Effect
enqueue s encoded handler bytes_written =
    let entry : Entry = record {
      buffer = drop bytes_written encoded;
      encoded = encoded;
      handler = handler;
    } in
    record {
      stream = record { entries = s.entries ++ entry ∷ []; state = flushing };
      posts = [];
      started = is_idle s.state;
    }

-- write; `sent` is the answer of the socket, which is asked only in the idle state.
unfoldable pub write : Stream → Bytes → ℕ → Sent → Effect
unfolding enqueue
write s encoded handler sent =
    if is_idle s.state
    then (if succeeded sent.error && nat_beq sent.bytes (length encoded)
        then record {
          stream = s;
          posts = record { handler = handler; error = none } ∷ [];
          started = false;
        }
        else enqueue s encoded handler sent.bytes)
    else enqueue s encoded handler 0

-- pressure()
unfoldable pub pressure : List Entry → ℕ
pressure [] = 0
pressure (e ∷ es) = length e.buffer + pressure es

-- The loop of `flush` over the sent bytes: the entries left, and the handlers called. The source
-- asserts that bytes are left only where entries are.
unfoldable pub consume : ℕ → List Entry → List Entry × List ℕ
consume bytes [] = ([], [])
consume bytes (e ∷ es) =
    let (rest, called) = consume (bytes - length e.buffer) es in
    if nat_beq bytes 0
    then (e ∷ es, [])
    else if ltb bytes (length e.buffer)
    then (record e { buffer = drop bytes e.buffer } ∷ es, [])
    else (rest, e.handler ∷ called)

abbrev pub handlers : List Entry → List ℕ
handlers = map (λ (e : Entry). e.handler)

abbrev pub post_all : Option ErrorCode → List ℕ → List Post
post_all ec = map (λ h. record { handler = h; error = ec })

-- flush without an error.
unfoldable pub flush_sent : Stream → ℕ → Effect
unfolding consume
flush_sent s bytes =
    let (rest, called) = consume bytes s.entries in
    if is_empty rest && not (is_idle s.state)
    then record {
      stream = record { entries = rest; state = idle };
      posts = post_all none called;
      started = false;
    }
    else record {
      stream = record s { entries = rest };
      posts = post_all none called;
      started = true;
    }

-- flush
unfoldable pub flush : Stream → Option ErrorCode → ℕ → Effect
unfolding flush_sent
flush s none bytes = flush_sent s bytes
flush s (some operation_aborted) bytes = record { stream = s; posts = []; started = false }
flush s (some (other code)) bytes = record {
  stream = record s { entries = [] };
  posts = post_all (some (other code)) (handlers s.entries);
  started = false;
}
