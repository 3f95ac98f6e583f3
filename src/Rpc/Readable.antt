-- ===== src/Rpc/Readable.antt =====
-- io::readable_stream: include/cocaine/rpc/asio/readable_stream.hpp. The decoder is a parameter; what
-- the stream asks of the socket is part of the result. Bytes of the ring that nothing has set are 0.
pub mod Ring
use cocaine_core.Base.{
  ℕ, zero, suc, ◌+◌, ◌-◌, ◌*◌, ◌/◌, ◌%◌, ◌^◌, ◌≤◌, ◌<◌, min, String, ◌≡◌, refl, sym, ap, ◌∙◌, subst,
  ◌≢◌, ◌↔◌, ◌⊎◌, inl, inr, Bool, true, false, not, ◌&&◌, ◌||◌, Option, none, some, List, [], ◌∷◌,
  ◌++◌, map, append_assoc, append-nil, arith, ltb, leb, nat_beq, if◌then◌else◌, Bool-cases,
  Option-cases, codes, All, length, get_elem?, take, drop, replicate, find_index, find?, any, all,
  keep, is_empty, length-append, length-take, length-drop, length-replicate, take-append-drop,
  take-append_left, take-append_exact, drop-nil, drop-append_left, drop-append_right, find?-All,
  find?-passes, find?-any, any-find?, find?-none, Key, ◌==◌, nat_key, string_key, list_key,
  list_same, list_same_iff, ==_refl,
}
use cocaine_core.Hpack.Header.{Bytes}
use cocaine_core.Rpc.Buffers.{resize, overwrite}
use cocaine_core.Rpc.Writable.{ErrorCode, operation_aborted, other}

pub record Stream : Type 0 where
  pub ring : Bytes
  pub rd_offset : ℕ
  pub rx_offset : ℕ

abbrev pub initial_buffer_size : ℕ
initial_buffer_size = 65536

unfoldable pub new : Stream
new = record { ring = replicate initial_buffer_size 0; rd_offset = 0; rx_offset = 0 }

-- What the decoder makes of some bytes: a message of so many bytes, an error of its own, or
-- `insufficient_bytes`.
pub data Decoding : Type 0 where
  decoded : ℕ → Decoding
  malformed : ℕ → Decoding
  insufficient : Decoding

-- What a call leaves to the event loop: the handler with a decoded message, the handler with an
-- error, a read of at most so many bytes at an offset of the ring, or nothing.
pub data Action : Type 0 where
  complete : Action
  reject : ℕ → Action
  fail : ErrorCode → Action
  read_some : ℕ → ℕ → Action
  drop_handler : Action

-- The bytes that no message has taken yet.
unfoldable pub pending : Stream → Bytes
pending s = take (s.rd_offset - s.rx_offset) (drop s.rx_offset s.ring)

-- std::memmove of the pending bytes to the front.
unfoldable pub compact : Stream → Stream
unfolding overwrite pending
compact s = if nat_beq s.rx_offset 0 then s else record {
  ring = overwrite s.ring 0 (pending s);
  rd_offset = s.rd_offset - s.rx_offset;
  rx_offset = 0;
}

-- The ring is doubled if half of it or more is pending.
unfoldable pub grow : ℕ → Stream → Stream
unfolding resize
grow bytes_pending s =
    if leb (length s.ring) (bytes_pending * 2)
    then record s { ring = resize s.ring (length s.ring * 2) }
    else s

-- The part of `read` for insufficient bytes.
unfoldable pub make_room : Stream → Stream
make_room s = grow (s.rd_offset - s.rx_offset) (compact s)

unfoldable pub read : (Bytes → Decoding) → Stream → Stream × Action
read decode s = elim (decode (pending s)) [
  | decoded n ↦ (record s { rx_offset = s.rx_offset + n }, complete)
  | malformed code ↦ (s, reject code)
  | insufficient ↦ (
    make_room s,
    read_some (make_room s).rd_offset (length (make_room s).ring - (make_room s).rd_offset),
  )
]

-- fill; `received` is what the socket put at the offset that `read` gave it.
unfoldable pub fill : (Bytes → Decoding) → Stream → Option ErrorCode → Bytes → Stream × Action
fill decode s (some operation_aborted) received = (s, drop_handler)
fill decode s (some (other code)) received = (s, fail (other code))
fill decode s none received = read decode (record s {
  ring = overwrite s.ring s.rd_offset received;
  rd_offset = s.rd_offset + length received;
})

-- pressure()
unfoldable pub pressure : Stream → ℕ
pressure s = length s.ring
