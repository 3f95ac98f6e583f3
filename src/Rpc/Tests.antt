-- ===== src/Rpc/Tests.antt =====
-- The framing, the buffers and the two streams on concrete inputs.
use cocaine_core.Base.{
  ℕ, ◌≤◌, ◌≡◌, refl, none, some, [], ◌∷◌, ◌++◌, arith, codes, length, nat_key, string_key, list_key,
}
use cocaine_core.Hpack.Header.{Bytes, Header}
use cocaine_core.Hpack.Table.{init}
use cocaine_core.Hpack.Msgpack.{end, returned}
use cocaine_core.Hpack.Msgpack.{Object}
use cocaine_core.Rpc.Encoder.{TraceIds, tether}
use cocaine_core.Rpc.Decoder.{success, decode, span, type, args}
use cocaine_core.Rpc.Framing.{carried, decode-tether}
use cocaine_core.Rpc.Buffers.{Buffers, contents}
use cocaine_core.Rpc.Buffers as Buffers_of
use cocaine_core.Rpc.Buffers.Laws.{IsValid, write-contents}
use cocaine_core.Rpc.Writable.{
  enqueue, Entry, Sent, ErrorCode, flushing, flush, write, post_all, handlers,
}
use cocaine_core.Rpc.Writable as Writable_of
use cocaine_core.Rpc.Writable.Order.{Reach-Inv, here, next, writes, flushes}
use cocaine_core.Rpc.Writable.World.{start, after_write, after_flush, Inv}
use cocaine_core.Rpc.Readable.{Stream, Decoding, decoded, insufficient, pending, read, fill}
use cocaine_core.Rpc.Readable.Ring.{AfterRead, read-AfterRead, fill-AfterRead}
use cocaine_core.Rpc.Readable.Ring as Ring_of

abbrev ids : TraceIds
ids = record { trace = 1; span = 2; parent = 3 }

abbrev plain : Header
plain = record { name = codes "x"; value = codes "y" }

decode-tether_example :
    (frame : Object) × (tether ids 7 1 end (plain ∷ []) ≡ some (frame, end))
    × (decode success frame [] init
        ≡ returned (record { error = none; metadata = carried ids (plain ∷ []); table = init }))
    × (span (record { object = frame; metadata = [] }) ≡ some 7)
    × (type (record { object = frame; metadata = [] }) ≡ some 1)
    × (args (record { object = frame; metadata = [] }) ≡ some end)
decode-tether_example = decode-tether ids 7 1 end (plain ∷ []) [] init

abbrev small_buffer : Buffers
small_buffer = record { vector = 1 ∷ 0 ∷ []; offset = 1 }

small_buffer-IsValid : IsValid small_buffer
small_buffer-IsValid = omega arith

write-contents_example :
    (c : Buffers) × (Buffers_of.write small_buffer (2 ∷ 3 ∷ 4 ∷ []) ≡ some c)
    × (contents c ≡ 1 ∷ 2 ∷ 3 ∷ 4 ∷ [])
    × IsValid c
write-contents_example = write-contents small_buffer (2 ∷ 3 ∷ 4 ∷ []) small_buffer-IsValid

abbrev partly_sent : Sent
partly_sent = record { error = none; bytes = 1 }

Reach-Inv_example : Inv (after_flush (after_write start (5 ∷ 6 ∷ 7 ∷ []) 1 partly_sent) 2)
unfolding after_write write enqueue Writable_of.new Writable_of.pressure
Reach-Inv_example = Reach-Inv (
    next (next here (writes start (5 ∷ 6 ∷ 7 ∷ []) 1 partly_sent (omega arith) (ground arith)))
      (flushes (after_write start (5 ∷ 6 ∷ 7 ∷ []) 1 partly_sent) 2 refl (omega arith)))

abbrev ring_stream : Stream
ring_stream = record { ring = 1 ∷ 2 ∷ 3 ∷ 0 ∷ []; rd_offset = 3; rx_offset = 1 }

ring_stream-Inv : Ring_of.Inv ring_stream
ring_stream-Inv = omega arith

-- A decoder of messages of two bytes.
unfoldable pairs : Bytes → Decoding
pairs (a ∷ b ∷ rest) = decoded 2
pairs _ = insufficient

pairs_bound : (bs : Bytes) (n : ℕ) → pairs bs ≡ decoded n → n ≤ length bs
unfolding pairs
pairs_bound (a ∷ b ∷ rest) n e = ground arith
pairs_bound _ n e = absurd (ground arith)

read-AfterRead_example :
    AfterRead ring_stream (read pairs ring_stream) (pairs (pending ring_stream))
read-AfterRead_example =
    read-AfterRead pairs ring_stream ring_stream-Inv (pairs_bound (pending ring_stream))

fill-AfterRead_example :
    (t : Stream) × Ring_of.Inv t
    × (pending t ≡ pending ring_stream ++ 4 ∷ [])
    × AfterRead t (fill pairs ring_stream none (4 ∷ [])) (pairs (pending ring_stream ++ 4 ∷ []))
fill-AfterRead_example =
    fill-AfterRead pairs ring_stream (4 ∷ []) ring_stream-Inv (omega arith)
      (pairs_bound (pending ring_stream ++ 4 ∷ []))
