-- ===== src/Rpc/Framing.antt =====
-- What src/decoder.cpp reads of what src/encoder.cpp writes, and what it accepts at all.
use cocaine_core.Base.{
  ℕ, suc, ◌+◌, ◌≤◌, ◌≡◌, refl, ◌∙◌, inl, inr, true, not, none, some, List, [], ◌∷◌, ◌++◌, arith,
  length, keep, nat_key, string_key, list_key,
}
use cocaine_core.Hpack.Header.{Header, pack}
use cocaine_core.Hpack.Headers.Late.{trace_id, span_id, parent_id}
use cocaine_core.Hpack.Table.{HeaderTable, data_size}
use cocaine_core.Hpack.Msgpack.{
  Object, Objects, positive_integer, array, end, item, returned, unpack_vector, Outcome-cases,
}
use cocaine_core.Hpack.Msgpack.Laws.{pack_all, unpack_vector-pack_all, unpack_vector-capacity}
use cocaine_core.Rpc.Encoder.{
  unpack_array, TraceIds, is_tracing, count_skipped, pack_rest, pack_traced, pack_headers, tether,
}
use cocaine_core.Rpc.Decoder.{
  UnpackReturn, success, extra_bytes, Message, Decoded, span, type, args, decode_headers,
  decode_frame, decode,
}

-- The headers that a frame carries: the trace of the thread, then the caller's, without its own
-- tracing headers.
abbrev pub carried : TraceIds → List Header → List Header
carried ids hs =
    trace_id (pack 8 ids.trace)
    ∷ span_id (pack 8 ids.span)
    ∷ parent_id (pack 8 ids.parent)
    ∷ keep (λ h. not (is_tracing h.name)) hs

abbrev pub count : Objects → ℕ
count end = 0
count (item o rest) = suc (count rest)

pack_rest-pack_all :
    (hs : List Header) → pack_rest hs ≡ pack_all (keep (λ h. not (is_tracing h.name)) hs) end
unfolding pack_rest pack_all
pack_rest-pack_all [] = refl
pack_rest-pack_all (h ∷ hs) = ground (arith, pack_rest-pack_all hs)

pack_headers-pack_all :
    (ids : TraceIds) (hs : List Header)
    → (pack_headers ids hs).items ≡ pack_all (carried ids hs) end
unfolding pack_headers pack_traced pack_all
pack_headers-pack_all ids hs = rw pack_rest-pack_all

count-pack_rest : (hs : List Header) → count (pack_rest hs) + count_skipped hs ≡ length hs
unfolding pack_rest count_skipped
count-pack_rest [] = omega arith
count-pack_rest (h ∷ hs) = ground (arith, count-pack_rest hs)

-- The header array announces exactly the number of the headers that follow.
pack_headers-announced :
    (ids : TraceIds) (hs : List Header)
    → (pack_headers ids hs).announced ≡ count (pack_headers ids hs).items
unfolding pack_headers
pack_headers-announced ids hs = omega (arith, count-pack_rest hs)

read_headers :
    (ids : TraceIds) (hs : List Header) (table : HeaderTable) (metadata : List Header)
    → unpack_vector (pack_headers ids hs).items table metadata
      ≡ returned (true, table, metadata ++ carried ids hs)
read_headers ids hs table metadata =
    rw pack_headers-pack_all
      (unpack_vector-pack_all (carried ids hs) end table metadata ∙ (unfold unpack_vector in refl))

unpack_array-count : (os : Objects) → unpack_array (count os) os ≡ some (os, end)
unfolding unpack_array
unpack_array-count end = refl
unpack_array-count (item o os) = rw (unpack_array-count os)

-- What the calls of the packer in `tether` write is one whole frame, with nothing left over: the
-- announced numbers are those of the items. The frame is decoded without an error, to its channel,
-- type and arguments; its headers, the thread's trace first, come behind those that the message held,
-- and the header table stays as it is.
pub decode-tether :
    (ids : TraceIds) (channel id : ℕ) (body : Objects) (hs metadata : List Header)
    (table : HeaderTable)
    → (frame : Object) × (tether ids channel id body hs ≡ some (frame, end))
      × (decode success frame metadata table
          ≡ returned
              (record { error = none; metadata = metadata ++ carried ids hs; table = table }))
      × (span (record { object = frame; metadata = metadata }) ≡ some channel)
      × (type (record { object = frame; metadata = metadata }) ≡ some id)
      × (args (record { object = frame; metadata = metadata }) ≡ some body)
unfolding decode decode_frame decode_headers tether unpack_array span type args
decode-tether ids channel id body hs metadata table =
    let whole : unpack_array (pack_headers ids hs).announced (pack_headers ids hs).items
        ≡ some ((pack_headers ids hs).items, end) =
      rw (pack_headers-announced ids hs) (unpack_array-count (pack_headers ids hs).items) in
    (
      array (
          item (positive_integer channel) (
            item (positive_integer id)
              (item (array body) (item (array (pack_headers ids hs).items) end)))),
      rw (whole, tether),
      rw read_headers,
      refl,
      refl,
      refl,
    )

decode_headers-capacity :
    (os : Objects) (metadata : List Header) (table : HeaderTable) (d : Decoded)
    → data_size table ≤ table.capacity
    → decode_headers os metadata table ≡ returned d
    → (data_size d.table ≤ d.table.capacity) × (d.table.capacity ≡ table.capacity)
unfolding decode_headers
decode_headers-capacity end metadata table d fits e = ground arith
decode_headers-capacity (item (array hs) rest) metadata table d fits e =
    elim (Outcome-cases (unpack_vector hs table metadata)) [
      | inl ((done, u, out), ran) ↦
          ground (arith, unpack_vector-capacity hs table u metadata out done fits ran)
      | inr other ↦ ground arith
    ]
decode_headers-capacity (item _ rest) metadata table d fits e = ground arith

decode_frame-capacity :
    (o : Object) (metadata : List Header) (table : HeaderTable) (d : Decoded)
    → data_size table ≤ table.capacity
    → decode_frame o metadata table ≡ returned d
    → (data_size d.table ≤ d.table.capacity) × (d.table.capacity ≡ table.capacity)
unfolding decode_frame
decode_frame-capacity
      (array (item (positive_integer s) (item (positive_integer t) (item (array b) rest)))) metadata
      table d fits e =
    decode_headers-capacity rest metadata table d fits e
decode_frame-capacity _ metadata table d fits e = ground arith

-- Whatever msgpack makes of the bytes, the header table stays within its capacity.
pub decode-capacity :
    (rv : UnpackReturn) (o : Object) (metadata : List Header) (table : HeaderTable) (d : Decoded)
    → data_size table ≤ table.capacity
    → decode rv o metadata table ≡ returned d
    → (data_size d.table ≤ d.table.capacity) × (d.table.capacity ≡ table.capacity)
unfolding decode
decode-capacity success o metadata table d fits e = decode_frame-capacity o metadata table d fits e
decode-capacity extra_bytes o metadata table d fits e =
    decode_frame-capacity o metadata table d fits e
decode-capacity _ o metadata table d fits e = ground arith

frame_readable :
    (o : Object) (m : Message) (table : HeaderTable) (d : Decoded)
    → m.object ≡ o
    → decode_frame o m.metadata table ≡ returned d
    → d.error ≡ none
    → ((n : ℕ) × (span m ≡ some n))
      × ((n : ℕ) × (type m ≡ some n))
      × ((b : Objects) × (args m ≡ some b))
unfolding decode_frame span type args
frame_readable (array (item (positive_integer s) (item (positive_integer t) (item (array b) rest))))
      m table d same e ok =
    rw same ((s, refl), (t, refl), (b, refl))
frame_readable _ m table d same e ok = absurd (ground arith)

-- A frame is decoded without an error only if its channel, type and arguments can be read.
pub decode-readable :
    (rv : UnpackReturn) (m : Message) (table : HeaderTable) (d : Decoded)
    → decode rv m.object m.metadata table ≡ returned d
    → d.error ≡ none
    → ((n : ℕ) × (span m ≡ some n))
      × ((n : ℕ) × (type m ≡ some n))
      × ((b : Objects) × (args m ≡ some b))
unfolding decode
decode-readable success m table d e ok = frame_readable m.object m table d refl e ok
decode-readable extra_bytes m table d e ok = frame_readable m.object m table d refl e ok
decode-readable _ m table d e ok = absurd (ground arith)
