-- ===== src/Rpc/Encoder.antt =====
-- io::encoder_t: include/cocaine/rpc/asio/encoder.hpp and src/encoder.cpp. The trace of the thread is
-- an argument; a packed message is the msgpack object that the packer's calls announce and fill.
use cocaine_core.Base.{
  zero, suc, Option, none, some, ℕ, ◌+◌, ◌-◌, Bool, ◌||◌, List, [], ◌∷◌, if◌then◌else◌, length,
  ◌==◌, nat_key, string_key, list_key,
}
use cocaine_core.Hpack.Header.{Bytes, Header, pack}
use cocaine_core.Hpack.Headers.Late.{trace_id, span_id, parent_id}
use cocaine_core.Hpack.Headers.Values.{empty_string_value}
use cocaine_core.Hpack.Msgpack.{
  Object, Objects, positive_integer, array, end, item, pack_uncompressed,
}

-- The numbers of `trace_t::current()` that the encoder reads.
pub record TraceIds : Type 0 where
  pub trace : ℕ
  pub span : ℕ
  pub parent : ℕ

-- The name of a header of the static table.
abbrev pub name_of : (Bytes → Header) → Bytes
name_of header = (header empty_string_value).name

-- The test for outdated tracing headers.
unfoldable pub is_tracing : Bytes → Bool
is_tracing name = name == name_of trace_id || (name == name_of span_id || name == name_of parent_id)

-- The first loop of `pack_headers`.
unfoldable pub count_skipped : List Header → ℕ
count_skipped [] = 0
count_skipped (h ∷ hs) = (if is_tracing h.name then 1 else 0) + count_skipped hs

-- The second loop.
unfoldable pub pack_rest : List Header → Objects
pack_rest [] = end
pack_rest (h ∷ hs) =
    let rest = pack_rest hs in if is_tracing h.name then rest else item (pack_uncompressed h) rest

-- msgpack_traits::pack<Header> of a number of the trace: the header with the packed value.
unfoldable pub pack_traced : (Bytes → Header) → ℕ → Object
pack_traced header n = pack_uncompressed (header (pack 8 n))

-- An array as a packer writes it: the announced number of items, and the items that follow.
pub record Packed : Type 0 where
  pub announced : ℕ
  pub items : Objects

unfoldable pub pack_headers : TraceIds → List Header → Packed
unfolding count_skipped pack_rest pack_traced
pack_headers ids headers = record {
  announced = length headers + 3 - count_skipped headers;
  items = item (pack_traced trace_id ids.trace) (
      item (pack_traced span_id ids.span)
        (item (pack_traced parent_id ids.parent) (pack_rest headers)));
}

-- What `pack_array` announces, by the msgpack format: as many of the following objects as its number
-- are the items of the array, and the others stand behind it; `none` is an array that has not ended.
unfoldable pub unpack_array : ℕ → Objects → Option (Objects × Objects)
unpack_array zero rest = some (end, rest)
unpack_array (suc n) end = none
unpack_array (suc n) (item o os) = elim (unpack_array n os) [
  | none ↦ none
  | some (items, rest) ↦ some (item o items, rest)
]

-- tether: the array of four, the channel, the message type, the arguments and the headers, as they are
-- unpacked again: the frame and what is left over behind it.
unfoldable pub tether : TraceIds → ℕ → ℕ → Objects → List Header → Option (Object × Objects)
tether ids channel_id id args headers =
    let packed = pack_headers ids headers in
    elim (unpack_array packed.announced packed.items) [
      | none ↦ none
      | some (hs, behind) ↦
          elim (unpack_array 4 (
            item (positive_integer channel_id)
              (item (positive_integer id) (item (array args) (item (array hs) behind))))) [
                | none ↦ none
                | some (frame, rest) ↦ some (array frame, rest)
              ]
    ]
