-- ===== src/Rpc/Decoder.antt =====
-- io::decoder_t and aux::decoded_message_t: include/cocaine/rpc/asio/decoder.hpp and
-- src/decoder.cpp. What msgpack::unpack makes of the bytes is an argument.
use cocaine_core.Base.{
  ℕ, Option, none, some, List, [], if◌then◌else◌, nat_key, string_key, list_key,
}
use cocaine_core.Hpack.Header.{Header}
use cocaine_core.Hpack.Table.{HeaderTable}
use cocaine_core.Hpack.Msgpack.{
  Object, Objects, positive_integer, array, end, item, Outcome, returned, ◌>>=◌, unpack_vector,
}
use cocaine_core.Errors.{
  TransportError, frame_format_error, hpack_error, insufficient_bytes, parse_error,
}

-- msgpack::unpack_return
pub data UnpackReturn : Type 0 where
  success extra_bytes more_bytes failure : UnpackReturn

pub record Message : Type 0 where
  pub object : Object
  pub metadata : List Header

-- decoded_message_t::clear
unfoldable pub clear : Message → Message
clear m = record m { metadata = [] }

-- The fields of the object's array, read as span(), type(), args() do; `none` where the object has
-- another form.
unfoldable pub span : Message → Option ℕ
span m = elim m.object [ array (item (positive_integer n) rest) ↦ some n | _ ↦ none ]

unfoldable pub type : Message → Option ℕ
type m = elim m.object [ array (item first (item (positive_integer n) rest)) ↦ some n | _ ↦ none ]

unfoldable pub args : Message → Option Objects
args m = elim m.object [
  | array (item first (item second (item (array items) rest))) ↦ some items
  | _ ↦ none
]

-- The error code, the message and the header table after a decoding.
pub record Decoded : Type 0 where
  pub error : Option TransportError
  pub metadata : List Header
  pub table : HeaderTable

-- `ec = error::...`, with the metadata and the table as they were.
abbrev pub failed : TransportError → List Header → HeaderTable → Outcome Decoded
failed e metadata table = returned (record { error = some e; metadata = metadata; table = table })

-- The headers of a frame, if it has a fourth field.
unfoldable pub decode_headers : Objects → List Header → HeaderTable → Outcome Decoded
decode_headers end metadata table =
    returned (record { error = none; metadata = metadata; table = table })
decode_headers (item (array headers) rest) metadata table = do
  (done, table', metadata') ← unpack_vector headers table metadata
  returned (record {
    error = if done then none else some hpack_error;
    metadata = metadata';
    table = table';
  })
decode_headers (item other rest) metadata table = failed frame_format_error metadata table

unfoldable pub decode_frame : Object → List Header → HeaderTable → Outcome Decoded
decode_frame
      (array (item (positive_integer span) (item (positive_integer type) (item (array args) rest))))
      metadata table =
    decode_headers rest metadata table
decode_frame _ metadata table = failed frame_format_error metadata table

-- decode
unfoldable pub decode : UnpackReturn → Object → List Header → HeaderTable → Outcome Decoded
decode success object metadata table = decode_frame object metadata table
decode extra_bytes object metadata table = decode_frame object metadata table
decode more_bytes object metadata table = failed insufficient_bytes metadata table
decode failure object metadata table = failed parse_error metadata table
