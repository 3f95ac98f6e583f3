-- ===== src/Hpack/Headers/Early.antt =====
-- The headers of include/cocaine/hpack/header_definitions.hpp, authority to expires: a name for each, over a
-- default value.
use cocaine_core.Base.{codes}
use cocaine_core.Hpack.Header.{Bytes, Header}

abbrev pub authority : Bytes → Header
authority default = record { name = codes ":authority"; value = default }

abbrev pub method : Bytes → Header
method default = record { name = codes ":method"; value = default }

abbrev pub path : Bytes → Header
path default = record { name = codes ":path"; value = default }

abbrev pub scheme : Bytes → Header
scheme default = record { name = codes ":scheme"; value = default }

abbrev pub status : Bytes → Header
status default = record { name = codes ":status"; value = default }

abbrev pub accept_charset : Bytes → Header
accept_charset default = record { name = codes "accept-charset"; value = default }

abbrev pub accept_encoding : Bytes → Header
accept_encoding default = record { name = codes "accept-encoding"; value = default }

abbrev pub accept_language : Bytes → Header
accept_language default = record { name = codes "accept-language"; value = default }

abbrev pub accept_ranges : Bytes → Header
accept_ranges default = record { name = codes "accept-ranges"; value = default }

abbrev pub accept : Bytes → Header
accept default = record { name = codes "accept"; value = default }

abbrev pub access_control_allow_origin : Bytes → Header
access_control_allow_origin default = record {
  name = codes "access-control-allow-origin";
  value = default;
}

abbrev pub age : Bytes → Header
age default = record { name = codes "age"; value = default }

abbrev pub allow : Bytes → Header
allow default = record { name = codes "allow"; value = default }

abbrev pub authorization : Bytes → Header
authorization default = record { name = codes "authorization"; value = default }

abbrev pub cache_control : Bytes → Header
cache_control default = record { name = codes "cache-control"; value = default }

abbrev pub content_disposition : Bytes → Header
content_disposition default = record { name = codes "content-disposition"; value = default }

abbrev pub content_encoding : Bytes → Header
content_encoding default = record { name = codes "content-encoding"; value = default }

abbrev pub content_language : Bytes → Header
content_language default = record { name = codes "content-language"; value = default }

abbrev pub content_length : Bytes → Header
content_length default = record { name = codes "content-length"; value = default }

abbrev pub content_location : Bytes → Header
content_location default = record { name = codes "content-location"; value = default }

abbrev pub content_range : Bytes → Header
content_range default = record { name = codes "content-range"; value = default }

abbrev pub content_type : Bytes → Header
content_type default = record { name = codes "content-type"; value = default }

abbrev pub cookie : Bytes → Header
cookie default = record { name = codes "cookie"; value = default }

abbrev pub date : Bytes → Header
date default = record { name = codes "date"; value = default }

abbrev pub etag : Bytes → Header
etag default = record { name = codes "etag"; value = default }

abbrev pub expect : Bytes → Header
expect default = record { name = codes "expect"; value = default }

abbrev pub expires : Bytes → Header
expires default = record { name = codes "expires"; value = default }
