-- ===== src/Hpack/Headers/Late.antt =====
-- The headers of include/cocaine/hpack/header_definitions.hpp, from to www_authenticate, and the tracing headers: a name for each, over a
-- default value.
use cocaine_core.Base.{codes}
use cocaine_core.Hpack.Header.{Bytes, Header}

abbrev pub from : Bytes → Header
from default = record { name = codes "from"; value = default }

abbrev pub host : Bytes → Header
host default = record { name = codes "host"; value = default }

abbrev pub if_match : Bytes → Header
if_match default = record { name = codes "if-match"; value = default }

abbrev pub if_modified_since : Bytes → Header
if_modified_since default = record { name = codes "if-modified-since"; value = default }

abbrev pub if_none_match : Bytes → Header
if_none_match default = record { name = codes "if-none-match"; value = default }

abbrev pub if_range : Bytes → Header
if_range default = record { name = codes "if-range"; value = default }

abbrev pub if_unmodified_since : Bytes → Header
if_unmodified_since default = record { name = codes "if-unmodified-since"; value = default }

abbrev pub last_modified : Bytes → Header
last_modified default = record { name = codes "last-modified"; value = default }

abbrev pub link : Bytes → Header
link default = record { name = codes "link"; value = default }

abbrev pub location : Bytes → Header
location default = record { name = codes "location"; value = default }

abbrev pub max_forwards : Bytes → Header
max_forwards default = record { name = codes "max-forwards"; value = default }

abbrev pub proxy_authenticate : Bytes → Header
proxy_authenticate default = record { name = codes "proxy-authenticate"; value = default }

abbrev pub proxy_authorization : Bytes → Header
proxy_authorization default = record { name = codes "proxy-authorization"; value = default }

abbrev pub range : Bytes → Header
range default = record { name = codes "range"; value = default }

abbrev pub referer : Bytes → Header
referer default = record { name = codes "referer"; value = default }

abbrev pub refresh : Bytes → Header
refresh default = record { name = codes "refresh"; value = default }

abbrev pub retry_after : Bytes → Header
retry_after default = record { name = codes "retry-after"; value = default }

abbrev pub server : Bytes → Header
server default = record { name = codes "server"; value = default }

abbrev pub set_cookie : Bytes → Header
set_cookie default = record { name = codes "set-cookie"; value = default }

abbrev pub strict_transport_security : Bytes → Header
strict_transport_security default = record {
  name = codes "strict-transport-security";
  value = default;
}

abbrev pub transfer_encoding : Bytes → Header
transfer_encoding default = record { name = codes "transfer-encoding"; value = default }

abbrev pub user_agent : Bytes → Header
user_agent default = record { name = codes "user-agent"; value = default }

abbrev pub vary : Bytes → Header
vary default = record { name = codes "vary"; value = default }

abbrev pub via : Bytes → Header
via default = record { name = codes "via"; value = default }

abbrev pub www_authenticate : Bytes → Header
www_authenticate default = record { name = codes "www-authenticate"; value = default }

abbrev pub span_id : Bytes → Header
span_id default = record { name = codes "span_id"; value = default }

abbrev pub trace_id : Bytes → Header
trace_id default = record { name = codes "trace_id"; value = default }

abbrev pub parent_id : Bytes → Header
parent_id default = record { name = codes "parent_id"; value = default }

abbrev pub trace_bit : Bytes → Header
trace_bit default = record { name = codes "trace_bit"; value = default }
