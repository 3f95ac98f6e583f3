-- ===== src/Hpack/StaticTable.antt =====
-- include/cocaine/hpack/static_table.hpp: the entries of `headers_storage` in order.
use cocaine_core.Base.{List, ◌∷◌, []}
use cocaine_core.Hpack.Header.{Header}
use cocaine_core.Hpack.Headers.Values.{
  empty_placeholder, empty_string_value, get_value, gzip_value, http_value, https_value,
  index_value, post_value, root_value, status_200_value, status_204_value, status_206_value,
  status_304_value, status_400_value, status_404_value, status_500_value,
}
use cocaine_core.Hpack.Headers.Early.{
  authority, method, path, scheme, status, accept_charset, accept_encoding, accept_language,
  accept_ranges, accept, access_control_allow_origin, age, allow, authorization, cache_control,
  content_disposition, content_encoding, content_language, content_length, content_location,
  content_range, content_type, cookie, date, etag, expect, expires,
}
use cocaine_core.Hpack.Headers.Late.{
  from, host, if_match, if_modified_since, if_none_match, if_range, if_unmodified_since,
  last_modified, link, location, max_forwards, proxy_authenticate, proxy_authorization, range,
  referer, refresh, retry_after, server, set_cookie, strict_transport_security, transfer_encoding,
  user_agent, vary, via, www_authenticate, span_id, trace_id, parent_id,
}

-- `init_data` writes each type at its first position, so the reserved entries stay empty.
unfoldable pub storage : List Header
storage =
    empty_placeholder
    ∷ authority empty_string_value
    ∷ method get_value
    ∷ method post_value
    ∷ path root_value
    ∷ path index_value
    ∷ scheme http_value
    ∷ scheme https_value
    ∷ status status_200_value
    ∷ status status_204_value
    ∷ status status_206_value
    ∷ status status_304_value
    ∷ status status_400_value
    ∷ status status_404_value
    ∷ status status_500_value
    ∷ accept_charset empty_string_value
    ∷ accept_encoding gzip_value
    ∷ accept_language empty_string_value
    ∷ accept_ranges empty_string_value
    ∷ accept empty_string_value
    ∷ access_control_allow_origin empty_string_value
    ∷ age empty_string_value
    ∷ allow empty_string_value
    ∷ authorization empty_string_value
    ∷ cache_control empty_string_value
    ∷ content_disposition empty_string_value
    ∷ content_encoding empty_string_value
    ∷ content_language empty_string_value
    ∷ content_length empty_string_value
    ∷ content_location empty_string_value
    ∷ content_range empty_string_value
    ∷ content_type empty_string_value
    ∷ cookie empty_string_value
    ∷ date empty_string_value
    ∷ etag empty_string_value
    ∷ expect empty_string_value
    ∷ expires empty_string_value
    ∷ from empty_string_value
    ∷ host empty_string_value
    ∷ if_match empty_string_value
    ∷ if_modified_since empty_string_value
    ∷ if_none_match empty_string_value
    ∷ if_range empty_string_value
    ∷ if_unmodified_since empty_string_value
    ∷ last_modified empty_string_value
    ∷ link empty_string_value
    ∷ location empty_string_value
    ∷ max_forwards empty_string_value
    ∷ proxy_authenticate empty_string_value
    ∷ proxy_authorization empty_string_value
    ∷ range empty_string_value
    ∷ referer empty_string_value
    ∷ refresh empty_string_value
    ∷ retry_after empty_string_value
    ∷ server empty_string_value
    ∷ set_cookie empty_string_value
    ∷ strict_transport_security empty_string_value
    ∷ transfer_encoding empty_string_value
    ∷ user_agent empty_string_value
    ∷ vary empty_string_value
    ∷ via empty_string_value
    ∷ www_authenticate empty_string_value
    ∷ empty_placeholder
    ∷ empty_placeholder
    ∷ empty_placeholder
    ∷ empty_placeholder
    ∷ empty_placeholder
    ∷ empty_placeholder
    ∷ empty_placeholder
    ∷ empty_placeholder
    ∷ empty_placeholder
    ∷ empty_placeholder
    ∷ empty_placeholder
    ∷ empty_placeholder
    ∷ empty_placeholder
    ∷ empty_placeholder
    ∷ empty_placeholder
    ∷ empty_placeholder
    ∷ empty_placeholder
    ∷ empty_placeholder
    ∷ trace_id empty_string_value
    ∷ span_id empty_string_value
    ∷ parent_id empty_string_value
    ∷ []
