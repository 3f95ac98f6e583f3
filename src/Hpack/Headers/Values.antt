-- ===== src/Hpack/Headers/Values.antt =====
-- hpack::headers::default_values_t and the unnamed entry of include/cocaine/hpack/header_definitions.hpp.
use cocaine_core.Base.{[], codes, replicate}
use cocaine_core.Hpack.Header.{Bytes, Header}

abbrev pub zero_uint_value : Bytes
zero_uint_value = replicate 8 0

abbrev pub false_bool_value : Bytes
false_bool_value = codes "0"

abbrev pub empty_string_value : Bytes
empty_string_value = []

abbrev pub get_value : Bytes
get_value = codes "GET"

abbrev pub post_value : Bytes
post_value = codes "POST"

abbrev pub root_value : Bytes
root_value = codes "/"

abbrev pub index_value : Bytes
index_value = codes "/index.html"

abbrev pub http_value : Bytes
http_value = codes "http"

abbrev pub https_value : Bytes
https_value = codes "https"

abbrev pub status_200_value : Bytes
status_200_value = codes "200"

abbrev pub status_204_value : Bytes
status_204_value = codes "204"

abbrev pub status_206_value : Bytes
status_206_value = codes "206"

abbrev pub status_304_value : Bytes
status_304_value = codes "304"

abbrev pub status_400_value : Bytes
status_400_value = codes "400"

abbrev pub status_404_value : Bytes
status_404_value = codes "404"

abbrev pub status_500_value : Bytes
status_500_value = codes "500"

abbrev pub gzip_value : Bytes
gzip_value = codes "gzip, deflate"

abbrev pub empty_placeholder : Header
empty_placeholder = record { name = []; value = [] }
