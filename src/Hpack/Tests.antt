-- ===== src/Hpack/Tests.antt =====
-- The headers, the header table and their msgpack form on concrete inputs.
use cocaine_core.Base.{◌≤◌, ◌≡◌, refl, ◌↔◌, true, [], ◌∷◌, codes, nat_key, string_key, list_key}
use cocaine_core.Hpack.Header.{Header, http2_size}
use cocaine_core.Hpack.Table.{HeaderTable, push, size, data_size}
use cocaine_core.Hpack.Table.Fit.{fit}
use cocaine_core.Hpack.Table.Push.{push-fit, data_size-push}
use cocaine_core.Hpack.Msgpack.{
  Object, array, boolean, positive_integer, raw, item, end, unpack, is_header, is_name, Outcome,
}
use cocaine_core.Hpack.Msgpack.Laws.{unpack_undefined_iff}

abbrev header_a : Header
header_a = record { name = codes "a"; value = codes "1" }

abbrev header_b : Header
header_b = record { name = codes "b"; value = codes "22" }

-- Room for one of the two headers only.
abbrev small_table : HeaderTable
small_table = record { headers = header_a ∷ []; capacity = 40 }

push-fit_example : push small_table header_b ≡ record small_table { headers = header_b ∷ [] }
unfolding fit http2_size
push-fit_example = push-fit small_table header_b

data_size-push_example : data_size (push small_table header_b) ≤ 40
data_size-push_example = data_size-push small_table header_b

abbrev at_size_object : Object
at_size_object = array (item (boolean true) (item (positive_integer 84) (item (raw []) end)))

unpack_undefined_iff_example :
    (unpack at_size_object small_table ≡ Outcome.undefined) ↔ (true ≡ true)
unfolding size is_header is_name
unpack_undefined_iff_example = unpack_undefined_iff at_size_object small_table refl
