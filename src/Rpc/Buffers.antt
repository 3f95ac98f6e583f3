-- ===== src/Rpc/Buffers.antt =====
-- io::aux::encoded_buffers_t: include/cocaine/rpc/asio/encoder.hpp and src/encoder.cpp. The bytes of
-- the vector that no write has set are read as 0; nothing reads them.
pub mod Laws
use cocaine_core.Base.{
  ℕ, zero, suc, ◌+◌, ◌-◌, ◌*◌, ◌/◌, ◌%◌, ◌^◌, ◌≤◌, ◌<◌, min, String, ◌≡◌, refl, sym, ap, ◌∙◌, subst,
  ◌≢◌, ◌↔◌, ◌⊎◌, inl, inr, Bool, true, false, not, ◌&&◌, ◌||◌, Option, none, some, List, [], ◌∷◌,
  ◌++◌, map, append_assoc, append-nil, arith, ltb, leb, nat_beq, if◌then◌else◌, Bool-cases,
  Option-cases, codes, All, length, get_elem?, take, drop, replicate, find_index, find?, any, all,
  keep, is_empty, length-append, Key, ◌==◌, nat_key, string_key, list_key, list_same, list_same_iff,
  ==_refl,
}
use cocaine_core.Hpack.Header.{Bytes}

pub record Buffers : Type 0 where
  pub vector : Bytes
  pub offset : ℕ

abbrev pub initial_buffer_size : ℕ
initial_buffer_size = 2048

unfoldable pub new : Buffers
new = record { vector = replicate initial_buffer_size 0; offset = 0 }

-- `while (size > new_size - offset) new_size *= 2`, on fuel; `none` means that the fuel ran out.
unfoldable pub grow : ℕ → ℕ → ℕ → ℕ → Option ℕ
grow zero size offset new_size = none
grow (suc fuel) size offset new_size =
    let rest = grow fuel size offset (new_size * 2) in
    if ltb (new_size - offset) size then rest else some new_size

-- std::vector::resize to a larger size.
unfoldable pub resize : Bytes → ℕ → Bytes
resize v n = v ++ replicate (n - length v) 0

-- std::memcpy(v + offset, data, size)
unfoldable pub overwrite : Bytes → ℕ → Bytes → Bytes
overwrite v offset bytes = take offset v ++ (bytes ++ drop (offset + length bytes) v)

-- The rounds that are enough for `grow`: each adds at least one byte.
abbrev pub rounds : Buffers → Bytes → ℕ
rounds b bytes = suc (b.offset + length bytes)

-- write
unfoldable pub write : Buffers → Bytes → Option Buffers
write b bytes = elim (grow (rounds b bytes) (length bytes) b.offset (length b.vector)) [
  | none ↦ none
  | some n ↦ some (record {
    vector = overwrite (resize b.vector n) b.offset bytes;
    offset = b.offset + length bytes;
  })
]

-- What data() and size() show.
abbrev pub contents : Buffers → Bytes
contents b = take b.offset b.vector
