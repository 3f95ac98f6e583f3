-- ===== src/Hpack/Header.antt =====
-- hpack::header_t, and pack, unpack and find_first of hpack::header: include/cocaine/hpack/header.hpp
-- and src/header.cpp. Numbers are laid out as a little-endian host does.
pub mod Laws
use cocaine_core.Base.{
  ℕ, zero, suc, ◌+◌, ◌*◌, ◌/◌, ◌%◌, Bool, ◌&&◌, Option, none, some, List, [], ◌∷◌, length, find?,
  nat_beq, ◌==◌, list_key, nat_key, if◌then◌else◌,
}

abbrev pub Bytes : Type 0
Bytes = List ℕ

pub record Header : Type 0 where
  pub name : Bytes
  pub value : Bytes

-- operator==
unfoldable pub header_eq : Header → Header → Bool
header_eq a b = a.name == b.name && a.value == b.value

unfoldable pub name_equal : Header → Header → Bool
name_equal a b = a.name == b.name

abbrev pub http2_header_overhead : ℕ
http2_header_overhead = 32

unfoldable pub http2_size : Header → ℕ
http2_size h = length h.name + length h.value + http2_header_overhead

-- What a `const char*` shows of a buffer: the bytes before the first NUL.
unfoldable pub c_str : Bytes → Bytes
c_str [] = []
c_str (b ∷ bs) = if nat_beq b 0 then [] else b ∷ c_str bs

-- find_first with a pointer and a size; the overload for `std::string` passes `name.size()`.
unfoldable pub find_first : List Header → Bytes → Option Header
unfolding c_str
find_first headers name =
    find? (λ h. nat_beq (length h.name) (length name) && h.name == c_str name) headers

-- The object representation of an unsigned number of `w` bytes.
unfoldable pub pack : ℕ → ℕ → Bytes
pack zero n = []
pack (suc w) n = n % 256 ∷ pack w (n / 256)

unfoldable pub number_of : Bytes → ℕ
number_of [] = 0
number_of (b ∷ bs) = b + 256 * number_of bs

-- `none` is the `std::system_error` of a wrong size.
unfoldable pub unpack : ℕ → Bytes → Option ℕ
unfolding number_of
unpack w data_ = if nat_beq (length data_) w then some (number_of data_) else none
