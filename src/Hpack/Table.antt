-- ===== src/Hpack/Table.antt =====
-- hpack::header_table_t: include/cocaine/hpack/header.hpp and src/header.cpp. The deque is a list,
-- front first. Sizes are unbounded numbers: they count bytes that are in memory.
pub mod Fit
pub mod Push
pub mod Find
use mathlib.Core.List.{reverse}
use cocaine_core.Base.{
  ℕ, ◌+◌, ◌-◌, Bool, true, ◌&&◌, ◌||◌, Option, none, some, List, [], ◌∷◌, ◌++◌, length, find_index,
  get_elem?, is_empty, nat_beq, ltb, if◌then◌else◌,
}
use cocaine_core.Hpack.Header.{Header, header_eq, name_equal, http2_size}
use cocaine_core.Hpack.StaticTable.{storage}

pub record HeaderTable : Type 0 where
  pub headers : List Header
  pub capacity : ℕ

abbrev pub max_data_capacity : ℕ
max_data_capacity = 4096

-- header_static_table_t::size
abbrev pub static_size : ℕ
static_size = 83

abbrev pub init : HeaderTable
init = record { headers = []; capacity = max_data_capacity }

unfoldable pub total_size : List Header → ℕ
total_size [] = 0
total_size (h ∷ hs) = http2_size h + total_size hs

unfoldable pub data_size : HeaderTable → ℕ
unfolding total_size
data_size t = total_size t.headers

-- size()
unfoldable pub size : HeaderTable → ℕ
size t = static_size + length t.headers

-- The loop of `push`. It walks the deque from its back, so its argument is back first.
unfoldable pub evict : ℕ → ℕ → ℕ → List Header → List Header
evict capacity header_size sz [] = []
evict capacity header_size sz (back ∷ rest) =
    let popped = evict capacity header_size (sz - http2_size back) rest in
    if ltb capacity (sz + header_size) then popped else back ∷ rest

unfoldable pub push : HeaderTable → Header → HeaderTable
unfolding data_size
push t header =
    let left = reverse (evict t.capacity (http2_size header) (data_size t) (reverse t.headers)) in
    if is_empty left && ltb t.capacity (total_size left + http2_size header)
    then record t { headers = left }
    else record t { headers = header ∷ left }

-- find: a static entry first, then a dynamic one; 0 stands for no entry.
unfoldable pub find : HeaderTable → (Header → Bool) → ℕ
find t comp = elim (find_index comp storage) [
  | some i ↦ i
  | none ↦ elim (find_index comp t.headers) [ some i ↦ i + static_size | none ↦ 0 ]
]

unfoldable pub find_by_full_match : HeaderTable → Header → ℕ
unfolding find header_eq
find_by_full_match t header = find t (header_eq header)

unfoldable pub find_by_name : HeaderTable → Header → ℕ
unfolding find name_equal
find_by_name t header = find t (name_equal header)

-- What `operator[]` does: a reference, `std::out_of_range`, or a read outside of the deque.
pub data Access : Type 0 where
  found : Header → Access
  out_of_range : Access
  undefined : Access

abbrev pub access : Option Header → Access
access (some h) = found h
access none = undefined

-- operator[]
unfoldable pub at : HeaderTable → ℕ → Access
at t idx =
    if nat_beq idx 0 || ltb (length t.headers + static_size) idx
    then out_of_range
    else if ltb idx static_size
    then access (get_elem? storage idx)
    else access (get_elem? t.headers (idx - static_size))
