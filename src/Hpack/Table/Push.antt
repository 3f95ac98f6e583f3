-- ===== src/Hpack/Table/Push.antt =====
-- `push` of src/header.cpp against its description, and the size bound of the dynamic table.
use mathlib.Core.List.{reverse, reverse-reverse}
use cocaine_core.Base.{
  refl, ◌-◌, ◌*◌, ◌≤◌, ◌<◌, ◌≡◌, List, [], ◌∷◌, arith, length, leb, Bool-cases, inl, inr,
  if◌then◌else◌,
}
use cocaine_core.Hpack.Header.{Header, http2_size, http2_header_overhead}
use cocaine_core.Hpack.Table.{HeaderTable, total_size, data_size, evict, push, max_data_capacity}
use cocaine_core.Hpack.Table.Fit.{fit, total_size-fit, evict-fit, evict_too_large}

-- What `push` leaves of the old entries.
evicted : HeaderTable → Header → List Header
evicted t h = reverse (evict t.capacity (http2_size h) (total_size t.headers) (reverse t.headers))

evicted-fit :
    (t : HeaderTable) (h : Header)
    → http2_size h ≤ t.capacity
    → evicted t h ≡ fit (t.capacity - http2_size h) t.headers
unfolding evicted
evicted-fit t h le =
    rw reverse-reverse at (evict-fit t.capacity (http2_size h) (reverse t.headers) le)

evicted_too_large : (t : HeaderTable) (h : Header) → t.capacity < http2_size h → evicted t h ≡ []
unfolding evicted
evicted_too_large t h lt =
    rw (evict_too_large t.capacity (http2_size h) (total_size t.headers) (reverse t.headers) lt)

-- `push` puts the entry in front of the longest front part of the table that still fits beside it;
-- an entry larger than the capacity empties the table and is not stored. The capacity stays.
pub push-fit :
    (t : HeaderTable) (h : Header)
    → push t h ≡ record t {
      headers =
          if leb (http2_size h) t.capacity
          then h ∷ fit (t.capacity - http2_size h) t.headers
          else [];
    }
unfolding push evicted
push-fit t h = elim (Bool-cases (leb (http2_size h) t.capacity)) [
  | inl le ↦
      rw le (ground (arith, evicted-fit t h, total_size-fit (t.capacity - http2_size h) t.headers))
  | inr gt ↦ rw gt (ground (arith, evicted_too_large t h))
]

-- Whatever the table held, after `push` its data fits in its capacity.
pub data_size-push : (t : HeaderTable) (h : Header) → data_size (push t h) ≤ t.capacity
unfolding data_size total_size
data_size-push t h =
    rw push-fit (ground (arith, total_size-fit (t.capacity - http2_size h) t.headers))

-- The overhead of an entry bounds the number of entries.
length-total_size : (hs : List Header) → http2_header_overhead * length hs ≤ total_size hs
unfolding total_size http2_size
length-total_size [] = omega arith
length-total_size (h ∷ hs) = omega (arith, length-total_size hs)

-- A table of the default capacity holds at most 128 dynamic entries after `push`.
pub length-push :
    (t : HeaderTable) (h : Header)
    → t.capacity ≡ max_data_capacity
    → length (push t h).headers ≤ 128
length-push t h e =
    unfold data_size in omega (arith, length-total_size (push t h).headers, data_size-push t h)

pub capacity-push : (t : HeaderTable) (h : Header) → (push t h).capacity ≡ t.capacity
capacity-push t h = rw push-fit refl
