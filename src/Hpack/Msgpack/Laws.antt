-- ===== src/Hpack/Msgpack/Laws.antt =====
-- hpack::msgpack_traits: what `unpack_vector` reads back, what it keeps, and where it is safe.
use cocaine_core.Hpack.Table.Push.{capacity-push, data_size-push}
use cocaine_core.Hpack.Table.Find.{at-entries, at_in_range, at-size}
use cocaine_core.Hpack.Table.{data_size, size, HeaderTable}
use cocaine_core.Hpack.Msgpack.{
  Outcome-cases, store, entry, name_of, Outcome, is_header, end, returned, positive_integer, raw,
  boolean, array, is_name, Object, pack_uncompressed, item, unpack, unpack_vector, Objects,
}
use cocaine_core.Base.{
  inr, inl, ◌&&◌, ltb, Bool-cases, ◌↔◌, nat_beq, append_assoc, ap, ◌≤◌, ◌∙◌, append-nil, ℕ, Bool,
  true, false, List, [], ◌∷◌, ◌++◌, ◌≡◌, refl, arith,
}
use cocaine_core.Hpack.Header.{Bytes, Header}

-- The objects that `pack_uncompressed` makes of a list of headers, followed by `rest`.
unfoldable pub pack_all : List Header → Objects → Objects
pack_all [] rest = rest
pack_all (h ∷ hs) rest = item (pack_uncompressed h) (pack_all hs rest)

-- Headers that were packed are read back in order behind the target, and leave the table alone.
pub unpack_vector-pack_all :
    (hs : List Header) (rest : Objects) (t : HeaderTable) (target : List Header)
    → unpack_vector (pack_all hs rest) t target ≡ unpack_vector rest t (target ++ hs)
unfolding unpack_vector unpack is_header is_name name_of store pack_all pack_uncompressed
unpack_vector-pack_all [] rest t target = rw append-nil
unpack_vector-pack_all (h ∷ hs) rest t target =
    unpack_vector-pack_all hs rest t (target ++ h ∷ [])
    ∙ ap (unpack_vector rest t) (append_assoc target (h ∷ []) hs)

-- `table[idx]` is undefined behaviour exactly at `size`.
entry_undefined_iff :
    (t : HeaderTable) (idx : ℕ) → (entry t idx ≡ Outcome.undefined) ↔ (idx ≡ size t)
unfolding entry
entry_undefined_iff t idx = elim (Bool-cases (ltb 0 idx && ltb idx (size t))) [
  | inl inside ↦
      let (h, e) = at_in_range t idx (ground arith) (ground arith) in rw (e, entry) (ground arith)
  | inr outside ↦ elim (Bool-cases (nat_beq idx (size t))) [
    | inl last ↦
        let e : idx ≡ size t = ground arith in (λ _. e, λ _. rw e (ground (arith, at-size t)))
    | inr other ↦ ground (arith, at-entries t idx)
  ]
]

-- The object is a triple that names its header by the index `n`.
abbrev pub names_by_index : ℕ → Object → Bool
names_by_index n (array (item flag (item (positive_integer idx) (item value end)))) = nat_beq idx n
names_by_index n _ = false

triple_undefined_iff :
    (flag : Bool) (name : Object) (v : Bytes) (t : HeaderTable)
    → is_name name ≡ true
    → (unpack (array (item (boolean flag) (item name (item (raw v) end)))) t ≡ Outcome.undefined)
      ↔ (names_by_index (size t) (array (item (boolean flag) (item name (item (raw v) end))))
          ≡ true)
unfolding unpack is_name name_of
triple_undefined_iff flag (positive_integer idx) v t h = ground (arith, entry_undefined_iff t idx)
triple_undefined_iff flag (raw n) v t h = ground arith
triple_undefined_iff flag _ v t h = absurd (ground arith)

-- On an object that `unpack_vector` lets through, `unpack` is undefined behaviour exactly when the
-- object is a triple that names its header by the index `size` of the table.
pub unpack_undefined_iff :
    (o : Object) (t : HeaderTable)
    → is_header o ≡ true
    → (unpack o t ≡ Outcome.undefined) ↔ (names_by_index (size t) o ≡ true)
unfolding unpack is_header
unpack_undefined_iff (positive_integer idx) t h = ground (arith, entry_undefined_iff t idx)
unpack_undefined_iff (array (item (boolean flag) (item name (item (raw v) end)))) t h =
    triple_undefined_iff flag name v t h
unpack_undefined_iff _ t h = absurd (ground arith)

-- A triple that names its header by the index `size` is undefined behaviour.
pub unpack_vector_undefined :
    (flag : Bool) (value : Bytes) (rest : Objects) (t : HeaderTable) (target : List Header)
    → unpack_vector
        (item
          (array (item (boolean flag) (item (positive_integer (size t)) (item (raw value) end))))
          rest)
        t
        target
      ≡ Outcome.undefined
unfolding unpack_vector unpack is_header is_name name_of
unpack_vector_undefined flag value rest t target = rw ((entry_undefined_iff t (size t)).1 refl)

store-capacity :
    (t : HeaderTable) (flag : Bool) (h : Header)
    → data_size t ≤ t.capacity
    → (data_size (store t flag h).1 ≤ (store t flag h).1.capacity)
      × ((store t flag h).1.capacity ≡ t.capacity)
unfolding store
store-capacity t flag h fits = ground (arith, data_size-push t h, capacity-push t h)

unpack-capacity :
    (o : Object) (t u : HeaderTable) (h : Header)
    → data_size t ≤ t.capacity
    → unpack o t ≡ returned (h, u)
    → (data_size u ≤ u.capacity) × (u.capacity ≡ t.capacity)
unfolding unpack
unpack-capacity (positive_integer idx) t u h fits e = ground arith
unpack-capacity (array (item (boolean flag) (item name (item (raw v) end)))) t u h fits e =
    grind (arith, store-capacity)
unpack-capacity _ t u h fits e = cc

-- Whatever a peer sends, the dynamic table stays within its capacity, which stays.
pub unpack_vector-capacity :
    (os : Objects) (t u : HeaderTable) (target out : List Header) (done : Bool)
    → data_size t ≤ t.capacity
    → unpack_vector os t target ≡ returned (done, u, out)
    → (data_size u ≤ u.capacity) × (u.capacity ≡ t.capacity)
unfolding unpack_vector
unpack_vector-capacity end t u target out done h e = ground arith
unpack_vector-capacity (item o rest) t u target out done h e = elim (Bool-cases (is_header o)) [
  | inr stop ↦ ground arith
  | inl go ↦ elim (Outcome-cases (unpack o t)) [
    | inl ((x, t'), step) ↦
        let (fits, same) = unpack-capacity o t t' x h step in
        let rest_e : unpack_vector rest t' (target ++ x ∷ []) ≡ returned (done, u, out) =
          rw (go, step, unpack_vector) at e in
        let (fits', same') =
          unpack_vector-capacity rest t' u (target ++ x ∷ []) out done fits rest_e in
        (fits', same' ∙ same)
    | inr failed ↦ ground arith
  ]
]
