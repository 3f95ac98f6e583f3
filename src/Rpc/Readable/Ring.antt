-- ===== src/Rpc/Readable/Ring.antt =====
-- The ring of include/cocaine/rpc/asio/readable_stream.hpp refines a plain buffer of bytes.
use cocaine_core.Base.{
  ℕ, zero, suc, ◌+◌, ◌-◌, ◌*◌, ◌≤◌, ◌<◌, ◌≡◌, refl, sym, ap, ◌∙◌, none, List, [], ◌∷◌, ◌++◌, arith,
  length, take, drop, length-take, length-drop, length-replicate, take-append_left, drop-nil,
  take-drop, drop-append_left, nat_key, string_key, list_key,
}
use cocaine_core.Hpack.Header.{Bytes}
use cocaine_core.Rpc.Buffers.{resize, overwrite}
use cocaine_core.Rpc.Buffers.Laws.{length-overwrite, take-overwrite, length-resize}
use cocaine_core.Rpc.Readable.{
  Stream, new, initial_buffer_size, Decoding, decoded, malformed, insufficient, Action, complete,
  reject, read_some, pending, compact, grow, make_room, read, fill,
}

pub record Inv (s : Stream) : Type 0 where
  pub nonempty : 0 < length s.ring
  pub ordered : s.rx_offset ≤ s.rd_offset
  pub inside : s.rd_offset ≤ length s.ring

new-Inv : Inv new
unfolding new
new-Inv = ground (arith, length-replicate {A = ℕ} initial_buffer_size 0)

length-pending : (s : Stream) → Inv s → length (pending s) ≡ s.rd_offset - s.rx_offset
unfolding pending
length-pending s v = omega (
  arith,
  length-take (s.rd_offset - s.rx_offset) (drop s.rx_offset s.ring),
  length-drop s.rx_offset s.ring,
)

compact-Inv : (s : Stream) → Inv s → Inv (compact s)
unfolding compact
compact-Inv s v = ground (arith, length-pending s v, length-overwrite s.ring 0 (pending s))

-- The pending bytes, cut at their end first.
pending-drop-take : (s : Stream) → pending s ≡ drop s.rx_offset (take s.rd_offset s.ring)
unfolding pending
pending-drop-take s = take-drop s.rx_offset s.rd_offset s.ring

moved : (s : Stream) → Stream
moved s = record {
  ring = overwrite s.ring 0 (pending s);
  rd_offset = s.rd_offset - s.rx_offset;
  rx_offset = 0;
}

pending-moved : (s : Stream) → Inv s → pending (moved s) ≡ pending s
unfolding moved
pending-moved s v =
    let whole : s.rd_offset - s.rx_offset ≡ 0 + length (pending s) =
      omega (arith, length-pending s v) in
    pending-drop-take (moved s)
    ∙ ap (λ (n : ℕ). take n (overwrite s.ring 0 (pending s))) whole
    ∙ take-overwrite s.ring 0 (pending s) (omega arith)

pending-compact : (s : Stream) → Inv s → pending (compact s) ≡ pending s
unfolding compact moved
pending-compact s v = ground (arith, pending-moved s v)

grow-Inv : (k : ℕ) (s : Stream) → Inv s → Inv (grow k s)
unfolding grow
grow-Inv k s v = ground (arith, length-resize s.ring (length s.ring * 2))

widened : Stream → Stream
widened s = record s { ring = resize s.ring (length s.ring * 2) }

pending-widened : (s : Stream) → Inv s → pending (widened s) ≡ pending s
unfolding widened resize
pending-widened s v =
    pending-drop-take (widened s)
    ∙ ap (drop s.rx_offset) (take-append_left s.rd_offset s.ring _ v.inside)
    ∙ sym (pending-drop-take s)

pending-grow : (k : ℕ) (s : Stream) → Inv s → pending (grow k s) ≡ pending s
unfolding grow widened
pending-grow k s v = ground (arith, pending-widened s v)

-- A ring that is grown for as many bytes as it has read has room for more.
room-grow : (s : Stream) → Inv s → (grow s.rd_offset s).rd_offset < length (grow s.rd_offset s).ring
unfolding grow
room-grow s v = ground (arith, length-resize s.ring (length s.ring * 2))

rd_offset-compact : (s : Stream) → (compact s).rd_offset ≡ s.rd_offset - s.rx_offset
unfolding compact
rd_offset-compact s = ground arith

-- After `insufficient_bytes` the same bytes are pending, and there is room for at least one more.
pub make_room_lem :
    (s : Stream)
    → Inv s
    → Inv (make_room s)
      × (pending (make_room s) ≡ pending s)
      × ((make_room s).rd_offset < length (make_room s).ring)
unfolding make_room
make_room_lem s v =
    let c = compact-Inv s v in
    rw (← rd_offset-compact s) (
      grow-Inv (compact s).rd_offset (compact s) c,
      pending-grow (compact s).rd_offset (compact s) c ∙ pending-compact s v,
      room-grow (compact s) c,
    )

-- The bytes received come behind the pending ones.
pub pending-received :
    (s : Stream) (received : Bytes)
    → Inv s
    → s.rd_offset + length received ≤ length s.ring
    → pending (record s {
      ring = overwrite s.ring s.rd_offset received;
      rd_offset = s.rd_offset + length received;
    })
      ≡ pending s ++ received
pending-received s received v h =
    pending-drop-take _
    ∙ ap (drop s.rx_offset) (take-overwrite s.ring s.rd_offset received v.inside)
    ∙ drop-append_left s.rx_offset (take s.rd_offset s.ring) received
        (omega (arith, length-take s.rd_offset s.ring))
    ∙ ap (λ l. l ++ received) (sym (pending-drop-take s))

-- What `read` promises for each answer of the decoder.
abbrev pub AfterRead : Stream → Stream × Action → Decoding → Type 0
AfterRead s (s', action) (decoded n) =
    (pending s' ≡ drop n (pending s)) × (action ≡ complete) × Inv s'
AfterRead s (s', action) (malformed code) = (s' ≡ s) × (action ≡ reject code)
AfterRead s (s', action) insufficient =
    (pending s' ≡ pending s)
    × Inv s'
    × ((room : ℕ) × (action ≡ read_some s'.rd_offset room)
        × (0 < room)
        × (s'.rd_offset + room ≡ length s'.ring))

drop-drop {ℓ} : {A : Type ℓ} (m n : ℕ) (xs : List A) → drop m (drop n xs) ≡ drop (n + m) xs
drop-drop m zero xs = let e : m ≡ 0 + m = omega arith in ap (λ (k : ℕ). drop k xs) e
drop-drop m (suc n) [] = drop-nil m ∙ sym (drop-nil (suc n + m))
drop-drop m (suc n) (x ∷ xs) =
    let e : suc (n + m) ≡ suc n + m = omega arith in
    drop-drop m n xs ∙ ap (λ (k : ℕ). drop k (x ∷ xs)) e

read-Decoding :
    (decode : Bytes → Decoding) (s : Stream) (d : Decoding)
    → Inv s
    → decode (pending s) ≡ d
    → ((n : ℕ) → d ≡ decoded n → n ≤ length (pending s))
    → AfterRead s (read decode s) d
unfolding read
read-Decoding decode s (decoded n) v e bound =
    rw (e, read)
      (
        pending-drop-take _
            ∙ sym (drop-drop n s.rx_offset (take s.rd_offset s.ring))
            ∙ ap (drop n) (sym (pending-drop-take s)),
        refl,
        record {
          nonempty = v.nonempty;
          ordered = omega (arith, bound n refl, length-pending s v);
          inside = v.inside;
        },
      )
read-Decoding decode s (malformed code) v e bound = rw (e, read) (refl, refl)
read-Decoding decode s insufficient v e bound =
    let (inv, same, room) = make_room_lem s v in
    rw (e, read)
      (
        same,
        inv,
        (length (make_room s).ring - (make_room s).rd_offset, refl, omega arith, omega arith),
      )

-- One call of `read` on a buffer: a message takes its bytes from the front, an error changes
-- nothing, and for insufficient bytes the pending ones stay and the stream asks for at least one
-- more, up to the end of the ring. The ring stays well-formed.
pub read-AfterRead :
    (decode : Bytes → Decoding) (s : Stream)
    → Inv s
    → ((n : ℕ) → decode (pending s) ≡ decoded n → n ≤ length (pending s))
    → AfterRead s (read decode s) (decode (pending s))
read-AfterRead decode s v bound = read-Decoding decode s (decode (pending s)) v refl bound

-- `fill` behaves as `read` on the pending bytes with the received ones behind them.
pub fill-AfterRead :
    (decode : Bytes → Decoding) (s : Stream) (received : Bytes)
    → Inv s
    → s.rd_offset + length received ≤ length s.ring
    → ((n : ℕ) → decode (pending s ++ received) ≡ decoded n → n ≤ length (pending s ++ received))
    → (t : Stream) × Inv t
      × (pending t ≡ pending s ++ received)
      × AfterRead t (fill decode s none received) (decode (pending s ++ received))
unfolding fill
fill-AfterRead decode s received v h bound =
    let t : Stream = record s {
      ring = overwrite s.ring s.rd_offset received;
      rd_offset = s.rd_offset + length received;
    } in
    let inv : Inv t = omega (arith, length-overwrite s.ring s.rd_offset received h) in
    let same : pending t ≡ pending s ++ received = pending-received s received v h in
    (
      t,
      inv,
      same,
      rw (← same) (read-Decoding decode t (decode (pending t)) inv refl (rw same bound)),
    )
