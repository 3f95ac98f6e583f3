-- ===== src/Rpc/Buffers/Laws.antt =====
-- `write` of io::aux::encoded_buffers_t terminates, appends, and stays within the vector.
use cocaine_core.Base.{
  take-append_left, take-append_exact, subst, length-drop, length-take, length-replicate, ℕ, zero,
  suc, ◌+◌, ◌-◌, ◌*◌, ◌≤◌, ◌<◌, ◌≡◌, ap, ◌∙◌, inl, inr, some, ◌++◌, append_assoc, arith, ltb,
  Bool-cases, length, take, drop, replicate, length-append, nat_key, string_key, list_key,
}
use cocaine_core.Hpack.Header.{Bytes}
use cocaine_core.Rpc.Buffers.{
  rounds, Buffers, new, grow, resize, overwrite, write, contents, initial_buffer_size,
}

-- The vector is not empty and holds what was written.
pub record IsValid (b : Buffers) : Type 0 where
  pub nonempty : 0 < length b.vector
  pub within : b.offset ≤ length b.vector

new-IsValid : IsValid new
unfolding new
new-IsValid = ground (arith, length-replicate {A = ℕ} initial_buffer_size 0)

grow_total :
    (fuel size offset n : ℕ)
    → 0 < n
    → offset ≤ n
    → offset + size ≤ n + fuel
    → (m : ℕ) × (grow (suc fuel) size offset n ≡ some m) × (n ≤ m) × (offset + size ≤ m)
unfolding grow
grow_total zero size offset n pos le h = (n, ground arith, ground arith, ground arith)
grow_total (suc fuel) size offset n pos le h = elim (Bool-cases (ltb (n - offset) size)) [
  | inl more ↦
      let (m, e, up, fits) =
        grow_total fuel size offset (n * 2) (omega arith) (omega arith) (ground arith) in
      (m, rw more e, omega arith, fits)
  | inr enough ↦ (n, rw enough, omega arith, ground arith)
]

pub length-overwrite :
    (v : Bytes) (o : ℕ) (bytes : Bytes)
    → o + length bytes ≤ length v
    → length (overwrite v o bytes) ≡ length v
unfolding overwrite
length-overwrite v o bytes h = omega (
  arith,
  length-append (take o v) (bytes ++ drop (o + length bytes) v),
  length-append bytes (drop (o + length bytes) v),
  length-take o v,
  length-drop (o + length bytes) v,
)

-- The bytes up to the end of a write are those before it and those written.
pub take-overwrite :
    (v : Bytes) (o : ℕ) (bytes : Bytes)
    → o ≤ length v
    → take (o + length bytes) (overwrite v o bytes) ≡ take o v ++ bytes
unfolding overwrite
take-overwrite v o bytes h =
    let whole : length (take o v ++ bytes) ≡ o + length bytes =
      omega (arith, length-append (take o v) bytes, length-take o v) in
    let regroup = append_assoc (take o v) bytes (drop (o + length bytes) v) in
    rw (← regroup) (
      subst
        (λ (n : ℕ). take n ((take o v ++ bytes) ++ drop (o + length bytes) v) ≡ take o v ++ bytes)
        whole (take-append_exact (take o v ++ bytes) (drop (o + length bytes) v)))

pub length-resize : (v : Bytes) (n : ℕ) → length v ≤ n → length (resize v n) ≡ n
unfolding resize
length-resize v n h =
    omega (
      arith,
      length-append v (replicate (n - length v) 0),
      length-replicate {A = ℕ} (n - length v) 0,
    )

-- The write after the vector has grown to `m` bytes.
write_grown :
    (b : Buffers) (bytes : Bytes) (m : ℕ)
    → IsValid b
    → grow (rounds b bytes) (length bytes) b.offset (length b.vector) ≡ some m
    → length b.vector ≤ m
    → b.offset + length bytes ≤ m
    → (c : Buffers) × (write b bytes ≡ some c) × (contents c ≡ contents b ++ bytes) × IsValid c
unfolding write
write_grown b bytes m v e up fits =
    let grown = resize b.vector m in
    let size_eq = length-resize b.vector m up in
    let whole = length-overwrite grown b.offset bytes (omega arith) in
    (
      record { vector = overwrite grown b.offset bytes; offset = b.offset + length bytes },
      rw (e, write),
      take-overwrite grown b.offset bytes (omega arith)
          ∙ ap (λ l. l ++ bytes)
              (unfold resize in
                take-append_left b.offset b.vector (replicate (m - length b.vector) 0) v.within),
      record { nonempty = omega arith; within = omega arith },
    )

-- From a valid buffer `write` returns: it appends the bytes to the contents, and the buffer stays
-- valid.
pub write-contents :
    (b : Buffers) (bytes : Bytes)
    → IsValid b
    → (c : Buffers) × (write b bytes ≡ some c) × (contents c ≡ contents b ++ bytes) × IsValid c
write-contents b bytes v =
    let (m, e, up, fits) =
      grow_total (b.offset + length bytes) (length bytes) b.offset (length b.vector) v.nonempty
        v.within (omega arith) in
    write_grown b bytes m v e up fits
