-- ===== src/Hpack/Table/Fit.antt =====
-- What the eviction of src/header.cpp leaves, described from the front of the dynamic table.
use mathlib.Core.List.{reverse, reverse-cons}
use cocaine_core.Base.{
  ℕ, ◌+◌, ◌-◌, ◌≤◌, ◌<◌, ◌≡◌, refl, sym, ap, ◌∙◌, List, [], ◌∷◌, ◌++◌, arith, ltb, leb, Bool-cases,
  inl, inr, if◌then◌else◌,
}
use cocaine_core.Hpack.Header.{Header, http2_size}
use cocaine_core.Hpack.Table.{total_size, evict}

-- The longest front part whose sizes add up to at most `room`.
unfoldable pub fit : ℕ → List Header → List Header
fit room [] = []
fit room (h ∷ hs) =
    let rest = fit (room - http2_size h) hs in if leb (http2_size h) room then h ∷ rest else []

pub total_size-append :
    (xs ys : List Header) → total_size (xs ++ ys) ≡ total_size xs + total_size ys
unfolding total_size
total_size-append [] ys = omega arith
total_size-append (x ∷ xs) ys = omega (arith, total_size-append xs ys)

pub total_size-one : (h : Header) → total_size (h ∷ []) ≡ http2_size h
unfolding total_size
total_size-one h = omega arith

-- The fit never exceeds its room.
pub total_size-fit : (room : ℕ) (hs : List Header) → total_size (fit room hs) ≤ room
unfolding total_size fit
total_size-fit room [] = omega arith
total_size-fit room (h ∷ hs) = ground (arith, total_size-fit (room - http2_size h) hs)

pub fit_all : (room : ℕ) (hs : List Header) → total_size hs ≤ room → fit room hs ≡ hs
unfolding total_size fit
fit_all room [] h = refl
fit_all room (x ∷ hs) h = ground (arith, fit_all (room - http2_size x) hs)

-- An entry at the end that does not fit is dropped.
pub fit_snoc :
    (room : ℕ) (hs : List Header) (h : Header)
    → room < total_size (hs ++ h ∷ [])
    → fit room (hs ++ h ∷ []) ≡ fit room hs
unfolding total_size fit
fit_snoc room [] h lt = ground arith
fit_snoc room (x ∷ hs) h lt = ground (arith, fit_snoc (room - http2_size x) hs h)

-- Popping from the back leaves the fit of what the new entry does not take.
pub evict-fit :
    (capacity header_size : ℕ) (rev : List Header)
    → header_size ≤ capacity
    → reverse (evict capacity header_size (total_size (reverse rev)) rev)
      ≡ fit (capacity - header_size) (reverse rev)
unfolding evict
evict-fit capacity header_size [] le = unfold fit in refl
evict-fit capacity header_size (back ∷ rest) le =
    let size_eq : total_size (reverse (back ∷ rest)) ≡ total_size (reverse rest) + http2_size back =
      rw reverse-cons (
        total_size-append (reverse rest) (back ∷ [])
        ∙ ap (λ n. total_size (reverse rest) + n) (total_size-one back)) in
    let rest_eq : total_size (reverse (back ∷ rest)) - http2_size back ≡ total_size (reverse rest) =
      omega arith in
    elim (Bool-cases (ltb capacity (total_size (reverse (back ∷ rest)) + header_size))) [
      | inl over ↦
          rw (over, rest_eq)
            (evict-fit capacity header_size rest le
              ∙ sym (
                  ap (fit (capacity - header_size)) (reverse-cons back rest)
                  ∙ fit_snoc (capacity - header_size) (reverse rest) back (
                      ground (
                        arith,
                        total_size-append (reverse rest) (back ∷ []),
                        total_size-one back,
                      ))))
      | inr fits ↦
          rw fits (sym (fit_all (capacity - header_size) (reverse (back ∷ rest)) (ground arith)))
    ]

-- An entry larger than the table empties it.
pub evict_too_large :
    (capacity header_size sz : ℕ) (rev : List Header)
    → capacity < header_size
    → evict capacity header_size sz rev ≡ []
unfolding evict
evict_too_large capacity header_size sz [] lt = refl
evict_too_large capacity header_size sz (back ∷ rest) lt =
    ground (arith, evict_too_large capacity header_size (sz - http2_size back) rest)
