-- ===== src/Hpack/Header/Laws.antt =====
-- hpack::header: `pack` and `unpack` are inverse, and what `find_first` finds.
use native.Mathlib.Nat.{pow-suc}
use cocaine_core.Base.{
  ℕ, zero, suc, ◌+◌, ◌*◌, ◌/◌, ◌%◌, ◌^◌, ◌<◌, ◌≡◌, refl, Bool, true, false, none, some, List, [],
  ◌∷◌, arith, nat_beq, All, length, find?, any, ◌==◌, nat_key, string_key, list_key, list_same_iff,
}
use cocaine_core.Hpack.Header.{Bytes, Header, pack, unpack, number_of, c_str, find_first}

length-pack : (w n : ℕ) → length (pack w n) ≡ w
unfolding pack
length-pack zero n = refl
length-pack (suc w) n = omega (arith, length-pack w (n / 256))

number_of-pack : (w n : ℕ) → n < 256 ^ w → number_of (pack w n) ≡ n
unfolding pack number_of
number_of-pack zero n h = omega arith
number_of-pack (suc w) n h = omega (arith, pow-suc 256 w, number_of-pack w (n / 256))

-- A number that fits in `w` bytes is read back from its bytes.
pub unpack-pack : (w n : ℕ) → n < 256 ^ w → unpack w (pack w n) ≡ some n
unfolding unpack
unpack-pack w n h = ground (arith, length-pack w n, number_of-pack w n)

pack-number_of : (bs : Bytes) → All (λ b. b < 256) bs → pack (length bs) (number_of bs) ≡ bs
unfolding pack number_of
pack-number_of [] h = refl
pack-number_of (b ∷ bs) h =
    let low : (b + 256 * number_of bs) % 256 ≡ b = omega arith in
    let high : (b + 256 * number_of bs) / 256 ≡ number_of bs = omega arith in
    rw (low, high, pack-number_of bs h.1)

-- Bytes that `unpack` accepts are those of the number that it returns.
pub pack-unpack :
    (w n : ℕ) (bs : Bytes) → All (λ b. b < 256) bs → unpack w bs ≡ some n → pack w n ≡ bs
unfolding unpack
pack-unpack w n bs h e = ground (arith, pack-number_of bs h)

c_str_whole : (name : Bytes) → All (λ b. 0 < b) name → c_str name ≡ name
unfolding c_str
c_str_whole [] h = refl
c_str_whole (b ∷ bs) h = ground (arith, c_str_whole bs h.1)

length-c_str :
    (name : Bytes) → any (λ b. nat_beq b 0) name ≡ true → length (c_str name) < length name
unfolding c_str
length-c_str [] h = cc
length-c_str (b ∷ bs) h = ground (arith, length-c_str bs)

find?-cong {ℓ} :
    {A : Type ℓ} (p q : A → Bool) (xs : List A) → ((x : A) → p x ≡ q x) → find? p xs ≡ find? q xs
find?-cong p q [] h = refl
find?-cong p q (x ∷ xs) h = ground (arith, h x, find?-cong p q xs h)

find?-never {ℓ} :
    {A : Type ℓ} (p : A → Bool) (xs : List A) → ((x : A) → p x ≡ false) → find? p xs ≡ none
find?-never p [] h = refl
find?-never p (x ∷ xs) h = ground (arith, h x, find?-never p xs h)

-- For a name with no NUL byte `find_first` is the first header of exactly that name.
pub find_first-name :
    (hs : List Header) (name : Bytes)
    → All (λ b. 0 < b) name
    → find_first hs name ≡ find? (λ h. h.name == name) hs
unfolding find_first
find_first-name hs name h =
    find?-cong _ _ hs (λ x. rw (c_str_whole name h) (ground (arith, list_same_iff x.name name)))

-- A name with a NUL byte is never found, even if a header has it.
pub find_first_nul :
    (hs : List Header) (name : Bytes)
    → any (λ b. nat_beq b 0) name ≡ true
    → find_first hs name ≡ none
unfolding find_first
find_first_nul hs name h =
    find?-never _ hs (λ x. ground (arith, list_same_iff x.name (c_str name), length-c_str name h))
