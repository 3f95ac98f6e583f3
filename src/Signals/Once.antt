-- ===== src/Signals/Once.antt =====
-- The handlers of src/signal.cpp are each called once.
pub mod Steps
pub mod History
use cocaine_core.Signals.{
  interrupted, broken, interrupt_signal, caught, take_out, signaled, Wait, canceled, cancel_wait,
  run, drain, cancel_all, dispatch, call_all, call, Outcome, async_wait_all, grow, async_wait,
  update_at, put, Handlers,
}
use cocaine_core.Base.Map.{Map}
use cocaine_core.Base.{
  is_empty, subst, ◌&&◌, Bool-cases, inr, inl, Bool, Option-cases, some, get_elem?, count-append,
  count, ℕ, zero, suc, ◌+◌, ◌-◌, ◌^◌, ◌<◌, ◌≡◌, refl, ap, List, [], ◌∷◌, ◌++◌, map, arith, ltb,
  nat_beq, if◌then◌else◌, length, replicate, length-append, length-replicate, nat_key, string_key,
  list_key,
}

abbrev pub keys : {A : Type 0} → List (ℕ × A) → List ℕ
keys list = map (λ p. p.0) list

-- How often an index stands among the handlers that wait.
abbrev pub total : {H : Type 0} → ℕ → List (Map ℕ H) → ℕ
total i [] = 0
total i (m ∷ ms) = count i (keys m) + total i ms

abbrev pub below : ℕ → ℕ → ℕ
below i n = if ltb i n then 1 else 0

-- While fewer than 2^64 waits were started, every index handed out belongs to one call made, one
-- handler that waits or one of the handlers `pending`, and no other index to any.
abbrev pub Sound : {H : Type 0} → List ℕ → Handlers H → Type 0
Sound pending s =
    s.started < 2 ^ 64
    → (s.next ≡ s.started)
      × ((i : ℕ)
          → count i (keys s.called) + (total i s.callbacks + count i pending) ≡ below i s.started)

count-put :
    {H : Type 0} (i k : ℕ) (h : H) (m : Map ℕ H)
    → count k (keys m) ≡ 0
    → count i (keys (put k h m)) ≡ count i (keys m) + (if nat_beq k i then 1 else 0)
unfolding put
count-put i k h [] e = ground arith
count-put i k h ((j, g) ∷ m) e = ground (arith, count-put i k h m)

total-put :
    {H : Type 0} (i k signum : ℕ) (h : H) (ms : List (Map ℕ H))
    → total k ms ≡ 0
    → signum < length ms
    → total i (update_at signum (put k h) ms) ≡ total i ms + (if nat_beq k i then 1 else 0)
unfolding update_at
total-put i k signum h [] e lt = absurd (omega arith)
total-put i k zero h (m ∷ ms) e lt = ground (arith, count-put i k h m)
total-put i k (suc signum) h (m ∷ ms) e lt = ground (arith, total-put i k signum h ms)

total-nils : (H : Type 0) (i n : ℕ) → total {H = H} i (replicate n []) ≡ 0
total-nils H i zero = refl
total-nils H i (suc n) = omega (arith, total-nils H i n)

total-append :
    {H : Type 0} (i : ℕ) (ms ns : List (Map ℕ H)) → total i (ms ++ ns) ≡ total i ms + total i ns
total-append i [] ns = omega arith
total-append i (m ∷ ms) ns = omega (arith, total-append i ms ns)

keys-append : {A : Type 0} (xs ys : List (ℕ × A)) → keys (xs ++ ys) ≡ keys xs ++ keys ys
keys-append [] ys = refl
keys-append (x ∷ xs) ys = ap (λ l. x.0 ∷ l) (keys-append xs ys)

total-grow : {H : Type 0} (i n : ℕ) (ms : List (Map ℕ H)) → total i (grow n ms) ≡ total i ms
total-grow {H} i n ms =
    omega (arith, total-append i ms (replicate (n - length ms) []), total-nils H i (n - length ms))

length-grow : {H : Type 0} (n : ℕ) (ms : List (Map ℕ H)) → n < length (grow (suc n) ms)
length-grow {H} n ms = omega (
  arith,
  length-append ms (replicate (suc n - length ms) []),
  length-replicate {A = Map ℕ H} (suc n - length ms) [],
)

pub async_wait-Sound :
    {H : Type 0} (pending : List ℕ) (signum : ℕ) (h : H) (s : Handlers H)
    → Sound pending s
    → Sound pending (async_wait signum h s).0
unfolding async_wait
async_wait-Sound {H} pending signum h s sound lt =
    let (next, each) = sound (omega arith) in
    let grown = grow (suc signum) s.callbacks in
    let wide = length-grow signum s.callbacks in
    let new : total s.next grown ≡ 0 =
      ground (arith, total-grow s.next (suc signum) s.callbacks, each s.next) in
    (
      omega arith,
      λ i. ground (
        arith,
        total-put i s.next signum h grown new wide,
        total-grow i (suc signum) s.callbacks,
        each i,
      ),
    )

pub async_wait_all-Sound :
    {H : Type 0} (pending : List ℕ) (waits : List (ℕ × H)) (s : Handlers H)
    → Sound pending s
    → Sound pending (async_wait_all waits s)
unfolding async_wait_all
async_wait_all-Sound pending [] s sound = sound
async_wait_all-Sound pending ((signum, h) ∷ waits) s sound =
    async_wait_all-Sound pending waits (async_wait signum h s).0
      (async_wait-Sound pending signum h s sound)

-- An index that was pending is called.
pub told-Sound :
    {H : Type 0} (pending : List ℕ) (index : ℕ) (outcome : Outcome) (s : Handlers H)
    → Sound (index ∷ pending) s
    → Sound pending (record s { called = s.called ++ (index, outcome) ∷ [] })
told-Sound pending index outcome s sound lt =
    let (next, each) = sound lt in
    (
      next,
      λ i.
          rw (keys-append s.called ((index, outcome) ∷ []))
            (omega (arith, count-append i (keys s.called) (index ∷ []), each i)),
    )
