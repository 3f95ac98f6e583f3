-- ===== src/Signals/Once/Steps.antt =====
-- What each step of the dispatcher of src/signal.cpp does to the count of calls.
use cocaine_core.Signals.Once.{told-Sound, async_wait_all-Sound, total, Sound, keys}
use cocaine_core.Signals.{
  interrupted, broken, interrupt_signal, caught, take_out, signaled, Wait, canceled, cancel_wait,
  run, drain, cancel_all, dispatch, call_all, call, Outcome, update_at, Handlers,
}
use cocaine_core.Base.Map.{Map}
use cocaine_core.Base.{
  is_empty, subst, ◌&&◌, Bool-cases, inr, inl, Bool, Option-cases, some, get_elem?, count-append,
  count, ℕ, zero, suc, ◌+◌, ◌≡◌, refl, ap, List, [], ◌∷◌, ◌++◌, arith, nat_beq, nat_key, string_key,
  list_key,
}

-- The indices of the handlers that wait.
abbrev waiting : {H : Type 0} → List (Map ℕ H) → List ℕ
waiting [] = []
waiting (m ∷ ms) = keys m ++ waiting ms

module _ {H : Type 0} (react : H → Outcome → List (ℕ × H)) where
  call-Sound :
      (pending : List ℕ) (index : ℕ) (h : H) (outcome : Outcome) (s : Handlers H)
      → Sound (index ∷ pending) s
      → Sound pending (call react index h outcome s)
  unfolding call
  call-Sound pending index h outcome s sound =
      async_wait_all-Sound pending (react h outcome)
        (record s { called = s.called ++ (index, outcome) ∷ [] })
        (told-Sound pending index outcome s sound)

  call_all-Sound :
      (pending : List ℕ) (m : Map ℕ H) (outcome : Outcome) (s : Handlers H)
      → Sound (keys m ++ pending) s
      → Sound pending (call_all react m outcome s)
  unfolding call_all
  call_all-Sound pending [] outcome s sound = sound
  call_all-Sound pending ((index, h) ∷ m) outcome s sound =
      call_all-Sound pending m outcome (call react index h outcome s)
        (call-Sound (keys m ++ pending) index h outcome s sound)

  total-taken :
      (i signum : ℕ) (ms : List (Map ℕ H)) (m : Map ℕ H)
      → get_elem? ms signum ≡ some m
      → total i ms ≡ count i (keys m) + total i (update_at signum (λ m'. []) ms)
  unfolding update_at
  total-taken i signum [] m e = cc
  total-taken i zero (m' ∷ ms) m e =
      let same : m' ≡ m = ground arith in omega (arith, ap (λ m''. count i (keys m'')) same)
  total-taken i (suc signum) (m' ∷ ms) m e = omega (arith, total-taken i signum ms m e)

  dispatch-Sound : (signum : ℕ) (s : Handlers H) → Sound [] s → Sound [] (dispatch react signum s)
  unfolding dispatch
  dispatch-Sound signum s sound = elim (Option-cases (get_elem? s.callbacks signum)) [
    | inl out ↦ rw (out, dispatch) sound
    | inr (m, there) ↦
        rw (there, dispatch)
          (call_all-Sound [] m (caught signum)
            (record s { callbacks = update_at signum (λ m'. []) s.callbacks })
            (λ lt. (
              (sound lt).0,
              λ i. omega (
                arith,
                total-taken i signum s.callbacks m there,
                count-append i (keys m) [],
                (sound lt).1 i,
              ),
            )))
  ]

  cancel_all-Sound :
      (ms : List (Map ℕ H)) (s : Handlers H)
      → Sound (waiting ms) s
      → Sound [] (cancel_all react ms s)
  unfolding cancel_all
  cancel_all-Sound [] s sound = sound
  cancel_all-Sound (m ∷ ms) s sound =
      cancel_all-Sound ms (call_all react m canceled s)
        (call_all-Sound (waiting ms) m canceled s sound)

  count-waiting : (i : ℕ) (ms : List (Map ℕ H)) → count i (waiting ms) ≡ total i ms
  count-waiting i [] = refl
  count-waiting i (m ∷ ms) = omega (arith, count-append i (keys m) (waiting ms), count-waiting i ms)

  drain-Sound : (s : Handlers H) → Sound [] s → Sound [] (drain react s)
  unfolding drain
  drain-Sound s sound =
      cancel_all-Sound s.callbacks (record s { callbacks = [] })
        (λ lt. ((sound lt).0, λ i. omega (arith, count-waiting i s.callbacks, (sound lt).1 i)))

  pub run-Sound : (waits : List Wait) (s : Handlers H) → Sound [] s → Sound [] (run react waits s).0
  unfolding run
  run-Sound [] s sound = drain-Sound s sound
  run-Sound (interrupted ∷ waits) s sound = run-Sound waits s sound
  run-Sound (broken ∷ waits) s sound = sound
  run-Sound (signaled signum stopped ∷ waits) s sound =
      elim (Bool-cases (nat_beq signum interrupt_signal && stopped)) [
        | inl skipped ↦ rw (skipped, run) (run-Sound waits s sound)
        | inr told ↦
            rw (told, run)
              (run-Sound waits (dispatch react signum s) (dispatch-Sound signum s sound))
      ]

  count-take_out :
      (i index : ℕ) (m m' : Map ℕ H) (h : H)
      → take_out index m ≡ some (h, m')
      → count i (keys m) ≡ count i (keys m') + count i (index ∷ [])
  unfolding take_out
  count-take_out i index [] m' h out = cc
  count-take_out i index ((j, g) ∷ m) m' h out = elim (Bool-cases (nat_beq j index)) [
    | inl hit ↦
        let same : j ≡ index = ground arith in
        let left : m ≡ m' = ground arith in
        omega (arith, ap (λ k. count i (k ∷ [])) same, ap (λ n. count i (keys n)) left)
    | inr miss ↦ elim (Option-cases (take_out index m)) [
      | inl none_left ↦ absurd (ground arith)
      | inr ((f, n), found) ↦
          let left : (j, g) ∷ n ≡ m' = ground arith in
          let rest = count-take_out i index m n f found in
          omega (arith, rest, ap (λ n'. count i (keys n')) left)
    ]
  ]

  total-take_out :
      (i index signum : ℕ) (ms : List (Map ℕ H)) (m m' : Map ℕ H) (h : H)
      → get_elem? ms signum ≡ some m
      → take_out index m ≡ some (h, m')
      → total i ms ≡ total i (update_at signum (λ m''. m') ms) + count i (index ∷ [])
  unfolding update_at
  total-take_out i index signum [] m m' h e out = cc
  total-take_out i index zero (m'' ∷ ms) m m' h e out =
      let same : m'' ≡ m = ground arith in
      omega (arith, ap (λ n. count i (keys n)) same, count-take_out i index m m' h out)
  total-take_out i index (suc signum) (m'' ∷ ms) m m' h e out =
      omega (arith, total-take_out i index signum ms m m' h e out)

  pub cancel_wait-Sound :
      (signum index : ℕ) (s s' : Handlers H) (b : Bool)
      → cancel_wait react (signum, index) s ≡ some (s', b)
      → Sound [] s
      → Sound [] s'
  unfolding cancel_wait
  cancel_wait-Sound signum index s s' b e sound =
      elim (Option-cases (get_elem? s.callbacks signum)) [
        | inl out ↦ absurd (ground arith)
        | inr (m, there) ↦ elim (Option-cases (take_out index m)) [
          | inl gone ↦ let same : s ≡ s' = ground arith in subst (Sound []) same sound
          | inr ((h, m'), found) ↦ elim (Bool-cases (is_empty (react h canceled))) [
            | inr loud ↦ absurd (ground arith)
            | inl quiet ↦
                let same : record s {
                  callbacks = update_at signum (λ m''. m') s.callbacks;
                  called = s.called ++ (index, canceled) ∷ [];
                }
                    ≡ s' =
                  ground arith in
                subst (Sound []) same (
                  told-Sound [] index canceled
                    (record s { callbacks = update_at signum (λ m''. m') s.callbacks })
                    (λ lt. (
                      (sound lt).0,
                      λ i. omega (
                        arith,
                        total-take_out i index signum s.callbacks m m' h there found,
                        (sound lt).1 i,
                      ),
                    )))
          ]
        ]
      ]
