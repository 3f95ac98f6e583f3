-- ===== src/Signals/Token/Uses.antt =====
-- Programs that use the tokens of src/signal.cpp.
use cocaine_core.Signals.Token.Spent.{
  cancel-holds, move_token-holds, assign_token-holds, held-store, get_elem?-store, held-append,
  told, made, holds, held, times,
}
use cocaine_core.Signals.Token.{
  passed, throws, calls, constructs, makes, moves, assigns, cancels, detaches,
}
use cocaine_core.Signals.Token.{
  detach, tell, new_token, empty_token, passed, throws, calls, constructs, makes, moves, assigns,
  cancels, detaches, detaches, cancels, assigns, use_token, moves, throws, store, Tokens, makes,
  calls, assign_token, cancel, move_token, Use, Cancelled, Cancellation,
}
use cocaine_core.Base.{
  Option, none, Option, count-append, ℕ, ◌+◌, ◌≡◌, refl, ◌∙◌, inl, inr, false, some, List, [], ◌∷◌,
  arith, nat_beq, Bool-cases, Option-cases, get_elem?, nat_key, string_key, list_key,
}

tell-held :
    (c : Option ℕ) (done : Cancelled ℕ) (s : Tokens ℕ)
    → held c (tell done s).objects + times c (tell done s)
      ≡ held c s.objects + times c s + told c done
tell-held c passed s = omega arith
tell-held none (calls d) s = omega arith
tell-held (some c) (calls d) s = omega (arith, count-append c s.called (d ∷ []))
tell-held none throws s = omega arith
tell-held (some c) throws s = omega arith

detach-holds : (c : Option ℕ) (t : Cancellation ℕ) → holds c (detach t).0 ≡ 0
unfolding detach
detach-holds c t = refl

held-assign :
    (c : Option ℕ) (i j : ℕ) (t other : Cancellation ℕ) (objects : List (Cancellation ℕ))
    → get_elem? objects i ≡ some t
    → get_elem? objects j ≡ some other
    → nat_beq i j ≡ false
    → held c (store j (assign_token t other).1 (store i (assign_token t other).0 objects))
        + told c (assign_token t other).2
      ≡ held c objects
held-assign c i j t other objects at_i at_j apart =
    let t' = (assign_token t other).0 in
    let still : get_elem? (store i t' objects) j ≡ some other =
      get_elem?-store i j t' objects apart ∙ at_j in
    omega (
      arith,
      held-store c j (assign_token t other).1 other (store i t' objects) still,
      held-store c i t' t objects at_i,
      assign_token-holds c t other,
    )

-- How often a token that a statement detaches, or destroys, would still have called the callback.
abbrev pub released_by : Option ℕ → Use ℕ → Tokens ℕ → ℕ
released_by c constructs s = 0
released_by c (makes d) s = 0
released_by c (moves i) s = 0
released_by c (assigns i j) s = 0
released_by c (cancels i) s = 0
released_by c (detaches i) s = elim (get_elem? s.objects i) [ none ↦ 0 | some t ↦ holds c t ]

-- One statement.
use_token-held :
    (c : Option ℕ) (u : Use ℕ) (s : Tokens ℕ)
    → held c (use_token u s).objects + times c (use_token u s) + released_by c u s
      ≡ held c s.objects + times c s + made c (u ∷ [])
unfolding use_token
use_token-held c constructs s = omega (arith, held-append c s.objects (empty_token ∷ []))
use_token-held c (makes d) s = omega (arith, held-append c s.objects (new_token d ∷ []))
use_token-held c (moves i) s = elim (Option-cases (get_elem? s.objects i)) [
  | inl gone ↦ rw (gone, use_token) (omega arith)
  | inr (other, there) ↦
      rw (there, use_token)
        (omega (
          arith,
          held-append c (store i (move_token other).1 s.objects) ((move_token other).0 ∷ []),
          held-store c i (move_token other).1 other s.objects there,
          move_token-holds c other,
        ))
]
use_token-held c (assigns i j) s = elim (Option-cases (get_elem? s.objects i)) [
  | inl gone ↦ rw (gone, use_token) (omega arith)
  | inr (t, at_i) ↦ elim (Option-cases (get_elem? s.objects j)) [
    | inl gone ↦ rw (at_i, gone, use_token) (omega arith)
    | inr (other, at_j) ↦ elim (Bool-cases (nat_beq i j)) [
      | inl self ↦ rw (at_i, at_j, self, use_token) (omega arith)
      | inr apart ↦
          rw (at_i, at_j, apart, use_token)
            (omega (
              arith,
              held-assign c i j t other s.objects at_i at_j apart,
              tell-held c (assign_token t other).2 (record s {
                objects =
                    store j (assign_token t other).1 (store i (assign_token t other).0 s.objects);
              }),
            ))
    ]
  ]
]
use_token-held c (cancels i) s = elim (Option-cases (get_elem? s.objects i)) [
  | inl gone ↦ rw (gone, use_token) (omega arith)
  | inr (t, there) ↦
      rw (there, use_token)
        (omega (
          arith,
          tell-held c (cancel t).1 (record s { objects = store i (cancel t).0 s.objects }),
          held-store c i (cancel t).0 t s.objects there,
          cancel-holds c t,
        ))
]
use_token-held c (detaches i) s = elim (Option-cases (get_elem? s.objects i)) [
  | inl gone ↦ rw (gone, use_token, released_by) (omega arith)
  | inr (t, there) ↦
      rw (there, use_token, released_by)
        (omega (arith, held-store c i (detach t).0 t s.objects there, detach-holds c t))
]

abbrev pub use_all : List (Use ℕ) → Tokens ℕ → Tokens ℕ
use_all [] s = s
use_all (u ∷ uses) s = use_all uses (use_token u s)

abbrev pub no_tokens : Tokens ℕ
no_tokens = record { objects = []; called = []; thrown = 0 }

made-cons :
    (c : Option ℕ) (u : Use ℕ) (uses : List (Use ℕ))
    → made c (u ∷ uses) ≡ made c (u ∷ []) + made c uses
made-cons c constructs uses = omega arith
made-cons c (makes d) uses = omega arith
made-cons c (moves i) uses = omega arith
made-cons c (assigns i j) uses = omega arith
made-cons c (cancels i) uses = omega arith
made-cons c (detaches i) uses = omega arith

abbrev pub released : Option ℕ → List (Use ℕ) → Tokens ℕ → ℕ
released c [] s = 0
released c (u ∷ uses) s = released_by c u s + released c uses (use_token u s)

use_all-held :
    (c : Option ℕ) (uses : List (Use ℕ)) (s : Tokens ℕ)
    → held c (use_all uses s).objects + times c (use_all uses s) + released c uses s
      ≡ held c s.objects + times c s + made c uses
use_all-held c [] s = omega arith
use_all-held c (u ∷ uses) s =
    omega (arith, use_all-held c uses (use_token u s), use_token-held c u s, made-cons c u uses)

-- Whatever a program does with tokens by construction, moves, assignments, calls of cancel and
-- detach, and destruction: the tokens that were made of a callback are as many as the calls of it so
-- far, the tokens that would still call it, and the ones that held it when they were detached or
-- destroyed. So a callback that one token was made of is called at most once, and not after the token
-- that holds it was detached. The same holds for `none`, the empty function, whose call throws: it is
-- called only if a token was made of it.
pub use_all-spent :
    (uses : List (Use ℕ)) (c : Option ℕ)
    → held c (use_all uses no_tokens).objects
        + times c (use_all uses no_tokens)
        + released c uses no_tokens
      ≡ made c uses
use_all-spent uses none = omega (arith, use_all-held none uses no_tokens)
use_all-spent uses (some c) = omega (arith, use_all-held (some c) uses no_tokens)
