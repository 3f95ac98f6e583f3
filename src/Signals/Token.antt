-- ===== src/Signals/Token.antt =====
-- cancellation_t of include/cocaine/signal.hpp and src/signal.cpp. A callback is a value of `C`, and
-- `none` is an empty std::function; the atomic flag makes each operation one step. A callback that
-- throws itself is not modelled.
pub mod Spent
pub mod Uses
use cocaine_core.Base.{
  ◌+◌, nat_beq, get_elem?, [], ◌∷◌, not, some, none, Option, ◌++◌, ℕ, List, if◌then◌else◌, false,
  true, Bool,
}
use cocaine_core.Signals.{update_at}

pub record Cancellation (C : Type 0) : Type 0 where
  pub detached : Bool
  pub callback : Option C

-- What `cancel` does: nothing, a call of the callback, or a call of an empty std::function, which
-- throws.
pub data Cancelled (C : Type 0) : Type 0 where
  passed : Cancelled C
  calls : C → Cancelled C
  throws : Cancelled C

-- The three constructors; the last moves from another object and leaves that as the second result.
abbrev pub empty_token : {C : Type 0} → Cancellation C
empty_token = record { detached = true; callback = none }

abbrev pub new_token : {C : Type 0} → Option C → Cancellation C
new_token c = record { detached = false; callback = c }

unfoldable pub move_token : {C : Type 0} → Cancellation C → Cancellation C × Cancellation C
move_token other =
    if other.detached then (record { detached = true; callback = none }, other) else (
      record { detached = false; callback = other.callback },
      record { detached = true; callback = none },
    )

unfoldable pub cancel : {C : Type 0} → Cancellation C → Cancellation C × Cancelled C
cancel t =
    if t.detached
    then (t, passed)
    else (record t { detached = true }, elim t.callback [ none ↦ throws | some c ↦ calls c ])

unfoldable pub detach : {C : Type 0} → Cancellation C → Cancellation C × Bool
detach t = (record t { detached = true }, not t.detached)

-- The assignment of another object by a move. Where `cancel` throws, the rest is not done.
unfoldable pub assign_token :
    {C : Type 0} → Cancellation C → Cancellation C → Cancellation C × Cancellation C × Cancelled C
unfolding cancel
assign_token t other =
    let (t', done) = cancel t in
    let moved = if other.detached then (t', other, done) else (
      record { detached = false; callback = other.callback },
      record { detached = true; callback = none },
      done,
    ) in
    elim done [ throws ↦ (t', other, throws) | passed ↦ moved | calls c ↦ moved ]

-- The tokens of a program, the callbacks called so far, and how often an empty one was called.
pub record Tokens (C : Type 0) : Type 0 where
  pub objects : List (Cancellation C)
  pub called : List C
  pub thrown : ℕ

-- A statement of a program about tokens, which it names by the order of their construction.
pub data Use (C : Type 0) : Type 0 where
  constructs : Use C
  makes : Option C → Use C
  moves : ℕ → Use C
  assigns : ℕ → ℕ → Use C
  cancels : ℕ → Use C
  detaches : ℕ → Use C

abbrev pub store : {C : Type 0} → ℕ → Cancellation C → List (Cancellation C) → List (Cancellation C)
store i t objects = update_at i (λ t'. t) objects

abbrev pub tell : {C : Type 0} → Cancelled C → Tokens C → Tokens C
tell passed s = s
tell (calls c) s = record s { called = s.called ++ c ∷ [] }
tell throws s = record s { thrown = s.thrown + 1 }

-- A statement; one about an object that is not there is none of a program and does nothing. The
-- destructor is `detaches`. An assignment of an object to itself is returned from at once.
unfoldable pub use_token : {C : Type 0} → Use C → Tokens C → Tokens C
use_token constructs s = record s { objects = s.objects ++ empty_token ∷ [] }
use_token (makes c) s = record s { objects = s.objects ++ new_token c ∷ [] }
use_token (moves i) s = elim (get_elem? s.objects i) [
  | none ↦ s
  | some other ↦
      let (t, other') = move_token other in
      record s { objects = store i other' s.objects ++ t ∷ [] }
]
use_token (assigns i j) s = elim (get_elem? s.objects i) [
  | none ↦ s
  | some t ↦ elim (get_elem? s.objects j) [
    | none ↦ s
    | some other ↦
        if nat_beq i j
        then s
        else (let (t', other', done) = assign_token t other in
            tell done (record s { objects = store j other' (store i t' s.objects) }))
  ]
]
use_token (cancels i) s = elim (get_elem? s.objects i) [
  | none ↦ s
  | some t ↦ (let (t', done) = cancel t in tell done (record s { objects = store i t' s.objects }))
]
use_token (detaches i) s = elim (get_elem? s.objects i) [
  | none ↦ s
  | some t ↦ record s { objects = store i (detach t).0 s.objects }
]
