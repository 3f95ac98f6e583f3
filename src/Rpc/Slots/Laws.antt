-- ===== src/Rpc/Slots/Laws.antt =====
-- include/cocaine/rpc/dispatch.hpp as a map of slots, and what a blocking slot always answers.
use cocaine_core.Base.{
  ℕ, ◌≡◌, refl, ◌≢◌, ◌⊎◌, inl, inr, Bool, false, Option, none, some, [], ◌∷◌, arith, nat_beq,
  if◌then◌else◌, Bool-cases, Option-cases, nat_key, string_key, list_key,
}
use cocaine_core.Base.Map.{Map, contains, erase, insert, lookup-erase, lookup-insert}
use cocaine_core.Errors.{duplicate_slot, slot_not_found}
use cocaine_core.Errors.Codes.{Code, dispatch_code, system}
use cocaine_core.Rpc.Session.{Completion, completed, threw, broken, raised}
use cocaine_core.Rpc.Slots.{
  send_error, on, drop_slot, visit, Answer, value, error, Answered, transition, send_error, code_of,
  blocking_slot,
}

-- A slot that `on` has taken is the one that `process` visits for its identifier, and no other
-- identifier is concerned; it can be taken only once, and after `drop` it is not found.
pub visit-on :
    {S R : Type 0} (slots more : Map ℕ S) (id j : ℕ) (slot again : S) (visitor : S → Completion R)
    → on id slot slots ≡ completed more
    → (visit j visitor more ≡ (if nat_beq id j then visitor slot else visit j visitor slots))
      × (on id again more ≡ threw (system (dispatch_code duplicate_slot)))
      × ((less : Map ℕ S) × (drop_slot id more ≡ completed less)
          × (visit j visitor less ≡ (
              if nat_beq id j
              then threw (system (dispatch_code slot_not_found))
              else visit j visitor slots)))
unfolding on visit drop_slot
visit-on slots more id j slot again visitor e =
    let free : contains id slots ≡ false = elim (Bool-cases (contains id slots)) [
      | inl taken ↦ absurd (ground arith)
      | inr not_taken ↦ not_taken
    ] in
    let same : more ≡ insert id slot slots = ground arith in
    rw same (
      ground (arith, lookup-insert id j slot slots),
      ground (arith, lookup-insert id id slot slots),
      (
        erase id (insert id slot slots),
        ground (arith, lookup-insert id id slot slots),
        ground (arith, lookup-erase id j (insert id slot slots), lookup-insert id j slot slots),
      ),
    )

-- One message was sent and the transition made, or an error was refused and its refusal thrown.
abbrev pub Settled : {V D : Type 0} → Bool → (Answer V → Option Code) → Answered V D → Type 0
Settled {V = V} is_recursed upstream a =
    ((m : Answer V) × (a.sent ≡ m ∷ []) × (upstream m ≡ none) × (a.reply ≡ transition is_recursed))
    ⊎ ((ec failure : Code) × (a.sent ≡ [])
        × (upstream (error ec) ≡ some failure)
        × (a.reply ≡ raised (system failure)))

send_error-Settled :
    {V D : Type 0} (is_recursed : Bool) (upstream : Answer V → Option Code) (ec : Code)
    → Settled {D = D} is_recursed upstream (send_error is_recursed upstream ec)
unfolding send_error
send_error-Settled is_recursed upstream ec = elim (Option-cases (upstream (error ec))) [
  | inl took ↦ inl (error ec, ground arith, took, ground arith)
  | inr (failure, refused) ↦ inr (ec, failure, ground arith, refused, ground arith)
]

-- A blocking slot whose callable returns or throws either sends exactly one message that the
-- upstream takes and makes its transition, or sends nothing and throws, with the code with which the
-- upstream refused an error.
pub blocking_slot-Settled :
    {V D : Type 0} (is_recursed : Bool) (upstream : Answer V → Option Code) (result : Completion V)
    → result ≢ broken
    → (a : Answered V D) × (blocking_slot is_recursed upstream result ≡ some a)
      × Settled is_recursed upstream a
unfolding blocking_slot
blocking_slot-Settled {D = D} is_recursed upstream (completed v) h =
    elim (Option-cases (upstream (value v))) [
      | inl took ↦ (
        record { sent = value v ∷ []; reply = transition is_recursed },
        ground arith,
        inl (value v, refl, took, refl),
      )
      | inr (ec, refused) ↦ (
        send_error is_recursed upstream ec,
        ground arith,
        send_error-Settled {D = D} is_recursed upstream ec,
      )
    ]
blocking_slot-Settled is_recursed upstream (threw f) h = (
  send_error is_recursed upstream (code_of f),
  refl,
  send_error-Settled is_recursed upstream (code_of f),
)
blocking_slot-Settled is_recursed upstream broken h = absurd (h refl)
