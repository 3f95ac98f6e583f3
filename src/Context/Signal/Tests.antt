-- ===== src/Context/Signal/Tests.antt =====
-- Runs of include/cocaine/context/signal.hpp.
use cocaine_core.Base.{ℕ, ◌≡◌, refl, Bool, true, List, [], ◌∷◌, ◌++◌, nat_beq, arith, not}
use cocaine_core.Context.Signal.{new_signal}
use cocaine_core.Context.Signal.Delivery.{events_of-run, events_of, run, listens, invokes, Command}

-- Every dispatch has a slot for the events but for 9.
abbrev some_slots : ℕ → ℕ → Bool
some_slots slot event = not (nat_beq event 9)

abbrev all_but_two : ℕ → Bool
all_but_two event = not (nat_beq event 2)

abbrev everyone : ℕ → Bool
everyone slot = true

abbrev early_commands : List (Command ℕ)
early_commands = listens 4 ∷ invokes everyone 1 ∷ invokes everyone 2 ∷ invokes everyone 9 ∷ []

abbrev late_commands : List (Command ℕ)
late_commands = invokes everyone 2 ∷ listens 6 ∷ invokes (λ slot. nat_beq slot 5) 3 ∷ []

events_of-run_example :
    events_of 5
      (run some_slots all_but_two (early_commands ++ listens 5 ∷ late_commands) new_signal).1
    ≡ 1 ∷ 2 ∷ 3 ∷ []
events_of-run_example =
    events_of-run some_slots all_but_two 5 early_commands late_commands ((λ e. omega arith), tt)
      ((λ e. omega arith), tt) (refl, (refl, tt))
