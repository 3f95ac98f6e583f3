-- ===== src/Rpc/Queue/Tests.antt =====
-- A stream that is written twice, attached to an upstream that takes one message only, and closed.
use cocaine_core.Base.{
  refl, ◌≡◌, ℕ, Option, none, some, if◌then◌else◌, nat_beq, [], nat_key, string_key, list_key,
}
use cocaine_core.Errors.{closed_upstream}
use cocaine_core.Errors.Codes.{Code, protocol_code}
use cocaine_core.Rpc.Queue.{
  send_all, append, attach, attach_streamed, error, Operation, chunk, choke, write, close,
}
use cocaine_core.Rpc.Queue.History.{
  torn, World, start, after, op_of, writes, closes, attaches, attached_world, here, next, Inv,
  Reach-Inv_streamed,
}

-- An upstream that takes the chunk 1 only.
abbrev take_one : ℕ → Operation ℕ → Option Code
take_one u op = elim op.event [
  | chunk a ↦ if nat_beq a 1 then none else some (protocol_code closed_upstream)
  | error ec reason ↦ some (protocol_code closed_upstream)
  | choke ↦ some (protocol_code closed_upstream)
]

abbrev written : World ℕ
written = after start (op_of [] (chunk 1)) (write take_one [] 1 start.stream)

abbrev written_twice : World ℕ
written_twice = after written (op_of [] (chunk 2)) (write take_one [] 2 written.stream)

abbrev torn_world : World ℕ
torn_world = attached_world take_one 8 written_twice

torn_world-phase : torn_world.phase ≡ torn
unfolding after write attach_streamed attach append send_all
torn_world-phase = refl

Reach-Inv_streamed_example :
    Inv (after torn_world (op_of [] choke) (close take_one [] torn_world.stream))
Reach-Inv_streamed_example = Reach-Inv_streamed (
    next
      (next (next (next here (writes start take_one [] 1)) (writes written take_one [] 2))
        (attaches written_twice take_one 8))
      (closes torn_world take_one []))
