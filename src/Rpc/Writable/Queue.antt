-- ===== src/Rpc/Writable/Queue.antt =====
-- The queue of include/cocaine/rpc/asio/writable_stream.hpp as the bytes and the handlers in it.
use cocaine_core.Base.{
  ℕ, ◌-◌, ◌<◌, ◌≡◌, refl, sym, List, [], ◌∷◌, ◌++◌, append_assoc, arith, All, length, drop,
  length-append, length-drop, drop-nil, drop-append_left, drop-append_right, nat_key, string_key,
  list_key,
}
use cocaine_core.Hpack.Header.{Bytes}
use cocaine_core.Rpc.Writable.{Entry, pressure, consume, handlers}

-- All bytes that wait to be sent, in order.
unfoldable pub waiting : List Entry → Bytes
waiting [] = []
waiting (e ∷ es) = e.buffer ++ waiting es

pub length-waiting : (es : List Entry) → length (waiting es) ≡ pressure es
unfolding waiting pressure
length-waiting [] = refl
length-waiting (e ∷ es) = omega (arith, length-append e.buffer (waiting es), length-waiting es)

pub waiting-append : (xs ys : List Entry) → waiting (xs ++ ys) ≡ waiting xs ++ waiting ys
unfolding waiting
waiting-append [] ys = refl
waiting-append (e ∷ xs) ys =
    rw (waiting-append xs ys) (sym (append_assoc e.buffer (waiting xs) (waiting ys)))

-- Sending `n` bytes takes the first `n` waiting bytes away.
pub waiting-consume : (n : ℕ) (es : List Entry) → waiting (consume n es).0 ≡ drop n (waiting es)
unfolding waiting consume
waiting-consume n [] = sym (drop-nil n)
waiting-consume n (e ∷ es) = ground (
  arith,
  waiting-consume (n - length e.buffer) es,
  drop-append_left n e.buffer (waiting es),
  drop-append_right n e.buffer (waiting es),
)

-- The handlers called and the handlers left are the handlers there were, in order.
pub handlers-consume :
    (n : ℕ) (es : List Entry) → (consume n es).1 ++ handlers (consume n es).0 ≡ handlers es
unfolding consume
handlers-consume n [] = refl
handlers-consume n (e ∷ es) = ground (arith, handlers-consume (n - length e.buffer) es)

-- Every entry has bytes left to send.
abbrev pub Unsent : List Entry → Type 0
Unsent = All (λ (e : Entry). 0 < length e.buffer)

-- An entry stays only while some of its bytes are unsent.
pub consume-Unsent : (n : ℕ) (es : List Entry) → Unsent es → Unsent (consume n es).0
unfolding consume
consume-Unsent n [] u = tt
consume-Unsent n (e ∷ es) u =
    ground (arith, consume-Unsent (n - length e.buffer) es u.1, length-drop n e.buffer)
