-- ===== src/Ring/Fifo.antt =====
-- What a queue of src/containers/QueueBase.h promises, with no ring: at most `cap` messages, oldest
-- first, each given out once, whole or cut to the caller's size.
use shovel_server.Base.{ℕ, min, List, [], ◌∷◌, ◌++◌, ltb, if◌then◌else◌, length, take, memcpy}
use shovel_server.Ring.{ok, full, empty, Op, put_op, get_op, peek_op, Reply}

-- The oldest message, cut to `n` bytes and copied into the caller's buffer.
abbrev pub hand_out : List ℕ → List ℕ → ℕ → Reply
hand_out m buf n = (min n (length m), memcpy buf m (min n (length m)), ok)

unfoldable pub get : List (List ℕ) → List ℕ → ℕ → Reply × List (List ℕ)
get [] buf n = ((0, buf, empty), [])
get (m ∷ ms) buf n = (hand_out m buf n, ms)

unfoldable pub peek : List (List ℕ) → List ℕ → ℕ → Reply × List (List ℕ)
peek [] buf n = ((0, buf, empty), [])
peek (m ∷ ms) buf n = (hand_out m buf n, m ∷ ms)

unfoldable pub put : ℕ → List (List ℕ) → List ℕ → ℕ → Reply × List (List ℕ)
put cap ms buf n =
    if ltb (length ms) cap then ((n, buf, ok), ms ++ take n buf ∷ []) else ((0, buf, full), ms)

unfoldable pub step : ℕ → List (List ℕ) → Op → Reply × List (List ℕ)
unfolding get peek put
step cap ms (put_op buf n) = put cap ms buf n
step cap ms (get_op buf n) = get ms buf n
step cap ms (peek_op buf n) = peek ms buf n

unfoldable pub run : ℕ → List (List ℕ) → List Op → List Reply × List (List ℕ)
run cap ms [] = ([], ms)
run cap ms (op ∷ ops) =
    let (r, ms') = step cap ms op in let (rs, ms'') = run cap ms' ops in (r ∷ rs, ms'')
