-- ===== src/Ring/Main.antt =====
-- src/containers/main.cpp: what the program prints of a ring into which it puts ten bytes.
use shovel_server.Base.{ℕ, Option, some, List, ◌∷◌, length, replicate}
use shovel_server.Ring.{init, put, get, ◌>>=◌}

-- `buf` and `buf2`.
abbrev buf : List ℕ
buf = 1 ∷ 2 ∷ 3 ∷ 4 ∷ replicate 6 0

abbrev buf2 : List ℕ
buf2 = replicate 10 0

-- The size that `get` returns, and the bytes.
unfoldable pub main : Option (ℕ × List ℕ)
main = do
  (put_size, a) ← put (init 10 60) buf (length buf)
  (got_size, buf2', a') ← get a buf2 (length buf2)
  some (got_size, buf2')
