-- ===== src/Base/Memory.antt =====
-- The operations on byte buffers that the source calls. A buffer is the list of its bytes, and a
-- byte is a number. `memcpy` at a size beyond the source buffer is undefined in C++: the theorems
-- that use it assume that the size fits.
use Prim.Native.Nat.{ℕ, ◌-◌, ◌≤◌}
use mathlib.Core.Path.{◌≡◌, ap, ◌∙◌}
use mathlib.Core.List.{List, ◌++◌}
use native.Mathlib.Omega.{arith}
use shovel_server.Base.Lists.{
  length, take, drop, replicate, length-append, length-take, length-drop, length-replicate,
}
use shovel_server.Base.Lists.{take-append_of_le, take-take}

-- memcpy(dst, src, n): the first n bytes of dst become those of src.
unfoldable pub memcpy : List ℕ → List ℕ → ℕ → List ℕ
memcpy dst src n = take n src ++ drop n dst

-- vector<uint8_t>::resize(n): cut, or fill up with zero bytes.
unfoldable pub resize : ℕ → List ℕ → List ℕ
resize n xs = take n xs ++ replicate (n - length xs) 0

-- A new array of n bytes.
unfoldable pub zeroed : ℕ → List ℕ
zeroed n = replicate n 0

pub length-memcpy :
    (dst src : List ℕ) (n : ℕ)
    → n ≤ length src
    → n ≤ length dst
    → length (memcpy dst src n) ≡ length dst
unfolding memcpy
length-memcpy dst src n h k =
    omega (arith, length-append (take n src) (drop n dst), length-take n src, length-drop n dst)

pub take-memcpy :
    (dst src : List ℕ) (n : ℕ) → n ≤ length src → take n (memcpy dst src n) ≡ take n src
unfolding memcpy
take-memcpy dst src n h =
    take-append_of_le n (take n src) (drop n dst) (omega (arith, length-take n src))
    ∙ take-take n n src (omega arith)

pub length-resize : (n : ℕ) (xs : List ℕ) → length (resize n xs) ≡ n
unfolding resize
length-resize n xs = omega (
  arith,
  length-append (take n xs) (replicate (n - length xs) 0),
  length-take n xs,
  length-replicate {A = ℕ} (n - length xs) 0,
)

-- A copy reads no more of its source than its size.
pub memcpy-take :
    (dst src : List ℕ) (m n : ℕ) → m ≤ n → memcpy dst (take n src) m ≡ memcpy dst src m
unfolding memcpy
memcpy-take dst src m n h = ap (λ t. t ++ drop m dst) (take-take m n src h)

-- Copying through a second buffer is copying.
pub memcpy-memcpy :
    (dst mid src : List ℕ) (n : ℕ)
    → n ≤ length src
    → memcpy dst (memcpy mid src n) n ≡ memcpy dst src n
memcpy-memcpy dst mid src n h = unfold memcpy in ap (λ t. t ++ drop n dst) (through mid src n h)
  where
    through : (mid src : List ℕ) (n : ℕ) → n ≤ length src → take n (memcpy mid src n) ≡ take n src
    through mid src n h = take-memcpy mid src n h
