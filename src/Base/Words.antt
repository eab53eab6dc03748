-- ===== src/Base/Words.antt =====
-- Machine words: uint16_t and uint32_t wrap, and the increments and decrements of uint32_t.
use Prim.Native.Nat.{ℕ, ◌+◌, ◌-◌, ◌%◌, ◌^◌}

-- static_cast<uint16_t>
abbrev pub to_uint16 : ℕ → ℕ
to_uint16 n = n % 2 ^ 16

abbrev pub to_uint32 : ℕ → ℕ
to_uint32 n = n % 2 ^ 32

-- ++n and --n on a uint32_t
abbrev pub increment : ℕ → ℕ
increment n = to_uint32 (n + 1)

abbrev pub decrement : ℕ → ℕ
decrement n = to_uint32 (n + 2 ^ 32 - 1)
