-- ===== src/Parser/Bounds.antt =====
-- How much a parser hands out and keeps.
use shovel_server.Base.{
  ℕ, zero, suc, ◌≤◌, ◌<◌, ◌≡◌, List, [], ◌∷◌, arith, length, get_or, drop, All, length-take,
  All-append,
}
use shovel_server.Parser.{Parser, done, put, head_size}
use shovel_server.Parser.Spec.{Parses, short, waiting, datagram}
use shovel_server.Parser.Refine.{AtRest}
use shovel_server.Parser.Stream.{put_facts}

-- What an uint8_t can be.
abbrev pub IsByte : ℕ → Type 0
IsByte b = b < 256

get_or-IsByte : (bytes : List ℕ) (i : ℕ) → All IsByte bytes → get_or bytes i 0 < 256
get_or-IsByte [] i h = omega arith
get_or-IsByte (b ∷ bytes) zero h = h.0
get_or-IsByte (b ∷ bytes) (suc i) h = get_or-IsByte bytes i h.1

head_size-le : (bytes : List ℕ) → All IsByte bytes → head_size bytes ≤ 65535
head_size-le bytes h = omega (arith, get_or-IsByte bytes 8 h, get_or-IsByte bytes 9 h)

All-drop : (n : ℕ) (bytes : List ℕ) → All IsByte bytes → All IsByte (drop n bytes)
All-drop zero bytes h = h
All-drop (suc n) [] h = h
All-drop (suc n) (b ∷ bytes) h = All-drop n bytes h.1

-- A datagram of at most 65535 bytes.
abbrev pub IsShort : List ℕ → Type 0
IsShort m = length m ≤ 65535

Parses-bounded :
    {b : List ℕ} {ms : List (List ℕ)} {r : List ℕ}
    → Parses b ms r
    → All IsByte b
    → All IsShort ms × (length r < 65535) × All IsByte r
Parses-bounded (short b l) h = (tt, omega arith, h)
Parses-bounded (waiting b l i w) h = (tt, omega (arith, head_size-le b h), h)
Parses-bounded (datagram b i l k d) h =
    let (s, few, bytes) = Parses-bounded d (All-drop (head_size b) b h) in
    ((omega (arith, head_size-le b h, length-take (head_size b) b), s), few, bytes)
Parses-bounded (Parses.skip b l n d) h = Parses-bounded d (All-drop 1 b h)

-- A put of bytes on a parser at rest that keeps bytes hands out datagrams of at most 65535 bytes, so
-- that their sizes fit an uint16_t, and keeps less than 65535 bytes, however many it was given.
pub put_bounded :
    (p p' : Parser) (bytes : List ℕ) (ms : List (List ℕ))
    → AtRest p
    → All IsByte p.parsing_buffer
    → All IsByte bytes
    → put p bytes ≡ done p' ms
    → All IsShort ms × (length p'.parsing_buffer < 65535) × All IsByte p'.parsing_buffer
put_bounded p p' bytes ms h k b e =
    Parses-bounded (put_facts p p' bytes ms h e).1 (All-append IsByte p.parsing_buffer bytes k b)
