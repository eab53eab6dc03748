-- ===== src/Parser/Spec.antt =====
-- What the parser has to find in a stream: datagrams one after another, with the bytes between them
-- skipped one at a time, and at the end a rest that may be the start of a datagram.
use shovel_server.Base.{
  ℕ, zero, suc, ◌≤◌, ◌<◌, ◌≡◌, ◌⊎◌, inl, inr, Bool, true, false, ◌&&◌, List, [], ◌∷◌, arith, leb,
  ◌==◌, Bool-cases, length, get_or, take, drop, length-drop,
}
use native.Mathlib.Decide.{dec_lt}
use shovel_server.Parser.{main_word, head_main_word, head_size}

-- The bytes begin with what the source takes for the head of a datagram.
abbrev pub IsHead : List ℕ → Type 0
IsHead b = (get_or b 0 0 ≡ 0xff) × (head_main_word b ≡ main_word) × (8 ≤ head_size b)

abbrev pub is_head : List ℕ → Bool
is_head b = (get_or b 0 0 == 0xff) && (head_main_word b == main_word) && leb 8 (head_size b)

-- `Parses b ms r`: the stream `b` holds the datagrams `ms`, and `r` is left.
pub data Parses : List ℕ → List (List ℕ) → List ℕ → Type 0 where
  short : (b : List ℕ) → length b < 12 → Parses b [] b
  waiting : (b : List ℕ) → 12 ≤ length b → IsHead b → length b < head_size b → Parses b [] b
  datagram :
      (b : List ℕ) {ms : List (List ℕ)} {r : List ℕ}
      → IsHead b
      → 12 ≤ head_size b
      → head_size b ≤ length b
      → Parses (drop (head_size b) b) ms r
      → Parses b (take (head_size b) b ∷ ms) r
  skip :
      (b : List ℕ) {ms : List (List ℕ)} {r : List ℕ}
      → 12 ≤ length b
      → is_head b ≡ false
      → Parses (drop 1 b) ms r
      → Parses b ms r

-- The stream `b` comes to a head that gives a size below that of a head.
pub data Broken : List ℕ → Type 0 where
  here : (b : List ℕ) → 12 ≤ length b → IsHead b → head_size b < 12 → Broken b
  later :
      (b : List ℕ)
      → IsHead b
      → 12 ≤ head_size b
      → head_size b ≤ length b
      → Broken (drop (head_size b) b)
      → Broken b
  skip : (b : List ℕ) → 12 ≤ length b → is_head b ≡ false → Broken (drop 1 b) → Broken b

is_head→IsHead : (b : List ℕ) → is_head b ≡ true → IsHead b
is_head→IsHead b e = ground arith

pub IsHead→is_head : (b : List ℕ) → IsHead b → is_head b ≡ true
IsHead→is_head b h = ground arith

abbrev Split : List ℕ → Type 0
Split b = ((ms : List (List ℕ)) × (r : List ℕ) × Parses b ms r) ⊎ Broken b

after_skip : (b : List ℕ) → 12 ≤ length b → is_head b ≡ false → Split (drop 1 b) → Split b
after_skip b h e (inl (ms, r, d)) = inl (ms, r, Parses.skip b h e d)
after_skip b h e (inr d) = inr (Broken.skip b h e d)

after_datagram :
    (b : List ℕ)
    → IsHead b
    → 12 ≤ head_size b
    → head_size b ≤ length b
    → Split (drop (head_size b) b)
    → Split b
after_datagram b h l k (inl (ms, r, d)) = inl (take (head_size b) b ∷ ms, r, datagram b h l k d)
after_datagram b h l k (inr d) = inr (later b h l k d)

parses_or_broken : (fuel : ℕ) (b : List ℕ) → length b < fuel → Split b
parses_or_broken zero b h = absurd (omega arith)
parses_or_broken (suc fuel) b h = elim (dec_lt (length b) 12) [
  | yes p ↦ inl ([], b, short b p)
  | no p ↦ elim (Bool-cases (is_head b)) [
    | inr e ↦
        after_skip b (omega arith) e
          (parses_or_broken fuel (drop 1 b) (omega (arith, length-drop 1 b)))
    | inl e ↦ elim (dec_lt (length b) (head_size b)) [
      | yes w ↦ inl ([], b, waiting b (omega arith) (is_head→IsHead b e) w)
      | no w ↦ elim (dec_lt (head_size b) 12) [
        | yes q ↦ inr (here b (omega arith) (is_head→IsHead b e) q)
        | no q ↦ after_datagram b (is_head→IsHead b e) (omega arith) (omega arith) (
            parses_or_broken fuel (drop (head_size b) b)
              (omega (arith, length-drop (head_size b) b)))
      ]
    ]
  ]
]

-- Every stream is one or the other.
pub Parses-total : (b : List ℕ) → ((ms : List (List ℕ)) × (r : List ℕ) × Parses b ms r) ⊎ Broken b
Parses-total b = parses_or_broken (suc (length b)) b (omega arith)
