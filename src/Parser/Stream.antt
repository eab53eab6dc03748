-- ===== src/Parser/Stream.antt =====
-- How the stream of bytes is cut does not depend on how it arrives, and what is cut out is whole.
use shovel_server.Base.{
  ℕ, ◌≤◌, ◌≡◌, sym, ap, ◌∙◌, subst, inl, inr, List, ◌∷◌, ◌++◌, append_assoc, arith, length, take,
  drop, All, length-append, length-take, take-append_of_le, drop-append_of_le,
}
use mathlib.Core.Path.{subst₂}
use shovel_server.Parser.{Parser, done, put, head_size}
use shovel_server.Parser.Spec.{IsHead, Parses, Broken, short, waiting, datagram, later}
use shovel_server.Parser.Steps.{head-append, IsHead-append, is_head-append, head-take}
use shovel_server.Parser.Refine.{AtRest, put-Parses, put_total}

-- Bytes that come later go on where the rest was kept.
pub Parses-append :
    {a : List ℕ} {ms ms' : List (List ℕ)} {r r' : List ℕ} (d : Parses a ms r) (b : List ℕ)
    → Parses (r ++ b) ms' r'
    → Parses (a ++ b) (ms ++ ms') r'
Parses-append (short a h) b d' = d'
Parses-append (waiting a l h w) b d' = d'
Parses-append {ms' = ms'} {r' = r'} (datagram a {ms = ms} h l k d) b d' =
    let (w, s, f) = head-append a b (omega arith) in
    let e : take (head_size (a ++ b)) (a ++ b) ≡ take (head_size a) a =
      ap (λ n. take n (a ++ b)) s ∙ take-append_of_le (head_size a) a b k in
    let e' : drop (head_size (a ++ b)) (a ++ b) ≡ drop (head_size a) a ++ b =
      ap (λ n. drop n (a ++ b)) s ∙ drop-append_of_le (head_size a) a b k in
    subst (λ m. Parses (a ++ b) (m ∷ (ms ++ ms')) r') e
      (datagram (a ++ b) (IsHead-append a b (omega arith) h) (omega (arith, s))
        (omega (arith, s, length-append a b))
        (subst (λ t. Parses t (ms ++ ms') r') (sym e') (Parses-append d b d')))
Parses-append {ms' = ms'} {r' = r'} (Parses.skip a {ms = ms} l n d) b d' =
    Parses.skip (a ++ b) (omega (arith, length-append a b)) (is_head-append a b l n) (
      subst (λ t. Parses t (ms ++ ms') r') (sym (drop-append_of_le 1 a b (omega arith)))
        (Parses-append d b d'))

-- What comes after a stream that is cut whole, and is broken, breaks both together.
pub Broken-append :
    {a : List ℕ} {ms : List (List ℕ)} {r : List ℕ} (d : Parses a ms r) (b : List ℕ)
    → Broken (r ++ b)
    → Broken (a ++ b)
Broken-append (short a h) b d' = d'
Broken-append (waiting a l h w) b d' = d'
Broken-append (datagram a h l k d) b d' =
    let (w, s, f) = head-append a b (omega arith) in
    let e' : drop (head_size (a ++ b)) (a ++ b) ≡ drop (head_size a) a ++ b =
      ap (λ n. drop n (a ++ b)) s ∙ drop-append_of_le (head_size a) a b k in
    later (a ++ b) (IsHead-append a b (omega arith) h) (omega (arith, s))
      (omega (arith, s, length-append a b)) (subst Broken (sym e') (Broken-append d b d'))
Broken-append (Parses.skip a l n d) b d' =
    Broken.skip (a ++ b) (omega (arith, length-append a b)) (is_head-append a b l n)
      (subst Broken (sym (drop-append_of_le 1 a b (omega arith))) (Broken-append d b d'))

-- A datagram as it stands in the stream: a head, and as many bytes as the head says.
abbrev pub IsDatagram : List ℕ → Type 0
IsDatagram m = IsHead m × (12 ≤ head_size m) × (length m ≡ head_size m)

Parses-IsDatagram :
    {b : List ℕ} {ms : List (List ℕ)} {r : List ℕ} → Parses b ms r → All IsDatagram ms
Parses-IsDatagram (short b h) = tt
Parses-IsDatagram (waiting b l h w) = tt
Parses-IsDatagram (datagram b h l k d) =
    let (w, s, f) = head-take b (head_size b) l in
    (
      (rw (w, s, f) h, omega (arith, s), omega (arith, s, length-take (head_size b) b)),
      Parses-IsDatagram d,
    )
Parses-IsDatagram (Parses.skip b l n d) = Parses-IsDatagram d

pub put_facts :
    (p p' : Parser) (bytes : List ℕ) (ms : List (List ℕ))
    → AtRest p
    → put p bytes ≡ done p' ms
    → AtRest p' × Parses (p.parsing_buffer ++ bytes) ms p'.parsing_buffer
put_facts p p' bytes ms h e = elim (put_total p bytes h) [
  | inl (q, ms', e', h', d) ↦
      let same : q ≡ p' = cc in
      let same_ms : ms' ≡ ms = cc in
      (
        subst AtRest same h',
        subst₂ (λ q ms. Parses (p.parsing_buffer ++ bytes) ms q.parsing_buffer) same same_ms d,
      )
  | inr (e', _) ↦ cc
]

-- What `put` on a parser at rest hands out are whole datagrams: each begins with the main word and
-- has the length that its head gives, which is no less than that of a head.
put-IsDatagram :
    (p p' : Parser) (bytes : List ℕ) (ms : List (List ℕ))
    → AtRest p
    → put p bytes ≡ done p' ms
    → All IsDatagram ms
put-IsDatagram p p' bytes ms h e = Parses-IsDatagram (put_facts p p' bytes ms h e).1

-- Two calls of `put` that end find together what one call with all the bytes finds, and keep the
-- same rest.
pub put-append :
    (p p₁ p₂ : Parser) (a b : List ℕ) (ms₁ ms₂ : List (List ℕ))
    → AtRest p
    → put p a ≡ done p₁ ms₁
    → put p₁ b ≡ done p₂ ms₂
    → (p' : Parser) × (put p (a ++ b) ≡ done p' (ms₁ ++ ms₂))
      × (p'.parsing_buffer ≡ p₂.parsing_buffer)
      × AtRest p'
put-append p p₁ p₂ a b ms₁ ms₂ h e₁ e₂ =
    let (h₁, d₁) = put_facts p p₁ a ms₁ h e₁ in
    let (h₂, d₂) = put_facts p₁ p₂ b ms₂ h₁ e₂ in
    put-Parses p (a ++ b) h (
      subst (λ t. Parses t (ms₁ ++ ms₂) p₂.parsing_buffer) (append_assoc p.parsing_buffer a b)
        (Parses-append d₁ b d₂))
