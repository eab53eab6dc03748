-- ===== src/Parser/Refine.antt =====
-- `ParserExample::put` finds in the bytes kept and the bytes given the datagrams that `Parser.Spec`
-- tells of, and keeps the rest.
use shovel_server.Base.{
  ℕ, suc, ◌+◌, ◌-◌, ◌*◌, ◌≤◌, ◌<◌, ◌≡◌, refl, sym, ap, ◌∙◌, ◌⊎◌, inl, inr, false, List, [], ◌∷◌,
  ◌++◌, append_assoc, append-nil, arith, length, take, drop, length-append, length-drop,
  take-append_of_le,
}
use shovel_server.Parser.{
  Parser, init, head_size, state_receiving_data, parse_data, Result, done, undefined_behaviour, put,
  fuel_for,
}
use shovel_server.Parser.Spec.{
  IsHead, is_head, Parses, short, waiting, datagram, Broken, here, later, Parses-total,
}
use shovel_server.Parser.Steps.{
  start, head_read, read_head, skip_byte, take_datagram, wait_datagram, broken_datagram, short_stop,
  IsHead-append,
}

-- How a parser is left between calls: with nothing begun, or with the head read of a datagram whose
-- bytes are not all there.
abbrev pub AtRest : Parser → Type 0
AtRest p =
    (p ≡ start p.parsing_buffer)
    ⊎ ((p ≡ head_read p.parsing_buffer) × (12 ≤ length p.parsing_buffer) × IsHead p.parsing_buffer)

-- The loop ends with the datagrams `ms` added and the bytes `r` kept.
abbrev Ends : Result → List (List ℕ) → List ℕ → Type 0
Ends o ms r = (p : Parser) × (o ≡ done p ms) × (p.parsing_buffer ≡ r) × AtRest p

loop_short :
    (b : List ℕ) (out : List (List ℕ)) (fuel : ℕ)
    → length b < 12
    → 0 < fuel
    → Ends (parse_data fuel (start b) out) out b
loop_short b out fuel h f =
    let e : fuel ≡ suc (fuel - 1) = omega arith in
    rw e (start b, short_stop b out (fuel - 1) h, refl, inl refl)

loop_waiting :
    (b : List ℕ) (out : List (List ℕ)) (fuel : ℕ)
    → 12 ≤ length b
    → IsHead b
    → length b < head_size b
    → 3 < fuel
    → Ends (parse_data fuel (start b) out) out b
loop_waiting b out fuel l h w f =
    let e : fuel ≡ suc (suc (suc (suc (fuel - 4)))) = omega arith in
    rw e (
      head_read b,
      read_head b out (suc (suc (fuel - 4))) l h ∙ wait_datagram b out (fuel - 4) l w,
      refl,
      inr (refl, l, h),
    )

Ends-path :
    {o o' : Result} {ms ms' : List (List ℕ)} {r : List ℕ}
    → o ≡ o'
    → ms ≡ ms'
    → Ends o' ms r
    → Ends o ms' r
Ends-path e e' h = rw (e, ← e') h

datagram_rounds :
    (b : List ℕ) (out : List (List ℕ)) (fuel : ℕ)
    → IsHead b
    → 12 ≤ head_size b
    → head_size b ≤ length b
    → 3 < fuel
    → parse_data fuel (start b) out
      ≡ parse_data (fuel - 4) (start (drop (head_size b) b)) (out ++ take (head_size b) b ∷ [])
datagram_rounds b out fuel h l k f =
    ap (λ n. parse_data n (start b) out) (omega arith)
    ∙ read_head b out (suc (suc (fuel - 4))) (omega arith) h
    ∙ take_datagram b out (fuel - 4) (omega arith) l k

skip_rounds :
    (b : List ℕ) (out : List (List ℕ)) (fuel : ℕ)
    → 12 ≤ length b
    → is_head b ≡ false
    → 2 < fuel
    → parse_data fuel (start b) out ≡ parse_data (fuel - 3) (start (drop 1 b)) out
skip_rounds b out fuel l n f =
    ap (λ n. parse_data n (start b) out) (omega arith) ∙ skip_byte b out (fuel - 3) l n

-- Enough fuel for the bytes is enough for the loop.
loop-Parses :
    {b : List ℕ} {ms : List (List ℕ)} {r : List ℕ} (d : Parses b ms r) (out : List (List ℕ))
    (fuel : ℕ)
    → 5 * length b + 4 < fuel
    → Ends (parse_data fuel (start b) out) (out ++ ms) r
loop-Parses (short b h) out fuel f = rw append-nil (loop_short b out fuel h (omega arith))
loop-Parses (waiting b l h w) out fuel f =
    rw append-nil (loop_waiting b out fuel l h w (omega arith))
loop-Parses (datagram b {ms = ms} {r = r} h l k d) out fuel f =
    let ends =
      loop-Parses d (out ++ take (head_size b) b ∷ []) (fuel - 4)
        (omega (arith, length-drop (head_size b) b)) in
    Ends-path (datagram_rounds b out fuel h l k (omega arith))
      (append_assoc out (take (head_size b) b ∷ []) ms) ends
loop-Parses (Parses.skip b l n d) out fuel f =
    Ends-path (skip_rounds b out fuel l n (omega arith)) refl
      (loop-Parses d out (fuel - 3) (omega (arith, length-drop 1 b)))

-- A stream that comes to a size below that of a head ends in undefined behaviour.
loop-Broken :
    {b : List ℕ} (d : Broken b) (out : List (List ℕ)) (fuel : ℕ)
    → 5 * length b + 4 < fuel
    → parse_data fuel (start b) out ≡ undefined_behaviour
loop-Broken (here b l h w) out fuel f =
    let e : fuel ≡ suc (suc (suc (fuel - 3))) = omega arith in
    rw e (read_head b out (suc (fuel - 3)) l h ∙ broken_datagram b out (fuel - 3) l w)
loop-Broken (later b h l k d) out fuel f =
    datagram_rounds b out fuel h l k (omega arith)
    ∙ loop-Broken d (out ++ take (head_size b) b ∷ []) (fuel - 4)
        (omega (arith, length-drop (head_size b) b))
loop-Broken (Broken.skip b l n d) out fuel f =
    skip_rounds b out fuel l n (omega arith)
    ∙ loop-Broken d out (fuel - 3) (omega (arith, length-drop 1 b))

-- A parser at rest goes on as if it had not begun.
rest_parse :
    (p : Parser) (bytes : List ℕ)
    → AtRest p
    → let b = p.parsing_buffer ++ bytes in
      (fuel : ℕ) × (5 * length b + 4 < fuel) × (put p bytes ≡ parse_data fuel (start b) [])
unfolding put
rest_parse p bytes (inl e) =
    let b = p.parsing_buffer ++ bytes in
    (
      fuel_for b,
      omega arith,
      ap (λ q. parse_data (fuel_for b) (record q { parsing_buffer = b }) []) e,
    )
rest_parse p bytes (inr (e, l, h)) =
    let b = p.parsing_buffer ++ bytes in
    (
      suc (suc (fuel_for b)),
      omega arith,
      ap (λ q. parse_data (fuel_for b) (record q { parsing_buffer = b }) []) e
          ∙ ap
              (λ t.
                parse_data (fuel_for b)
                  (record { parsing_buffer = b; state = state_receiving_data; tmp_dg_buf = t }) [])
              (sym (take-append_of_le 12 p.parsing_buffer bytes l))
          ∙ sym (
              read_head b [] (fuel_for b) (omega (arith, length-append p.parsing_buffer bytes))
                (IsHead-append p.parsing_buffer bytes l h)),
    )

-- Where the bytes kept and given hold the datagrams `ms` and the rest `r`, `put` on a parser at rest
-- ends, hands out `ms`, keeps `r`, and is at rest again.
pub put-Parses :
    (p : Parser) (bytes : List ℕ) {ms : List (List ℕ)} {r : List ℕ}
    → AtRest p
    → Parses (p.parsing_buffer ++ bytes) ms r
    → (p' : Parser) × (put p bytes ≡ done p' ms) × (p'.parsing_buffer ≡ r) × AtRest p'
put-Parses p bytes h d =
    let (fuel, f, e) = rest_parse p bytes h in Ends-path e refl (loop-Parses d [] fuel f)

-- Where they come to a head with a size below that of a head, `put` is undefined.
pub put-Broken :
    (p : Parser) (bytes : List ℕ)
    → AtRest p
    → Broken (p.parsing_buffer ++ bytes)
    → put p bytes ≡ undefined_behaviour
put-Broken p bytes h d = let (fuel, f, e) = rest_parse p bytes h in e ∙ loop-Broken d [] fuel f

pub init-AtRest : AtRest init
unfolding init
init-AtRest = inl refl

-- The loop always ends: on a parser at rest `put` finds the datagrams of the stream, and is at rest
-- again, or is undefined; the fuel never runs out.
pub put_total :
    (p : Parser) (bytes : List ℕ)
    → AtRest p
    → ((p' : Parser) × (ms : List (List ℕ)) × (put p bytes ≡ done p' ms)
        × AtRest p'
        × Parses (p.parsing_buffer ++ bytes) ms p'.parsing_buffer)
      ⊎ ((put p bytes ≡ undefined_behaviour) × Broken (p.parsing_buffer ++ bytes))
put_total p bytes h = elim (Parses-total (p.parsing_buffer ++ bytes)) [
  | inl (ms, r, d) ↦ let (p', e, e', h') = put-Parses p bytes h d in inl (p', ms, e, h', rw e' d)
  | inr d ↦ inr (put-Broken p bytes h d, d)
]
