-- ===== src/Parser/Print.antt =====
-- What `prepare_data_for_sending` makes, the parser finds.
use shovel_server.Base.{
  ℕ, ◌≤◌, ◌<◌, ◌≡◌, sym, ap, ◌∙◌, subst, ◌≢◌, inl, inr, List, [], ◌∷◌, ◌++◌, map, append_assoc,
  arith, le→ltb, ne→==, length, take, drop, All, length-append, take-append_of_le,
  drop-append_of_le, take-length, drop-length,
}
use shovel_server.Parser.{
  Parser, done, undefined_behaviour, put, init, head_size, prepare_data_for_sending,
}
use shovel_server.Parser.Spec.{IsHead, Parses, short, datagram, Broken, here, later}
use shovel_server.Parser.Steps.{start, head-append, IsHead-append}
use shovel_server.Parser.Refine.{AtRest, put-Parses, put-Broken, init-AtRest}
use shovel_server.Parser.Stream.{IsDatagram}

-- The bytes that a datagram can carry.
abbrev pub Fits : List ℕ → Type 0
Fits bytes = length bytes ≤ 65523

pub prepare_data_for_sending-IsDatagram :
    (bytes : List ℕ) → Fits bytes → IsDatagram (prepare_data_for_sending bytes)
unfolding prepare_data_for_sending
prepare_data_for_sending-IsDatagram bytes h = rw (le→ltb 65523 (length bytes) h) (omega arith)

-- A stream that is whole datagrams end to end.
abbrev pub concat : List (List ℕ) → List ℕ
concat [] = []
concat (m ∷ ms) = m ++ concat ms

-- Where a stream begins with a datagram, its head tells where that ends.
cut_datagram :
    (m b : List ℕ)
    → IsDatagram m
    → (head_size (m ++ b) ≡ length m)
      × (take (head_size (m ++ b)) (m ++ b) ≡ m)
      × (drop (head_size (m ++ b)) (m ++ b) ≡ b)
cut_datagram m b (h, l, e) =
    let n : head_size (m ++ b) ≡ length m = (head-append m b (omega arith)).1 ∙ sym e in
    (
      n,
      ap (λ k. take k (m ++ b)) n ∙ take-append_of_le (length m) m b (omega arith) ∙ take-length m,
      ap (λ k. drop k (m ++ b)) n
          ∙ drop-append_of_le (length m) m b (omega arith)
          ∙ ap (λ t. t ++ b) (drop-length m),
    )

Parses-cons :
    (m : List ℕ) {b : List ℕ} {ms : List (List ℕ)} {r : List ℕ}
    → IsDatagram m
    → Parses b ms r
    → Parses (m ++ b) (m ∷ ms) r
Parses-cons m {b} {ms} {r} (h, l, e) d =
    let (n, took, left) = cut_datagram m b (h, l, e) in
    subst (λ t. Parses (m ++ b) (t ∷ ms) r) took
      (datagram (m ++ b) (IsHead-append m b (omega arith) h) (omega arith)
        (omega (arith, length-append m b)) (subst (λ t. Parses t ms r) (sym left) d))

pub Parses-concat : (ms : List (List ℕ)) → All IsDatagram ms → Parses (concat ms) ms []
Parses-concat [] h = short [] (omega arith)
Parses-concat (m ∷ ms) (h, hs) = Parses-cons m h (Parses-concat ms hs)

pub All-prepared :
    (payloads : List (List ℕ))
    → All Fits payloads
    → All IsDatagram (map prepare_data_for_sending payloads)
All-prepared [] h = tt
All-prepared (x ∷ xs) (h, hs) = (prepare_data_for_sending-IsDatagram x h, All-prepared xs hs)

-- Bytes that cannot begin a head are skipped, if enough bytes follow for a head.
Parses-garbage :
    (g : List ℕ) {b : List ℕ} {ms : List (List ℕ)} {r : List ℕ}
    → All (λ x. x ≢ 0xff) g
    → 12 ≤ length b
    → Parses b ms r
    → Parses (g ++ b) ms r
Parses-garbage [] h l d = d
Parses-garbage (x ∷ g) {b} (h, hs) l d =
    Parses.skip (x ∷ (g ++ b)) (omega (arith, length-append g b)) (rw (ne→== x 0xff h))
      (Parses-garbage g hs l d)

-- A parser at rest that keeps nothing is as it was made.
rest_empty : (p : Parser) → AtRest p → p.parsing_buffer ≡ [] → p ≡ init
unfolding init
rest_empty p (inl e) e' = e ∙ ap start e'
rest_empty p (inr (e, l, h)) e' = absurd (omega (arith, ap length e'))

put_whole :
    (bytes : List ℕ) {ms : List (List ℕ)} → Parses bytes ms [] → put init bytes ≡ done init ms
unfolding init
put_whole bytes {ms} d =
    let (p, e, e', h) = put-Parses init bytes init-AtRest d in
    e ∙ ap (λ q. done q ms) (rest_empty p h e')

-- A new parser that is given, end to end, what `prepare_data_for_sending` makes of payloads of at
-- most 65523 bytes finds just these datagrams in this order, and keeps nothing.
pub put-prepare :
    (payloads : List (List ℕ))
    → All Fits payloads
    → put init (concat (map prepare_data_for_sending payloads))
      ≡ done init (map prepare_data_for_sending payloads)
put-prepare payloads h = put_whole _ (Parses-concat _ (All-prepared payloads h))

-- Bytes other than 0xff in front of the first datagram are skipped, and all datagrams found.
pub put_resynchronises :
    (g m : List ℕ) (ms : List (List ℕ))
    → All (λ x. x ≢ 0xff) g
    → All IsDatagram (m ∷ ms)
    → put init (g ++ concat (m ∷ ms)) ≡ done init (m ∷ ms)
put_resynchronises g m ms hg (h, hs) = put_whole (g ++ concat (m ∷ ms)) (
    Parses-garbage g hg (omega (arith, h, length-append m (concat ms)))
      (Parses-cons m h (Parses-concat ms hs)))

Broken-concat :
    (ms : List (List ℕ)) (b : List ℕ) → All IsDatagram ms → Broken b → Broken (concat ms ++ b)
Broken-concat [] b h d = d
Broken-concat (m ∷ ms) b (h, hs) d =
    let (n, took, left) = cut_datagram m (concat ms ++ b) h in
    subst Broken (sym (append_assoc m (concat ms) b)) (
      later (m ++ (concat ms ++ b)) (IsHead-append m (concat ms ++ b) (omega (arith, h)) h.0)
        (omega (arith, h)) (omega (arith, length-append m (concat ms ++ b)))
        (subst Broken (sym left) (Broken-concat ms b hs d)))

-- Behind any datagrams, a head whose size field is 8 to 11 makes `put` undefined: the check of the
-- size field is against the size of a pointer, not that of a head.
pub small_size_undefined :
    (ms : List (List ℕ)) (b : List ℕ)
    → All IsDatagram ms
    → 12 ≤ length b
    → IsHead b
    → head_size b < 12
    → put init (concat ms ++ b) ≡ undefined_behaviour
unfolding init
small_size_undefined ms b h l k w =
    put-Broken init (concat ms ++ b) init-AtRest (Broken-concat ms b h (here b l k w))
