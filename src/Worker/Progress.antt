-- ===== src/Worker/Progress.antt =====
-- src/connections/workers/ConnectionWorker.cpp, thread_read_from_source: a thread that nobody stops,
-- and whose queue takes something from time to time, hands over everything.
use shovel_server.Base.{
  ℕ, zero, suc, ◌+◌, ◌≤◌, ◌≡◌, refl, sym, ap, ◌∙◌, subst, inl, inr, true, false, some, List, [],
  ◌∷◌, ◌++◌, append_assoc, append-nil, arith, ◌==◌, if◌then◌else◌, Bool-cases, length, drop, All,
  length-append, length-drop, drop-append_of_le, is_negative,
}
use shovel_server.Parser.{undefined_behaviour, put, init, head_size}
use shovel_server.Parser.Spec.{Parses, Broken, short, waiting, datagram, here, later}
use shovel_server.Parser.Steps.{head-append, IsHead-append, is_head-append}
use shovel_server.Parser.Refine.{put_total, put-Parses, put-Broken, init-AtRest}
use shovel_server.Parser.Stream.{Parses-append, Broken-append}
use shovel_server.Worker.{
  Attempt, handed, hand_over, all_handed, deliver, ReadRound, Reading, goes_on, magnitude,
  process_bytes, read_round, thread_read_from_source, parse_round,
}
use shovel_server.Worker.Reader.{received_by, received, Follows, counted}

-- The queue takes `n` messages, each after being full any number of times, and the thread may go on
-- wherever it looks meanwhile.
abbrev pub Accepts : ℕ → List Attempt → Type 0
Accepts zero attempts = Unit {0}
Accepts (suc n) [] = ⊥
Accepts (suc n) (a ∷ rest) =
    (a.goes_on ≡ true)
    × (a.goes_on_behind ≡ true)
    × Accepts (if a.put_status == 0 then suc n else n) rest

hand_over-Accepts :
    (attempts : List Attempt) (n : ℕ) (m : List ℕ) (q : List (List ℕ))
    → Accepts (suc n) attempts
    → (rest : List Attempt) × (hand_over attempts m q ≡ handed (q ++ m ∷ []) rest) × Accepts n rest
unfolding hand_over
hand_over-Accepts [] n m q h = absurd h
hand_over-Accepts (a ∷ rest) n m q (g, b, h) = elim (Bool-cases (a.put_status == 0)) [
  | inl z ↦
      let (rest', e, h') =
        hand_over-Accepts rest n m q (subst (λ t. Accepts (if t then suc n else n) rest) z h) in
      (rest', rw (hand_over, g, z) e, h')
  | inr z ↦ (
    rest,
    rw (hand_over, g, z, g, b, z) refl,
    subst (λ t. Accepts (if t then suc n else n) rest) z h,
  )
]

deliver-Accepts :
    (ms : List (List ℕ)) (attempts : List Attempt) (n : ℕ) (q : List (List ℕ))
    → length ms ≤ n
    → Accepts n attempts
    → deliver attempts ms q ≡ all_handed (q ++ ms)
unfolding deliver
deliver-Accepts [] attempts n q l h = ap all_handed (sym (append-nil q))
deliver-Accepts (m ∷ ms) attempts zero q l h = absurd (omega arith)
deliver-Accepts (m ∷ ms) attempts (suc n) q l h =
    let (rest, e, h') = hand_over-Accepts attempts n m q h in
    rw (deliver, e)
      (deliver-Accepts ms rest n (q ++ m ∷ []) (omega arith) h'
        ∙ ap all_handed (append_assoc q (m ∷ []) ms))

-- Each datagram takes a byte of the stream at least.
Parses-length :
    {b : List ℕ} {ms : List (List ℕ)} {r : List ℕ} → Parses b ms r → length ms + length r ≤ length b
Parses-length (short b h) = omega arith
Parses-length (waiting b l h w) = omega arith
Parses-length (datagram b h l k d) = omega (arith, Parses-length d, length-drop (head_size b) b)
Parses-length (Parses.skip b l n d) = omega (arith, Parses-length d, length-drop 1 b)

-- A stream that is broken stays so.
Broken-more : {a : List ℕ} → Broken a → (b : List ℕ) → Broken (a ++ b)
Broken-more (here a l h w) b =
    let (v, s, f) = head-append a b l in
    here (a ++ b) (omega (arith, length-append a b)) (IsHead-append a b l h) (omega (arith, s))
Broken-more (later a h l k d) b =
    let (v, s, f) = head-append a b (omega arith) in
    let e : drop (head_size (a ++ b)) (a ++ b) ≡ drop (head_size a) a ++ b =
      ap (λ n. drop n (a ++ b)) s ∙ drop-append_of_le (head_size a) a b k in
    later (a ++ b) (IsHead-append a b (omega arith) h) (omega (arith, s))
      (omega (arith, s, length-append a b)) (subst Broken (sym e) (Broken-more d b))
Broken-more (Broken.skip a l n d) b =
    Broken.skip (a ++ b) (omega (arith, length-append a b)) (is_head-append a b l n)
      (subst Broken (sym (drop-append_of_le 1 a b (omega arith))) (Broken-more d b))

-- No stream is both, and what is found in one is determined.
pub Parses→¬Broken : {b : List ℕ} {ms : List (List ℕ)} {r : List ℕ} → Parses b ms r → ¬ Broken b
unfolding init
Parses→¬Broken {b} d d' =
    let (p, e, _, _) = put-Parses init b init-AtRest d in
    let e' : put init b ≡ undefined_behaviour = put-Broken init b init-AtRest d' in cc

pub Parses-unique :
    {b : List ℕ} {ms ms' : List (List ℕ)} {r r' : List ℕ}
    → Parses b ms r
    → Parses b ms' r'
    → ms ≡ ms'
unfolding init
Parses-unique {b} d d' =
    let (p, e, _, _) = put-Parses init b init-AtRest d in
    let (p', e', _, _) = put-Parses init b init-AtRest d' in cc

-- A round in which nothing goes wrong: the thread may go on, the source does not fail, and the queue
-- takes `n` messages.
abbrev pub IsSmooth : ℕ → ReadRound → Type 0
IsSmooth n x =
    (x.goes_on ≡ true)
    × (x.goes_on_after ≡ true)
    × (is_negative x.read_status ≡ false)
    × Accepts n x.attempts

smooth_process :
    (n : ℕ) (r : Reading) (stream bytes : List ℕ) (attempts : List Attempt)
    → Follows stream r
    → length (stream ++ bytes) ≤ n
    → ¬ Broken (stream ++ bytes)
    → Accepts n attempts
    → (r' : Reading) × (process_bytes r.parser r bytes attempts ≡ goes_on r')
      × Follows (stream ++ bytes) r'
unfolding process_bytes parse_round
smooth_process n r stream bytes attempts (p, e, h, d) l b a = elim (put_total p bytes h) [
  | inl (p', ms, e', h', d') ↦
      let k : length ms ≤ n = omega (
        arith,
        Parses-length d,
        Parses-length d',
        length-append stream bytes,
        length-append p.parsing_buffer bytes,
      ) in
      let q = deliver-Accepts ms attempts n r.queued k a in
      let r' : Reading = record r { parser = some p'; queued = r.queued ++ ms } in
      (r', rw (e, e', q) refl, (p', refl, h', Parses-append d bytes d'))
  | inr (e', b') ↦ absurd (b (Broken-append d bytes b'))
]

smooth_round :
    (n : ℕ) (r : Reading) (stream : List ℕ) (x : ReadRound)
    → Follows stream r
    → IsSmooth n x
    → length (stream ++ received_by x) ≤ n
    → ¬ Broken (stream ++ received_by x)
    → (r' : Reading) × (read_round r x ≡ goes_on r') × Follows (stream ++ received_by x) r'
unfolding read_round
smooth_round n r stream x f (g, a, s, k) l b = elim (Bool-cases (magnitude x.read_status == 0)) [
  | inl z ↦
      let e : received_by x ≡ [] = rw (s, z) refl in
      (r, rw (g, s, a, z) refl, rw (e, append-nil stream) f)
  | inr z ↦
      let e : received_by x ≡ x.bytes = rw (s, z) refl in
      let (r', e', f') =
        smooth_process n (counted r x) stream x.bytes x.attempts f
          (subst (λ t. length (stream ++ t) ≤ n) e l) (subst (λ t. ¬ Broken (stream ++ t)) e b) k in
      (r', rw (g, s, a, z) e', rw e f')
]

-- A thread that nobody stops, whose source does not fail, and whose queue takes at least as many
-- messages in each round as the stream has bytes, goes on, if the stream is not broken.
pub smooth_thread :
    (rounds : List ReadRound) (n : ℕ) (r : Reading) (stream : List ℕ)
    → Follows stream r
    → All (IsSmooth n) rounds
    → length (stream ++ received rounds) ≤ n
    → ¬ Broken (stream ++ received rounds)
    → (r' : Reading) × (thread_read_from_source r rounds ≡ goes_on r')
      × Follows (stream ++ received rounds) r'
unfolding thread_read_from_source
smooth_thread [] n r stream f s l b = (r, refl, rw (append-nil stream) f)
smooth_thread (x ∷ rest) n r stream f (s, ss) l b =
    let a : (stream ++ received_by x) ++ received rest ≡ stream ++ received (x ∷ rest) =
      append_assoc stream (received_by x) (received rest) in
    let k : length (stream ++ received_by x) ≤ n =
      omega (arith, ap length a, length-append (stream ++ received_by x) (received rest)) in
    let (r₁, e₁, f₁) =
      smooth_round n r stream x f s k (λ d. b (subst Broken a (Broken-more d (received rest)))) in
    let (r', e', f') =
      smooth_thread rest n r₁ (stream ++ received_by x) f₁ ss (rw a l)
        (λ d. b (subst Broken a d)) in
    (r', rw (thread_read_from_source, e₁) e', subst (λ t. Follows t r') a f')
