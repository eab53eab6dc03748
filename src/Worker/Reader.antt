-- ===== src/Worker/Reader.antt =====
-- src/connections/workers/ConnectionWorker.cpp, thread_read_from_source: what the queue is given of
-- the stream of bytes that the source delivers.
use shovel_server.Base.{
  ℕ, ◌≡◌, refl, sym, ap, ◌∙◌, subst, ◌⊎◌, inl, inr, true, false, ◌||◌, some, List, [], ◌∷◌, ◌++◌,
  append_assoc, append-nil, arith, ◌==◌, if◌then◌else◌, Bool-cases, is_negative,
}
use shovel_server.Parser.{Parser, init}
use shovel_server.Parser.Spec.{Parses, Broken, short}
use shovel_server.Parser.Refine.{AtRest, put_total, init-AtRest}
use shovel_server.Parser.Stream.{Parses-append, Broken-append}
use shovel_server.Worker.{
  Attempt, Delivered, all_handed, broken_off, still_trying, deliver, ReadRound, Reading, ReadState,
  goes_on, ended, hands_over, undefined, after_delivery, magnitude, process_bytes, read_round,
  thread_read_from_source, add_recv, parse_round, Statistics,
}
use shovel_server.Worker.Delivery.{Kept, deliver-Kept}

-- The bytes that the source delivers in some rounds.
abbrev pub received_by : ReadRound → List ℕ
received_by x = if is_negative x.read_status || (magnitude x.read_status == 0) then [] else x.bytes

abbrev pub received : List ReadRound → List ℕ
received [] = []
received (x ∷ rest) = received_by x ++ received rest

-- The queue has taken all datagrams of the stream, and the parser keeps the rest.
abbrev pub Follows : List ℕ → Reading → Type 0
Follows stream r =
    (p : Parser) × (r.parser ≡ some p) × AtRest p × Parses stream r.queued p.parsing_buffer

-- The queue has taken the first datagrams of what came in the rounds that were reached.
abbrev pub Breaks : List ℕ → List ReadRound → Reading → Type 0
Breaks stream rounds r =
    (seen : List ReadRound) × (unseen : List ReadRound) × (lost : List (List ℕ)) × (rest : List ℕ)
    × (rounds ≡ seen ++ unseen)
    × Parses (stream ++ received seen) (r.queued ++ lost) rest

-- What a run over the rounds ends with, where the bytes of `stream` came before.
abbrev pub Outcome : List ℕ → List ReadRound → ReadState → Type 0
Outcome stream rounds (goes_on r) = Follows (stream ++ received rounds) r
Outcome stream rounds (ended r) = Breaks stream rounds r
Outcome stream rounds (hands_over r) = Breaks stream rounds r
Outcome stream rounds undefined =
    (seen : List ReadRound) × (unseen : List ReadRound) × (rounds ≡ seen ++ unseen)
    × Broken (stream ++ received seen)

-- The same for the part of a round behind the read.
abbrev Processed : List ℕ → ReadState → Type 0
Processed b (goes_on r) = Follows b r
Processed b (ended r) = (lost : List (List ℕ)) × (rest : List ℕ) × Parses b (r.queued ++ lost) rest
Processed b (hands_over r) =
    (lost : List (List ℕ)) × (rest : List ℕ) × Parses b (r.queued ++ lost) rest
Processed b undefined = Broken b

after_delivery-Processed :
    (r : Reading) (b : List ℕ) (ms : List (List ℕ)) (p : Parser) (d : Delivered)
    → r.parser ≡ some p
    → AtRest p
    → Parses b (r.queued ++ ms) p.parsing_buffer
    → Kept r.queued ms d
    → Processed b (after_delivery r d)
after_delivery-Processed r b ms p (all_handed q) e h d k =
    (p, e, h, subst (λ t. Parses b t p.parsing_buffer) (sym k) d)
after_delivery-Processed r b ms p (broken_off q) e h d (lost, k) =
    (lost, p.parsing_buffer, subst (λ t. Parses b t p.parsing_buffer) k d)
after_delivery-Processed r b ms p (still_trying q) e h d (lost, k) =
    (lost, p.parsing_buffer, subst (λ t. Parses b t p.parsing_buffer) k d)

process_bytes-Processed :
    (r : Reading) (stream bytes : List ℕ) (attempts : List Attempt)
    → Follows stream r
    → Processed (stream ++ bytes) (process_bytes r.parser r bytes attempts)
unfolding process_bytes parse_round
process_bytes-Processed r stream bytes attempts (p, e, h, d) = elim (put_total p bytes h) [
  | inl (p', ms, e', h', d') ↦
      rw (e, e')
        (after_delivery-Processed (record r { parser = some p' }) (stream ++ bytes) ms p'
          (deliver attempts ms r.queued) refl h' (Parses-append d bytes d')
          (deliver-Kept ms attempts r.queued))
  | inr (e', b) ↦ rw (e, e') (Broken-append d bytes b)
]

processed-Outcome :
    (stream : List ℕ) (x : ReadRound) (st : ReadState)
    → received_by x ≡ x.bytes
    → Processed (stream ++ x.bytes) st
    → Outcome stream (x ∷ []) st
processed-Outcome stream x (goes_on r) e f = rw (e, append-nil x.bytes) f
processed-Outcome stream x (ended r) e (lost, rest, d) =
    (x ∷ [], [], lost, rest, refl, rw (e, append-nil x.bytes) d)
processed-Outcome stream x (hands_over r) e (lost, rest, d) =
    (x ∷ [], [], lost, rest, refl, rw (e, append-nil x.bytes) d)
processed-Outcome stream x undefined e b = (x ∷ [], [], refl, rw (e, append-nil x.bytes) b)

ended-Breaks :
    (stream : List ℕ) (rounds : List ReadRound) (r : Reading)
    → Follows stream r
    → Breaks stream rounds r
ended-Breaks stream rounds r (p, e, h, d) =
    ([], rounds, [], p.parsing_buffer, refl, rw (append-nil stream, append-nil r.queued) d)

abbrev pub counted : Reading → ReadRound → Reading
counted r x = record r { statistics = add_recv r.statistics (magnitude x.read_status) }

pub read_round_cases :
    (r : Reading) (x : ReadRound)
    → (read_round r x ≡ ended r)
      ⊎ ((is_negative x.read_status ≡ false)
          × ((magnitude x.read_status == 0) ≡ true)
          × (read_round r x ≡ goes_on r))
      ⊎ ((is_negative x.read_status ≡ false)
          × ((magnitude x.read_status == 0) ≡ false)
          × (read_round r x ≡ process_bytes r.parser (counted r x) x.bytes x.attempts))
unfolding read_round
read_round_cases r x = elim (Bool-cases x.goes_on) [
  | inr e ↦ inl (rw e refl)
  | inl e ↦ elim (Bool-cases (is_negative x.read_status)) [
    | inl n ↦ inl (rw (e, n) refl)
    | inr n ↦ elim (Bool-cases x.goes_on_after) [
      | inr a ↦ inl (rw (e, n, a) refl)
      | inl a ↦ elim (Bool-cases (magnitude x.read_status == 0)) [
        | inl z ↦ inr (inl (n, z, rw (e, n, a, z) refl))
        | inr z ↦ inr (inr (n, z, rw (e, n, a, z) refl))
      ]
    ]
  ]
]

read_round-Outcome :
    (stream : List ℕ) (r : Reading) (x : ReadRound)
    → Follows stream r
    → Outcome stream (x ∷ []) (read_round r x)
read_round-Outcome stream r x f = elim (read_round_cases r x) [
  | inl e ↦ subst (Outcome stream (x ∷ [])) (sym e) (ended-Breaks stream (x ∷ []) r f)
  | inr (inl (n, z, e)) ↦
      let nothing : stream ++ (received_by x ++ []) ≡ stream = rw (n, z) (append-nil stream) in
      subst (Outcome stream (x ∷ [])) (sym e) (subst (λ t. Follows t r) (sym nothing) f)
  | inr (inr (n, z, e)) ↦ subst (Outcome stream (x ∷ [])) (sym e) (
      processed-Outcome stream x (process_bytes r.parser (counted r x) x.bytes x.attempts)
        (rw (n, z) refl) (process_bytes-Processed (counted r x) stream x.bytes x.attempts f))
]

Breaks-extend :
    (stream : List ℕ) (x : ReadRound) (rounds : List ReadRound) (r : Reading)
    → Breaks (stream ++ received_by x) rounds r
    → Breaks stream (x ∷ rounds) r
Breaks-extend stream x rounds r (seen, unseen, lost, rest, e, d) = (
  x ∷ seen,
  unseen,
  lost,
  rest,
  ap (λ t. x ∷ t) e,
  subst (λ t. Parses t (r.queued ++ lost) rest)
      (append_assoc stream (received_by x) (received seen)) d,
)

Outcome-extend :
    (stream : List ℕ) (x : ReadRound) (rounds : List ReadRound) (st : ReadState)
    → Outcome (stream ++ received_by x) rounds st
    → Outcome stream (x ∷ rounds) st
Outcome-extend stream x rounds (goes_on r) f =
    subst (λ t. Follows t r) (append_assoc stream (received_by x) (received rounds)) f
Outcome-extend stream x rounds (ended r) b = Breaks-extend stream x rounds r b
Outcome-extend stream x rounds (hands_over r) b = Breaks-extend stream x rounds r b
Outcome-extend stream x rounds undefined (seen, unseen, e, b) = (
  x ∷ seen,
  unseen,
  ap (λ t. x ∷ t) e,
  subst Broken (append_assoc stream (received_by x) (received seen)) b,
)

Breaks-more :
    (stream : List ℕ) (rounds more : List ReadRound) (r : Reading)
    → Breaks stream rounds r
    → Breaks stream (rounds ++ more) r
Breaks-more stream rounds more r (seen, unseen, lost, rest, e, d) =
    (seen, unseen ++ more, lost, rest, ap (λ t. t ++ more) e ∙ append_assoc seen unseen more, d)

run_on-Outcome :
    (stream : List ℕ) (r : Reading) (x : ReadRound) (rest : List ReadRound) (st : ReadState)
    → read_round r x ≡ st
    → Outcome stream (x ∷ []) st
    → ((r' : Reading)
        → Follows (stream ++ received_by x) r'
        → Outcome (stream ++ received_by x) rest (thread_read_from_source r' rest))
    → Outcome stream (x ∷ rest) (thread_read_from_source r (x ∷ rest))
unfolding thread_read_from_source
run_on-Outcome stream r x rest (goes_on r') e o f =
    let e' : thread_read_from_source r (x ∷ rest) ≡ thread_read_from_source r' rest =
      rw (thread_read_from_source, e) refl in
    subst (Outcome stream (x ∷ rest)) (sym e') (
      Outcome-extend stream x rest (thread_read_from_source r' rest)
        (f r' (subst (λ t. Follows (stream ++ t) r') (append-nil (received_by x)) o)))
run_on-Outcome stream r x rest (ended r') e o f =
    let e' : thread_read_from_source r (x ∷ rest) ≡ ended r' =
      rw (thread_read_from_source, e) refl in
    subst (Outcome stream (x ∷ rest)) (sym e') (Breaks-more stream (x ∷ []) rest r' o)
run_on-Outcome stream r x rest (hands_over r') e o f =
    let e' : thread_read_from_source r (x ∷ rest) ≡ hands_over r' =
      rw (thread_read_from_source, e) refl in
    subst (Outcome stream (x ∷ rest)) (sym e') (Breaks-more stream (x ∷ []) rest r' o)
run_on-Outcome stream r x rest undefined e (seen, unseen, s, b) f =
    let e' : thread_read_from_source r (x ∷ rest) ≡ undefined =
      rw (thread_read_from_source, e) refl in
    subst (Outcome stream (x ∷ rest)) (sym e')
      (seen, unseen ++ rest, ap (λ t. t ++ rest) s ∙ append_assoc seen unseen rest, b)

run-Outcome :
    (rounds : List ReadRound) (stream : List ℕ) (r : Reading)
    → Follows stream r
    → Outcome stream rounds (thread_read_from_source r rounds)
unfolding thread_read_from_source
run-Outcome [] stream r f = subst (λ t. Follows t r) (sym (append-nil stream)) f
run-Outcome (x ∷ rest) stream r f =
    run_on-Outcome stream r x rest (read_round r x) refl (read_round-Outcome stream r x f)
      (run-Outcome rest (stream ++ received_by x))

no_bytes : Parses [] [] init.parsing_buffer
unfolding init
no_bytes = short [] (omega arith)

-- The reading thread with a new parser, over any rounds. While it goes on, the queue has taken
-- exactly the datagrams of the stream that the source has delivered, in order and each once, however
-- the source cuts the stream up. Where the thread has ended or is still trying to hand over, the
-- queue has taken the first of the datagrams of the rounds up to there. The parser's undefined
-- behaviour is met only where that stream comes to a head with a size below that of a head.
pub reader_delivers :
    (statistics : Statistics) (rounds : List ReadRound)
    → Outcome [] rounds (
        thread_read_from_source
          (record { parser = some init; statistics = statistics; queued = [] })
          rounds)
reader_delivers statistics rounds =
    run-Outcome rounds [] (record { parser = some init; statistics = statistics; queued = [] })
      (init, refl, init-AtRest, no_bytes)
