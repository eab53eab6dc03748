-- ===== src/Worker/Counting.antt =====
-- src/connections/workers/ConnectionWorker.cpp, thread_read_from_source: what connection_statistics
-- counts of the bytes read.
use shovel_server.Base.{
  ℕ, ◌+◌, ◌%◌, ◌^◌, ◌<◌, ◌≡◌, refl, sym, ap, ◌∙◌, subst, inl, inr, Option, none, some, List, [],
  ◌∷◌, arith, if◌then◌else◌, is_negative,
}
use shovel_server.Parser
use shovel_server.Parser.{Parser, done, undefined_behaviour, out_of_fuel}
use shovel_server.Worker.{
  Statistics, Attempt, Delivered, all_handed, broken_off, still_trying, deliver, ReadRound, Reading,
  ReadState, goes_on, ended, hands_over, undefined, after_delivery, magnitude, process_bytes,
  parse_round, read_round, thread_read_from_source, add_recv,
}
use shovel_server.Worker.Reader.{read_round_cases, counted}

-- How many bytes the source reports in a round, and in several.
abbrev pub number : ReadRound → ℕ
number x = if is_negative x.read_status then 0 else magnitude x.read_status

abbrev pub reported : List ReadRound → ℕ
reported [] = 0
reported (x ∷ rest) = number x + reported rest

abbrev Has : Statistics → ReadState → Type 0
Has s (goes_on r) = r.statistics ≡ s
Has s (ended r) = r.statistics ≡ s
Has s (hands_over r) = r.statistics ≡ s
Has s undefined = Unit

after_delivery-Has : (r : Reading) (d : Delivered) → Has r.statistics (after_delivery r d)
after_delivery-Has r (all_handed q) = refl
after_delivery-Has r (broken_off q) = refl
after_delivery-Has r (still_trying q) = refl

parse_round-Has :
    (o : Parser.Result) (r : Reading) (attempts : List Attempt)
    → Has r.statistics (parse_round o r attempts)
unfolding parse_round
parse_round-Has (done p ms) r attempts =
    after_delivery-Has (record r { parser = some p }) (deliver attempts ms r.queued)
parse_round-Has undefined_behaviour r attempts = tt
parse_round-Has out_of_fuel r attempts = tt

process_bytes-Has :
    (p : Option Parser) (r : Reading) (bytes : List ℕ) (attempts : List Attempt)
    → Has r.statistics (process_bytes p r bytes attempts)
unfolding process_bytes
process_bytes-Has none r bytes [] = refl
process_bytes-Has none r bytes (a ∷ _) = refl
process_bytes-Has (some p) r bytes attempts = parse_round-Has (Parser.put p bytes) r attempts

Has-goes_on :
    (s : Statistics) (r : Reading) (st : ReadState) → st ≡ goes_on r → Has s st → r.statistics ≡ s
Has-goes_on s r st e h = subst (Has s) e h

round_counts :
    (r r' : Reading) (x : ReadRound)
    → read_round r x ≡ goes_on r'
    → r.statistics.total_recv_bytes < 2 ^ 64
    → r'.statistics.total_recv_bytes ≡ (r.statistics.total_recv_bytes + number x) % 2 ^ 64
unfolding add_recv
round_counts r r' x e l = elim (read_round_cases r x) [
  | inl c ↦ cc
  | inr (inl (n, z, c)) ↦
      let same : r' ≡ r = cc in
      let none_read : number x ≡ 0 = ground arith in rw (same, none_read) (omega arith)
  | inr (inr (n, z, c)) ↦
      let h : r'.statistics ≡ (counted r x).statistics =
        Has-goes_on (counted r x).statistics r'
          (process_bytes r.parser (counted r x) x.bytes x.attempts) (sym c ∙ e)
          (process_bytes-Has r.parser (counted r x) x.bytes x.attempts) in
      ap (λ s. s.total_recv_bytes) h ∙ rw n refl
]

run_on-counts :
    (r r' : Reading) (x : ReadRound) (rest : List ReadRound) (st : ReadState)
    → read_round r x ≡ st
    → thread_read_from_source r (x ∷ rest) ≡ goes_on r'
    → (r₁ : Reading) × (read_round r x ≡ goes_on r₁)
      × (thread_read_from_source r₁ rest ≡ goes_on r')
unfolding thread_read_from_source
run_on-counts r r' x rest (goes_on r₁) e c = (r₁, e, sym (rw (thread_read_from_source, e) refl) ∙ c)
run_on-counts r r' x rest (ended r₁) e c =
    let d : thread_read_from_source r (x ∷ rest) ≡ ended r₁ =
      rw (thread_read_from_source, e) refl in
    cc
run_on-counts r r' x rest (hands_over r₁) e c =
    let d : thread_read_from_source r (x ∷ rest) ≡ hands_over r₁ =
      rw (thread_read_from_source, e) refl in
    cc
run_on-counts r r' x rest undefined e c =
    let d : thread_read_from_source r (x ∷ rest) ≡ undefined =
      rw (thread_read_from_source, e) refl in
    cc

-- While the reading thread goes on, with a parser or without, the total of received bytes grows by
-- what the source reports, round by round, and wraps at 64 bits.
reader_counts :
    (rounds : List ReadRound) (r r' : Reading)
    → thread_read_from_source r rounds ≡ goes_on r'
    → r.statistics.total_recv_bytes < 2 ^ 64
    → r'.statistics.total_recv_bytes ≡ (r.statistics.total_recv_bytes + reported rounds) % 2 ^ 64
unfolding thread_read_from_source
reader_counts [] r r' e l = let same : r' ≡ r = cc in rw same (omega arith)
reader_counts (x ∷ rest) r r' e l =
    let (r₁, e₁, c) = run_on-counts r r' x rest (read_round r x) refl e in
    let h = round_counts r r₁ x e₁ l in
    let h' = reader_counts rest r₁ r' c (omega (arith, h)) in omega (arith, h, h')
