-- ===== src/Ring/Spsc/Turns.antt =====
-- Each step of the two threads at the ring of src/containers/RingQueue.cpp keeps the order of their
-- calls, and is one less to make.
use shovel_server.Base.{
  ℕ, ◌-◌, ◌≤◌, ◌≡◌, refl, sym, ◌∙◌, subst, inl, inr, false, Option, none, some, List, [], ◌∷◌, ◌++◌,
  map, map-append, append_assoc, append-nil, arith, ltb, ◌==◌, Bool-cases, Option-cases, get_elem?,
  to_uint16, increment, decrement,
}
use shovel_server.Ring.Cell
use shovel_server.Ring.{RingQueue, set_size}
use shovel_server.Ring.Spsc.{
  Put, Ask, gets, peeks, Producer, checking, storing, Consumer, looking, reading, Return, System,
  Thread, put_answer, ask_answer, put_acts, ask_acts, producer, consumer, Answer, ask_buf, put_call,
  ask_call, put_begins, put_checks, put_stores, ask_begins, ask_looks, ask_reads, producer_step,
  consumer_step, step, run,
}
use shovel_server.Ring.Spsc.Serial.{calls_of}
use shovel_server.Ring.Spsc.Order.{
  puts_in, asks_in, put_in_hand, ask_in_hand, all_puts, all_asks, puts_in-append, asks_in-append,
  is_put, put_steps, ask_steps, turns_of_producer, turns_of_consumer,
}

-- What a step of the producer leaves, unless it raises an exception.
abbrev PutKeeps : System → System → Type 0
PutKeeps s s' =
    (all_puts s' ≡ all_puts s)
    × (all_asks s' ≡ all_asks s)
    × (put_steps s'.producer s'.puts ≤ put_steps s.producer s.puts - 1)
    × (ask_steps s'.consumer s'.asks ≡ ask_steps s.consumer s.asks)

abbrev PutKept : System → Option System → Type 0
PutKept s none = Unit {0}
PutKept s (some s') = PutKeeps s s'

put_acts-PutKeeps :
    (s : System) (p : Put) (r : ℕ) (q : RingQueue) (next : Producer)
    → put_in_hand s.producer ≡ p ∷ []
    → put_in_hand next ≡ []
    → put_steps next s.puts ≤ put_steps s.producer s.puts - 1
    → PutKeeps s (put_acts s q p r next)
put_acts-PutKeeps s p r q next e e' l =
    let x = put_answer p r in
    let c : calls_of (s.history ++ x ∷ []) ≡ calls_of s.history ++ put_call p ∷ [] =
      map-append (λ (x : Return). x.call) s.history (x ∷ []) in
    (
      rw (c, puts_in-append (calls_of s.history) (put_call p ∷ []), e, e')
          (append_assoc (puts_in (calls_of s.history)) (put_call p ∷ []) (map put_call s.puts)),
      rw
          (
            c,
            asks_in-append (calls_of s.history) (put_call p ∷ []),
            append-nil (asks_in (calls_of s.history)),
          )
          refl,
      l,
      refl,
    )

begins-PutKept :
    (s : System) (ps : List Put)
    → s.puts ≡ ps
    → s.producer ≡ Producer.idle
    → PutKept s (put_begins s ps)
unfolding put_begins
begins-PutKept s [] e i = (refl, refl, rw (i, e) (omega arith), refl)
begins-PutKept s (p ∷ ps) e i = (rw (i, e) refl, refl, rw (i, e) (omega arith), refl)

checks-PutKept :
    (s : System) (p : Put) → s.producer ≡ checking p → PutKept s (some (put_checks s p))
unfolding put_checks
checks-PutKept s p i = elim (Bool-cases (ltb s.ring.base.size s.ring.total_count)) [
  | inl room ↦ rw room (rw i refl, refl, rw i (omega arith), refl)
  | inr no_room ↦
      rw no_room
        (put_acts-PutKeeps s p 0 s.ring (Producer.refusing p) (rw i refl) refl (rw i (omega arith)))
]

stores-PutKept : (s : System) (p : Put) → s.producer ≡ storing p → PutKept s (put_stores s p)
unfolding put_stores
stores-PutKept s p i = elim (Option-cases (get_elem? s.ring.ring_vector s.ring.index_in)) [
  | inl e ↦ rw e tt
  | inr (b, e) ↦ rw e (rw i refl, refl, rw i (omega arith), refl)
]

producer-PutKept : (s : System) (p : Producer) → s.producer ≡ p → PutKept s (producer_step s p)
unfolding producer_step
producer-PutKept s Producer.idle i = begins-PutKept s s.puts refl i
producer-PutKept s (checking p) i = checks-PutKept s p i
producer-PutKept s (storing p) i = stores-PutKept s p i
producer-PutKept s (Producer.advancing p r) i = (rw i refl, refl, rw i (omega arith), refl)
producer-PutKept s (Producer.counting p r) i =
    put_acts-PutKeeps s p r (set_size s.ring (increment s.ring.base.size)) (Producer.returning p r)
      (rw i refl) refl (rw i (omega arith))
producer-PutKept s (Producer.refusing p) i = (rw i refl, refl, rw i (omega arith), refl)
producer-PutKept s (Producer.returning p r) i = (rw i refl, refl, rw i (omega arith), refl)

-- The same for the consumer.
abbrev AskKeeps : System → System → Type 0
AskKeeps s s' =
    (all_puts s' ≡ all_puts s)
    × (all_asks s' ≡ all_asks s)
    × (put_steps s'.producer s'.puts ≡ put_steps s.producer s.puts)
    × (ask_steps s'.consumer s'.asks ≤ ask_steps s.consumer s.asks - 1)

abbrev AskKept : System → Option System → Type 0
AskKept s none = Unit {0}
AskKept s (some s') = AskKeeps s s'

is_put-ask_call : (a : Ask) → is_put (ask_call a) ≡ false
is_put-ask_call (gets buf n) = refl
is_put-ask_call (peeks buf n) = refl

ask_acts-AskKeeps :
    (s : System) (a : Ask) (r : Answer) (q : RingQueue) (next : Consumer)
    → ask_in_hand s.consumer ≡ a ∷ []
    → ask_in_hand next ≡ []
    → ask_steps next s.asks ≤ ask_steps s.consumer s.asks - 1
    → AskKeeps s (ask_acts s q a r next)
ask_acts-AskKeeps s a r q next e e' l =
    let x = ask_answer a r in
    let n = is_put-ask_call a in
    let c : calls_of (s.history ++ x ∷ []) ≡ calls_of s.history ++ ask_call a ∷ [] =
      map-append (λ (x : Return). x.call) s.history (x ∷ []) in
    (
      rw
          (
            c,
            puts_in-append (calls_of s.history) (ask_call a ∷ []),
            n,
            append-nil (puts_in (calls_of s.history)),
          )
          refl,
      rw (c, asks_in-append (calls_of s.history) (ask_call a ∷ []), n, e, e')
          (append_assoc (asks_in (calls_of s.history)) (ask_call a ∷ []) (map ask_call s.asks)),
      refl,
      l,
    )

begins-AskKept :
    (s : System) (asks : List Ask)
    → s.asks ≡ asks
    → s.consumer ≡ Consumer.idle
    → AskKept s (ask_begins s asks)
unfolding ask_begins
begins-AskKept s [] e i = (refl, refl, refl, rw (i, e) (omega arith))
begins-AskKept s (a ∷ asks) e i = (refl, rw (i, e) refl, refl, rw (i, e) (omega arith))

looks-AskKept : (s : System) (a : Ask) → s.consumer ≡ looking a → AskKept s (some (ask_looks s a))
unfolding ask_looks
looks-AskKept s a i = elim (Bool-cases (s.ring.base.size == 0)) [
  | inl z ↦ rw z (
      ask_acts-AskKeeps s a (0, ask_buf a) s.ring (Consumer.refusing a) (rw i refl) refl
        (rw i (omega arith)))
  | inr z ↦ rw z (refl, rw i refl, refl, rw i (omega arith))
]

reads-AskKept : (s : System) (a : Ask) → s.consumer ≡ reading a → AskKept s (ask_reads s a)
unfolding ask_reads
reads-AskKept s (gets buf n) i =
    elim (Option-cases (get_elem? s.ring.ring_vector s.ring.index_out)) [
      | inl e ↦ rw e tt
      | inr (b, e) ↦ rw e (refl, rw i refl, refl, rw i (omega arith))
    ]
reads-AskKept s (peeks buf n) i =
    elim (Option-cases (get_elem? s.ring.ring_vector s.ring.index_out)) [
      | inl e ↦ rw e tt
      | inr (b, e) ↦ rw e (
          let r : Answer = (to_uint16 (Cell.peek b buf n).0, (Cell.peek b buf n).1) in
          ask_acts-AskKeeps s (peeks buf n) r s.ring (Consumer.returning (peeks buf n) r)
            (rw i refl) refl (rw i (omega arith)))
    ]

consumer-AskKept : (s : System) (c : Consumer) → s.consumer ≡ c → AskKept s (consumer_step s c)
unfolding consumer_step
consumer-AskKept s Consumer.idle i = begins-AskKept s s.asks refl i
consumer-AskKept s (looking a) i = looks-AskKept s a i
consumer-AskKept s (reading a) i = reads-AskKept s a i
consumer-AskKept s (Consumer.advancing a r) i = (refl, rw i refl, refl, rw i (omega arith))
consumer-AskKept s (Consumer.counting a r) i =
    ask_acts-AskKeeps s a r (set_size s.ring (decrement s.ring.base.size)) (Consumer.returning a r)
      (rw i refl) refl (rw i (omega arith))
consumer-AskKept s (Consumer.refusing a) i = (refl, rw i refl, refl, rw i (omega arith))
consumer-AskKept s (Consumer.returning a r) i = (refl, rw i refl, refl, rw i (omega arith))

-- What a run leaves, if it raises no exception.
abbrev pub RunKeeps : System → List Thread → System → Type 0
RunKeeps s ts s' =
    (all_puts s' ≡ all_puts s)
    × (all_asks s' ≡ all_asks s)
    × (put_steps s'.producer s'.puts ≤ put_steps s.producer s.puts - turns_of_producer ts)
    × (ask_steps s'.consumer s'.asks ≤ ask_steps s.consumer s.asks - turns_of_consumer ts)

pub run-RunKeeps : (ts : List Thread) (s s' : System) → run s ts ≡ some s' → RunKeeps s ts s'
unfolding run step
run-RunKeeps [] s s' e =
    let same : s ≡ s' = cc in subst (RunKeeps s []) same (refl, refl, omega arith, omega arith)
run-RunKeeps (producer ∷ ts) s s' e = elim (Option-cases (producer_step s s.producer)) [
  | inl n ↦ cc
  | inr (s₁, k) ↦
      let (a, b, l, l') = subst (PutKept s) k (producer-PutKept s s.producer refl) in
      let f : run s (producer ∷ ts) ≡ run s₁ ts = rw (run, k) refl in
      let (a', b', m, m') = run-RunKeeps ts s₁ s' (sym f ∙ e) in
      (a' ∙ a, b' ∙ b, omega arith, omega arith)
]
run-RunKeeps (consumer ∷ ts) s s' e = elim (Option-cases (consumer_step s s.consumer)) [
  | inl n ↦ cc
  | inr (s₁, k) ↦
      let (a, b, l, l') = subst (AskKept s) k (consumer-AskKept s s.consumer refl) in
      let f : run s (consumer ∷ ts) ≡ run s₁ ts = rw (run, k) refl in
      let (a', b', m, m') = run-RunKeeps ts s₁ s' (sym f ∙ e) in
      (a' ∙ a, b' ∙ b, omega arith, omega arith)
]
