-- ===== src/Ring/Spsc/Returning.antt =====
-- What the calls of two threads at the ring of src/containers/RingQueue.cpp return is what they answered when
-- they took effect.
use shovel_server.Base.{
  ℕ, ◌≡◌, refl, sym, ap, ◌∙◌, subst, inl, inr, false, Option, none, some, List, [], ◌∷◌, ◌++◌,
  append-nil, ltb, ◌==◌, if◌then◌else◌, Bool-cases, Option-cases, get_elem?, to_uint16, increment,
  decrement,
}
use shovel_server.Ring.Cell
use shovel_server.Ring.{RingQueue, set_size}
use shovel_server.Ring.Spsc.{
  Put, Ask, gets, peeks, Producer, checking, storing, Consumer, looking, reading, Return, System,
  Thread, put_acts, ask_acts, put_answer, ask_answer, producer, consumer, Answer, ask_buf, ask_call,
  put_begins, put_checks, put_stores, ask_begins, ask_looks, ask_reads, producer_step,
  consumer_step, step, run,
}
use shovel_server.Ring.Spsc.Order.{is_put}

-- The calls of one thread, with their answers.
abbrev pub puts_of : List Return → List Return
puts_of [] = []
puts_of (x ∷ xs) = if is_put x.call then x ∷ puts_of xs else puts_of xs

abbrev pub asks_of : List Return → List Return
asks_of [] = []
asks_of (x ∷ xs) = if is_put x.call then asks_of xs else x ∷ asks_of xs

-- The call that has taken effect and not yet returned.
abbrev pub put_due : Producer → List Return
put_due (Producer.refusing p) = put_answer p 0 ∷ []
put_due (Producer.returning p r) = put_answer p r ∷ []
put_due _ = []

abbrev pub ask_due : Consumer → List Return
ask_due (Consumer.refusing a) = ask_answer a (0, ask_buf a) ∷ []
ask_due (Consumer.returning a r) = ask_answer a r ∷ []
ask_due _ = []

-- What has taken effect has returned with the same answer, or is due.
abbrev pub PutsMatch : List Return → List Return → Producer → Type 0
PutsMatch history returned p = puts_of history ≡ returned ++ put_due p

abbrev pub AsksMatch : List Return → List Return → Consumer → Type 0
AsksMatch history returned c = asks_of history ≡ returned ++ ask_due c

abbrev pub Matches : System → Type 0
Matches s =
    PutsMatch s.history s.returned_puts s.producer × AsksMatch s.history s.returned_asks s.consumer

abbrev Matched : Option System → Type 0
Matched none = Unit {0}
Matched (some s) = Matches s

puts_of-put :
    (xs : List Return) (p : Put) (r : ℕ)
    → (puts_of (xs ++ put_answer p r ∷ []) ≡ puts_of xs ++ put_answer p r ∷ [])
      × (asks_of (xs ++ put_answer p r ∷ []) ≡ asks_of xs)
puts_of-put [] p r = (refl, refl)
puts_of-put (x ∷ xs) p r =
    let (e, e') = puts_of-put xs p r in
    elim (Bool-cases (is_put x.call)) [
      | inl h ↦ rw h (ap (λ t. x ∷ t) e, e')
      | inr h ↦ rw h (e, ap (λ t. x ∷ t) e')
    ]

is_put-ask : (a : Ask) → is_put (ask_call a) ≡ false
is_put-ask (gets buf n) = refl
is_put-ask (peeks buf n) = refl

asks_of-ask :
    (xs : List Return) (a : Ask) (r : Answer)
    → (asks_of (xs ++ ask_answer a r ∷ []) ≡ asks_of xs ++ ask_answer a r ∷ [])
      × (puts_of (xs ++ ask_answer a r ∷ []) ≡ puts_of xs)
asks_of-ask [] a r = rw (is_put-ask a) (refl, refl)
asks_of-ask (x ∷ xs) a r =
    let (e, e') = asks_of-ask xs a r in
    elim (Bool-cases (is_put x.call)) [
      | inl h ↦ rw h (e, ap (λ t. x ∷ t) e')
      | inr h ↦ rw h (ap (λ t. x ∷ t) e, e')
    ]

module _ (s : System) (m : Matches s) where
  puts_at : (p : Producer) → s.producer ≡ p → PutsMatch s.history s.returned_puts p
  puts_at p i = subst (PutsMatch s.history s.returned_puts) i m.0

  asks_at : (c : Consumer) → s.consumer ≡ c → AsksMatch s.history s.returned_asks c
  asks_at c i = subst (AsksMatch s.history s.returned_asks) i m.1

  put_acts-Matches :
      (q : RingQueue) (p : Put) (r : ℕ) (at next : Producer)
      → s.producer ≡ at
      → put_due at ≡ []
      → put_due next ≡ put_answer p r ∷ []
      → Matches (put_acts s q p r next)
  put_acts-Matches q p r at next i e e' =
      let (h, h') = puts_of-put s.history p r in
      let before : puts_of s.history ≡ s.returned_puts =
        puts_at at i ∙ (ap (λ t. s.returned_puts ++ t) e ∙ append-nil s.returned_puts) in
      (
        h ∙ (ap (λ t. t ++ put_answer p r ∷ []) before ∙ ap (λ t. s.returned_puts ++ t) (sym e')),
        h' ∙ m.1,
      )

  ask_acts-Matches :
      (q : RingQueue) (a : Ask) (r : Answer) (at next : Consumer)
      → s.consumer ≡ at
      → ask_due at ≡ []
      → ask_due next ≡ ask_answer a r ∷ []
      → Matches (ask_acts s q a r next)
  ask_acts-Matches q a r at next i e e' =
      let (h, h') = asks_of-ask s.history a r in
      let before : asks_of s.history ≡ s.returned_asks =
        asks_at at i ∙ (ap (λ t. s.returned_asks ++ t) e ∙ append-nil s.returned_asks) in
      (
        h' ∙ m.0,
        h ∙ (ap (λ t. t ++ ask_answer a r ∷ []) before ∙ ap (λ t. s.returned_asks ++ t) (sym e')),
      )

  begins-Matched : (ps : List Put) → s.producer ≡ Producer.idle → Matched (put_begins s ps)
  unfolding put_begins
  begins-Matched [] i = m
  begins-Matched (p ∷ ps) i = (puts_at Producer.idle i, m.1)

  checks-Matches : (p : Put) → s.producer ≡ checking p → Matches (put_checks s p)
  unfolding put_checks
  checks-Matches p i = elim (Bool-cases (ltb s.ring.base.size s.ring.total_count)) [
    | inl h ↦ rw h (puts_at (checking p) i, m.1)
    | inr h ↦ rw h (put_acts-Matches s.ring p 0 (checking p) (Producer.refusing p) i refl refl)
  ]

  stores-Matched : (p : Put) → s.producer ≡ storing p → Matched (put_stores s p)
  unfolding put_stores
  stores-Matched p i = elim (Option-cases (get_elem? s.ring.ring_vector s.ring.index_in)) [
    | inl e ↦ rw e tt
    | inr (b, e) ↦ rw e (puts_at (storing p) i, m.1)
  ]

  producer-Matched : (p : Producer) → s.producer ≡ p → Matched (producer_step s p)
  unfolding producer_step
  producer-Matched Producer.idle i = begins-Matched s.puts i
  producer-Matched (checking p) i = checks-Matches p i
  producer-Matched (storing p) i = stores-Matched p i
  producer-Matched (Producer.advancing p r) i = (puts_at (Producer.advancing p r) i, m.1)
  producer-Matched (Producer.counting p r) i =
      put_acts-Matches (set_size s.ring (increment s.ring.base.size)) p r (Producer.counting p r)
        (Producer.returning p r) i refl refl
  producer-Matched (Producer.refusing p) i = (puts_at (Producer.refusing p) i, m.1)
  producer-Matched (Producer.returning p r) i = (
    puts_at (Producer.returning p r) i ∙ sym (append-nil (s.returned_puts ++ put_answer p r ∷ [])),
    m.1,
  )

  ask_begins-Matched : (asks : List Ask) → s.consumer ≡ Consumer.idle → Matched (ask_begins s asks)
  unfolding ask_begins
  ask_begins-Matched [] i = m
  ask_begins-Matched (a ∷ asks) i = (m.0, asks_at Consumer.idle i)

  looks-Matches : (a : Ask) → s.consumer ≡ looking a → Matches (ask_looks s a)
  unfolding ask_looks
  looks-Matches a i = elim (Bool-cases (s.ring.base.size == 0)) [
    | inl h ↦
        rw h
          (ask_acts-Matches s.ring a (0, ask_buf a) (looking a) (Consumer.refusing a) i refl refl)
    | inr h ↦ rw h (m.0, asks_at (looking a) i)
  ]

  reads-Matched : (a : Ask) → s.consumer ≡ reading a → Matched (ask_reads s a)
  unfolding ask_reads
  reads-Matched (gets buf n) i =
      elim (Option-cases (get_elem? s.ring.ring_vector s.ring.index_out)) [
        | inl e ↦ rw e tt
        | inr (b, e) ↦ rw e (m.0, asks_at (reading (gets buf n)) i)
      ]
  reads-Matched (peeks buf n) i =
      elim (Option-cases (get_elem? s.ring.ring_vector s.ring.index_out)) [
        | inl e ↦ rw e tt
        | inr (b, e) ↦ rw e (
            let r : Answer = (to_uint16 (Cell.peek b buf n).0, (Cell.peek b buf n).1) in
            ask_acts-Matches s.ring (peeks buf n) r (reading (peeks buf n))
              (Consumer.returning (peeks buf n) r) i refl refl)
      ]

  consumer-Matched : (c : Consumer) → s.consumer ≡ c → Matched (consumer_step s c)
  unfolding consumer_step
  consumer-Matched Consumer.idle i = ask_begins-Matched s.asks i
  consumer-Matched (looking a) i = looks-Matches a i
  consumer-Matched (reading a) i = reads-Matched a i
  consumer-Matched (Consumer.advancing a r) i = (m.0, asks_at (Consumer.advancing a r) i)
  consumer-Matched (Consumer.counting a r) i =
      ask_acts-Matches (set_size s.ring (decrement s.ring.base.size)) a r (Consumer.counting a r)
        (Consumer.returning a r) i refl refl
  consumer-Matched (Consumer.refusing a) i = (m.0, asks_at (Consumer.refusing a) i)
  consumer-Matched (Consumer.returning a r) i = (
    m.0,
    asks_at (Consumer.returning a r) i ∙ sym (append-nil (s.returned_asks ++ ask_answer a r ∷ [])),
  )

step-Matched : (s : System) (t : Thread) → Matches s → Matched (step s t)
unfolding step
step-Matched s producer m = producer-Matched s m s.producer refl
step-Matched s consumer m = consumer-Matched s m s.consumer refl

pub run-Matches : (ts : List Thread) (s s' : System) → Matches s → run s ts ≡ some s' → Matches s'
unfolding run
run-Matches [] s s' m e = let same : s ≡ s' = cc in subst Matches same m
run-Matches (t ∷ ts) s s' m e = elim (Option-cases (step s t)) [
  | inl n ↦ absurd (let e' = rw n at e in cc)
  | inr (s₁, k) ↦
      let m₁ : Matches s₁ = subst Matched k (step-Matched s t m) in
      let f : run s (t ∷ ts) ≡ run s₁ ts = rw (run, k) refl in run-Matches ts s₁ s' m₁ (sym f ∙ e)
]
