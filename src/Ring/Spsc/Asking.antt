-- ===== src/Ring/Spsc/Asking.antt =====
-- Each step of the thread that gets and peeks keeps the history serial.
use shovel_server.Base.{
  ℕ, min, ◌≡◌, refl, sym, ap, subst, inl, inr, some, List, [], ◌∷◌, arith, ◌==◌, Bool-cases, length,
  All, memcpy,
}
use shovel_server.Ring.{get_op, peek_op}
use shovel_server.Ring.Fifo
use shovel_server.Ring.Spsc.{
  Ask, gets, peeks, Consumer, looking, reading, Answer, System, ask_call, ask_buf, ask_begins,
  ask_looks, ask_reads, consumer_step,
}
use shovel_server.Ring.Spsc.Invariant.{AskFits, Inv}
use shovel_server.Ring.Spsc.Consuming.{
  ask_begun, ask_empty, ask_refused, ask_returned, ask_looked, ask_advanced, peek_read, get_read,
  get_counted,
}
use shovel_server.Ring.Spsc.Serial.{answer_in, IsSerial, IsSerial-more, Good, Steps, at_consumer}

empty_of_length : (ms : List (List ℕ)) → length ms ≡ 0 → ms ≡ []
empty_of_length [] e = refl
empty_of_length (m ∷ ms) e = absurd (omega arith)

module _ (cap : ℕ) (start : List (List ℕ)) (s : System) (g : Good cap start s) where
  ask_begins-Steps :
      (asks : List Ask)
      → s.asks ≡ asks
      → s.consumer ≡ Consumer.idle
      → Steps cap start (ask_begins s asks)
  unfolding ask_begins
  ask_begins-Steps [] e i = (s, refl, g)
  ask_begins-Steps (a ∷ asks) e i =
      let (f, fs) = subst (All AskFits) e g.asks_fit in
      (
        _,
        refl,
        record {
          held = g.held;
          total = g.total;
          inv =
              ask_begun cap _ _ _ _ s.producer g.held a f
                (at_consumer cap start s g Consumer.idle i);
          serial = g.serial;
          puts_fit = g.puts_fit;
          asks_fit = fs;
        },
      )

  -- What the queue answers when it is empty.
  nothing_there :
      (a : Ask)
      → g.held ≡ []
      → (answer_in (Fifo.step cap g.held (ask_call a)).0 ≡ (0, ask_buf a))
        × ((Fifo.step cap g.held (ask_call a)).1 ≡ g.held)
  unfolding Fifo.step
  nothing_there (gets buf n) e = rw e (refl, refl)
  nothing_there (peeks buf n) e = rw e (refl, refl)

  looks-Steps : (a : Ask) → s.consumer ≡ looking a → Steps cap start (some (ask_looks s a))
  unfolding ask_looks
  looks-Steps a i =
      let h = at_consumer cap start s g (looking a) i in
      elim (Bool-cases (s.ring.base.size == 0)) [
        | inl z ↦
            let size_zero : s.ring.base.size ≡ 0 = ground arith in
            let none_held : g.held ≡ [] =
              empty_of_length g.held (omega (arith, size_zero, h.counted)) in
            let (e, l) = nothing_there a none_held in
            rw z (
              _,
              refl,
              record {
                held = g.held;
                total = g.total;
                inv = ask_empty cap _ _ _ _ s.producer g.held a h;
                serial =
                    IsSerial-more cap start s.history g.held
                      (record { call = ask_call a; answer = (0, ask_buf a) }) g.held g.serial e l;
                puts_fit = g.puts_fit;
                asks_fit = g.asks_fit;
              },
            )
        | inr z ↦ rw z (
          _,
          refl,
          record {
            held = g.held;
            total = g.total;
            inv = ask_looked cap _ _ _ _ s.producer g.held a (ground arith) h;
            serial = g.serial;
            puts_fit = g.puts_fit;
            asks_fit = g.asks_fit;
          },
        )
      ]

  get_reads-Steps :
      (buf : List ℕ) (n : ℕ) (m : List ℕ) (ms : List (List ℕ))
      → g.held ≡ m ∷ ms
      → s.consumer ≡ reading (gets buf n)
      → Steps cap start (ask_reads s (gets buf n))
  unfolding ask_reads
  get_reads-Steps buf n m ms e i =
      let h =
        subst (Inv cap _ _ _ _ s.producer (reading (gets buf n))) e
          (at_consumer cap start s g (reading (gets buf n)) i) in
      let (b, c, r, o, h') = get_read cap _ _ _ _ s.producer m ms buf n h in
      rw (c, r, o)
        (
          _,
          refl,
          record {
            held = m ∷ ms;
            total = g.total;
            inv = h';
            serial = subst (IsSerial cap start s.history) e g.serial;
            puts_fit = g.puts_fit;
            asks_fit = g.asks_fit;
          },
        )

  peek_reads-Steps :
      (buf : List ℕ) (n : ℕ) (m : List ℕ) (ms : List (List ℕ))
      → g.held ≡ m ∷ ms
      → s.consumer ≡ reading (peeks buf n)
      → Steps cap start (ask_reads s (peeks buf n))
  unfolding ask_reads Fifo.step
  peek_reads-Steps buf n m ms e i =
      let h =
        subst (Inv cap _ _ _ _ s.producer (reading (peeks buf n))) e
          (at_consumer cap start s g (reading (peeks buf n)) i) in
      let (b, c, r, o, h') = peek_read cap _ _ _ _ s.producer m ms buf n h in
      rw (c, r, o)
        (
          _,
          refl,
          record {
            held = m ∷ ms;
            total = g.total;
            inv = h';
            serial =
                IsSerial-more cap start s.history (m ∷ ms)
                  (record {
                    call = peek_op buf n;
                    answer = (min n (length m), memcpy buf m (min n (length m)));
                  })
                  (m ∷ ms) (subst (IsSerial cap start s.history) e g.serial) refl refl;
            puts_fit = g.puts_fit;
            asks_fit = g.asks_fit;
          },
        )

  get_counts-Steps :
      (buf : List ℕ) (n : ℕ) (r : Answer) (m : List ℕ) (ms : List (List ℕ))
      → g.held ≡ m ∷ ms
      → s.consumer ≡ Consumer.counting (gets buf n) r
      → Steps cap start (consumer_step s (Consumer.counting (gets buf n) r))
  unfolding consumer_step Fifo.step
  get_counts-Steps buf n r m ms e i =
      let h =
        subst (Inv cap _ _ _ _ s.producer (Consumer.counting (gets buf n) r)) e
          (at_consumer cap start s g (Consumer.counting (gets buf n) r) i) in
      let (a, h') = get_counted cap _ _ _ _ s.producer m ms buf n r h in
      (
        _,
        refl,
        record {
          held = ms;
          total = g.total;
          inv = h';
          serial =
              IsSerial-more cap start s.history (m ∷ ms)
                (record { call = get_op buf n; answer = r }) ms
                (subst (IsSerial cap start s.history) e g.serial) (sym a) refl;
          puts_fit = g.puts_fit;
          asks_fit = g.asks_fit;
        },
      )

  get_advances-Steps :
      (a : Ask) (r : Answer)
      → s.consumer ≡ Consumer.advancing a r
      → Steps cap start (consumer_step s (Consumer.advancing a r))
  unfolding consumer_step
  get_advances-Steps (peeks buf n) r i =
      absurd (at_consumer cap start s g (Consumer.advancing (peeks buf n) r) i).held
  get_advances-Steps (gets buf n) r i =
      let h = at_consumer cap start s g (Consumer.advancing (gets buf n) r) i in
      let (m, ms', e', q, k) = h.held in
      (
        _,
        refl,
        record {
          held = g.held;
          total = g.total;
          inv = rw g.total (
              ask_advanced cap _ _ _ _ s.producer g.held (gets buf n) r h
                (omega (arith, ap length e')));
          serial = g.serial;
          puts_fit = g.puts_fit;
          asks_fit = g.asks_fit;
        },
      )

  reads-Steps :
      (a : Ask) (ms : List (List ℕ))
      → g.held ≡ ms
      → s.consumer ≡ reading a
      → Steps cap start (ask_reads s a)
  reads-Steps a [] e i =
      let h = at_consumer cap start s g (reading a) i in
      absurd (omega (arith, h.held.1, ap length e))
  reads-Steps (gets buf n) (m ∷ ms) e i = get_reads-Steps buf n m ms e i
  reads-Steps (peeks buf n) (m ∷ ms) e i = peek_reads-Steps buf n m ms e i

  pub consumer-Steps : (c : Consumer) → s.consumer ≡ c → Steps cap start (consumer_step s c)
  unfolding consumer_step
  consumer-Steps Consumer.idle i = ask_begins-Steps s.asks refl i
  consumer-Steps (looking a) i = looks-Steps a i
  consumer-Steps (reading a) i = reads-Steps a g.held refl i
  consumer-Steps (Consumer.advancing a r) i = get_advances-Steps a r i
  consumer-Steps (Consumer.counting (peeks buf n) r) i =
      absurd (at_consumer cap start s g (Consumer.counting (peeks buf n) r) i).held
  consumer-Steps (Consumer.counting (gets buf n) r) i =
      let h = at_consumer cap start s g (Consumer.counting (gets buf n) r) i in
      let (m, ms, e, q, k) = h.held in get_counts-Steps buf n r m ms e i
  consumer-Steps (Consumer.refusing a) i = (
    _,
    refl,
    record {
      held = g.held;
      total = g.total;
      inv =
          ask_refused cap _ _ _ _ s.producer g.held a (0, ask_buf a)
            (at_consumer cap start s g (Consumer.refusing a) i);
      serial = g.serial;
      puts_fit = g.puts_fit;
      asks_fit = g.asks_fit;
    },
  )
  consumer-Steps (Consumer.returning a r) i = (
    _,
    refl,
    record {
      held = g.held;
      total = g.total;
      inv =
          ask_returned cap _ _ _ _ s.producer g.held a r
            (at_consumer cap start s g (Consumer.returning a r) i);
      serial = g.serial;
      puts_fit = g.puts_fit;
      asks_fit = g.asks_fit;
    },
  )
