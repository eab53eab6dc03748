-- ===== src/Ring/Spsc/Putting.antt =====
-- Each step of the thread that puts keeps the history serial.
use shovel_server.Base.{
  ℕ, ◌≡◌, refl, subst, inl, inr, false, some, List, [], ◌∷◌, ◌++◌, arith, ltb, ltb→lt, lt→ltb,
  Bool-cases, length, take, All,
}
use shovel_server.Ring.Fifo
use shovel_server.Ring.Spsc.{
  Put, Producer, checking, storing, System, put_call, put_begins, put_checks, put_stores,
  producer_step,
}
use shovel_server.Ring.Spsc.Invariant.{PutFits}
use shovel_server.Ring.Spsc.Producing.{
  put_begun, put_full, put_refused, put_returned, put_checked, put_stored, put_advanced,
  put_counted,
}
use shovel_server.Ring.Spsc.Serial.{IsSerial-more, Good, Steps, at_producer}

module _ (cap : ℕ) (start : List (List ℕ)) (s : System) (g : Good cap start s) where
  begins-Steps :
      (ps : List Put) → s.puts ≡ ps → s.producer ≡ Producer.idle → Steps cap start (put_begins s ps)
  unfolding put_begins
  begins-Steps [] e i = (s, refl, g)
  begins-Steps (p ∷ ps) e i =
      let (f, fs) = subst (All PutFits) e g.puts_fit in
      (
        _,
        refl,
        record {
          held = g.held;
          total = g.total;
          inv =
              put_begun cap _ _ _ _ s.consumer g.held p f
                (at_producer cap start s g Producer.idle i);
          serial = g.serial;
          puts_fit = fs;
          asks_fit = g.asks_fit;
        },
      )

  checks-Steps : (p : Put) → s.producer ≡ checking p → Steps cap start (some (put_checks s p))
  unfolding put_checks Fifo.step
  checks-Steps p i =
      let h = at_producer cap start s g (checking p) i in
      elim (Bool-cases (ltb s.ring.base.size s.ring.total_count)) [
        | inl room ↦ rw room (
          _,
          refl,
          record {
            held = g.held;
            total = g.total;
            inv =
                put_checked cap _ _ _ _ s.consumer g.held p
                  (omega (arith, ltb→lt s.ring.base.size s.ring.total_count room, g.total)) h;
            serial = g.serial;
            puts_fit = g.puts_fit;
            asks_fit = g.asks_fit;
          },
        )
        | inr no_room ↦
            let fact : ltb (length g.held) cap ≡ false = ground (arith, g.total, h.counted) in
            rw no_room (
              _,
              refl,
              record {
                held = g.held;
                total = g.total;
                inv = put_full cap _ _ _ _ s.consumer g.held p h;
                serial =
                    IsSerial-more cap start s.history g.held
                      (record { call = put_call p; answer = (0, p.buf) }) g.held g.serial
                      (rw fact refl) (rw fact refl);
                puts_fit = g.puts_fit;
                asks_fit = g.asks_fit;
              },
            )
      ]

  stores-Steps : (p : Put) → s.producer ≡ storing p → Steps cap start (put_stores s p)
  unfolding put_stores
  stores-Steps p i =
      let (b, e, r, h) =
        put_stored cap _ _ _ _ s.consumer g.held p (at_producer cap start s g (storing p) i) in
      rw (e, r)
        (
          _,
          refl,
          record {
            held = g.held;
            total = g.total;
            inv = h;
            serial = g.serial;
            puts_fit = g.puts_fit;
            asks_fit = g.asks_fit;
          },
        )

  pub producer-Steps : (p : Producer) → s.producer ≡ p → Steps cap start (producer_step s p)
  unfolding producer_step Fifo.step
  producer-Steps Producer.idle i = begins-Steps s.puts refl i
  producer-Steps (checking p) i = checks-Steps p i
  producer-Steps (storing p) i = stores-Steps p i
  producer-Steps (Producer.advancing p r) i = (
    _,
    refl,
    record {
      held = g.held;
      total = g.total;
      inv = rw g.total (
          put_advanced cap _ _ _ _ s.consumer g.held p r
            (at_producer cap start s g (Producer.advancing p r) i));
      serial = g.serial;
      puts_fit = g.puts_fit;
      asks_fit = g.asks_fit;
    },
  )
  producer-Steps (Producer.counting p r) i =
      let h = at_producer cap start s g (Producer.counting p r) i in
      let room = lt→ltb (length g.held) cap h.stored.1 in
      (
        _,
        refl,
        record {
          held = g.held ++ take p.size p.buf ∷ [];
          total = g.total;
          inv = put_counted cap _ _ _ _ s.consumer g.held p r h;
          serial =
              IsSerial-more cap start s.history g.held
                (record { call = put_call p; answer = (r, p.buf) })
                (g.held ++ take p.size p.buf ∷ []) g.serial (rw (room, h.stored.0) refl)
                (rw room refl);
          puts_fit = g.puts_fit;
          asks_fit = g.asks_fit;
        },
      )
  producer-Steps (Producer.refusing p) i = (
    _,
    refl,
    record {
      held = g.held;
      total = g.total;
      inv =
          put_refused cap _ _ _ _ s.consumer g.held p 0
            (at_producer cap start s g (Producer.refusing p) i);
      serial = g.serial;
      puts_fit = g.puts_fit;
      asks_fit = g.asks_fit;
    },
  )
  producer-Steps (Producer.returning p r) i = (
    _,
    refl,
    record {
      held = g.held;
      total = g.total;
      inv =
          put_returned cap _ _ _ _ s.consumer g.held p r
            (at_producer cap start s g (Producer.returning p r) i);
      serial = g.serial;
      puts_fit = g.puts_fit;
      asks_fit = g.asks_fit;
    },
  )
