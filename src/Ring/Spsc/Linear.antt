-- ===== src/Ring/Spsc/Linear.antt =====
-- Two threads at the ring of src/containers/RingQueue.cpp, one that puts and one that gets and peeks.
use shovel_server.Base.{
  ℕ, ◌*◌, ◌≤◌, ◌≡◌, refl, sym, ◌∙◌, subst, ◌≢◌, some, List, [], ◌∷◌, map, append-nil, arith, length,
  All,
}
use shovel_server.Ring.{RingQueue}
use shovel_server.Ring.Fifo
use shovel_server.Ring.Spsc.{
  Put, Ask, Producer, checking, storing, Consumer, looking, reading, System, Thread, producer,
  consumer, put_call, ask_call, step, run,
}
use shovel_server.Ring.Spsc.Invariant.{PutFits, AskFits}
use shovel_server.Ring.Inv.{Represents}
use shovel_server.Ring.Spsc.Invariant.{apart}
use shovel_server.Ring.Spsc.Order.{
  puts_in, asks_in, all_puts, all_asks, put_steps, ask_steps, turns_of_producer, turns_of_consumer,
}
use shovel_server.Ring.Spsc.Returning.{Matches, PutsMatch, AsksMatch, puts_of, asks_of, run-Matches}
use shovel_server.Ring.Spsc.Turns.{run-RunKeeps}
use shovel_server.Ring.Spsc.Serial.{IsSerial, Good, Steps, calls_of, at_both}
use shovel_server.Ring.Spsc.Putting.{producer-Steps}
use shovel_server.Ring.Spsc.Asking.{consumer-Steps}

step-Steps :
    (cap : ℕ) (start : List (List ℕ)) (s : System) (t : Thread)
    → Good cap start s
    → Steps cap start (step s t)
unfolding step
step-Steps cap start s producer g = producer-Steps cap start s g s.producer refl
step-Steps cap start s consumer g = consumer-Steps cap start s g s.consumer refl

run-Steps :
    (schedule : List Thread) (cap : ℕ) (start : List (List ℕ)) (s : System)
    → Good cap start s
    → Steps cap start (run s schedule)
unfolding run
run-Steps [] cap start s g = (s, refl, g)
run-Steps (t ∷ ts) cap start s g =
    let (s₁, e, g₁) = step-Steps cap start s t g in
    let (s', e', g') = run-Steps ts cap start s₁ g₁ in (s', rw e e', g')

Good-apart :
    (cap : ℕ) (start : List (List ℕ)) (s : System)
    → Good cap start s
    → (p : Put) (a : Ask) → s.producer ≡ storing p
    → s.consumer ≡ reading a
    → s.ring.index_in ≢ s.ring.index_out
Good-apart cap start s g p a i j =
    let h = at_both cap start s g (storing p) (reading a) i j in
    λ e.
      apart cap h.first (length g.held) h.last h.distance h.held.1 h.stored.1
        (sym h.out_at ∙ (sym e ∙ h.in_at))

puts_done :
    (p : Producer) (puts : List Put) → put_steps p puts ≡ 0 → (p ≡ Producer.idle) × (puts ≡ [])
puts_done Producer.idle [] e = (refl, refl)
puts_done Producer.idle (x ∷ puts) e = absurd (omega arith)
puts_done (checking p) puts e = absurd (omega arith)
puts_done (storing p) puts e = absurd (omega arith)
puts_done (Producer.advancing p r) puts e = absurd (omega arith)
puts_done (Producer.counting p r) puts e = absurd (omega arith)
puts_done (Producer.refusing p) puts e = absurd (omega arith)
puts_done (Producer.returning p r) puts e = absurd (omega arith)

asks_done :
    (c : Consumer) (asks : List Ask) → ask_steps c asks ≡ 0 → (c ≡ Consumer.idle) × (asks ≡ [])
asks_done Consumer.idle [] e = (refl, refl)
asks_done Consumer.idle (x ∷ asks) e = absurd (omega arith)
asks_done (looking a) asks e = absurd (omega arith)
asks_done (reading a) asks e = absurd (omega arith)
asks_done (Consumer.advancing a r) asks e = absurd (omega arith)
asks_done (Consumer.counting a r) asks e = absurd (omega arith)
asks_done (Consumer.refusing a) asks e = absurd (omega arith)
asks_done (Consumer.returning a r) asks e = absurd (omega arith)

all_returned_puts :
    (s : System) → Matches s → s.producer ≡ Producer.idle → s.returned_puts ≡ puts_of s.history
all_returned_puts s m i =
    sym (subst (PutsMatch s.history s.returned_puts) i m.0 ∙ append-nil s.returned_puts)

all_returned_asks :
    (s : System) → Matches s → s.consumer ≡ Consumer.idle → s.returned_asks ≡ asks_of s.history
all_returned_asks s m i =
    sym (subst (AsksMatch s.history s.returned_asks) i m.1 ∙ append-nil s.returned_asks)

idle-Represents :
    (cap : ℕ) (start : List (List ℕ)) (s : System) (g : Good cap start s)
    → s.producer ≡ Producer.idle
    → s.consumer ≡ Consumer.idle
    → Represents s.ring g.held
idle-Represents cap start s g i i' =
    let h = at_both cap start s g Producer.idle Consumer.idle i i' in
    record {
      cells_count = h.cells_count ∙ sym g.total;
      small = rw g.total h.small;
      counted = h.counted;
      bounded = rw g.total h.bounded;
      in_range = rw (g.total, h.in_at) h.last_range;
      out_range = rw (g.total, h.out_at) h.first_range;
      distance = rw (g.total, h.in_at, h.out_at) h.distance;
      held = rw (g.total, h.out_at) h.held;
    }

-- The threads before their first call.
abbrev pub new_system : RingQueue → List Put → List Ask → System
new_system q puts asks = record {
  ring = q;
  producer = Producer.idle;
  puts = puts;
  returned_puts = [];
  consumer = Consumer.idle;
  asks = asks;
  returned_asks = [];
  history = [];
}

new-Good :
    (q : RingQueue) (ms : List (List ℕ)) (puts : List Put) (asks : List Ask)
    → Represents q ms
    → All PutFits puts
    → All AskFits asks
    → Good q.total_count ms (new_system q puts asks)
unfolding Fifo.run
new-Good q ms puts asks r f f' = record {
  held = ms;
  total = refl;
  inv = record {
    first = q.index_out;
    last = q.index_in;
    cells_count = r.cells_count;
    small = r.small;
    counted = r.counted;
    bounded = r.bounded;
    first_range = r.out_range;
    last_range = r.in_range;
    in_at = refl;
    out_at = refl;
    distance = r.distance;
    stored = tt;
    held = r.held;
  };
  serial = (refl, refl);
  puts_fit = f;
  asks_fit = f';
}

-- A thread puts into a ring that holds `ms`, another gets and peeks, and neither takes a lock. In every
-- interleaving of their steps no exception is raised, and the calls that have taken effect, in that order,
-- answer, in result and buffer, what the queue of `Ring.Fifo` answers that holds `ms` and is asked one of
-- them after another.
-- Those of each thread are its calls in its own order, and they are just the calls that have returned, in
-- order and with the same answers, and then at most one that has still to return.
pub spsc_linear :
    (schedule : List Thread) (q : RingQueue) (ms : List (List ℕ)) (puts : List Put)
    (asks : List Ask)
    → Represents q ms
    → All PutFits puts
    → All AskFits asks
    → (s : System) × (left : List (List ℕ)) × (run (new_system q puts asks) schedule ≡ some s)
      × (all_puts s ≡ map put_call puts)
      × (all_asks s ≡ map ask_call asks)
      × IsSerial q.total_count ms s.history left
      × Matches s
spsc_linear schedule q ms puts asks r f f' =
    let (s, e, g) =
      run-Steps schedule q.total_count ms (new_system q puts asks)
        (new-Good q ms puts asks r f f') in
    let (a, b, _, _) = run-RunKeeps schedule (new_system q puts asks) s e in
    (s, g.held, e, a, b, g.serial, run-Matches schedule (new_system q puts asks) s (refl, refl) e)

-- In the same runs, when one thread is about to write a cell, and the other about to read one and to
-- empty it, the cells are two.
pub spsc_apart :
    (schedule : List Thread) (q : RingQueue) (ms : List (List ℕ)) (puts : List Put)
    (asks : List Ask) (s : System) (p : Put) (a : Ask)
    → Represents q ms
    → All PutFits puts
    → All AskFits asks
    → run (new_system q puts asks) schedule ≡ some s
    → s.producer ≡ storing p
    → s.consumer ≡ reading a
    → s.ring.index_in ≢ s.ring.index_out
spsc_apart schedule q ms puts asks s p a r f f' e i j =
    let (s', e', g) =
      run-Steps schedule q.total_count ms (new_system q puts asks)
        (new-Good q ms puts asks r f f') in
    let same : s' ≡ s = cc in
    Good-apart q.total_count ms s (subst (Good q.total_count ms) same g) p a i j

-- When each thread is scheduled six times for each of its calls, in any order, all of them have returned,
-- what each answered when it took effect, and the ring holds what the queue of `Ring.Fifo` is left with.
pub spsc_completes :
    (schedule : List Thread) (q : RingQueue) (ms : List (List ℕ)) (puts : List Put)
    (asks : List Ask)
    → Represents q ms
    → All PutFits puts
    → All AskFits asks
    → 6 * length puts ≤ turns_of_producer schedule
    → 6 * length asks ≤ turns_of_consumer schedule
    → (s : System) × (left : List (List ℕ)) × (run (new_system q puts asks) schedule ≡ some s)
      × (puts_in (calls_of s.history) ≡ map put_call puts)
      × (asks_in (calls_of s.history) ≡ map ask_call asks)
      × (s.returned_puts ≡ puts_of s.history)
      × (s.returned_asks ≡ asks_of s.history)
      × IsSerial q.total_count ms s.history left
      × Represents s.ring left
spsc_completes schedule q ms puts asks r f f' l l' =
    let (s, e, g) =
      run-Steps schedule q.total_count ms (new_system q puts asks)
        (new-Good q ms puts asks r f f') in
    let (a, b, n, n') = run-RunKeeps schedule (new_system q puts asks) s e in
    let (i, d) = puts_done s.producer s.puts (omega arith) in
    let (i', d') = asks_done s.consumer s.asks (omega arith) in
    let p : puts_in (calls_of s.history) ≡ all_puts s = rw (i, d) (sym (append-nil _)) in
    let q' : asks_in (calls_of s.history) ≡ all_asks s = rw (i', d') (sym (append-nil _)) in
    let m = run-Matches schedule (new_system q puts asks) s (refl, refl) e in
    (
      s,
      g.held,
      e,
      p ∙ a,
      q' ∙ b,
      all_returned_puts s m i,
      all_returned_asks s m i',
      g.serial,
      idle-Represents q.total_count ms s g i i',
    )
