-- ===== src/Ring/Spsc.antt =====
-- src/containers/RingQueue.cpp with two threads and no lock: one calls `put`, the other `get` and
-- `peek`. A step is one access to what both share, `m_size` (which is atomic), `m_status` or a cell,
-- the move of an index, which one thread alone touches, or the return. Which thread makes a step is a schedule.
-- So src/subprocesses/abstract_subprocess/AbstractSubprocess.cpp uses its rings: RQ_NoBlockReadDecorator
-- takes no mutex.
pub mod Invariant
pub mod Producing
pub mod Consuming
pub mod Serial
pub mod Putting
pub mod Asking
pub mod Order
pub mod Turns
pub mod Returning
pub mod Linear
mod Tests
use shovel_server.Base.{
  ℕ, Option, some, List, [], ◌∷◌, ◌++◌, ltb, ◌==◌, if◌then◌else◌, get_elem?, set, to_uint16,
  increment, decrement,
}
use shovel_server.Ring.{
  RingQueue, Status, ok, full, empty, set_status, set_size, advance, Op, put_op, get_op, peek_op,
  ◌>>=◌,
}
use shovel_server.Ring.Cell

-- A call of `put` with its buffer and its size, and a call of the other thread.
pub record Put : Type 0 where
  pub buf : List ℕ
  pub size : ℕ

pub data Ask : Type 0 where
  gets peeks : List ℕ → ℕ → Ask

-- Where `put` stands: before it looks at `m_size`, before it writes the cell, before it moves the index,
-- before it counts the message and before it returns, the last three with its result; or before it says
-- in `m_status` that the ring is full.
pub data Producer : Type 0 where
  idle : Producer
  checking storing refusing : Put → Producer
  advancing counting returning : Put → ℕ → Producer

-- What `get` and `peek` return: a result, and the caller's buffer.
abbrev pub Answer : Type 0
Answer = ℕ × List ℕ

-- The same for `get` and `peek`, which say that the ring is empty.
pub data Consumer : Type 0 where
  idle : Consumer
  looking reading refusing : Ask → Consumer
  advancing counting returning : Ask → Answer → Consumer

-- A call, and its answer.
pub record Return : Type 0 where
  pub call : Op
  pub answer : Answer

-- The ring; for each thread where it stands, the calls that it has still to make, and those that have
-- returned, in order; and the calls of both in the order in which they take effect: a `put` when it counts
-- its message, a `get` when it counts one less, a `peek` when it reads the cell, and each of them when it
-- finds that the ring is full or empty.
pub record System : Type 0 where
  pub ring : RingQueue
  pub producer : Producer
  pub puts : List Put
  pub returned_puts : List Return
  pub consumer : Consumer
  pub asks : List Ask
  pub returned_asks : List Return
  pub history : List Return

abbrev pub put_call : Put → Op
put_call p = put_op p.buf p.size

abbrev pub ask_call : Ask → Op
ask_call (gets buf n) = get_op buf n
ask_call (peeks buf n) = peek_op buf n

abbrev pub ask_buf : Ask → List ℕ
ask_buf (gets buf n) = buf
ask_buf (peeks buf n) = buf

abbrev pub put_answer : Put → ℕ → Return
put_answer p r = record { call = put_call p; answer = (r, p.buf) }

abbrev pub ask_answer : Ask → Answer → Return
ask_answer a r = record { call = ask_call a; answer = r }

-- A call takes effect.
abbrev pub put_acts : System → RingQueue → Put → ℕ → Producer → System
put_acts s q p r next = record s {
  ring = q;
  producer = next;
  history = s.history ++ put_answer p r ∷ [];
}

abbrev pub ask_acts : System → RingQueue → Ask → Answer → Consumer → System
ask_acts s q a r next = record s {
  ring = q;
  consumer = next;
  history = s.history ++ ask_answer a r ∷ [];
}

put_begins : System → List Put → Option System
put_begins s [] = some s
put_begins s (p ∷ ps) =
    some (record s { ring = set_status s.ring ok; producer = checking p; puts = ps })

put_checks : System → Put → System
put_checks s p =
    if ltb s.ring.base.size s.ring.total_count
    then record s { producer = storing p }
    else put_acts s s.ring p 0 (Producer.refusing p)

put_stores : System → Put → Option System
put_stores s p = do
  b ← get_elem? s.ring.ring_vector s.ring.index_in
  let (put_size, b') = Cell.put b p.buf p.size
  some (record s {
    ring = record s.ring { ring_vector = set s.ring.ring_vector s.ring.index_in b' };
    producer = Producer.advancing p (to_uint16 put_size);
  })

-- A step of the producer; `none` is the exception of `vector::at`.
unfoldable pub producer_step : System → Producer → Option System
unfolding put_begins put_checks put_stores
producer_step s idle = put_begins s s.puts
producer_step s (checking p) = some (put_checks s p)
producer_step s (storing p) = put_stores s p
producer_step s (advancing p r) = some (record s {
  ring = record s.ring { index_in = advance s.ring.total_count s.ring.index_in };
  producer = Producer.counting p r;
})
producer_step s (counting p r) =
    some (put_acts s (set_size s.ring (increment s.ring.base.size)) p r (Producer.returning p r))
producer_step s (refusing p) =
    some (record s { ring = set_status s.ring full; producer = Producer.returning p 0 })
producer_step s (returning p r) =
    some (record s {
      producer = Producer.idle;
      returned_puts = s.returned_puts ++ put_answer p r ∷ [];
    })

ask_begins : System → List Ask → Option System
ask_begins s [] = some s
ask_begins s (a ∷ asks) =
    some (record s { ring = set_status s.ring ok; consumer = looking a; asks = asks })

ask_looks : System → Ask → System
ask_looks s a =
    if s.ring.base.size == 0
    then ask_acts s s.ring a (0, ask_buf a) (Consumer.refusing a)
    else record s { consumer = reading a }

-- `get` empties the cell, `peek` leaves it.
ask_reads : System → Ask → Option System
ask_reads s (gets buf n) = do
  b ← get_elem? s.ring.ring_vector s.ring.index_out
  let (got_size, buf', b') = Cell.get b buf n
  some (record s {
    ring = record s.ring { ring_vector = set s.ring.ring_vector s.ring.index_out b' };
    consumer = Consumer.advancing (gets buf n) (to_uint16 got_size, buf');
  })
ask_reads s (peeks buf n) = do
  b ← get_elem? s.ring.ring_vector s.ring.index_out
  let (got_size, buf') = Cell.peek b buf n
  let r : Answer = (to_uint16 got_size, buf')
  some (ask_acts s s.ring (peeks buf n) r (Consumer.returning (peeks buf n) r))

-- A step of the consumer.
unfoldable pub consumer_step : System → Consumer → Option System
unfolding ask_begins ask_looks ask_reads
consumer_step s idle = ask_begins s s.asks
consumer_step s (looking a) = some (ask_looks s a)
consumer_step s (reading a) = ask_reads s a
consumer_step s (advancing a r) = some (record s {
  ring = record s.ring { index_out = advance s.ring.total_count s.ring.index_out };
  consumer = Consumer.counting a r;
})
consumer_step s (counting a r) =
    some (ask_acts s (set_size s.ring (decrement s.ring.base.size)) a r (Consumer.returning a r))
consumer_step s (refusing a) =
    some
      (record s { ring = set_status s.ring empty; consumer = Consumer.returning a (0, ask_buf a) })
consumer_step s (returning a r) =
    some (record s {
      consumer = Consumer.idle;
      returned_asks = s.returned_asks ++ ask_answer a r ∷ [];
    })

pub data Thread : Type 0 where
  producer consumer : Thread

unfoldable pub step : System → Thread → Option System
unfolding producer_step consumer_step
step s producer = producer_step s s.producer
step s consumer = consumer_step s s.consumer

unfoldable pub run : System → List Thread → Option System
unfolding step
run s [] = some s
run s (t ∷ ts) = do s' ← step s t; run s' ts
