-- ===== src/Decorators/Timed.antt =====
-- `put` of `RQ_BlockWriteTimedDecorator` of src/containers/RingQueueBlockDecorators.cpp over a ring.
use shovel_server.Base.{ℕ, ◌≡◌, false, List, [], ◌∷◌}
use shovel_server.Ring
use shovel_server.Ring.{RingQueue, Op, put_op, run}
use shovel_server.Ring.Fifo
use shovel_server.Ring.Inv.{Represents}
use shovel_server.Decorators.{
  Outcome, Syncs, block_write_timed, Decorator, World, returns, waits, contains,
}

-- What the call comes to, by the wake-ups that it gets, over a ring of `count` cells that holds `ms`: it
-- waits for the first, and then puts, after what others have called meanwhile.
abbrev pub TimedPut :
    List (List Op) → ℕ → List (List ℕ) → Syncs → List ℕ → ℕ → World → Outcome ℕ → Type 0
TimedPut [] count ms s buf n w o = o ≡ waits (record w { wakeups = []; held = s.mutex ∷ w.held })
TimedPut (ops ∷ rest) count ms s buf n w o =
    let (reply, ms') = Fifo.step count (Fifo.run count ms ops).1 (put_op buf n) in
    (q : RingQueue) × (o
      ≡ returns reply.0
          (record w { ring = q; wakeups = rest; notified = s.condition_empty ∷ w.notified }))
    × Represents q ms'

module _ (s : Syncs) (ms_timeout : ℕ) (buf : List ℕ) (n : ℕ) (w : World)
    (free : contains s.mutex w.held ≡ false) where
  abbrev writer : List Decorator
  writer = record { kind = block_write_timed ms_timeout; syncs = s } ∷ []
