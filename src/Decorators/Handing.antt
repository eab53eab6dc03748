-- ===== src/Decorators/Handing.antt =====
-- A call of `RQ_BlockReadDecorator` and `RQ_BlockReadTimedDecorator` of
-- src/containers/RingQueueBlockDecorators.cpp from its lock to its return.
use shovel_server.Base.{ℕ, min, ◌≡◌, Bool, true, false, List, [], ◌∷◌, length, memcpy}
use shovel_server.Ring
use shovel_server.Ring.{RingQueue}
use shovel_server.Ring.Inv.{Represents}
use shovel_server.Decorators.{
  Outcome, Syncs, Kind, base, block_write, no_block_write, block_write_timed, Decorator, World,
  returns, waits, locks_twice, M, ◌>>=◌, ◌>>◌, contains,
}
use shovel_server.Decorators.Nested.{LocksGet}

-- The classes whose `get` and `peek` are those of what they wrap.
pub data PassesOn : Kind → Type 0 where
  bare : PassesOn base
  writing : PassesOn block_write
  writing_at_once : PassesOn no_block_write
  writing_timed : (ms : ℕ) → PassesOn (block_write_timed ms)

abbrev pub AllPassOn : List Decorator → Type 0
AllPassOn [] = Unit
AllPassOn (d ∷ ds) = PassesOn d.kind × AllPassOn ds

module _ (s : Syncs) (ds : List Decorator) (inner : M (ℕ × List ℕ)) (w : World)
    (free : contains s.mutex w.held ≡ false) where
  abbrev locked_world : World
  locked_world = record w { held = s.mutex ∷ w.held }

-- What the two calls come to in the world `w`: stuck at a mutex that the thread holds; waiting, with the
-- mutex, over an empty ring; and over one that holds `m` first, the oldest message, cut to the caller's
-- size, which only `get` takes out, and only `get` notifies those who wait for room.
abbrev pub ReadingCalls :
    Bool
    → List (List ℕ)
    → Syncs
    → List ℕ
    → ℕ
    → World
    → Outcome (ℕ × List ℕ)
    → Outcome (ℕ × List ℕ)
    → Type 0
ReadingCalls true ms s buf n w got peeked = (got ≡ locks_twice w) × (peeked ≡ locks_twice w)
ReadingCalls false [] s buf n w got peeked =
    (got ≡ waits (record w { held = s.mutex ∷ w.held }))
    × (peeked ≡ waits (record w { held = s.mutex ∷ w.held }))
ReadingCalls false (m ∷ ms) s buf n w got peeked =
    let size = min n (length m) in
    ((q : RingQueue) × (got
        ≡ returns (size, memcpy buf m size)
            (record w { ring = q; notified = s.condition_full ∷ w.notified }))
      × Represents q ms)
    × ((q : RingQueue) × (peeked ≡ returns (size, memcpy buf m size) (record w { ring = q }))
        × Represents q (m ∷ ms))

module _ {k : Kind} (l : LocksGet k) (s : Syncs) (ds : List Decorator) (buf : List ℕ) (n : ℕ)
    (w : World) where
  abbrev reader : List Decorator
  reader = record { kind = k; syncs = s } ∷ ds
