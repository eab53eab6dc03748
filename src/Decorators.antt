-- ===== src/Decorators.antt =====
-- src/containers/RingQueueBlockDecorators.h and RingQueueBlockDecorators.cpp: queues that wait.
-- A queue is a stack of decorators, outermost first, over one `RingQueue`. A call runs in one thread
-- over a `World`: the ring, the mutexes that the thread holds, the condition variables that it has
-- notified, and, for each time that it waits and wakes, the calls that other threads make on the
-- ring meanwhile. `wait` may wake for any reason, and `wait_for` at its timeout: both are a wake-up.
-- The milliseconds of a timeout are kept and never counted.
pub mod Monitor
pub mod Sharing
pub mod Deadlock
pub mod Timed
pub mod Reading
pub mod Nested
pub mod Handing
mod Tests
use shovel_server.Base.{
  ℕ, ◌⊎◌, inl, inr, Bool, true, false, Option, none, some, List, [], ◌∷◌, leb, if◌then◌else◌,
}
use shovel_server.Ring
use shovel_server.Ring.{RingQueue, Op, Status}
unfoldable pub use Monitor.{lock, unlock, notify_one, disturb}
pub use Monitor.{
  World, Outcome, returns, waits, locks_twice, throws, M, and_then, ◌>>=◌, ◌>>◌, return, contains,
  remove, settle, on_ring, locked, notifying, >>=_returns, >>=_waits, >>=_locks_twice, lock_free,
  lock_held, locked_returns, locked_waits, remove_first,
}

-- The classes of the header.
pub data Kind : Type 0 where
  base block_write block_read no_block_write no_block_read : Kind
  block_write_timed block_read_timed : ℕ → Kind

-- m_mutex, m_condition_full and m_condition_empty: which shared objects they point to.
pub record Syncs : Type 0 where
  pub mutex : ℕ
  pub condition_full : ℕ
  pub condition_empty : ℕ

pub record Decorator : Type 0 where
  pub kind : Kind
  pub syncs : Syncs

-- The new objects of one `make_shared` each, under one number.
abbrev pub fresh_syncs : ℕ → Syncs
fresh_syncs k = record { mutex = k; condition_full = k; condition_empty = k }

-- RingQueueBlockBaseDecorator::set_syncs, on what is wrapped, if that is a decorator.
unfoldable pub set_syncs : Syncs → List Decorator → List Decorator
set_syncs s [] = []
set_syncs s (d ∷ ds) = record d { syncs = s } ∷ ds

-- The constructors: `k` names the objects that this one makes.
unfoldable pub wrap : ℕ → Kind → List Decorator → List Decorator
unfolding set_syncs
wrap k kind inner = record { kind = kind; syncs = fresh_syncs k } ∷ set_syncs (fresh_syncs k) inner

-- `size`, `capacity` and `get_status` go down to the ring.
unfoldable pub size : List Decorator → RingQueue → ℕ
size [] q = Ring.size q
size (d ∷ ds) q = size ds q

unfoldable pub capacity : List Decorator → RingQueue → ℕ
capacity [] q = Ring.capacity q
capacity (d ∷ ds) q = capacity ds q

unfoldable pub get_status : List Decorator → RingQueue → Status
get_status [] q = Ring.get_status q
get_status (d ∷ ds) q = get_status ds q

-- while (blocked) condition->wait(lock);
-- `inl` is the ring when the wake-ups are used up, `inr` the ring and the wake-ups left.
unfoldable pub wait_while :
    (RingQueue → Bool) → List (List Op) → RingQueue → RingQueue ⊎ (RingQueue × List (List Op))
unfolding disturb
wait_while blocked [] q = if blocked q then inl q else inr (q, [])
wait_while blocked (ops ∷ rest) q = elim (blocked q) [
  | true ↦ wait_while blocked rest (disturb q ops)
  | false ↦ inr (q, ops ∷ rest)
]

-- if (blocked) condition->wait_for(lock, timeout);
unfoldable pub wait_once :
    (RingQueue → Bool) → List (List Op) → RingQueue → RingQueue ⊎ (RingQueue × List (List Op))
unfolding disturb
wait_once blocked [] q = if blocked q then inl q else inr (q, [])
wait_once blocked (ops ∷ rest) q =
    if blocked q then inr (disturb q ops, rest) else inr (q, ops ∷ rest)

abbrev pub resume : World → RingQueue ⊎ (RingQueue × List (List Op)) → Outcome (Unit {0})
resume w (inl q) = waits (record w { ring = q; wakeups = [] })
resume w (inr (q, rest)) = returns tt (record w { ring = q; wakeups = rest })

abbrev pub is_full : List Decorator → RingQueue → Bool
is_full ds q = leb (capacity ds q) (size ds q)

abbrev pub is_empty : List Decorator → RingQueue → Bool
is_empty ds q = leb (size ds q) 0

-- wait_function_put and wait_function_get of the class, over what is wrapped; `timed` has a timeout.
unfoldable pub wait_function_put : List Decorator → M (Unit {0})
unfolding wait_while
wait_function_put ds w = resume w (wait_while (is_full ds) w.wakeups w.ring)

unfoldable pub wait_function_get : List Decorator → M (Unit {0})
unfolding wait_while
wait_function_get ds w = resume w (wait_while (is_empty ds) w.wakeups w.ring)

unfoldable pub wait_function_put_timed : List Decorator → ℕ → M (Unit {0})
unfolding wait_once
wait_function_put_timed ds wait_msecs w = resume w (wait_once (is_full ds) w.wakeups w.ring)

unfoldable pub wait_function_get_timed : List Decorator → ℕ → M (Unit {0})
unfolding wait_once
wait_function_get_timed ds wait_msecs w = resume w (wait_once (is_empty ds) w.wakeups w.ring)

-- One class's `put`, over what is wrapped and the wrapped `put`.
unfoldable pub put_by : Decorator → List Decorator → M ℕ → M ℕ
unfolding lock unlock notify_one wait_function_put wait_function_put_timed
put_by d ds inner = elim d.kind [
  | block_write ↦
      locked d.syncs.mutex (wait_function_put ds) (notifying d.syncs.condition_empty inner)
  | block_write_timed ms ↦
      locked d.syncs.mutex (wait_function_put_timed ds ms) (notifying d.syncs.condition_empty inner)
  | no_block_write ↦ notifying d.syncs.condition_empty inner
  | _ ↦ inner
]

unfoldable pub put : List Decorator → List ℕ → ℕ → M ℕ
unfolding put_by
put [] buf n = on_ring (λ q. Ring.put q buf n)
put (d ∷ ds) buf n = put_by d ds (put ds buf n)

-- The result and the caller's buffer, as the ring gives them.
abbrev pub regroup : Option (ℕ × List ℕ × RingQueue) → Option ((ℕ × List ℕ) × RingQueue)
regroup none = none
regroup (some (r, buf, q)) = some ((r, buf), q)

unfoldable pub get_by : Decorator → List Decorator → M (ℕ × List ℕ) → M (ℕ × List ℕ)
unfolding lock unlock notify_one wait_function_get wait_function_get_timed
get_by d ds inner = elim d.kind [
  | block_read ↦
      locked d.syncs.mutex (wait_function_get ds) (notifying d.syncs.condition_full inner)
  | block_read_timed ms ↦
      locked d.syncs.mutex (wait_function_get_timed ds ms) (notifying d.syncs.condition_full inner)
  | no_block_read ↦ notifying d.syncs.condition_full inner
  | _ ↦ inner
]

unfoldable pub get : List Decorator → List ℕ → ℕ → M (ℕ × List ℕ)
unfolding get_by
get [] buf n = on_ring (λ q. regroup (Ring.get q buf n))
get (d ∷ ds) buf n = get_by d ds (get ds buf n)

unfoldable pub peek_by : Decorator → List Decorator → M (ℕ × List ℕ) → M (ℕ × List ℕ)
unfolding lock unlock wait_function_get wait_function_get_timed
peek_by d ds inner = elim d.kind [
  | block_read ↦ locked d.syncs.mutex (wait_function_get ds) inner
  | block_read_timed ms ↦ locked d.syncs.mutex (wait_function_get_timed ds ms) inner
  | _ ↦ inner
]

unfoldable pub peek : List Decorator → List ℕ → ℕ → M (ℕ × List ℕ)
unfolding peek_by
peek [] buf n = on_ring (λ q. regroup (Ring.peek q buf n))
peek (d ∷ ds) buf n = peek_by d ds (peek ds buf n)
