-- ===== src/Decorators/Deadlock.antt =====
-- What the capacity of 0 that a `RingQueue` reports does to the classes that wait for room.
use shovel_server.Base.{
  ℕ, ◌≡◌, refl, ◌∙◌, inl, inr, true, false, some, List, [], ◌∷◌, arith, Option-cases,
}
use shovel_server.Ring
use shovel_server.Ring.{RingQueue, Op, Reply, init, run}
use shovel_server.Ring.Capacity.{capacity-run_from, capacity-run}
use shovel_server.Decorators.{
  Syncs, block_write, Decorator, World, waits, put, put_by, wait_while, is_full, capacity, disturb,
  contains, lock, wait_function_put, resume, lock_free, >>=_returns, >>=_waits,
}

capacity-ring : (ds : List Decorator) (q : RingQueue) → capacity ds q ≡ Ring.capacity q
unfolding capacity
capacity-ring [] q = refl
capacity-ring (d ∷ ds) q = capacity-ring ds q

pub always_full : (ds : List Decorator) (q : RingQueue) → Ring.capacity q ≡ 0 → is_full ds q ≡ true
always_full ds q h = let e : capacity ds q ≡ 0 = capacity-ring ds q ∙ h in ground arith

capacity-disturb : (q : RingQueue) (ops : List Op) → Ring.capacity (disturb q ops) ≡ Ring.capacity q
unfolding disturb
capacity-disturb q ops = elim (Option-cases (run q ops)) [
  | inl e ↦ rw (e, disturb)
  | inr ((rs, q'), e) ↦ rw (e, disturb) (capacity-run_from ops q {rs = rs} e)
]

-- Waiting for room ends with the wake-ups, never with room.
wait_while-stuck :
    (ds : List Decorator) (wakeups : List (List Op)) (q : RingQueue)
    → Ring.capacity q ≡ 0
    → (q' : RingQueue) × (wait_while (is_full ds) wakeups q ≡ inl q')
unfolding wait_while
wait_while-stuck ds [] q h = rw (always_full ds q h, wait_while) (q, refl)
wait_while-stuck ds (ops ∷ rest) q h =
    rw (always_full ds q h, wait_while)
      (wait_while-stuck ds rest (disturb q ops) (capacity-disturb q ops ∙ h))

waits_for_room :
    (ds : List Decorator) (w : World)
    → Ring.capacity w.ring ≡ 0
    → (w' : World) × (wait_function_put ds w ≡ waits w')
unfolding wait_function_put
waits_for_room ds w h =
    let (q', e) = wait_while-stuck ds w.wakeups w.ring h in
    (record w { ring = q'; wakeups = [] }, rw (e, resume))

blocked_put :
    (s : Syncs) (ds : List Decorator) (buf : List ℕ) (n : ℕ) (w : World)
    → Ring.capacity w.ring ≡ 0
    → contains s.mutex w.held ≡ false
    → (w' : World) × (put (record { kind = block_write; syncs = s } ∷ ds) buf n w ≡ waits w')
unfolding put put_by
blocked_put s ds buf n w h free =
    let w₁ : World = record w { held = s.mutex ∷ w.held } in
    let (w', e) = waits_for_room ds w₁ h in
    (
      w',
      >>=_returns (lock s.mutex) _ w tt w₁ (lock_free s.mutex w free)
          ∙ >>=_waits (wait_function_put ds) _ w₁ w' e,
    )

-- Over a ring that was constructed with any count and has served any calls, `put` of
-- `RQ_BlockWriteDecorator` never returns: it waits however often it is woken, whatever other threads
-- do meanwhile, and also when the ring is empty.
pub block_write_never_returns :
    (count cell_size : ℕ) (ops : List Op) (rs : List Reply) (s : Syncs) (ds : List Decorator)
    (buf : List ℕ) (n : ℕ) (w : World)
    → run (init count cell_size) ops ≡ some (rs, w.ring)
    → contains s.mutex w.held ≡ false
    → (w' : World) × (put (record { kind = block_write; syncs = s } ∷ ds) buf n w ≡ waits w')
block_write_never_returns count cell_size ops rs s ds buf n w e free =
    blocked_put s ds buf n w (capacity-run count cell_size ops e) free
