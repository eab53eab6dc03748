-- ===== src/Decorators/Reading.antt =====
-- What the classes that wait for data do over a ring that holds messages.
use shovel_server.Base.{
  ℕ, ◌<◌, ◌≡◌, refl, sym, ◌∙◌, ◌⊎◌, inl, inr, Bool, true, false, List, [], ◌∷◌, arith, Bool-cases,
}
use shovel_server.Ring
use shovel_server.Ring.{RingQueue, Op}
use shovel_server.Decorators.{
  Syncs, Decorator, World, returns, waits, resume, get, get_by, is_empty, wait_while, wait_once,
  disturb, size, block_read, contains, wait_function_get, wait_function_get_timed, locked_returns,
  locked_waits, notifying,
}

size-ring : (ds : List Decorator) (q : RingQueue) → size ds q ≡ Ring.size q
unfolding size
size-ring [] q = refl
size-ring (d ∷ ds) q = size-ring ds q

wait_while-ready :
    (blocked : RingQueue → Bool) (wakeups : List (List Op)) (q : RingQueue)
    → blocked q ≡ false
    → (wait_while blocked wakeups q ≡ inr (q, wakeups))
      × (wait_once blocked wakeups q ≡ inr (q, wakeups))
unfolding wait_while wait_once
wait_while-ready blocked [] q e = (rw e, rw e)
wait_while-ready blocked (ops ∷ rest) q e = (rw (e, wait_while), rw e)

-- There is no wait while the ring holds a message.
pub wait_get_ready :
    (ds : List Decorator) (w : World) (ms : ℕ)
    → 0 < Ring.size w.ring
    → (wait_function_get ds w ≡ returns tt w) × (wait_function_get_timed ds ms w ≡ returns tt w)
unfolding wait_function_get wait_function_get_timed
wait_get_ready ds w ms h =
    let e : is_empty ds w.ring ≡ false = ground (arith, size-ring ds w.ring) in
    let (always, once) = wait_while-ready (is_empty ds) w.wakeups w.ring e in
    (rw (always, resume), rw (once, resume))

-- With no wake-up to come it waits while the ring is empty.
pub wait_get_empty :
    (ds : List Decorator) (w : World) (ms : ℕ)
    → Ring.size w.ring ≡ 0
    → w.wakeups ≡ []
    → (wait_function_get ds w ≡ waits w) × (wait_function_get_timed ds ms w ≡ waits w)
unfolding wait_function_get wait_function_get_timed wait_while wait_once
wait_get_empty ds w ms h none_left =
    let e : is_empty ds w.ring ≡ true = ground (arith, size-ring ds w.ring) in
    (rw (none_left, e) refl, rw (none_left, e) refl)

-- Where a wait ends, it does so over a ring that no longer blocks, and it would not wait there.
wait_while-ends :
    (blocked : RingQueue → Bool) (wakeups : List (List Op)) (q : RingQueue)
    → ((q' : RingQueue) × (wait_while blocked wakeups q ≡ inl q'))
      ⊎ ((q' : RingQueue) × (rest : List (List Op)) × (wait_while blocked wakeups q
            ≡ inr (q', rest))
          × (blocked q' ≡ false))
unfolding wait_while
wait_while-ends blocked [] q = elim (Bool-cases (blocked q)) [
  | inl e ↦ inl (q, rw e)
  | inr e ↦ inr (q, [], rw e, e)
]
wait_while-ends blocked (ops ∷ rest) q = elim (Bool-cases (blocked q)) [
  | inl e ↦ rw (e, wait_while) (wait_while-ends blocked rest (disturb q ops))
  | inr e ↦ inr (q, ops ∷ rest, rw (e, wait_while), e)
]

module _ (s : Syncs) (ds : List Decorator) (buf : List ℕ) (n : ℕ) where
  abbrev reader : List Decorator
  reader = record { kind = block_read; syncs = s } ∷ ds

  -- `get` of `RQ_BlockReadDecorator` either waits until the wake-ups are used up, or it does what it
  -- does when it is called over a ring that holds a message.
  pub block_read_waits_for_data :
      (w : World)
      → contains s.mutex w.held ≡ false
      → ((w' : World) × (get reader buf n w ≡ waits w'))
        ⊎ ((q : RingQueue) × (rest : List (List Op)) × (0 < Ring.size q)
            × (get reader buf n w ≡ get reader buf n (record w { ring = q; wakeups = rest })))
  unfolding get get_by wait_function_get
  block_read_waits_for_data w free = elim (wait_while-ends (is_empty ds) w.wakeups w.ring) [
    | inl (q', e) ↦ inl (
      record w { ring = q'; wakeups = []; held = s.mutex ∷ w.held },
      locked_waits s.mutex (wait_function_get ds) (notifying s.condition_full (get ds buf n)) w _
          free (rw (e, resume)),
    )
    | inr (q', rest, e, r) ↦ inr (
      q',
      rest,
      ground (arith, size-ring ds q'),
      locked_returns s.mutex (wait_function_get ds) (notifying s.condition_full (get ds buf n)) w
            (record w { ring = q'; wakeups = rest; held = s.mutex ∷ w.held }) free (rw (e, resume))
          ∙ sym (
              locked_returns s.mutex (wait_function_get ds)
                (notifying s.condition_full (get ds buf n)) (record w { ring = q'; wakeups = rest })
                (record w { ring = q'; wakeups = rest; held = s.mutex ∷ w.held }) free
                (rw ((wait_while-ready (is_empty ds) rest q' r).0, resume))),
    )
  ]
