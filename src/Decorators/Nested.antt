-- ===== src/Decorators/Nested.antt =====
-- A queue that wraps a reading class in another one: src/containers/RingQueueBlockDecorators.cpp
-- hands the outer mutex to the inner decorator, and both lock it.
use shovel_server.Base.{ℕ, ◌<◌, ◌≡◌, refl, ◌∙◌, true, false, List, ◌∷◌, ==_iff}
use shovel_server.Ring
use shovel_server.Decorators.{
  Syncs, Kind, block_read, block_read_timed, Decorator, World, locks_twice, M, get, get_by, wrap,
  set_syncs, fresh_syncs, notifying, contains, lock, wait_function_get, wait_function_get_timed,
  lock_free, lock_held, >>=_returns, >>=_locks_twice,
}
use shovel_server.Decorators.Reading.{wait_get_ready}

-- The classes whose `get` locks.
pub data LocksGet : Kind → Type 0 where
  always : LocksGet block_read
  timed : (ms : ℕ) → LocksGet (block_read_timed ms)

pub get_by_held :
    {k : Kind} (l : LocksGet k) (s : Syncs) (ds : List Decorator) (inner : M (ℕ × List ℕ))
    (w : World)
    → contains s.mutex w.held ≡ true
    → get_by (record { kind = k; syncs = s }) ds inner w ≡ locks_twice w
unfolding get_by
get_by_held always s ds inner w h = >>=_locks_twice (lock s.mutex) _ w w (lock_held s.mutex w h)
get_by_held (timed ms) s ds inner w h = >>=_locks_twice (lock s.mutex) _ w w (lock_held s.mutex w h)

module _ (s : Syncs) (ds : List Decorator) (inner : M (ℕ × List ℕ)) (w w' : World) where
  get_by_ready :
      {k : Kind} (l : LocksGet k)
      → contains s.mutex w.held ≡ false
      → 0 < Ring.size w.ring
      → inner (record w { held = s.mutex ∷ w.held }) ≡ locks_twice w'
      → get_by (record { kind = k; syncs = s }) ds inner w ≡ locks_twice w'
  unfolding get_by
  get_by_ready always h ready e =
      let w₁ : World = record w { held = s.mutex ∷ w.held } in
      >>=_returns (lock s.mutex) _ w tt w₁ (lock_free s.mutex w h)
      ∙ >>=_returns (wait_function_get ds) _ w₁ tt w₁ (wait_get_ready ds w₁ 0 ready).0
      ∙ >>=_locks_twice (notifying s.condition_full inner) _ w₁ w' (>>=_locks_twice inner _ w₁ w' e)
  get_by_ready (timed ms) h ready e =
      let w₁ : World = record w { held = s.mutex ∷ w.held } in
      >>=_returns (lock s.mutex) _ w tt w₁ (lock_free s.mutex w h)
      ∙ >>=_returns (wait_function_get_timed ds ms) _ w₁ tt w₁ (wait_get_ready ds w₁ ms ready).1
      ∙ >>=_locks_twice (notifying s.condition_full inner) _ w₁ w' (>>=_locks_twice inner _ w₁ w' e)

-- A reading class around another one, over a queue that is not empty: `get` locks the mutex that
-- both share twice, and is stuck.
pub nested_reading_locks_twice :
    {k k' : Kind} (l : LocksGet k) (l' : LocksGet k') (i j : ℕ) (ds : List Decorator) (buf : List ℕ)
    (n : ℕ) (w : World)
    → contains i w.held ≡ false
    → 0 < Ring.size w.ring
    → get (wrap i k (wrap j k' ds)) buf n w ≡ locks_twice (record w { held = i ∷ w.held })
unfolding get wrap
nested_reading_locks_twice l l' i j ds buf n w free ready =
    get_by_ready (fresh_syncs i) _ _ w _ l free ready
      (get_by_held l' (fresh_syncs i) (set_syncs (fresh_syncs j) ds) _ _ (rw ((==_iff i i).1 refl)))
