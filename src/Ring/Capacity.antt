-- ===== src/Ring/Capacity.antt =====
-- What `QueueBase::capacity` answers for a `RingQueue`: the constructor of src/containers/RingQueue.cpp
-- sets the member of `RingQueue` that hides the one which `capacity` reads.
use shovel_server.Base.{ℕ, ◌≡◌, inl, inr, some, List, [], ◌∷◌, arith, Option-cases, get_elem?}
use shovel_server.Ring.{
  RingQueue, Op, put_op, get_op, peek_op, Reply, capacity, init, put, get, peek, step, run,
}

base_count-put :
    (q : RingQueue) (buf : List ℕ) (n : ℕ) {x : ℕ × RingQueue}
    → put q buf n ≡ some x
    → x.1.base.total_count ≡ q.base.total_count
unfolding put
base_count-put q buf n e = ground (arith, Option-cases (get_elem? q.ring_vector q.index_in))

base_count-get :
    (q : RingQueue) (buf : List ℕ) (n : ℕ) {x : ℕ × List ℕ × RingQueue}
    → get q buf n ≡ some x
    → x.2.base.total_count ≡ q.base.total_count
unfolding get
base_count-get q buf n e = ground (arith, Option-cases (get_elem? q.ring_vector q.index_out))

base_count-peek :
    (q : RingQueue) (buf : List ℕ) (n : ℕ) {x : ℕ × List ℕ × RingQueue}
    → peek q buf n ≡ some x
    → x.2.base.total_count ≡ q.base.total_count
unfolding peek
base_count-peek q buf n e = ground (arith, Option-cases (get_elem? q.ring_vector q.index_out))

pub capacity-step :
    (q : RingQueue) (op : Op) {r : Reply} {q' : RingQueue}
    → step q op ≡ some (r, q')
    → capacity q' ≡ capacity q
unfolding step capacity
capacity-step q (put_op buf n) e = elim (Option-cases (put q buf n)) [
  | inl fails ↦ ground arith
  | inr (x, h) ↦ ground (arith, base_count-put q buf n {x = x} h)
]
capacity-step q (get_op buf n) e = elim (Option-cases (get q buf n)) [
  | inl fails ↦ ground arith
  | inr (x, h) ↦ ground (arith, base_count-get q buf n {x = x} h)
]
capacity-step q (peek_op buf n) e = elim (Option-cases (peek q buf n)) [
  | inl fails ↦ ground arith
  | inr (x, h) ↦ ground (arith, base_count-peek q buf n {x = x} h)
]

pub capacity-run_from :
    (ops : List Op) (q : RingQueue) {rs : List Reply} {q' : RingQueue}
    → run q ops ≡ some (rs, q')
    → capacity q' ≡ capacity q
unfolding run
capacity-run_from [] q e = ground arith
capacity-run_from (op ∷ ops) q e = elim (Option-cases (step q op)) [
  | inl fails ↦ ground arith
  | inr ((r, q₁), h) ↦ elim (Option-cases (run q₁ ops)) [
    | inl fails ↦ ground arith
    | inr ((rs₁, q₂), h₂) ↦
        ground (arith, capacity-step q op h, capacity-run_from ops q₁ {rs = rs₁} {q' = q₂} h₂)
  ]
]

-- The capacity that a constructed ring reports is 0, whatever the count it was made with, and stays
-- 0 through any calls.
pub capacity-run :
    (count cell_size : ℕ) (ops : List Op) {rs : List Reply} {q' : RingQueue}
    → run (init count cell_size) ops ≡ some (rs, q')
    → capacity q' ≡ 0
unfolding init capacity
capacity-run count cell_size ops e = capacity-run_from ops (init count cell_size) e
