-- ===== src/Ring/Refine.antt =====
-- The ring of src/containers/RingQueue.cpp implements the queue of `Ring.Fifo`.
use shovel_server.Base.{
  ℕ, ◌^◌, ◌≤◌, ◌<◌, min, ◌≡◌, refl, subst, inl, inr, some, List, [], ◌∷◌, arith, ltb, ltb→lt,
  lt→ltb, le→ltb, ne→==, Bool-cases, Option-cases, length, get_elem?, take, All, get_elem?-lt,
  length-replicate, memcpy,
}
use shovel_server.Ring.{
  RingQueue, Op, put_op, get_op, peek_op, ok, full, empty, set_status, reset_status, init, put, get,
  peek, step, run,
}
use shovel_server.Ring.Cell
use shovel_server.Ring.Cell.{Bag, payload, payload-put, get_lem, peek-get}
use shovel_server.Ring.Fifo
use shovel_server.Ring.Inv.{Represents}
use shovel_server.Ring.Holding.{
  set_status-Represents, stored, taken, stored-Represents, taken-Represents,
}

-- The sizes that a caller may pass: a uint16_t within its buffer.
abbrev pub IsFit : Op → Type 0
IsFit (put_op buf n) = (n ≤ length buf) × (n < 2 ^ 16)
IsFit (get_op buf n) = (n ≤ length buf) × (n < 2 ^ 16)
IsFit (peek_op buf n) = (n ≤ length buf) × (n < 2 ^ 16)

-- What one call does to the ring and to the list of messages it holds.
abbrev pub Refines : RingQueue → List (List ℕ) → Op → Type 0
Refines q ms op =
    let (reply, ms') = Fifo.step q.total_count ms op in
    (q' : RingQueue) × (step q op ≡ some (reply, q'))
    × Represents q' ms'
    × (q'.total_count ≡ q.total_count)

put_room :
    (q : RingQueue) (b : Bag) (buf : List ℕ) (n : ℕ)
    → q.base.size < q.total_count
    → get_elem? q.ring_vector q.index_in ≡ some b
    → n ≤ length buf
    → n < 2 ^ 16
    → put q buf n ≡ some (n, stored q (Cell.put b buf n).1)
unfolding put
put_room q b buf n room e fits small =
    rw (lt→ltb q.base.size q.total_count room, e, (payload-put b buf n fits).0) (ground arith)

put_no_room :
    (q : RingQueue) (buf : List ℕ) (n : ℕ)
    → q.total_count ≤ q.base.size
    → put q buf n ≡ some (0, set_status q full)
unfolding put
put_no_room q buf n h = rw (le→ltb q.base.size q.total_count h)

put-Refines :
    (q : RingQueue) (ms : List (List ℕ)) (buf : List ℕ) (n : ℕ)
    → Represents q ms
    → n ≤ length buf
    → n < 2 ^ 16
    → Refines q ms (put_op buf n)
unfolding step Fifo.step
put-Refines q ms buf n r fits small = elim (Bool-cases (ltb (length ms) q.total_count)) [
  | inl room ↦
      let (b, e) =
        get_elem?-lt q.ring_vector q.index_in
          (omega (arith, r.in_range, r.cells_count, ltb→lt (length ms) q.total_count room)) in
      rw
        (
          room,
          put_room q b buf n (omega (arith, r.counted, ltb→lt (length ms) q.total_count room)) e
              fits small,
        )
        (
          stored q (Cell.put b buf n).1,
          refl,
          stored-Represents q ms r (Cell.put b buf n).1 (take n buf)
              (ltb→lt (length ms) q.total_count room) (payload-put b buf n fits).1,
          refl,
        )
  | inr no_room ↦
      let fact : q.total_count ≤ length ms = ground arith in
      rw (no_room, put_no_room q buf n (omega (arith, r.counted, fact)))
        (set_status q full, refl, set_status-Represents q ms full r, refl)
]

-- An empty queue gives nothing, and reports it.
get_nothing :
    (q : RingQueue) (buf : List ℕ) (n : ℕ)
    → q.base.size ≡ 0
    → (get q buf n ≡ some (0, buf, set_status q empty))
      × (peek q buf n ≡ some (0, buf, set_status q empty))
unfolding get peek
get_nothing q buf n h = (rw h, rw h)

module _ (q : RingQueue) (m : List ℕ) (ms : List (List ℕ)) (r : Represents q (m ∷ ms)) where
  oldest : (b : Bag) × (get_elem? q.ring_vector q.index_out ≡ some b) × (payload b ≡ some m)
  oldest = elim (Option-cases (get_elem? q.ring_vector q.index_out)) [
    | inl e ↦ ground (arith, r.held)
    | inr (b, e) ↦ (b, e, ground (arith, r.held))
  ]

  get_oldest :
      (b : Bag) (buf : List ℕ) (n : ℕ)
      → get_elem? q.ring_vector q.index_out ≡ some b
      → payload b ≡ some m
      → n < 2 ^ 16
      → get q buf n
        ≡ some (min n (length m), memcpy buf m (min n (length m)), taken q (Cell.get b buf n).2)
  unfolding get
  get_oldest b buf n e p small =
      rw
        (
          ne→== q.base.size 0 (omega (arith, r.counted)),
          e,
          (get_lem b m buf n p).0,
          (get_lem b m buf n p).1,
        )
        (ground arith)

  peek_oldest :
      (b : Bag) (buf : List ℕ) (n : ℕ)
      → get_elem? q.ring_vector q.index_out ≡ some b
      → payload b ≡ some m
      → n < 2 ^ 16
      → peek q buf n ≡ some (min n (length m), memcpy buf m (min n (length m)), reset_status q)
  unfolding peek
  peek_oldest b buf n e p small =
      rw
        (
          ne→== q.base.size 0 (omega (arith, r.counted)),
          e,
          (peek-get b buf n).0,
          (peek-get b buf n).1,
          (get_lem b m buf n p).0,
          (get_lem b m buf n p).1,
        )
        (ground arith)

  get-Refines : (buf : List ℕ) (n : ℕ) → n < 2 ^ 16 → Refines q (m ∷ ms) (get_op buf n)
  unfolding step Fifo.step
  get-Refines buf n small =
      let (b, e, p) = oldest in
      rw (get_oldest b buf n e p small)
        (taken q (Cell.get b buf n).2, refl, taken-Represents q m ms r (Cell.get b buf n).2, refl)

  peek-Refines : (buf : List ℕ) (n : ℕ) → n < 2 ^ 16 → Refines q (m ∷ ms) (peek_op buf n)
  unfolding step Fifo.step
  peek-Refines buf n small =
      let (b, e, p) = oldest in
      rw (peek_oldest b buf n e p small)
        (reset_status q, refl, set_status-Represents q (m ∷ ms) ok r, refl)

-- `get` of a queue that holds no message, and of one that does, by itself.
pub get_none :
    (q : RingQueue) (buf : List ℕ) (n : ℕ)
    → Represents q []
    → (q' : RingQueue) × (get q buf n ≡ some (0, buf, q'))
      × Represents q' []
      × (q'.total_count ≡ q.total_count)
get_none q buf n r = (
  set_status q empty,
  (get_nothing q buf n r.counted).0,
  set_status-Represents q [] empty r,
  refl,
)

pub get_message :
    (q : RingQueue) (m : List ℕ) (ms : List (List ℕ)) (buf : List ℕ) (n : ℕ)
    → Represents q (m ∷ ms)
    → n < 2 ^ 16
    → (q' : RingQueue) × (get q buf n
        ≡ some (min n (length m), memcpy buf m (min n (length m)), q'))
      × Represents q' ms
      × (q'.total_count ≡ q.total_count)
get_message q m ms buf n r small =
    let (b, e, p) = oldest q m ms r in
    (
      taken q (Cell.get b buf n).2,
      get_oldest q m ms r b buf n e p small,
      taken-Represents q m ms r (Cell.get b buf n).2,
      refl,
    )

pub peek_message :
    (q : RingQueue) (m : List ℕ) (ms : List (List ℕ)) (buf : List ℕ) (n : ℕ)
    → Represents q (m ∷ ms)
    → n < 2 ^ 16
    → (q' : RingQueue) × (peek q buf n
        ≡ some (min n (length m), memcpy buf m (min n (length m)), q'))
      × Represents q' (m ∷ ms)
peek_message q m ms buf n r small =
    let (b, e, p) = oldest q m ms r in
    (reset_status q, peek_oldest q m ms r b buf n e p small, set_status-Represents q (m ∷ ms) ok r)

nothing-Refines :
    (q : RingQueue) (buf : List ℕ) (n : ℕ)
    → Represents q []
    → Refines q [] (get_op buf n) × Refines q [] (peek_op buf n)
unfolding step Fifo.step
nothing-Refines q buf n r =
    let (got, peeked) = get_nothing q buf n r.counted in
    (
      rw got (set_status q empty, refl, set_status-Represents q [] empty r, refl),
      rw peeked (set_status q empty, refl, set_status-Represents q [] empty r, refl),
    )

-- Every call of a client does on a ring that holds `ms` what it does on the list `ms` itself: the
-- same result, buffer and status, no exception, and a ring that holds the messages afterwards.
pub step-Refines :
    (q : RingQueue) (ms : List (List ℕ)) (op : Op) → Represents q ms → IsFit op → Refines q ms op
step-Refines q ms (put_op buf n) r f = put-Refines q ms buf n r f.0 f.1
step-Refines q [] (get_op buf n) r f = (nothing-Refines q buf n r).0
step-Refines q (m ∷ ms) (get_op buf n) r f = get-Refines q m ms r buf n f.1
step-Refines q [] (peek_op buf n) r f = (nothing-Refines q buf n r).1
step-Refines q (m ∷ ms) (peek_op buf n) r f = peek-Refines q m ms r buf n f.1

pub init-Represents : (count cell_size : ℕ) → count < 2 ^ 32 → Represents (init count cell_size) []
unfolding init
init-Represents count cell_size small = record {
  cells_count = length-replicate count (Cell.init cell_size);
  small = small;
  counted = refl;
  bounded = omega arith;
  in_range = omega arith;
  out_range = omega arith;
  distance = omega arith;
  held = tt;
}

-- The same for any name of the ring's count, which no call changes.
pub step_refines_at :
    (op : Op) (count : ℕ) (q : RingQueue) (ms : List (List ℕ))
    → q.total_count ≡ count
    → Represents q ms
    → IsFit op
    → let (reply, ms') = Fifo.step count ms op in
      (q' : RingQueue) × (step q op ≡ some (reply, q'))
      × Represents q' ms'
      × (q'.total_count ≡ count)
step_refines_at op count q ms h r f =
    subst
      (λ k.
        (q' : RingQueue) × (step q op ≡ some ((Fifo.step k ms op).0, q'))
        × Represents q' (Fifo.step k ms op).1
        × (q'.total_count ≡ k))
      h (step-Refines q ms op r f)

pub run_refines_at :
    (ops : List Op) (count : ℕ) (q : RingQueue) (ms : List (List ℕ))
    → q.total_count ≡ count
    → Represents q ms
    → All IsFit ops
    → let (replies, ms') = Fifo.run count ms ops in
      (q' : RingQueue) × (run q ops ≡ some (replies, q'))
      × Represents q' ms'
      × (q'.total_count ≡ count)
unfolding run Fifo.run
run_refines_at [] count q ms h r f = (q, refl, r, h)
run_refines_at (op ∷ ops) count q ms h r (f, fs) =
    let (q', e, r', t) = step_refines_at op count q ms h r f in
    let (q'', e', r'', t') = run_refines_at ops count q' (Fifo.step count ms op).1 t r' fs in
    rw (e, e') (q'', refl, r'', t')

-- Any sequence of calls on a ring that holds `ms` gives the replies that the queue of `Ring.Fifo`
-- gives from `ms`, with no exception, and leaves the ring with the messages that are left there.
pub run_refines :
    (ops : List Op) (q : RingQueue) (ms : List (List ℕ))
    → Represents q ms
    → All IsFit ops
    → let (replies, ms') = Fifo.run q.total_count ms ops in
      (q' : RingQueue) × (run q ops ≡ some (replies, q')) × Represents q' ms'
run_refines ops q ms r f =
    let (q', e, r', t) = run_refines_at ops q.total_count q ms refl r f in (q', e, r')
