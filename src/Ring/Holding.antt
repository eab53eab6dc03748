-- ===== src/Ring/Holding.antt =====
-- The cells of the ring of src/containers/RingQueue.cpp after a message has gone in or out.
use shovel_server.Base.{
  ℕ, ◌+◌, ◌-◌, ◌<◌, ◌≡◌, ◌∙◌, some, List, [], ◌∷◌, ◌++◌, arith, length, set, length-append,
  length-set, get_elem?-set_self, increment, decrement,
}
use shovel_server.Ring.{RingQueue, Status, set_status, reset_status, set_size, advance}
use shovel_server.Ring.Cell.{Bag, payload}
use shovel_server.Ring.Inv.{
  payload_at, next, Holds, Represents, Holds-set, Holds-append, advance-next,
}

-- A change of the status alone.
pub set_status-Represents :
    (q : RingQueue) (ms : List (List ℕ)) (s : Status)
    → Represents q ms
    → Represents (set_status q s) ms
set_status-Represents q ms s r = record {
  cells_count = r.cells_count;
  small = r.small;
  counted = r.counted;
  bounded = r.bounded;
  in_range = r.in_range;
  out_range = r.out_range;
  distance = r.distance;
  held = r.held;
}

-- The queue after a message has gone into the cell `b'`.
abbrev pub stored : RingQueue → Bag → RingQueue
stored q b' =
    set_size
      (record (reset_status q) {
        ring_vector = set q.ring_vector q.index_in b';
        index_in = advance q.total_count q.index_in;
      })
      (increment q.base.size)

-- The queue after its oldest message has left the cell that is now `b'`.
abbrev pub taken : RingQueue → Bag → RingQueue
taken q b' =
    set_size
      (record (reset_status q) {
        ring_vector = set q.ring_vector q.index_out b';
        index_out = advance q.total_count q.index_out;
      })
      (decrement q.base.size)

module _ (q : RingQueue) (ms : List (List ℕ)) (r : Represents q ms) where
  length_one_more : (m : List ℕ) → length (ms ++ m ∷ []) ≡ length ms + 1
  length_one_more m = length-append ms (m ∷ [])

  stored-Holds :
      (b' : Bag) (m : List ℕ)
      → length ms < q.total_count
      → payload b' ≡ some m
      → Holds (set q.ring_vector q.index_in b') q.total_count q.index_out (ms ++ m ∷ [])
  stored-Holds b' m room e =
      Holds-append (set q.ring_vector q.index_in b') q.total_count m ms q.index_out q.index_in
        (omega (arith, r.out_range)) room r.distance (omega (arith, r.in_range))
        (Holds-set q.ring_vector q.total_count q.index_in b' ms q.index_out (length ms)
          (omega (arith, r.out_range)) (omega arith) room (omega (arith, r.in_range)) r.distance
          r.held)
        (rw
          (
            get_elem?-set_self q.ring_vector q.index_in b'
                (omega (arith, r.in_range, r.cells_count)),
            payload_at,
          )
          e)

  pub stored-Represents :
      (b' : Bag) (m : List ℕ)
      → length ms < q.total_count
      → payload b' ≡ some m
      → Represents (stored q b') (ms ++ m ∷ [])
  stored-Represents b' m room e = record {
    cells_count = length-set q.ring_vector q.index_in b' ∙ r.cells_count;
    small = r.small;
    counted = omega (arith, r.counted, r.small, length_one_more m);
    bounded = omega (arith, length_one_more m);
    in_range = ground (arith, r.in_range, r.small);
    out_range = r.out_range;
    distance = ground (arith, r.distance, r.in_range, r.out_range, r.small, length_one_more m);
    held = stored-Holds b' m room e;
  }

pub taken-Represents :
    (q : RingQueue) (m : List ℕ) (ms : List (List ℕ)) (r : Represents q (m ∷ ms)) (b' : Bag)
    → Represents (taken q b') ms
taken-Represents q m ms r b' = record {
  cells_count = length-set q.ring_vector q.index_out b' ∙ r.cells_count;
  small = r.small;
  counted = omega (arith, r.counted, r.small, r.bounded);
  bounded = omega (arith, r.bounded);
  in_range = r.in_range;
  out_range = ground (arith, r.out_range, r.small);
  distance = ground (arith, r.distance, r.in_range, r.out_range, r.small, r.bounded);
  held =
      rw (advance-next q.total_count q.index_out r.small (omega (arith, r.out_range, r.bounded))) (
        Holds-set q.ring_vector q.total_count q.index_out b' ms (next q.total_count q.index_out)
          (q.total_count - 1) (ground (arith, r.out_range, r.bounded)) (omega (arith, r.bounded))
          (omega (arith, r.bounded)) (omega (arith, r.out_range, r.bounded))
          (ground (arith, r.out_range, r.bounded)) (r.held.1));
}
