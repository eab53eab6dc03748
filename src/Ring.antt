-- ===== src/Ring.antt =====
-- src/containers/RingQueue.h and RingQueue.cpp over src/containers/QueueBase.h and QueueBase.cpp:
-- a bounded ring of byte cells.
-- A method returns its result beside the new state; `get` and `peek` also return the caller's
-- buffer as it is afterwards. `none` is the exception `std::out_of_range` of `vector::at`.
-- uint32_t counters wrap by `% 2 ^ 32`, and a uint16_t result is `% 2 ^ 16`.
pub mod Cell
pub mod Fifo
pub mod Inv
pub mod Holding
pub mod Refine
pub mod Capacity
pub mod Observe
pub mod View
pub mod Spsc
mod Main
mod Tests
use shovel_server.Base.{
  ℕ, Option, none, some, List, [], ◌∷◌, ltb, ◌==◌, if◌then◌else◌, get_elem?, set, replicate,
  to_uint16, increment, decrement,
}
use Cell.{Bag}

-- QueueBase::QUEUEBASE_STATUS
pub data Status : Type 0 where
  ok full empty : Status

-- The members of `QueueBase`.
pub record QueueBase : Type 0 where
  pub total_count : ℕ
  pub size : ℕ
  pub status : Status

-- QueueBase::QueueBase
abbrev pub queue_base : QueueBase
queue_base = record { total_count = 0; size = 0; status = ok }

-- The members of `RingQueue`. Its `total_count` hides the one of its base class.
pub record RingQueue : Type 0 where
  pub base : QueueBase
  pub index_in : ℕ
  pub index_out : ℕ
  pub ring_vector : List Bag
  pub total_count : ℕ

-- The methods that `RingQueue` inherits.
unfoldable pub get_status : RingQueue → Status
get_status q = q.base.status

unfoldable pub size : RingQueue → ℕ
size q = q.base.size

unfoldable pub capacity : RingQueue → ℕ
capacity q = q.base.total_count

abbrev pub set_status : RingQueue → Status → RingQueue
set_status q s = record q {
  base = record { total_count = q.base.total_count; size = q.base.size; status = s };
}

abbrev pub reset_status : RingQueue → RingQueue
reset_status q = set_status q ok

abbrev pub set_size : RingQueue → ℕ → RingQueue
set_size q n = record q {
  base = record { total_count = q.base.total_count; size = n; status = q.base.status };
}

-- RingQueue::RingQueue(count, cell_size)
unfoldable pub init : ℕ → ℕ → RingQueue
unfolding Cell.init
init count cell_size = record {
  base = queue_base;
  index_in = 0;
  index_out = 0;
  ring_vector = replicate count (Cell.init cell_size);
  total_count = count;
}

-- index++; if (index == m_total_count) index = 0;
abbrev pub advance : ℕ → ℕ → ℕ
advance total i = let next = increment i in if next == total then 0 else next

infixl 5 ◌>>=◌
abbrev ◌>>=◌ {ℓ κ} : {A : Type ℓ} {B : Type κ} → Option A → (A → Option B) → Option B
none >>= f = none
some a >>= f = f a

put_cell : RingQueue → List ℕ → ℕ → Option (ℕ × RingQueue)
put_cell q buf n = do
  b ← get_elem? q.ring_vector q.index_in
  let (put_size, b') = Cell.put b buf n
  some (
    to_uint16 put_size,
    set_size
        (record q {
          ring_vector = set q.ring_vector q.index_in b';
          index_in = advance q.total_count q.index_in;
        })
        (increment q.base.size),
  )

-- The result and the queue afterwards.
unfoldable pub put : RingQueue → List ℕ → ℕ → Option (ℕ × RingQueue)
unfolding put_cell
put q buf n =
    if ltb q.base.size q.total_count
    then put_cell (reset_status q) buf n
    else some (0, set_status q full)

get_cell : RingQueue → List ℕ → ℕ → Option (ℕ × List ℕ × RingQueue)
get_cell q buf n = do
  b ← get_elem? q.ring_vector q.index_out
  let (got_size, buf', b') = Cell.get b buf n
  some (
    to_uint16 got_size,
    buf',
    set_size
        (record q {
          ring_vector = set q.ring_vector q.index_out b';
          index_out = advance q.total_count q.index_out;
        })
        (decrement q.base.size),
  )

-- The result, the caller's buffer and the queue afterwards.
unfoldable pub get : RingQueue → List ℕ → ℕ → Option (ℕ × List ℕ × RingQueue)
unfolding get_cell
get q buf n =
    if q.base.size == 0 then some (0, buf, set_status q empty) else get_cell (reset_status q) buf n

peek_cell : RingQueue → List ℕ → ℕ → Option (ℕ × List ℕ × RingQueue)
peek_cell q buf n = do
  b ← get_elem? q.ring_vector q.index_out
  let (got_size, buf') = Cell.peek b buf n
  some (to_uint16 got_size, buf', q)

unfoldable pub peek : RingQueue → List ℕ → ℕ → Option (ℕ × List ℕ × RingQueue)
unfolding peek_cell
peek q buf n =
    if q.base.size == 0 then some (0, buf, set_status q empty) else peek_cell (reset_status q) buf n

-- A call of a client, with its buffer and its size.
pub data Op : Type 0 where
  put_op get_op peek_op : List ℕ → ℕ → Op

-- What the client sees of a call: the result, its buffer and the queue's status afterwards.
abbrev pub Reply : Type 0
Reply = ℕ × List ℕ × Status

unfoldable pub step : RingQueue → Op → Option (Reply × RingQueue)
step q (put_op buf n) = do (r, q') ← put q buf n; some ((r, buf, q'.base.status), q')
step q (get_op buf n) = do (r, buf', q') ← get q buf n; some ((r, buf', q'.base.status), q')
step q (peek_op buf n) = do (r, buf', q') ← peek q buf n; some ((r, buf', q'.base.status), q')

unfoldable pub run : RingQueue → List Op → Option (List Reply × RingQueue)
run q [] = some ([], q)
run q (op ∷ ops) = do (r, q') ← step q op; (rs, q'') ← run q' ops; some (r ∷ rs, q'')
