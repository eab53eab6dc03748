-- ===== src/Subprocess.antt =====
-- src/subprocesses/abstract_subprocess/AbstractSubprocess.h and AbstractSubprocess.cpp: the queues of
-- a subprocess, and the loop that takes datagrams from the one for reading. What other threads do to
-- the queue between two calls of the loop is a list of calls. Both subclasses, in instance_subprocess_1
-- and instance_subprocess_2, only print the size of a datagram. The names of the process and of the
-- paths are left out.
pub mod Plan
pub mod Draining
pub mod Looping
pub mod Leaving
pub mod Instance
pub mod Starving
mod Tests
use shovel_server.Base.{ℕ, true, false, List, [], ◌∷◌, ◌++◌, ltb, ◌==◌}
use shovel_server.SizedArray.{SizedArray, resize, array_size, contents}
use shovel_server.Ring
use shovel_server.Ring.{RingQueue, Op}
use shovel_server.Decorators
use shovel_server.Decorators.{
  Decorator, wrap, block_write, block_write_timed, no_block_read, World, returns, Outcome, disturb,
}

abbrev pub queue_count_bags : ℕ
queue_count_bags = 128

-- The constructor's two queues: their classes, and the ring under each.
unfoldable pub q_for_reading_from_source : List Decorator
unfolding wrap
q_for_reading_from_source = wrap 1 no_block_read (wrap 0 block_write [])

unfoldable pub q_for_writing_to_source : List Decorator
unfolding wrap
q_for_writing_to_source = wrap 3 no_block_read (wrap 2 (block_write_timed 1000) [])

unfoldable pub new_ring : RingQueue
new_ring = Ring.init queue_count_bags array_size

-- The ring of the queue for reading, the array of the loop, and what was given to
-- datagram_processor, in order.
pub record Subprocess : Type 0 where
  pub ring : RingQueue
  pub arr : SizedArray
  pub processed : List (List ℕ)

-- get_queue_for_reading_data_from_source()->get(arr->data(), arr->size()), in the loop's thread.
unfoldable pub get_datagram : Subprocess → Outcome (ℕ × List ℕ)
unfolding q_for_reading_from_source Decorators.get
get_datagram s =
    Decorators.get q_for_reading_from_source s.arr.elements array_size
      (record { ring = s.ring; wakeups = []; held = []; notified = [] })

-- The inner loop has found the queue empty, or would go on; or a call has failed.
pub data Drained : Type 0 where
  drained draining : Subprocess → Drained
  fails : Drained

unfoldable pub meanwhile : Subprocess → List Op → Subprocess
unfolding disturb
meanwhile s ops = record s { ring = disturb s.ring ops }

-- arr->resize(got_size); datagram_processor(arr);
unfoldable pub process : Subprocess → RingQueue → ℕ → List ℕ → Subprocess
unfolding resize
process s ring got_size buf =
    let arr = resize array_size (record (s.arr) { elements = buf }) got_size in
    record { ring = ring; arr = arr; processed = s.processed ++ contents arr ∷ [] }

-- while (got_size > 0) …: a call of `get` a round, after what others do.
unfoldable pub drain : List (List Op) → Subprocess → Drained
unfolding get_datagram meanwhile process
drain [] s = draining s
drain (ops ∷ rest) s = elim (get_datagram (meanwhile s ops)) [
  | returns (got_size, buf) w ↦ elim (got_size == 0) [
    | true ↦ drained (record s { ring = w.ring; arr = record (s.arr) { elements = buf } })
    | false ↦ drain rest (process s w.ring got_size buf)
  ]
  | _ ↦ fails
]

-- One round of `loop`: the size of the queue, and the inner loop if it is not 0.
unfoldable pub loop_round : List Op → List (List Op) → Subprocess → Drained
unfolding drain
loop_round before gets s =
    let s' = meanwhile s before in
    elim (Decorators.size q_for_reading_from_source s'.ring == 0) [
      | true ↦ drained s'
      | false ↦ drain gets s'
    ]

-- A round of the loop: what getppid answers at its head, and what others do to the queue before its size
-- is read and before each `get`.
pub record Round : Type 0 where
  pub parent : ℕ
  pub before : List Op
  pub gets : List (List Op)

-- The process has ended by exit(0), or the rounds are over, or the inner loop would go on; or a call has
-- failed.
pub data Looped : Type 0 where
  exits goes_on stays : Subprocess → Looped
  breaks : Looped

abbrev pub after_round : (Subprocess → Looped) → Drained → Looped
after_round next (drained s) = next s
after_round next (draining s) = stays s
after_round next fails = breaks

-- AbstractSubprocess::loop.
unfoldable pub loop : List Round → Subprocess → Looped
unfolding loop_round
loop [] s = goes_on s
loop (r ∷ rest) s = elim (ltb r.parent 2) [
  | true ↦ exits s
  | false ↦ after_round (loop rest) (loop_round r.before r.gets s)
]

-- The constructor's ring, with an array that holds nothing and nothing processed.
unfoldable pub init : SizedArray → Subprocess
unfolding new_ring
init arr = record { ring = new_ring; arr = arr; processed = [] }
